-- ===== src/Sdk/Validate.antt =====
-- `validate_message`, `validate_delta_batch` and `compute_time_bucket`. A text is data: a
-- constructor for each format, with the number that it shows.
use mercury_messaging.Base.{
  ℕ, ◌*◌, ◌<◌, ◌≡◌, ◌↔◌, arith, length, none, not, ◌&&◌, ltb, ◌==◌, if◌then◌else◌, Outcome, done,
  ok, ◌>>=◌,
}
use mercury_messaging.MessageLog.{Bytes}
use mercury_messaging.Core.Ids.{IdCrates}
use mercury_messaging.Core.Message
use mercury_messaging.Core.Message.{
  ContentType, text, image, file, reaction, edit, delete, Message, content_type_code,
  max_content_size, replies_to,
}
use mercury_messaging.Core.TimeBucket.{from_timestamp_ms, as_u32}
use mercury_messaging.Delta
use mercury_messaging.Delta.{DeltaBatch, max_deltas_per_batch}

pub data Text : Type 0 where
  empty_text content_is_empty batch_is_empty : Text
  content_size_exceeds : (size : ℕ) → Text
  batch_too_large : (count : ℕ) → Text

unfoldable pub compute_time_bucket : ℕ → Outcome ℕ
unfolding as_u32
compute_time_bucket timestamp_ms = do bucket ← from_timestamp_ms timestamp_ms; done (as_u32 bucket)

unfoldable pub validate_message : Bytes → ℕ → Text
validate_message content content_type =
    if (length content == 0) && not (content_type == 5)
    then content_is_empty
    else if ltb (256 * 1024) (length content)
    then content_size_exceeds (length content)
    else empty_text

unfoldable pub validate_delta_batch : ℕ → Text
validate_delta_batch count =
    if count == 0
    then batch_is_empty
    else if ltb max_deltas_per_batch count
    then batch_too_large count
    else empty_text

-- The SDK's check of a message agrees with the core's. For a message with a time that replies to
-- no message, the SDK answers the empty text for its content and its code exactly if the core's
-- `validate` returns `Ok`.
pub sdk_validate_message_iff :
    (c : IdCrates) (m : Message c)
    → m.reply_to ≡ none
    → 0 < m.created_at
    → (validate_message m.encrypted_content (content_type_code m.content_type) ≡ empty_text)
      ↔ (Message.validate c m ≡ done (ok tt))
unfolding validate_message content_type_code Message.validate
sdk_validate_message_iff c m h t = (λ e. ground arith, λ e. ground arith)

-- What the SDK says for a verdict on a batch.
abbrev verdict_text : ℕ → Delta.BatchValidation → Text
verdict_text count Delta.ok = empty_text
verdict_text count Delta.too_large = batch_too_large count
verdict_text count Delta.empty = batch_is_empty

-- The SDK's check of a batch by its count gives the verdict of `DeltaBatch::validate`.
pub sdk_validate_delta_batch_lem :
    (batch : DeltaBatch)
    → validate_delta_batch (length batch.deltas)
      ≡ verdict_text (length batch.deltas) (Delta.validate batch)
unfolding validate_delta_batch Delta.validate Delta.check_bounds
sdk_validate_delta_batch_lem batch = ground arith

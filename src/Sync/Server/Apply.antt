-- ===== src/Sync/Server/Apply.antt =====
-- apps/persistence/lib/persistence/sync.ex: `apply_deltas`. A field of a delta is what the decoding
-- of its text gives, `none` for a text that is missing or malformed.
use mercury_messaging.Base.{
  ℕ, ◌+◌, ◌*◌, ◌<◌, ◌≡◌, refl, arith, List, [], ◌∷◌, Bool, true, Option, none, some, ltb,
  if◌then◌else◌, get_or, length, Outcome, done, ◌>>=◌, >>=-done, Result, ok, err, All, u32_mod,
}
use mercury_messaging.MessageLog.{Bytes}
use mercury_messaging.Nif.Clock.{compute_time_bucket, compute_time_bucket_lem}
use mercury_messaging.Core.TimeBucket.{bucket_ms}
use mercury_messaging.Sync.Server.{Row}

pub data Delta : Type 0 where
  message_append :
      (message_id sender_id : Option Bytes) (content : Bytes) (content_type : ℕ)
      (hlc_wall : Option ℕ)
      → Delta
  reaction_add : (ids : Option (Bytes × Bytes)) (emoji : Bytes) → Delta
  read_position_update : (ids : Option (Bytes × Bytes × Bytes)) → Delta
  unknown : Delta

-- `:ok` or `{:error, reason}`.
pub data Written : Type 0 where
  written : Written
  failed : (reason : Bytes) → Written

-- `Enum.count` takes every value but `nil` and `false` for true.
abbrev pub truthy : Written → Bool
truthy written = true
truthy (failed reason) = true

-- The writes to ScyllaDB, a fresh id and the system time.
pub record Tables : Type 0 where
  pub write : ℕ → Row → Written
  pub update_read_position : Bytes → Bytes → Bytes → Written
  pub fresh_id : Bytes
  pub now : ℕ

-- `<<0::128>>`
abbrev pub no_sender : Bytes
no_sender = 0 ∷ 0 ∷ 0 ∷ 0 ∷ 0 ∷ 0 ∷ 0 ∷ 0 ∷ 0 ∷ 0 ∷ 0 ∷ 0 ∷ 0 ∷ 0 ∷ 0 ∷ 0 ∷ []

pub data TooLarge : Type 0 where
  too_large : TooLarge

module _ (t : Tables) where
  -- What the INSERT of a reaction gives is dropped, and so are malformed ids.
  unfoldable pub apply_single_delta : Delta → Outcome Written
  apply_single_delta (message_append message_id sender_id content content_type hlc_wall) = do
    bucket ← compute_time_bucket (get_or hlc_wall t.now)
    done (
        t.write bucket (record {
          message_id = get_or message_id t.fresh_id;
          sender_id = get_or sender_id no_sender;
          encrypted_content = content;
          content_type = content_type;
          created_at = get_or hlc_wall t.now;
        }))
  apply_single_delta (reaction_add ids emoji) = done written
  apply_single_delta (read_position_update none) = done written
  apply_single_delta (read_position_update (some (user, channel, message))) =
      done (t.update_read_position user channel message)
  apply_single_delta unknown = done written

  unfoldable pub count_applied : List Delta → Outcome ℕ
  count_applied [] = done 0
  count_applied (d ∷ ds) = do
    w ← apply_single_delta d
    n ← count_applied ds
    done (if truthy w then n + 1 else n)

  unfoldable pub apply_deltas : List Delta → Outcome (Result ℕ TooLarge)
  apply_deltas ds =
      if ltb 1000 (length ds) then done (err too_large) else count_applied ds >>= λ n. done (ok n)

  -- The time of the message has a bucket.
  abbrev pub InTime : Delta → Type 0
  InTime (message_append message_id sender_id content content_type hlc_wall) =
      get_or hlc_wall t.now < u32_mod * bucket_ms
  InTime _ = Unit

  apply_single_delta_total :
      (d : Delta) → InTime d → (w : Written) × (apply_single_delta d ≡ done w)
  unfolding apply_single_delta
  apply_single_delta_total (message_append message_id sender_id content content_type hlc_wall) h =
      >>=-done (compute_time_bucket (get_or hlc_wall t.now)) _
        (compute_time_bucket_lem (get_or hlc_wall t.now) h)
  apply_single_delta_total (reaction_add ids emoji) h = (written, refl)
  apply_single_delta_total (read_position_update none) h = (written, refl)
  apply_single_delta_total (read_position_update (some (user, channel, message))) h =
      (t.update_read_position user channel message, refl)
  apply_single_delta_total unknown h = (written, refl)

  count_applied_lem : (ds : List Delta) → All InTime ds → count_applied ds ≡ done (length ds)
  unfolding count_applied
  count_applied_lem [] h = refl
  count_applied_lem (d ∷ ds) h =
      let (w, e) = apply_single_delta_total d h.0 in rw (e, count_applied_lem ds h.1) (all_truthy w)
    where
      all_truthy :
          (w : Written)
          → done (if truthy w then length ds + 1 else length ds) ≡ done (length (d ∷ ds))
      all_truthy written = ground arith
      all_truthy (failed reason) = ground arith

  -- If the times of the messages of a batch are within the range of the buckets, the server
  -- refuses the batch when it has more than 1000 deltas, and otherwise answers that it
  -- applied all of them, also those whose write failed.
  pub apply_deltas_lem :
      (ds : List Delta)
      → All InTime ds
      → apply_deltas ds ≡ done (if ltb 1000 (length ds) then err too_large else ok (length ds))
  unfolding apply_deltas
  apply_deltas_lem ds h = rw (count_applied_lem ds h) (ground arith)

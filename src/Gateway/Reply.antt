-- ===== src/Gateway/Reply.antt =====
-- apps/gateway/lib/gateway/binary_socket.ex: how a handler of a push answers: `{:push, [frame], state}`
-- is `some frame`, and `{:ok, state}` is `none`. No handler changes the state.
use mercury_messaging.Base.{ℕ, ◌≡◌, refl, Option, none, some, Result, ok, err, codes}
use mercury_messaging.MessageLog.{Bytes}
use mercury_messaging.Gateway.Act.{
  Act, give, fetch_key, Gives, Gives-bind, Gives-then, Gives-give, Gives-raise, lasts_rules,
}
use mercury_messaging.Gateway.Socket.{reply, status_ok, status_error}

abbrev pub Answer : Type 0
Answer = Act (Option Bytes)

pub silent : Gives (λ (frame : Option Bytes). frame ≡ none) (give none)
silent = Gives-give (λ frame. frame ≡ none) none refl

module _ (ref topic_id : ℕ) where
  unfoldable pub replies : Bytes → Answer
  replies payload = give (some (reply ref topic_id status_ok payload))

  unfoldable pub refuses : Bytes → Answer
  refuses reason = give (some (reply ref topic_id status_error reason))

  -- `with {:ok, a} <- r do .. else {:error, reason} -> .. end`
  unfoldable pub or_refuse : {A : Type 0} → Result A Bytes → (A → Answer) → Answer
  or_refuse (ok a) f = f a
  or_refuse (err reason) f = refuses reason

  -- `with {:ok, {a, b, ..}} <- safe_nif_call(..)`, for a tuple of six: an error that the function
  -- returned is no such tuple, and no clause of the `else` takes it either.
  unfoldable pub with_fields : {A : Type 0} → Result (Result A Bytes) Bytes → (A → Answer) → Answer
  with_fields (ok (ok a)) f = f a
  with_fields (ok (err text)) f = fetch_key none
  with_fields (err message) f = refuses message

  -- `with {:ok, channel_id_bin} <- channel_id_to_bin(channel_id)`
  unfoldable pub with_channel : Option Bytes → (Bytes → Answer) → Answer
  with_channel none f = refuses (codes "invalid_channel_id")
  with_channel (some bin) f = f bin

  -- The answer is one reply to the push.
  abbrev pub Replies : Option Bytes → Type 0
  Replies frame =
      (status : ℕ) × (payload : Bytes) × (frame ≡ some (reply ref topic_id status payload))

  pub replies-Replies : (payload : Bytes) → Gives Replies (replies payload)
  unfolding replies
  replies-Replies payload = Gives-give Replies _ (status_ok, payload, refl)

  pub refuses-Replies : (reason : Bytes) → Gives Replies (refuses reason)
  unfolding refuses
  refuses-Replies reason = Gives-give Replies _ (status_error, reason, refl)

  pub or_refuse-Replies :
      {A : Type 0} (r : Result A Bytes) (f : A → Answer)
      → ((a : A) → Gives Replies (f a))
      → Gives Replies (or_refuse r f)
  unfolding or_refuse
  or_refuse-Replies (ok a) f h = h a
  or_refuse-Replies (err reason) f h = refuses-Replies reason

  pub with_fields-Replies :
      {A : Type 0} (r : Result (Result A Bytes) Bytes) (f : A → Answer)
      → ((a : A) → Gives Replies (f a))
      → Gives Replies (with_fields r f)
  unfolding with_fields
  with_fields-Replies (ok (ok a)) f h = h a
  with_fields-Replies (ok (err text)) f h = Gives-raise Replies
  with_fields-Replies (err message) f h = refuses-Replies message

  pub with_channel-Replies :
      (bin : Option Bytes) (f : Bytes → Answer)
      → ((b : Bytes) → Gives Replies (f b))
      → Gives Replies (with_channel bin f)
  unfolding with_channel
  with_channel-Replies none f h = refuses-Replies (codes "invalid_channel_id")
  with_channel-Replies (some bin) f h = h bin

pub ruleset reply_rules = (
  lasts_rules, Gives-bind, Gives-then, or_refuse-Replies, with_fields-Replies, with_channel-Replies,
  replies-Replies, refuses-Replies,
)

-- ===== src/Sync/Client/Payload.antt =====
-- sdks/mercury-sdk-js/src/channel.ts: the offline branch of `send`, and what `pushDeltas` makes of the
-- messages that it queues.
use mercury_messaging.Base.{
  ℕ, ◌≡◌, refl, List, [], ◌∷◌, map, none, Bool-cases, inl, inr, leb, length, All, All-append,
  All-take, All-drop,
}
use mercury_messaging.Order.{same, nat_ord, list_ord}
use mercury_messaging.MessageLog.{Bytes}
use mercury_messaging.Sync.Queue.{Queued, max_queue_size, drain, dequeue}
use mercury_messaging.Sync.Queue.Laws.{IsOrdered, kept, enqueue_lem}
use mercury_messaging.Sync.Client.{
  Offline, LocalStore, Pushed, of_channel, envelope_of, queue_offline,
}

-- The queue is ordered, and no payload in it has ciphertext.
pub record IsOffline (s : LocalStore) : Type 0 where
  pub ordered : IsOrdered s.queue
  pub plain : All (λ (m : Queued Offline). m.payload.encrypted_content ≡ none) s.queue.items

All-kept {κ} :
    (P : Queued Offline → Type κ) (ms : List (Queued Offline)) → All P ms → All P (kept ms)
All-kept P ms h = elim (Bool-cases (leb max_queue_size (length ms))) [
  | inl full ↦ rw full (All-drop P 1 ms h)
  | inr room ↦ rw room h
]

queue_offline-IsOffline :
    (channel content : Bytes) (content_type : ℕ) (message_id : Bytes) (now : ℕ) (s : LocalStore)
    → IsOffline s
    → IsOffline (queue_offline channel content content_type message_id now s)
unfolding queue_offline
queue_offline-IsOffline channel content content_type message_id now s v =
    let (e, ordered) = enqueue_lem channel _ _ now s.queue v.ordered in
    record {
      ordered = ordered;
      plain =
          rw e (All-append _ (kept s.queue.items) _ (All-kept _ s.queue.items v.plain) (refl, tt));
    }

empty_payloads :
    (c : Bytes) (ms : List (Queued Offline))
    → All (λ (m : Queued Offline). m.payload.encrypted_content ≡ none) ms
    → All (λ (p : Pushed). p.payload ≡ []) (map envelope_of (of_channel c ms))
unfolding of_channel envelope_of
empty_payloads c [] h = tt
empty_payloads c (m ∷ ms) h = elim (Bool-cases (same m.channel_id c)) [
  | inl own ↦ rw own (rw (h.0) refl, empty_payloads c ms h.1)
  | inr other ↦ rw other (empty_payloads c ms h.1)
]

-- If the queue is ordered and all its messages were queued by a send without a connection,
-- then every envelope that the push of a channel makes of it has an empty payload; and after
-- another such send the queue is ordered and its messages are such ones again.
pub drain-IsOffline :
    (channel content : Bytes) (content_type : ℕ) (message_id : Bytes) (now : ℕ) (s : LocalStore)
    → IsOffline s
    → All (λ (p : Pushed). p.payload ≡ []) (map envelope_of (of_channel channel (drain s.queue)))
      × IsOffline (queue_offline channel content content_type message_id now s)
unfolding drain dequeue
drain-IsOffline channel content content_type message_id now s v = (
  empty_payloads channel _ (All-take _ 100 s.queue.items v.plain),
  queue_offline-IsOffline channel content content_type message_id now s v,
)

-- ===== src/Sync/Queue.antt =====
-- sdks/mercury-sdk-js/src/offline-queue.ts, and the object store `offlineQueue` of store.ts: a
-- list in the order of the keys, with the next key that `autoIncrement` gives.
pub mod Laws
use mercury_messaging.Base.{
  ℕ, ◌+◌, List, [], ◌∷◌, ◌++◌, Option, none, some, ltb, leb, if◌then◌else◌, length, take,
}
use mercury_messaging.MessageLog.{Bytes}

module _ {ℓ} (P : Type ℓ) where
  pub record Queued : Type ℓ where
    pub id : ℕ
    pub channel_id : Bytes
    pub event : Bytes
    pub payload : P
    pub created_at : ℕ

  pub record QueueStore : Type ℓ where
    pub items : List Queued
    pub next_id : ℕ

abbrev pub max_queue_size : ℕ
max_queue_size = 10000

abbrev pub drain_batch_size : ℕ
drain_batch_size = 100

module _ {ℓ} {P : Type ℓ} where
  unfoldable pub queue_size : QueueStore P → ℕ
  queue_size q = length q.items

  -- The cursor from the first key on.
  unfoldable pub dequeue : ℕ → QueueStore P → List (Queued P)
  dequeue count q = take count q.items

  -- What is left when the keys up to `up_to` are deleted.
  unfoldable pub above : ℕ → List (Queued P) → List (Queued P)
  above up_to [] = []
  above up_to (m ∷ ms) = let rest = above up_to ms in if ltb up_to m.id then m ∷ rest else rest

  -- `delete(IDBKeyRange.upperBound(upToId))`
  unfoldable pub clear_queue : ℕ → QueueStore P → QueueStore P
  clear_queue up_to q = record q { items = above up_to q.items }

  -- `LocalStore.enqueue`
  unfoldable pub add : Bytes → Bytes → P → ℕ → QueueStore P → QueueStore P
  add channel_id event payload now q = record {
    items =
        q.items
        ++ (record {
          id = q.next_id;
          channel_id = channel_id;
          event = event;
          payload = payload;
          created_at = now;
        }
            ∷ []);
    next_id = q.next_id + 1;
  }

  -- `if (oldest.length > 0)`
  evict_first : List (Queued P) → QueueStore P → QueueStore P
  evict_first [] q = q
  evict_first (m ∷ ms) q = clear_queue m.id q

  -- `OfflineQueue.enqueue`, with what `Date.now()` gives.
  unfoldable pub enqueue : Bytes → Bytes → P → ℕ → QueueStore P → QueueStore P
  unfolding evict_first
  enqueue channel_id event payload now q =
      add channel_id event payload now
        (if leb max_queue_size (queue_size q) then evict_first (dequeue 1 q) q else q)

  unfoldable pub drain : QueueStore P → List (Queued P)
  drain q = dequeue drain_batch_size q

  unfoldable pub ack : ℕ → QueueStore P → QueueStore P
  ack up_to q = clear_queue up_to q

  -- `channelDeltas[channelDeltas.length - 1].id`
  abbrev pub last_id : List (Queued P) → ℕ
  last_id [] = 0
  last_id (m ∷ []) = m.id
  last_id (m ∷ x ∷ ms) = last_id (x ∷ ms)

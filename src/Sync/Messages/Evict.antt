-- ===== src/Sync/Messages/Evict.antt =====
-- sdks/mercury-sdk-js/src/store.ts: `evictOldMessages`.
use Prim.Native.Nat.{zero, suc}
use mercury_messaging.Base.{
  ℕ, ◌-◌, ◌≤◌, ◌≡◌, ◌≢◌, refl, arith, List, [], ◌∷◌, if◌then◌else◌, length, drop,
}
use mercury_messaging.Order.{same, nat_ord, list_ord, eq_of_same}
use mercury_messaging.MessageLog.{Bytes}
use mercury_messaging.Sync.Messages.{
  Stored, max_messages_per_channel, count_of, delete_oldest, evict_old_messages,
}

-- The messages of one channel, oldest first.
unfoldable pub channel_messages : Bytes → List Stored → List Stored
channel_messages c [] = []
channel_messages c (m ∷ ms) =
    let rest = channel_messages c ms in if same m.channel_id c then m ∷ rest else rest

count_of-delete_oldest :
    (n : ℕ) (c : Bytes) (ms : List Stored) → count_of c (delete_oldest n c ms) ≡ count_of c ms - n
unfolding count_of delete_oldest
count_of-delete_oldest zero c ms = omega arith
count_of-delete_oldest (suc n) c [] = omega arith
count_of-delete_oldest (suc n) c (m ∷ ms) =
    ground (arith, count_of-delete_oldest (suc n) c ms, count_of-delete_oldest n c ms)

channel_messages-delete_oldest_other :
    (n : ℕ) (c d : Bytes) (ms : List Stored)
    → c ≢ d
    → channel_messages d (delete_oldest n c ms) ≡ channel_messages d ms
unfolding channel_messages delete_oldest
channel_messages-delete_oldest_other zero c d ms h = refl
channel_messages-delete_oldest_other (suc n) c d [] h = refl
channel_messages-delete_oldest_other (suc n) c d (m ∷ ms) h = ground (
  arith,
  eq_of_same m.channel_id c,
  eq_of_same m.channel_id d,
  channel_messages-delete_oldest_other (suc n) c d ms h,
  channel_messages-delete_oldest_other n c d ms h,
)

channel_messages-delete_oldest :
    (n : ℕ) (c : Bytes) (ms : List Stored)
    → channel_messages c (delete_oldest n c ms) ≡ drop n (channel_messages c ms)
unfolding channel_messages delete_oldest drop
channel_messages-delete_oldest zero c ms = refl
channel_messages-delete_oldest (suc n) c [] = refl
channel_messages-delete_oldest (suc n) c (m ∷ ms) =
    ground
      (arith, channel_messages-delete_oldest (suc n) c ms, channel_messages-delete_oldest n c ms)

length-channel_messages :
    (c : Bytes) (ms : List Stored) → length (channel_messages c ms) ≡ count_of c ms
unfolding channel_messages count_of
length-channel_messages c [] = refl
length-channel_messages c (m ∷ ms) = ground (arith, length-channel_messages c ms)

-- Eviction for a channel keeps the newest 10000 of its messages, all of them if there are no
-- more, and every message of the other channels.
pub evict_old_messages_lem :
    (c : Bytes) (ms : List Stored)
    → (channel_messages c (evict_old_messages c ms)
        ≡ drop (length (channel_messages c ms) - max_messages_per_channel) (channel_messages c ms))
      × (length (channel_messages c (evict_old_messages c ms)) ≤ max_messages_per_channel)
      × ((d : Bytes) → c ≢ d → channel_messages d (evict_old_messages c ms) ≡ channel_messages d ms)
unfolding evict_old_messages
evict_old_messages_lem c ms =
    let n = count_of c ms - max_messages_per_channel in
    (
      rw (length-channel_messages c ms) (channel_messages-delete_oldest n c ms),
      omega
          (arith, length-channel_messages c (delete_oldest n c ms), count_of-delete_oldest n c ms),
      λ d h. channel_messages-delete_oldest_other n c d ms h,
    )

-- ===== src/Sync/Messages.antt =====
-- sdks/mercury-sdk-js/src/store.ts: the object store `messages`.
pub mod Evict
use Prim.Native.Nat.{zero, suc}
use mercury_messaging.Base.{
  ℕ, ◌+◌, ◌-◌, List, [], ◌∷◌, Bool, true, false, ◌&&◌, ◌||◌, ◌==◌, ltb, if◌then◌else◌, Ordering,
}
use mercury_messaging.Order.{same, nat_ord, list_ord, cmp_list}
use mercury_messaging.MessageLog.{Bytes}

pub record Stored : Type 0 where
  pub channel_id : Bytes
  pub message_id : Bytes
  pub sender : Bytes
  pub content : Bytes
  pub content_type : ℕ
  pub timestamp : ℕ

abbrev pub max_messages_per_channel : ℕ
max_messages_per_channel = 10000

-- `objectStore("messages").put`: one message for a channel and an id. The list is in the order of
-- the index `byTimestamp`, which goes by the key among equal times.
unfoldable pub drop_key : Bytes → Bytes → List Stored → List Stored
drop_key channel id [] = []
drop_key channel id (m ∷ ms) =
    let rest = drop_key channel id ms in
    if same m.channel_id channel && same m.message_id id then rest else m ∷ rest

abbrev pub is_lt : Ordering → Bool
is_lt Ordering.lt = true
is_lt _ = false

abbrev pub precedes : Stored → Stored → Bool
precedes a b =
    ltb a.timestamp b.timestamp
    || (a.timestamp == b.timestamp && is_lt (cmp_list a.message_id b.message_id))

unfoldable pub place : Stored → List Stored → List Stored
place m [] = m ∷ []
place m (x ∷ ms) = let rest = place m ms in if precedes m x then m ∷ x ∷ ms else x ∷ rest

unfoldable pub write_message : Stored → List Stored → List Stored
write_message m ms = place m (drop_key m.channel_id m.message_id ms)

-- How many messages of a channel there are.
unfoldable pub count_of : Bytes → List Stored → ℕ
count_of c [] = 0
count_of c (m ∷ ms) = let rest = count_of c ms in if same m.channel_id c then rest + 1 else rest

-- The cursor over a channel from the oldest message on deletes `n` of them.
unfoldable pub delete_oldest : ℕ → Bytes → List Stored → List Stored
delete_oldest zero c ms = ms
delete_oldest (suc n) c [] = []
delete_oldest (suc n) c (m ∷ ms) =
    let others = delete_oldest (suc n) c ms in
    let fewer = delete_oldest n c ms in if same m.channel_id c then fewer else m ∷ others

unfoldable pub evict_old_messages : Bytes → List Stored → List Stored
evict_old_messages c ms = delete_oldest (count_of c ms - max_messages_per_channel) c ms

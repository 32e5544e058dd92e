-- ===== src/Sync/Client.antt =====
-- sdks/mercury-sdk-js/src/sync.ts: `syncChannel`, with `pushDeltas` and the offline branch of `send`
-- of channel.ts, and the store `syncState` of store.ts. The answers to the calls of
-- the channel are arguments, a rejected promise is a `panic`.
pub mod Pull
pub mod Push
pub mod Payload
use Prim.Native.Nat.{zero, suc}
use mercury_messaging.Base.{
  ℕ, ◌+◌, ◌-◌, List, [], ◌∷◌, ◌++◌, Bool, true, false, Option, none, some, ltb, leb, if◌then◌else◌,
  get_or, length, take, drop, Outcome, done, panic, ◌&&◌, ◌||◌, ◌==◌, Ordering, map,
}
use mercury_messaging.Order.{same, nat_ord, list_ord, cmp_list}
use mercury_messaging.HashMap.{HashMap, get, upsert}
use mercury_messaging.HashMap.Bytes.{bytes_eq}
use mercury_messaging.MessageLog.{Bytes}
use mercury_messaging.Sync.Messages.{Stored, write_message, evict_old_messages}
use mercury_messaging.Sync.Queue.{Queued, QueueStore, drain, ack, enqueue, last_id}

-- What `send` queues without a connection, as `pushDeltas` reads it: an object without the field
-- `encrypted_content` has `none` there.
pub record Offline : Type 0 where
  pub content : Bytes
  pub content_type : ℕ
  pub message_id : Bytes
  pub hlc_wall : ℕ
  pub encrypted_content : Option Bytes

pub record LocalStore : Type 0 where
  pub messages : List Stored
  pub sync_state : HashMap Bytes ℕ
  pub queue : QueueStore Offline

-- A delta of an answer: the fields of its envelope.
pub record Delta : Type 0 where
  pub message_id : Bytes
  pub sender_id : Bytes
  pub encrypted_content : Bytes
  pub hlc_wall : ℕ

pub record Answer : Type 0 where
  pub deltas : List Delta
  pub server_hlc : ℕ
  pub has_more : Bool

-- The envelope of a queued message.
pub record Pushed : Type 0 where
  pub message_id : Bytes
  pub timestamp : ℕ
  pub payload : Bytes

-- The `while (hasMore)` loop, over the answers of the rounds: the deltas that came, and how the
-- loop ends.
pub data Pulled : Type 0 where
  finished : (deltas : List Delta) (current_wall : ℕ) → Pulled
  rejected : (deltas : List Delta) → Pulled
  out_of_fuel : (deltas : List Delta) → Pulled

abbrev pub prepend : List Delta → Pulled → Pulled
prepend ds (finished more wall) = finished (ds ++ more) wall
prepend ds (rejected more) = rejected (ds ++ more)
prepend ds (out_of_fuel more) = out_of_fuel (ds ++ more)

abbrev pub on_answer : Outcome Answer → (Answer → Pulled) → Pulled
on_answer panic f = rejected []
on_answer (done a) f = f a

unfoldable pub pull : ℕ → (ℕ → ℕ → Outcome Answer) → ℕ → ℕ → Pulled
pull zero ask round wall = out_of_fuel []
pull (suc fuel) ask round wall = on_answer (ask round wall) (λ a.
    let more = pull fuel ask (round + 1) a.server_hlc in
    prepend a.deltas (if a.has_more then more else finished [] a.server_hlc))

unfoldable pub stored_of : Bytes → Delta → Stored
stored_of channel d = record {
  channel_id = channel;
  message_id = d.message_id;
  sender = d.sender_id;
  content = d.encrypted_content;
  content_type = 0;
  timestamp = d.hlc_wall;
}

unfoldable pub write_all : Bytes → List Delta → List Stored → List Stored
write_all channel [] ms = ms
write_all channel (d ∷ ds) ms = write_all channel ds (write_message (stored_of channel d) ms)

-- `pending.filter((m) => m.channelId === channelId)`
unfoldable pub of_channel : Bytes → List (Queued Offline) → List (Queued Offline)
of_channel c [] = []
of_channel c (m ∷ ms) = let rest = of_channel c ms in if same m.channel_id c then m ∷ rest else rest

-- `encodeEnvelope` in `pushDeltas`: a payload that is no `Uint8Array` is left empty.
unfoldable pub envelope_of : Queued Offline → Pushed
envelope_of m = record {
  message_id = m.payload.message_id;
  timestamp = m.payload.hlc_wall;
  payload = get_or m.payload.encrypted_content [];
}

pub data Synced : Type 0 where
  synced : (received pushed : ℕ) → Synced
  sync_rejected : Synced
  sync_out_of_fuel : Synced

module _ (push : List Pushed → Outcome ℕ) (channel : Bytes) where
  abbrev pub evict : LocalStore → LocalStore
  evict s = record s { messages = evict_old_messages channel s.messages }

  -- `ack` after the call returned, up to the key of the last message.
  abbrev pub on_pushed : ℕ → ℕ → Outcome ℕ → LocalStore → LocalStore × Synced
  on_pushed received last panic s = (s, sync_rejected)
  on_pushed received last (done accepted) s =
      (evict (record s { queue = ack last s.queue }), synced received accepted)

  -- Without a message of the channel nothing is sent.
  unfoldable pub push_pending : ℕ → List (Queued Offline) → LocalStore → LocalStore × Synced
  push_pending received [] s = (evict s, synced received 0)
  push_pending received (m ∷ ms) s =
      on_pushed received (last_id (m ∷ ms)) (push (map envelope_of (m ∷ ms))) s

  unfoldable pub after_pull : ℕ → Pulled → LocalStore → LocalStore × Synced
  after_pull last_wall (out_of_fuel deltas) s =
      (record s { messages = write_all channel deltas s.messages }, sync_out_of_fuel)
  after_pull last_wall (rejected deltas) s =
      (record s { messages = write_all channel deltas s.messages }, sync_rejected)
  after_pull last_wall (finished deltas wall) s =
      push_pending (length deltas) (of_channel channel (drain s.queue)) (record s {
        messages = write_all channel deltas s.messages;
        sync_state =
            if ltb last_wall wall
            then upsert channel wall (λ _. wall) s.sync_state
            else s.sync_state;
      })

  -- `syncChannel`, with the rounds of its loop bounded by the fuel.
  unfoldable pub sync_channel : ℕ → (ℕ → ℕ → Outcome Answer) → LocalStore → LocalStore × Synced
  unfolding push_pending after_pull
  sync_channel fuel ask s =
      let last_wall = get_or (get channel s.sync_state) 0 in
      after_pull last_wall (pull fuel ask 0 last_wall) s

-- `msg:send`
abbrev pub msg_send : Bytes
msg_send = b'm' ∷ b's' ∷ b'g' ∷ b':' ∷ b's' ∷ b'e' ∷ b'n' ∷ b'd' ∷ []

-- `send` without a connection.
unfoldable pub queue_offline : Bytes → Bytes → ℕ → Bytes → ℕ → LocalStore → LocalStore
queue_offline channel content content_type message_id now s = record s {
  queue =
      enqueue channel msg_send
        (record {
          content = content;
          content_type = content_type;
          message_id = message_id;
          hlc_wall = now;
          encrypted_content = none;
        })
        now s.queue;
}

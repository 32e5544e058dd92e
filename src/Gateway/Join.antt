-- ===== src/Gateway/Join.antt =====
-- apps/gateway/lib/gateway/binary_socket.ex: `do_join` and `handle_join`.
pub mod Accepted
pub mod Bound
pub mod Laws
pub mod Panic
use Prim.Native.Nat.{zero, suc}
use mercury_messaging.Base.{
  ℕ, ◌+◌, List, [], ◌∷◌, ◌++◌, Bool, true, false, ltb, ◌==◌, if◌then◌else◌, Option, none, some,
  Outcome, done, panic, Result, ok, err, codes,
}
use mercury_messaging.MessageLog.{Bytes}
use mercury_messaging.Gateway.Hex.{encode16, channel_id_to_bin}
use mercury_messaging.Gateway.Act.{
  Call, subscribes, unsubscribes, broadcasts_from, warms_user_cache,
}
use mercury_messaging.Gateway.Socket.{
  Socket, Output, Reason, invalid_channel_id, call_failed, not_a_member, membership_check_failed,
  too_many_topics, unknown_topic, allocate_topic_id, bind_topic, bind_lobby, reply, status_ok,
  status_error, ev_presence_join,
}

-- What `Persistence.Members.member?` answers.
pub data Membership : Type 0 where
  is_member not_member unknown member_failed : Membership

-- What a join asks of the other parts of the server. `member_failed` stands for a call that raises or
-- exits; `warm_user_cache` is a `panic` then, unless the exception is one of the two that it
-- rescues.
pub record Persistence : Type 0 where
  pub member : Bytes → Bytes → Bytes → Membership
  pub warm_user_cache : Bytes → Bytes → Outcome (Unit {0})

-- What follows a prefix.
unfoldable pub strip_prefix : Bytes → Bytes → Option Bytes
strip_prefix [] text = some text
strip_prefix (p ∷ ps) [] = none
strip_prefix (p ∷ ps) (c ∷ text) = let rest = strip_prefix ps text in if p == c then rest else none

abbrev pub channel_prefix : Bytes
channel_prefix = codes "channel:"

abbrev pub lobby_prefix : Bytes
lobby_prefix = codes "lobby:"

abbrev pub presence_prefix : Bytes
presence_prefix = codes "presence:"

-- `"#{Base.encode16(tid)}:channel:#{channel_id}"`, and the same for a presence topic.
unfoldable pub pubsub_name : Bytes → Bytes → Bytes → Bytes
pubsub_name tenant kind id = encode16 tenant ++ (b':' ∷ (kind ++ id))

abbrev pub Joined : Type 0
Joined = Result (ℕ × Socket × List Call) Reason

admit : Membership → Outcome (Unit {0}) → Bytes → Bytes → ℕ → Socket → Joined
admit is_member (done warmed) topic channel_id id s =
    let pubsub = pubsub_name s.tenant_id channel_prefix channel_id in
    ok (
      id,
      bind_topic topic id channel_id pubsub s,
      subscribes pubsub
          ∷ warms_user_cache s.tenant_id s.user_id
          ∷ broadcasts_from pubsub ev_presence_join s.user_id
          ∷ [],
    )
admit is_member panic topic channel_id id s = err call_failed
admit not_member warmed topic channel_id id s = err not_a_member
admit unknown warmed topic channel_id id s = err membership_check_failed
admit member_failed warmed topic channel_id id s = err call_failed

module _ (db : Persistence) where
  admit_allocated : Bytes → Bytes → Bytes → Result (ℕ × Socket) Reason → Joined
  admit_allocated topic channel_id bin (ok (id, s)) =
      admit (db.member s.tenant_id bin s.user_id) (db.warm_user_cache s.tenant_id s.user_id) topic
        channel_id id s
  admit_allocated topic channel_id bin (err reason) = err reason

  join_channel : Bytes → Bytes → Option Bytes → Socket → Joined
  join_channel topic channel_id none s = err invalid_channel_id
  join_channel topic channel_id (some bin) s =
      admit_allocated topic channel_id bin (allocate_topic_id s)

join_lobby : Bytes → Result (ℕ × Socket) Reason → Joined
join_lobby topic (ok (id, s)) = ok (id, bind_lobby topic id s, [])
join_lobby topic (err reason) = err reason

join_presence : Bytes → Bytes → Result (ℕ × Socket) Reason → Joined
join_presence topic channel_id (ok (id, s)) =
    let pubsub = pubsub_name s.tenant_id presence_prefix channel_id in
    ok (id, bind_topic topic id channel_id pubsub s, subscribes pubsub ∷ [])
join_presence topic channel_id (err reason) = err reason

-- The clause that the name of the topic chooses.
module _ (db : Persistence) where
  by_prefix : Option Bytes → Option Bytes → Option Bytes → Bytes → Socket → Joined
  by_prefix (some channel_id) lobby presence topic s =
      join_channel db topic channel_id (channel_id_to_bin channel_id) s
  by_prefix none (some tenant) presence topic s = join_lobby topic (allocate_topic_id s)
  by_prefix none none (some channel_id) topic s =
      join_presence topic channel_id (allocate_topic_id s)
  by_prefix none none none topic s = err unknown_topic

  unfoldable pub do_join : Bytes → Socket → Joined
  unfolding by_prefix join_channel join_lobby join_presence admit_allocated admit
  do_join topic s =
      by_prefix (strip_prefix channel_prefix topic) (strip_prefix lobby_prefix topic)
        (strip_prefix presence_prefix topic) topic s

-- The texts of the reasons, none for the atom, and none where a call failed.
abbrev pub reason_text : Reason → Option Bytes
reason_text invalid_channel_id = none
reason_text call_failed = none
reason_text not_a_member = some (codes "not_a_member")
reason_text membership_check_failed = some (codes "membership_check_failed")
reason_text too_many_topics = some (codes "too_many_topics")
reason_text unknown_topic = some (codes "unknown_topic")

-- `reason::binary` raises for an atom, a failed call has raised or exited already, and `handle_in` does
-- not rescue.
refuse : ℕ → Option Bytes → Socket → Outcome Output
refuse ref none s = panic
refuse ref (some text) s =
    done (record { socket = s; calls = []; frames = reply ref 0 status_error text ∷ [] })

answer_join : ℕ → Joined → Socket → Outcome Output
unfolding refuse
answer_join ref (ok (id, s', calls)) s =
    done (record { socket = s'; calls = calls; frames = reply ref id status_ok [] ∷ [] })
answer_join ref (err reason) s = refuse ref (reason_text reason) s

module _ (db : Persistence) where
  unfoldable pub handle_join : ℕ → Bytes → Socket → Outcome Output
  unfolding answer_join
  handle_join ref topic s = answer_join ref (do_join db topic s) s

-- ===== src/Gateway/Join/Laws.antt =====
-- apps/gateway/lib/gateway/binary_socket.ex: what a join leaves of the topics.
use mathlib.Core.Path.{subst}
use mercury_messaging.Base.{
  panic, none_not_some, some_injective, Outcome, ℕ, ◌+◌, ◌<◌, ◌≡◌, refl, ap, arith, [], ◌∷◌,
  Bool-cases, inl, inr, ltb, Option, none, some, ok, err, ◌⊎◌, done, done_injective, panic_not_done,
}
use mercury_messaging.MessageLog.{Bytes}
use mercury_messaging.HashMap.Bytes.{bytes_eq, nat_eq}
use mercury_messaging.Gateway.Hex.{channel_id_to_bin}
use mercury_messaging.Gateway.Socket.{
  Socket, Output, too_many_topics, allocate_topic_id, reply, status_ok, status_error,
}
use mercury_messaging.Gateway.Socket.Invariant.{IsSound}
use mercury_messaging.Gateway.Join.Bound.{IsNext, bind_topic-IsNext, bind_lobby-IsNext}
use mercury_messaging.Gateway.Join.{
  Membership, is_member, not_member, unknown, member_failed, Persistence, Joined, admit,
  admit_allocated, join_channel, join_lobby, join_presence, by_prefix, do_join, strip_prefix,
  channel_prefix, pubsub_name, answer_join, refuse, reason_text, handle_join,
}

-- What a join that succeeds gives.
abbrev pub Succeeds : Option Bytes → Bytes → Socket → Joined → Type 0
Succeeds channel topic s (ok (id, s', calls)) = IsNext channel topic s id s'
Succeeds channel topic s (err reason) = Unit

module _ (s : Socket) (v : IsSound s) where
  allocated_cases :
      (allocate_topic_id s ≡ err too_many_topics)
      ⊎ ((s.next_topic_id < 65536)
          × (allocate_topic_id s
              ≡ ok (s.next_topic_id, record s { next_topic_id = s.next_topic_id + 1 })))
  unfolding allocate_topic_id
  allocated_cases = elim (Bool-cases (ltb 65535 s.next_topic_id)) [
    | inl full ↦ inl (rw full refl)
    | inr room ↦ inr (ground arith, rw room refl)
  ]

  join_lobby-Succeeds :
      (topic : Bytes) → Succeeds none topic s (join_lobby topic (allocate_topic_id s))
  unfolding join_lobby
  join_lobby-Succeeds topic = elim allocated_cases [
    | inl full ↦ rw full tt
    | inr (room, e) ↦ rw e (bind_lobby-IsNext s v room topic)
  ]

  join_presence-Succeeds :
      (topic channel_id : Bytes)
      → Succeeds none topic s (join_presence topic channel_id (allocate_topic_id s))
  unfolding join_presence
  join_presence-Succeeds topic channel_id = elim allocated_cases [
    | inl full ↦ rw full tt
    | inr (room, e) ↦
        rw e (bind_topic-IsNext s v room topic none channel_id _ (λ c h. none_not_some h))
  ]

  module _ (db : Persistence) where
    admit-Succeeds :
        (m : Membership) (warmed : Outcome (Unit {0})) (room : s.next_topic_id < 65536)
        (topic channel_id : Bytes)
        → Succeeds (some channel_id) topic s (
            admit m warmed topic channel_id s.next_topic_id
              (record s { next_topic_id = s.next_topic_id + 1 }))
    unfolding admit
    admit-Succeeds is_member (done warmed) room topic channel_id =
        bind_topic-IsNext s v room topic (some channel_id) channel_id _
          (λ c e. (e, ap (λ k. some (pubsub_name s.tenant_id channel_prefix k)) (some_injective e)))
    admit-Succeeds is_member panic room topic channel_id = tt
    admit-Succeeds not_member warmed room topic channel_id = tt
    admit-Succeeds unknown warmed room topic channel_id = tt
    admit-Succeeds member_failed warmed room topic channel_id = tt

    join_channel-Succeeds :
        (topic channel_id : Bytes) (bin : Option Bytes)
        → Succeeds (some channel_id) topic s (join_channel db topic channel_id bin s)
    unfolding join_channel admit_allocated
    join_channel-Succeeds topic channel_id none = tt
    join_channel-Succeeds topic channel_id (some bin) = elim allocated_cases [
      | inl full ↦ rw full tt
      | inr (room, e) ↦ rw e (admit-Succeeds _ _ room topic channel_id)
    ]

    by_prefix-Succeeds :
        (channel lobby presence : Option Bytes) (topic : Bytes)
        → Succeeds channel topic s (by_prefix db channel lobby presence topic s)
    unfolding by_prefix
    by_prefix-Succeeds (some channel_id) lobby presence topic =
        join_channel-Succeeds topic channel_id (channel_id_to_bin channel_id)
    by_prefix-Succeeds none (some tenant) presence topic = join_lobby-Succeeds topic
    by_prefix-Succeeds none none (some channel_id) topic = join_presence-Succeeds topic channel_id
    by_prefix-Succeeds none none none topic = tt

    pub do_join-Succeeds :
        (topic : Bytes) → Succeeds (strip_prefix channel_prefix topic) topic s (do_join db topic s)
    unfolding do_join
    do_join-Succeeds topic = by_prefix-Succeeds _ _ _ topic

-- What a join that is answered leaves: it was accepted under the next id and is recorded, or it was
-- refused and the socket is as it was.
abbrev pub Answered : ℕ → Bytes → Socket → Output → Type 0
Answered ref topic s out =
    (IsNext (strip_prefix channel_prefix topic) topic s s.next_topic_id out.socket
      × (out.frames ≡ reply ref s.next_topic_id status_ok [] ∷ []))
    ⊎ ((out.socket ≡ s)
        × (out.calls ≡ [])
        × ((reason : Bytes) × (out.frames ≡ reply ref 0 status_error reason ∷ [])))

module _ (ref : ℕ) (topic : Bytes) (s : Socket) (out : Output) where
  refuse-Answered : (text : Option Bytes) → refuse ref text s ≡ done out → Answered ref topic s out
  unfolding refuse
  refuse-Answered none h = panic_not_done h
  refuse-Answered (some text) h = rw (← (done_injective h)) (inr (refl, refl, (text, refl)))

  answer_join-Answered :
      (j : Joined)
      → Succeeds (strip_prefix channel_prefix topic) topic s j
      → answer_join ref j s ≡ done out
      → Answered ref topic s out
  unfolding answer_join
  answer_join-Answered (ok (id, s', calls)) n h = rw (← (done_injective h)) (
      inl (
        subst (λ k. IsNext (strip_prefix channel_prefix topic) topic s k s') n.next n,
        ap (λ k. reply ref k status_ok [] ∷ []) n.next,
      ))
  answer_join-Answered (err reason) n h = refuse-Answered (reason_text reason) h

module _ (db : Persistence) (ref : ℕ) (topic : Bytes) (s : Socket) where
  -- If the join of a topic by a sound socket gives an output, then it was accepted or
  -- refused. If it was accepted, the topic got the next id, which fits 16 bits and was no
  -- topic's, the one frame accepts that id, and the new socket is sound and records the
  -- topic: its name leads to the id, the id to an entry of that name - for a channel with
  -- the channel and its pubsub - and the name of its pubsub, if it has one, back to the id,
  -- while all other ids are as they were. If it was refused, the socket is as it was,
  -- nothing was called, and the one frame is a refusal.
  pub handle_join_answers :
      (out : Output) → IsSound s → handle_join db ref topic s ≡ done out → Answered ref topic s out
  unfolding handle_join
  handle_join_answers out v h =
      answer_join-Answered ref topic s out (do_join db topic s) (do_join-Succeeds s v db topic) h

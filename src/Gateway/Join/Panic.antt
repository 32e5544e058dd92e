-- ===== src/Gateway/Join/Panic.antt =====
-- apps/gateway/lib/gateway/binary_socket.ex: the joins that raise.
use mercury_messaging.Base.{
  done, ◌<◌, Outcome, ◌⊎◌, refl, false, ℕ, ◌≡◌, ◌↔◌, refl, arith, Bool-cases, inl, inr, ltb, Option,
  none, some, Option-cases, ok, err, panic,
}
use mercury_messaging.MessageLog.{Bytes}
use mercury_messaging.HashMap.Bytes.{bytes_eq, nat_eq}
use mercury_messaging.Gateway.Hex.{channel_id_to_bin}
use mercury_messaging.Gateway.Socket.{
  Socket, invalid_channel_id, call_failed, not_a_member, membership_check_failed, too_many_topics,
  unknown_topic, allocate_topic_id,
}
use mercury_messaging.Gateway.Join.{
  Membership, is_member, not_member, unknown, member_failed, Persistence, Joined, admit,
  admit_allocated, join_channel, join_lobby, join_presence, by_prefix, do_join, strip_prefix,
  channel_prefix, answer_join, refuse, handle_join,
}

-- The joins that get no reply.
abbrev Raises : Joined → Type 0
Raises j = (j ≡ err invalid_channel_id) ⊎ (j ≡ err call_failed)

answer_join-eq-panic : (ref : ℕ) (s : Socket) (j : Joined) → answer_join ref j s ≡ panic → Raises j
unfolding answer_join refuse
answer_join-eq-panic ref s (ok (id, s', calls)) h = let differ : ⊥ = cc h in absurd differ
answer_join-eq-panic ref s (err invalid_channel_id) h = inl refl
answer_join-eq-panic ref s (err call_failed) h = inr refl
answer_join-eq-panic ref s (err not_a_member) h = let differ : ⊥ = cc h in absurd differ
answer_join-eq-panic ref s (err membership_check_failed) h = let differ : ⊥ = cc h in absurd differ
answer_join-eq-panic ref s (err too_many_topics) h = let differ : ⊥ = cc h in absurd differ
answer_join-eq-panic ref s (err unknown_topic) h = let differ : ⊥ = cc h in absurd differ

-- A call of the admission that raises or exits: the one that asks for the membership, or for a member
-- the one that warms the cache.
abbrev pub Fails : Membership → Outcome (Unit {0}) → Type 0
Fails m warmed = (m ≡ member_failed) ⊎ ((m ≡ is_member) × (warmed ≡ panic))

admit-Raises :
    (m : Membership) (warmed : Outcome (Unit {0})) (topic channel_id : Bytes) (id : ℕ) (s' : Socket)
    → Raises (admit m warmed topic channel_id id s')
    → Fails m warmed
unfolding admit
admit-Raises is_member (done warmed) topic channel_id id s' h = elim h [
  | inl e ↦ (let differ : ⊥ = cc e in absurd differ)
  | inr e ↦ (let differ : ⊥ = cc e in absurd differ)
]
admit-Raises is_member panic topic channel_id id s' h = inr (refl, refl)
admit-Raises not_member warmed topic channel_id id s' h = elim h [
  | inl e ↦ (let differ : ⊥ = cc e in absurd differ)
  | inr e ↦ (let differ : ⊥ = cc e in absurd differ)
]
admit-Raises unknown warmed topic channel_id id s' h = elim h [
  | inl e ↦ (let differ : ⊥ = cc e in absurd differ)
  | inr e ↦ (let differ : ⊥ = cc e in absurd differ)
]
admit-Raises member_failed warmed topic channel_id id s' h = inl refl

admit-Fails :
    (m : Membership) (warmed : Outcome (Unit {0})) (topic channel_id : Bytes) (id : ℕ) (s' : Socket)
    → Fails m warmed
    → admit m warmed topic channel_id id s' ≡ err call_failed
unfolding admit
admit-Fails m warmed topic channel_id id s' (inl e) = rw e refl
admit-Fails m warmed topic channel_id id s' (inr (e, f)) = rw (e, f) refl

module _ (db : Persistence) (s : Socket) where
  -- There is an id left, and a call of the admission fails.
  abbrev pub CallFails : Bytes → Type 0
  CallFails bin =
      (s.next_topic_id < 65536)
      × Fails (db.member s.tenant_id bin s.user_id) (db.warm_user_cache s.tenant_id s.user_id)

  join_lobby-ne-Raises : (topic : Bytes) → ¬ Raises (join_lobby topic (allocate_topic_id s))
  unfolding join_lobby allocate_topic_id
  join_lobby-ne-Raises topic (inl h) = ground arith
  join_lobby-ne-Raises topic (inr h) = ground arith

  join_presence-ne-Raises :
      (topic id : Bytes) → ¬ Raises (join_presence topic id (allocate_topic_id s))
  unfolding join_presence allocate_topic_id
  join_presence-ne-Raises topic id (inl h) = ground arith
  join_presence-ne-Raises topic id (inr h) = ground arith

  admit_allocated-Raises :
      (topic id bin : Bytes)
      → Raises (admit_allocated db topic id bin (allocate_topic_id s))
      → CallFails bin
  unfolding admit_allocated allocate_topic_id
  admit_allocated-Raises topic id bin h = elim (Bool-cases (ltb 65535 s.next_topic_id)) [
    | inl full ↦ elim (rw full at h) [
      | inl e ↦ let differ : ⊥ = cc e in absurd differ
      | inr e ↦ let differ : ⊥ = cc e in absurd differ
    ]
    | inr room ↦ (ground arith, admit-Raises _ _ topic id _ _ (rw room at h))
  ]

  admit_allocated-Fails :
      (topic id bin : Bytes)
      → CallFails bin
      → admit_allocated db topic id bin (allocate_topic_id s) ≡ err call_failed
  unfolding admit_allocated allocate_topic_id
  admit_allocated-Fails topic id bin (room, fails) =
      let allowed : ltb 65535 s.next_topic_id ≡ false = ground (arith, room) in
      rw allowed (admit-Fails _ _ topic id _ _ fails)

  -- What follows the prefix of a channel is no channel id, or it is one and a call fails.
  abbrev pub IsBad : Option Bytes → Type 0
  IsBad channel =
      (id : Bytes) × (channel ≡ some id)
      × ((channel_id_to_bin id ≡ none)
          ⊎ ((bin : Bytes) × (channel_id_to_bin id ≡ some bin) × CallFails bin))

  by_prefix-Raises :
      (channel lobby presence : Option Bytes) (topic : Bytes)
      → Raises (by_prefix db channel lobby presence topic s)
      → IsBad channel
  unfolding by_prefix join_channel
  by_prefix-Raises (some id) lobby presence topic h = elim (Option-cases (channel_id_to_bin id)) [
    | inl bad ↦ (id, refl, inl bad)
    | inr (bin, good) ↦
        (id, refl, inr (bin, good, admit_allocated-Raises topic id bin (rw good at h)))
  ]
  by_prefix-Raises none (some tenant) presence topic h = absurd (join_lobby-ne-Raises topic h)
  by_prefix-Raises none none (some id) topic h = absurd (join_presence-ne-Raises topic id h)
  by_prefix-Raises none none none topic (inl h) = let differ : ⊥ = cc h in absurd differ
  by_prefix-Raises none none none topic (inr h) = let differ : ⊥ = cc h in absurd differ

module _ (db : Persistence) (ref : ℕ) (topic : Bytes) (s : Socket) where
  raises : IsBad db s (strip_prefix channel_prefix topic) → handle_join db ref topic s ≡ panic
  unfolding handle_join do_join by_prefix join_channel answer_join refuse
  raises (id, channel, inl bad) = rw (channel, bad) refl
  raises (id, channel, inr (bin, good, fails)) =
      rw (channel, good, admit_allocated-Fails db s topic id bin fails) refl

  -- A join raises or exits, which ends the connection, exactly if the topic is named as a
  -- channel and what follows is not the text of 16 bytes in base 16, or it is, there is an
  -- id left, and a call fails: the one for the membership, or for a member the one that
  -- warms the cache.
  pub handle_join-eq-panic :
      (handle_join db ref topic s ≡ panic) ↔ IsBad db s (strip_prefix channel_prefix topic)
  unfolding handle_join do_join
  handle_join-eq-panic = (
    λ h. by_prefix-Raises db s _ _ _ topic (answer_join-eq-panic ref s (do_join db topic s) h),
    raises,
  )

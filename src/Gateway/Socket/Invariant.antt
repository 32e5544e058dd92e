-- ===== src/Gateway/Socket/Invariant.antt =====
-- apps/gateway/lib/gateway/binary_socket.ex: what holds of the maps of the topics.
use mercury_messaging.Base.{
  ℕ, ◌+◌, ◌≤◌, ◌<◌, ◌≡◌, refl, arith, Bool-cases, inl, inr, ◌==◌, if◌then◌else◌, none, some,
  none_not_some,
}
use mercury_messaging.MessageLog.{Bytes}
use mercury_messaging.HashMap.{HashMap, IsDistinct, get}
use mercury_messaging.HashMap.Bytes.{bytes_eq, nat_eq}
use mercury_messaging.HashMap.Lookup.{get-upsert, upsert-IsDistinct}
use mercury_messaging.Gateway.Socket.{Info, Socket, init, put, bind_topic, bind_lobby}

-- Under the id stands a joined topic for which the claim holds.
pub record Names (ids : HashMap ℕ Info) (id : ℕ) (P : Info → Type 0) : Type 0 where
  pub info : Info
  pub joined : get id ids ≡ some info
  pub claim : P info

pub record IsSound (s : Socket) : Type 0 where
  pub positive : 1 ≤ s.next_topic_id
  pub bounded : s.next_topic_id ≤ 65536
  pub distinct_topics : IsDistinct s.topics
  pub distinct_ids : IsDistinct s.topic_ids
  pub distinct_pubsub : IsDistinct s.pubsub_topics
  pub used :
      (id : ℕ) (info : Info) → get id s.topic_ids ≡ some info → (1 ≤ id) × (id < s.next_topic_id)
  pub named :
      (t : Bytes) (id : ℕ) → get t s.topics ≡ some id → Names s.topic_ids id (λ i. i.topic ≡ t)
  pub subscribed :
      (p : Bytes) (id : ℕ)
      → get p s.pubsub_topics ≡ some id
      → Names s.topic_ids id (λ i. i.pubsub ≡ some p)

pub init-IsSound : (tenant user device : Bytes) → IsSound (init tenant user device)
unfolding init get
init-IsSound tenant user device = record {
  positive = omega arith;
  bounded = omega arith;
  distinct_topics = tt;
  distinct_ids = tt;
  distinct_pubsub = tt;
  used = λ id info h. none_not_some h;
  named = λ t id h. none_not_some h;
  subscribed = λ p id h. none_not_some h;
}

module _ (s : Socket) (v : IsSound s) (info : Info) (room : s.next_topic_id < 65536) where
  abbrev new_ids : HashMap ℕ Info
  new_ids = put s.next_topic_id info s.topic_ids

  get-new_ids :
      (id : ℕ) → get id new_ids ≡ (if id == s.next_topic_id then some info else get id s.topic_ids)
  get-new_ids id = get-upsert id s.next_topic_id info (λ _. info) s.topic_ids

  -- What was joined stays joined: the new id is of no topic before.
  Names-new : (id : ℕ) (P : Info → Type 0) → Names s.topic_ids id P → Names new_ids id P
  Names-new id P n = record {
    info = n.info;
    joined =
        let (low, high) = v.used id n.info n.joined in ground (arith, get-new_ids id, n.joined);
    claim = n.claim;
  }

  Names-self : (P : Info → Type 0) → P info → Names new_ids s.next_topic_id P
  Names-self P h = record {
    info = info;
    joined = ground (arith, get-new_ids s.next_topic_id);
    claim = h;
  }

  used-new : (id : ℕ) (i : Info) → get id new_ids ≡ some i → (1 ≤ id) × (id < s.next_topic_id + 1)
  used-new id i h = elim (Bool-cases (id == s.next_topic_id)) [
    | inl own ↦ let p = v.positive in ground arith
    | inr other ↦
        let old : get id s.topic_ids ≡ some i = ground (arith, get-new_ids id) in
        let (low, high) = v.used id i old in (low, omega arith)
  ]

  -- A map of names with one more name for the new id.
  Names-put :
      (P : Bytes → Info → Type 0) (names : HashMap Bytes ℕ) (name : Bytes)
      → ((q : Bytes) (id : ℕ) → get q names ≡ some id → Names s.topic_ids id (P q))
      → P name info
      → (q : Bytes) (id : ℕ) → get q (put name s.next_topic_id names) ≡ some id
      → Names new_ids id (P q)
  Names-put P names name old own q id h = elim (Bool-cases (bytes_eq.beq q name)) [
    | inl this ↦
        let e : q ≡ name = (bytes_eq.beq_iff q name).0 this in
        let i : s.next_topic_id ≡ id =
          ground (arith, get-upsert q name s.next_topic_id (λ (_ : ℕ). s.next_topic_id) names) in
        rw (← i) (rw e (Names-self (P name) own))
    | inr other ↦
        let was : get q names ≡ some id =
          ground (arith, get-upsert q name s.next_topic_id (λ (_ : ℕ). s.next_topic_id) names) in
        Names-new id (P q) (old q id was)
  ]

  abbrev taken : Socket
  taken = record s { next_topic_id = s.next_topic_id + 1 }

  bind-IsSound :
      (pubsub_topics : HashMap Bytes ℕ)
      → IsDistinct pubsub_topics
      → ((p : Bytes) (id : ℕ)
          → get p pubsub_topics ≡ some id
          → Names new_ids id (λ i. i.pubsub ≡ some p))
      → IsSound (record taken {
        topics = put info.topic s.next_topic_id s.topics;
        topic_ids = new_ids;
        pubsub_topics = pubsub_topics;
      })
  bind-IsSound pubsub_topics distinct subscribed = record {
    positive = omega arith;
    bounded = omega arith;
    distinct_topics = upsert-IsDistinct info.topic s.next_topic_id _ s.topics v.distinct_topics;
    distinct_ids = upsert-IsDistinct s.next_topic_id info _ s.topic_ids v.distinct_ids;
    distinct_pubsub = distinct;
    used = used-new;
    named = Names-put (λ t i. i.topic ≡ t) s.topics info.topic v.named refl;
    subscribed = subscribed;
  }

module _ (s : Socket) (v : IsSound s) (room : s.next_topic_id < 65536) (topic : Bytes) where
  pub bind_topic-IsSound :
      (channel_id pubsub : Bytes)
      → IsSound (
          bind_topic topic s.next_topic_id channel_id pubsub
            (record s { next_topic_id = s.next_topic_id + 1 }))
  unfolding bind_topic
  bind_topic-IsSound channel_id pubsub =
      let info : Info = record {
        topic = topic;
        channel_id = some channel_id;
        pubsub = some pubsub;
      } in
      bind-IsSound s v info room (put pubsub s.next_topic_id s.pubsub_topics)
        (upsert-IsDistinct pubsub s.next_topic_id _ s.pubsub_topics v.distinct_pubsub)
        (Names-put s v info room (λ p i. i.pubsub ≡ some p) s.pubsub_topics pubsub v.subscribed
          refl)

  pub bind_lobby-IsSound :
      IsSound (bind_lobby topic s.next_topic_id (record s { next_topic_id = s.next_topic_id + 1 }))
  unfolding bind_lobby
  bind_lobby-IsSound =
      let info : Info = record { topic = topic; channel_id = none; pubsub = none } in
      bind-IsSound s v info room s.pubsub_topics v.distinct_pubsub
        (λ p id h. Names-new s v info room id (λ i. i.pubsub ≡ some p) (v.subscribed p id h))

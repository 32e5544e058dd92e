-- ===== src/Gateway/Join/Bound.antt =====
-- apps/gateway/lib/gateway/binary_socket.ex: what the maps of a socket hold after a join.
use mercury_messaging.Base.{
  ℕ, ◌+◌, ◌<◌, ◌≡◌, ◌≢◌, refl, arith, Option, none, some, Option-cases, inl, inr, none_not_some,
  some_injective,
}
use mercury_messaging.MessageLog.{Bytes}
use mercury_messaging.HashMap.{HashMap, get}
use mercury_messaging.HashMap.Bytes.{bytes_eq, nat_eq}
use mercury_messaging.HashMap.Lookup.{get-upsert}
use mercury_messaging.Gateway.Socket.{Socket, Info, put, bind_topic, bind_lobby}
use mercury_messaging.Gateway.Socket.Invariant.{
  Names, IsSound, bind_topic-IsSound, bind_lobby-IsSound,
}
use mercury_messaging.Gateway.Join.{channel_prefix, pubsub_name}

-- The topic stands under its id: its own name, the channel and the pubsub of a channel whose id
-- is what follows the prefix, and the name of its pubsub, if it has one, leads back to the id.
pub record IsListed (channel : Option Bytes) (topic : Bytes) (id : ℕ) (s : Socket) (i : Info)
    : Type 0 where
  pub own : i.topic ≡ topic
  pub of_channel :
      (c : Bytes)
      → channel ≡ some c
      → (i.channel_id ≡ some c) × (i.pubsub ≡ some (pubsub_name s.tenant_id channel_prefix c))
  pub hears : (p : Bytes) → i.pubsub ≡ some p → get p s.pubsub_topics ≡ some id

-- The join took the next id, which was no topic's, the topic is recorded under it and all other
-- ids are as they were, and the socket is sound.
pub record IsNext (channel : Option Bytes) (topic : Bytes) (s : Socket) (id : ℕ) (s' : Socket)
    : Type 0 where
  pub next : id ≡ s.next_topic_id
  pub fits : id < 65536
  pub unused : get id s.topic_ids ≡ none
  pub named : get topic s'.topics ≡ some id
  pub joined : Names s'.topic_ids id (IsListed channel topic id s')
  pub others : (j : ℕ) → j ≢ id → get j s'.topic_ids ≡ get j s.topic_ids
  pub sound : IsSound s'
  pub kept : s'.missed_heartbeats ≡ s.missed_heartbeats

module _ (s : Socket) (v : IsSound s) (room : s.next_topic_id < 65536) (topic : Bytes) where
  abbrev n : ℕ
  n = s.next_topic_id

  unused_next : get n s.topic_ids ≡ none
  unused_next = elim (Option-cases (get n s.topic_ids)) [
    | inl absent ↦ absent
    | inr (info, held) ↦ let (low, high) = v.used n info held in absurd (omega arith)
  ]

  get_self : (info : Info) → get n (put n info s.topic_ids) ≡ some info
  get_self info = ground (arith, get-upsert n n info (λ _. info) s.topic_ids)

  get_other : (info : Info) (j : ℕ) → j ≢ n → get j (put n info s.topic_ids) ≡ get j s.topic_ids
  get_other info j differs = ground (arith, differs, get-upsert j n info (λ _. info) s.topic_ids)

  get_name : (name : Bytes) (names : HashMap Bytes ℕ) → get name (put name n names) ≡ some n
  get_name name names =
      ground (arith, get-upsert name name n (λ _. n) names, bytes_eq.beq_iff name name)

  pub bind_topic-IsNext :
      (channel : Option Bytes) (id pubsub : Bytes)
      → ((c : Bytes)
          → channel ≡ some c
          → (some id ≡ some c) × (some pubsub ≡ some (pubsub_name s.tenant_id channel_prefix c)))
      → IsNext channel topic s n (bind_topic topic n id pubsub (record s { next_topic_id = n + 1 }))
  unfolding bind_topic
  bind_topic-IsNext channel id pubsub of_channel = record {
    next = refl;
    fits = room;
    unused = unused_next;
    named = get_name topic s.topics;
    joined = record {
      info = record { topic = topic; channel_id = some id; pubsub = some pubsub };
      joined = get_self _;
      claim = record {
        own = refl;
        of_channel = of_channel;
        hears = λ p e. rw (← (some_injective e)) (get_name pubsub s.pubsub_topics);
      };
    };
    others = get_other _;
    sound = bind_topic-IsSound s v room topic id pubsub;
    kept = refl;
  }

  pub bind_lobby-IsNext :
      IsNext none topic s n (bind_lobby topic n (record s { next_topic_id = n + 1 }))
  unfolding bind_lobby
  bind_lobby-IsNext = record {
    next = refl;
    fits = room;
    unused = unused_next;
    named = get_name topic s.topics;
    joined = record {
      info = record { topic = topic; channel_id = none; pubsub = none };
      joined = get_self _;
      claim = record {
        own = refl;
        of_channel = λ c e. none_not_some e;
        hears = λ p e. none_not_some e;
      };
    };
    others = get_other _;
    sound = bind_lobby-IsSound s v room topic;
    kept = refl;
  }

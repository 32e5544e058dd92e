-- ===== src/Gateway/Socket/Left.antt =====
-- apps/gateway/lib/gateway/binary_socket.ex: what a leave keeps of the maps of the topics.
use mercury_messaging.Base.{
  ℕ, ◌≡◌, refl, sym, ap, ◌∙◌, arith, Bool-cases, inl, inr, ◌==◌, Option, none, some, Option-cases,
  none_not_some, some_injective,
}
use mercury_messaging.MessageLog.{Bytes}
use mercury_messaging.HashMap.{HashMap, IsDistinct, get, remove}
use mercury_messaging.HashMap.Bytes.{bytes_eq, nat_eq}
use mercury_messaging.HashMap.Lookup.{get-remove, remove-IsDistinct}
use mercury_messaging.Gateway.Socket.{Info, Socket, forget, leave, handle_leave}
use mercury_messaging.Gateway.Socket.Invariant.{Names, IsSound}

module _ (s : Socket) (v : IsSound s) (id : ℕ) (info : Info)
    (held : get id s.topic_ids ≡ some info) where
  -- A topic of another name than the one that leaves stays.
  Names-remove :
      (P : Info → Type 0) (j : ℕ)
      → ¬ P info
      → Names s.topic_ids j P
      → Names (remove id s.topic_ids) j P
  Names-remove P j differs n = elim (Bool-cases (j == id)) [
    | inl own ↦
        let e : j ≡ id = ground arith in
        let same_info : n.info ≡ info =
          some_injective (sym n.joined ∙ (ap (λ (k : ℕ). get k s.topic_ids) e ∙ held)) in
        absurd (differs (rw (← same_info) n.claim))
    | inr other ↦ record {
      info = n.info;
      joined = ground (arith, get-remove j id s.topic_ids v.distinct_ids, n.joined);
      claim = n.claim;
    }
  ]

  -- A map of names without the one of the topic that leaves.
  Names-forget :
      (P : Bytes → Info → Type 0) (names : HashMap Bytes ℕ) (name : Bytes)
      → IsDistinct names
      → ((q : Bytes) → P q info → q ≡ name)
      → ((q : Bytes) (j : ℕ) → get q names ≡ some j → Names s.topic_ids j (P q))
      → (q : Bytes) (j : ℕ) → get q (remove name names) ≡ some j
      → Names (remove id s.topic_ids) j (P q)
  Names-forget P names name distinct only old q j h = elim (Bool-cases (bytes_eq.beq q name)) [
    | inl this ↦ none_not_some {a = j} (ground (arith, get-remove q name names distinct))
    | inr other ↦
        let was : get q names ≡ some j = ground (arith, get-remove q name names distinct) in
        Names-remove (P q) j (λ own. ground (arith, only q own, bytes_eq.beq_iff q name))
          (old q j was)
  ]

  forget-IsDistinct : (o : Option Bytes) → IsDistinct (forget o s.pubsub_topics)
  forget-IsDistinct none = v.distinct_pubsub
  forget-IsDistinct (some p) = remove-IsDistinct p s.pubsub_topics v.distinct_pubsub

  forget-Names :
      (o : Option Bytes)
      → info.pubsub ≡ o
      → (p : Bytes) (j : ℕ) → get p (forget o s.pubsub_topics) ≡ some j
      → Names (remove id s.topic_ids) j (λ i. i.pubsub ≡ some p)
  forget-Names none e p j h =
      Names-remove (λ i. i.pubsub ≡ some p) j (λ own. none_not_some (sym e ∙ own))
        (v.subscribed p j h)
  forget-Names (some q) e p j h =
      Names-forget (λ p i. i.pubsub ≡ some p) s.pubsub_topics q v.distinct_pubsub
        (λ p own. some_injective (sym own ∙ e)) v.subscribed p j h

  leave-IsSound : IsSound (leave id (some info) s).socket
  unfolding leave
  leave-IsSound = record {
    positive = v.positive;
    bounded = v.bounded;
    distinct_topics = remove-IsDistinct info.topic s.topics v.distinct_topics;
    distinct_ids = remove-IsDistinct id s.topic_ids v.distinct_ids;
    distinct_pubsub = forget-IsDistinct info.pubsub;
    used = λ j i h. v.used j i (ground (arith, get-remove j id s.topic_ids v.distinct_ids));
    named =
        Names-forget (λ t i. i.topic ≡ t) s.topics info.topic v.distinct_topics (λ t own. sym own)
          v.named;
    subscribed = forget-Names info.pubsub refl;
  }

pub handle_leave-IsSound : (id : ℕ) (s : Socket) → IsSound s → IsSound (handle_leave id s).socket
unfolding handle_leave
handle_leave-IsSound id s v = elim (Option-cases (get id s.topic_ids)) [
  | inl absent ↦ rw absent v
  | inr (info, held) ↦ rw held (leave-IsSound s v id info held)
]

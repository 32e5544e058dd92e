-- ===== src/Orset/Fresh.antt =====
-- crates/mercury-crdt/src/orset.rs: the dots of the entries and the counters of the nodes.
use mercury_messaging.Base.{
  ℕ, ◌+◌, ◌≤◌, ◌<◌, ◌≡◌, ◌⊎◌, sym, ◌∙◌, refl, [], Option, none, some, max, arith, done, Build,
  u64_mod, get_or, if◌then◌else◌, Option-cases, inl, inr,
}
use mercury_messaging.Join.{join, Holds}
use mercury_messaging.Order.{nat_ord, list_ord, same, eq_of_same, same_self}
use mercury_messaging.BTree
use mercury_messaging.BTree.{IsSorted}
use mercury_messaging.BTree.Lookup.{get-insert}
use mercury_messaging.HashMap.Bytes.{bytes_eq}
use mercury_messaging.HashMap.{Eq, get, upsert}
use mercury_messaging.HashMap.Lookup.{get-upsert, get-remove}
use mercury_messaging.HashMap.Merge.{get-absorb}
use mercury_messaging.Hlc.{Bytes16}
use mercury_messaging.Orset.Dots.{Dot, Dots, dot_ord, union, get-union}
use mercury_messaging.Orset.Defs.{OrSet, add, remove, merge}
use mercury_messaging.Orset.Laws.{IsWellFormed}
use mercury_messaging.Orset.Members.{add-eq-done}

-- How many dots a node has given out.
abbrev pub seq_of {ℓ} : {T : Type ℓ} → Bytes16 → OrSet T → ℕ
seq_of node s = get_or (get node s.next_seq) 0

join_sources :
    (x y : Option (Unit {0})) → join tt (λ _ _. tt) x y ≡ some tt → (x ≡ some tt) ⊎ (y ≡ some tt)
join_sources x none h = inl h
join_sources x (some tt') h = inr refl

pub IsSorted-of :
    (x : Option Dots) → Holds (λ (dots : Dots). IsSorted dots) x → IsSorted (get_or x [])
IsSorted-of none h = tt
IsSorted-of (some dots) h = h

module _ {ℓ} {T : Type ℓ} ⦃e : Eq T⦄ where
  -- The dot stands in the entry of the value.
  abbrev pub HasDot : OrSet T → T → Dot → Type 0
  HasDot s value dot = BTree.get dot (get_or (get value s.entries) []) ≡ some tt

  -- No dot is above the counter of its node.
  abbrev pub IsTagged : OrSet T → Type ℓ
  IsTagged s = (value : T) (dot : Dot) → HasDot s value dot → dot.seq ≤ seq_of dot.node_id s

  module _ (build : Build) (value : T) (node_id : Bytes16) (s s' : OrSet T)
      (room : seq_of node_id s + 1 < u64_mod) (added : add build value node_id s ≡ done s') where
    abbrev pub new_dot : Dot
    new_dot = record { node_id = node_id; seq = seq_of node_id s + 1 }

    add_writes :
        (s'.entries ≡ upsert value [] (BTree.insert new_dot tt) s.entries)
        × (s'.next_seq ≡ upsert node_id 0 (λ _. seq_of node_id s + 1) s.next_seq)
    add_writes =
        let (seq, sum, entries, next_seq) = add-eq-done build value node_id s s' added in
        let count : seq ≡ seq_of node_id s + 1 = ground arith in
        (rw (← count) entries, rw (← count) next_seq)

    -- What an `add` changes: the value has the new dot, and every other entry its old dots.
    pub HasDot-add :
        (q : T) (dot : Dot)
        → BTree.get dot (get_or (get q s'.entries) []) ≡ (
            if e.beq q value
            then (if same dot new_dot
                then some tt
                else BTree.get dot (get_or (get value s.entries) []))
            else BTree.get dot (get_or (get q s.entries) []))
    HasDot-add q dot = rw (add_writes.0) (
        ground (
          arith,
          get-upsert q value [] (BTree.insert new_dot tt) s.entries,
          get-insert dot new_dot tt (get_or (get value s.entries) []),
        ))

    pub seq_of-add :
        (node : Bytes16)
        → seq_of node s' ≡ (if same node node_id then seq_of node_id s + 1 else seq_of node s)
    seq_of-add node =
        rw (add_writes.1)
          (ground (arith, get-upsert node node_id 0 (λ _. seq_of node_id s + 1) s.next_seq))

    -- An `add` keeps the bound on the dots.
    pub add-IsTagged : IsTagged s → IsTagged s'
    add-IsTagged v q dot h = ground (
      arith,
      HasDot-add q dot,
      seq_of-add dot.node_id,
      v value dot,
      v q dot,
      eq_of_same dot new_dot,
      same_self node_id,
      eq_of_same dot.node_id node_id,
    )

    -- Let no dot of a set be above the counter of its node, let the counter of a node be
    -- below its last value, and let an add for that node return. Then the dot with the
    -- next number was in no entry, it is in the entry of the value afterwards, and again
    -- no dot is above the counter of its node.
    pub add_fresh :
        IsTagged s
        → ((other : T) → ¬ HasDot s other new_dot) × HasDot s' value new_dot × IsTagged s'
    add_fresh v = (
      λ other h. let bound = v other new_dot h in omega arith,
      ground (arith, HasDot-add value new_dot, e.beq_iff value value, same_self new_dot),
      add-IsTagged v,
    )

  -- A `remove` keeps the bound on the dots.
  pub remove-IsTagged :
      (value : T) (s : OrSet T) → IsWellFormed s → IsTagged s → IsTagged (remove value s)
  unfolding remove BTree.get
  remove-IsTagged value s w v q dot h =
      ground (arith, get-remove q value s.entries w.distinct, v q dot)

  entry-merge :
      (a b : OrSet T) (q : T)
      → IsWellFormed b
      → get_or (get q (merge a b).entries) []
        ≡ union (get_or (get q a.entries) []) (get_or (get q b.entries) [])
  unfolding merge union BTree.absorb
  entry-merge a b q w = elim (Option-cases (get q b.entries)) [
    | inl none_there ↦ rw (get-absorb [] union a.entries b.entries q w.distinct, none_there) refl
    | inr (dots, there) ↦ rw (get-absorb [] union a.entries b.entries q w.distinct, there) refl
  ]

  pub HasDot-merge :
      (a b : OrSet T) (q : T) (dot : Dot)
      → IsWellFormed b
      → HasDot (merge a b) q dot
      → HasDot a q dot ⊎ HasDot b q dot
  HasDot-merge a b q dot w h =
      let x = get_or (get q a.entries) [] in
      let y = get_or (get q b.entries) [] in
      let joined : BTree.get dot (union x y) ≡ some tt = rw entry-merge at h in
      join_sources (BTree.get dot x) (BTree.get dot y)
        (sym (get-union x y dot (IsSorted-of (get q b.entries) (w.sorted q))) ∙ joined)

  pub seq_of-merge :
      (a b : OrSet T) (node : Bytes16)
      → IsWellFormed b
      → seq_of node (merge a b) ≡ max (seq_of node a) (seq_of node b)
  unfolding merge
  seq_of-merge a b node w =
      ground (arith, get-absorb 0 max a.next_seq b.next_seq node w.distinct_seq)

  -- If the other set is well-formed and in both sets no dot is above the counter of its
  -- node, then so it is in their merge.
  pub merge-IsTagged :
      (a b : OrSet T) → IsWellFormed b → IsTagged a → IsTagged b → IsTagged (merge a b)
  merge-IsTagged a b w v u q dot h =
      ground (arith, HasDot-merge a b q dot w h, seq_of-merge a b dot.node_id w, v q dot, u q dot)

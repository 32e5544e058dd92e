-- ===== src/Gcounter/Laws.antt =====
-- crates/mercury-crdt/src/gcounter.rs: `merge` and `increment`, slot by slot.
use mercury_messaging.Base.{
  ℕ, ◌≡◌, refl, max, get_or, arith, done, Build, u64_mod, add_word, >>=-eq-done,
}
use mercury_messaging.Join.{IsJoin, Holds-of_all}
use mercury_messaging.Order.{nat_ord, list_ord}
use mercury_messaging.BTree.{BTreeMap, IsSorted, get, insert}
use mercury_messaging.BTree.Sorted.{insert-IsSorted, absorb-IsSorted}
use mercury_messaging.BTree.Merge.{Values, get-absorb, absorb_comm, absorb_assoc, absorb_idem}
use mercury_messaging.Mergeable.{Mergeable, IsLawful}
use mercury_messaging.Hlc.{Bytes16}
use mercury_messaging.Gcounter.{GCounter, increment, merge}

-- Every number is a count.
abbrev pub Count : ℕ → Type 0
Count n = Unit

pub max-IsJoin : IsJoin Count 0 max
max-IsJoin = record {
  unit = λ v p. omega arith;
  comm = λ a b p q. omega arith;
  assoc = λ a b c p q r. omega arith;
  idem = λ a p. omega arith;
  closed = λ a b p q. tt;
  unit_holds = tt;
}

counts-Values : (m : BTreeMap Bytes16 ℕ) → Values Count m
counts-Values m q = Holds-of_all Count (λ v. tt) (get q m)

abbrev pub IsValid : GCounter → Type 0
IsValid c = IsSorted c.counts

-- What a node has counted.
abbrev pub slot : Bytes16 → GCounter → ℕ
slot node c = get_or (get node c.counts) 0

instance abbrev pub gcounter_mergeable : Mergeable {0, 0, 0} GCounter
gcounter_mergeable = record { merge = merge; Valid = IsValid; Same = λ a b. a ≡ b }

-- An increment that returns has written one slot.
pub increment-eq-done :
    (build : Build) (node : Bytes16) (c c' : GCounter)
    → increment build node c ≡ done c'
    → (n : ℕ) × (add_word build u64_mod (slot node c) 1 ≡ done n)
      × (c' ≡ record { counts = insert node n c.counts })
unfolding increment
increment-eq-done build node c c' e =
    let (n, sum, write) = >>=-eq-done (add_word build u64_mod (slot node c) 1) _ e in
    (n, sum, cc write)

pub increment-IsValid :
    (build : Build) (node : Bytes16) (c c' : GCounter)
    → IsValid c
    → increment build node c ≡ done c'
    → IsValid c'
increment-IsValid build node c c' v e =
    let (n, _, write) = increment-eq-done build node c c' e in
    rw write (insert-IsSorted node n c.counts v)

pub merge-IsValid : (a b : GCounter) → IsValid a → IsValid (merge a b)
unfolding merge
merge-IsValid a b v = absorb-IsSorted 0 max a.counts b.counts v

-- Each slot of a merge is the greater of the two.
pub slot-merge :
    (node : Bytes16) (a b : GCounter)
    → IsValid b
    → slot node (merge a b) ≡ max (slot node a) (slot node b)
unfolding merge
slot-merge node a b v = ground (arith, get-absorb 0 max a.counts b.counts node v)

-- Among counters whose slots are in order, merge gives such a counter and is commutative,
-- associative and idempotent.
pub gcounter-IsLawful : IsLawful gcounter_mergeable
unfolding merge
gcounter-IsLawful = record {
  same_refl = λ a. refl;
  same_sym = λ a b p. cc;
  same_trans = λ a b c p q. cc;
  congruent = λ a a' b b' _ _ _ _ p q. cc;
  closed = λ a b v _. merge-IsValid a b v;
  commutative = λ a b v w.
      cc (absorb_comm max-IsJoin a.counts b.counts v w (counts-Values _) (counts-Values _));
  associative = λ a b c v w u. cc (
      absorb_assoc max-IsJoin a.counts b.counts c.counts v w u (counts-Values _) (counts-Values _)
        (counts-Values _));
  idempotent = λ a v. cc (absorb_idem max-IsJoin a.counts v (counts-Values _));
}

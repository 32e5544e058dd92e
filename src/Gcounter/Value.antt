-- ===== src/Gcounter/Value.antt =====
-- crates/mercury-crdt/src/gcounter.rs: `value`, and the sum of the slots.
use mercury_messaging.Base.{
  ℕ, ◌+◌, ◌≤◌, ◌<◌, ◌%◌, ◌≡◌, max, get_or, [], ◌∷◌, arith, done, panic, Build, debug, release,
  u64_mod, if◌then◌else◌, ltb,
}
use mercury_messaging.Order.{Ord, nat_ord, list_ord, same, eq_of_same}
use mercury_messaging.BTree.{BTreeMap, IsSorted, get, insert, upsert, absorb}
use mercury_messaging.BTree.Lookup.{get-insert, get_of_Above, Above-trans}
use mercury_messaging.BTree.Sorted.{insert-IsSorted}
use native.Mathlib.Nat.{zero-add}
use mercury_messaging.Hlc.{Bytes16}
use mercury_messaging.Gcounter.{GCounter, increment, merge, value, sum_values}
use mercury_messaging.Gcounter.Laws.{IsValid, slot, increment-eq-done, gcounter-IsLawful}

-- The sum of the slots, with no width.
pub sum_of {ℓ} : {K : Type ℓ} → BTreeMap K ℕ → ℕ
sum_of [] = 0
sum_of ((node, count) ∷ counts) = count + sum_of counts

pub total : GCounter → ℕ
unfolding sum_of
total c = sum_of c.counts

sum_values-release :
    (acc : ℕ) (m : BTreeMap Bytes16 ℕ)
    → acc < u64_mod
    → sum_values release acc m ≡ done ((acc + sum_of m) % u64_mod)
unfolding sum_values sum_of
sum_values-release acc [] h = ground arith
sum_values-release acc ((node, count) ∷ m) h =
    ground
      (arith, sum_values-release (acc + count) m, sum_values-release ((acc + count) % u64_mod) m)

sum_values-debug :
    (acc : ℕ) (m : BTreeMap Bytes16 ℕ)
    → acc < u64_mod
    → sum_values debug acc m
      ≡ (if ltb (acc + sum_of m) u64_mod then done (acc + sum_of m) else panic)
unfolding sum_values sum_of
sum_values-debug acc [] h = ground arith
sum_values-debug acc ((node, count) ∷ m) h = ground (arith, sum_values-debug (acc + count) m)

module _ {ℓ} {K : Type ℓ} ⦃o : Ord K⦄ where
  sum_of-insert :
      (node : K) (n : ℕ) (m : BTreeMap K ℕ)
      → IsSorted m
      → sum_of (insert node n m) + get_or (get node m) 0 ≡ sum_of m + n
  unfolding sum_of insert get
  sum_of-insert node n [] s = omega arith
  sum_of-insert node n ((j, w) ∷ m) s =
      ground (arith, sum_of-insert node n m s.1, get_of_Above node m, Above-trans node j m)

  -- Taking greater slots over from another replica lowers no sum.
  sum_of-le-absorb :
      (m other : BTreeMap K ℕ) → IsSorted m → sum_of m ≤ sum_of (absorb 0 max m other)
  unfolding absorb upsert
  sum_of-le-absorb m [] s = omega arith
  sum_of-le-absorb m ((k, v) ∷ other) s =
      let n = max (get_or (get k m) 0) v in
      omega (
        arith,
        sum_of-insert k n m s,
        sum_of-le-absorb (insert k n m) other (insert-IsSorted k n m s),
      )

-- In a debug build, value is the sum of the slots, or a panic exactly if the sum does not fit
-- 64 bits.
pub value_debug :
    (c : GCounter) → value debug c ≡ (if ltb (total c) u64_mod then done (total c) else panic)
unfolding value total
value_debug c = rw (sum_values-debug 0 c.counts (omega arith), zero-add)

-- `value` in a release build: the sum of the slots modulo 2 ^ 64, with no panic.
pub value_release : (c : GCounter) → value release c ≡ done (total c % u64_mod)
unfolding value total
value_release c = rw (sum_values-release 0 c.counts (omega arith), zero-add)

slot-insert :
    (node q : Bytes16) (c : GCounter)
    → get_or (get q (insert node (slot node c + 1) c.counts)) 0
      ≡ (if same q node then slot q c + 1 else slot q c)
slot-insert node q c =
    ground (arith, get-insert q node (slot node c + 1) c.counts, eq_of_same q node)

-- If the slots of a counter are in order and the slot of a node is below its last value, then
-- an increment for that node that returns raises that slot and the sum of the slots by one,
-- and changes no other slot.
pub increment_lem :
    (build : Build) (node : Bytes16) (c c' : GCounter)
    → IsValid c
    → slot node c + 1 < u64_mod
    → increment build node c ≡ done c'
    → (total c' ≡ total c + 1)
      × ((q : Bytes16) → slot q c' ≡ (if same q node then slot q c + 1 else slot q c))
unfolding total
increment_lem build node c c' v fits e =
    let (n, sum, write) = increment-eq-done build node c c' e in
    let counted : n ≡ slot node c + 1 = ground arith in
    (
      rw write (omega (arith, sum_of-insert node n c.counts v)),
      λ q. rw (write, counted) (slot-insert node q c),
    )

total-le-merge_left : (a b : GCounter) → IsValid a → total a ≤ total (merge a b)
unfolding total merge
total-le-merge_left a b v = sum_of-le-absorb a.counts b.counts v

-- Merging loses no count: if the slots of both counters are in order, then the sum of the
-- slots of the merge is at least that of each of the two.
pub total-le-merge :
    (a b : GCounter)
    → IsValid a
    → IsValid b
    → (total a ≤ total (merge a b)) × (total b ≤ total (merge a b))
total-le-merge a b v w = (
  total-le-merge_left a b v,
  rw (gcounter-IsLawful.commutative a b v w) (total-le-merge_left b a w),
)

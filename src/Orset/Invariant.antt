-- ===== src/Orset/Invariant.antt =====
-- crates/mercury-crdt/src/orset.rs: what the types of the fields guarantee.
use mercury_messaging.Base.{◌≡◌, inl, inr, [], done, Build, Bool-cases, get_or}
use mercury_messaging.BTree
use mercury_messaging.BTree.{IsSorted}
use mercury_messaging.BTree.Sorted.{insert-IsSorted}
use mercury_messaging.HashMap
use mercury_messaging.HashMap.{Eq, HashMap, IsDistinct, get, upsert}
use mercury_messaging.HashMap.Bytes.{bytes_eq}
use mercury_messaging.HashMap.Lookup.{get-upsert, get-remove, upsert-IsDistinct, remove-IsDistinct}
use mercury_messaging.HashMap.Merge.{Values}
use mercury_messaging.Hlc.{Bytes16}
use mercury_messaging.Orset.Dots.{Dot, Dots, dot_ord}
use mercury_messaging.Orset.Defs.{OrSet, new, add, remove}
use mercury_messaging.Orset.Laws.{IsWellFormed}
use mercury_messaging.Orset.Members.{add-eq-done}
use mercury_messaging.Orset.Fresh.{IsSorted-of}

module _ {ℓ} {T : Type ℓ} ⦃e : Eq T⦄ where
  pub new-IsWellFormed : IsWellFormed (new {T = T})
  unfolding new get
  new-IsWellFormed = record { distinct = tt; sorted = λ q. tt; distinct_seq = tt }

  Values-insert :
      (value : T) (dot : Dot) (m : HashMap T Dots)
      → Values (λ (dots : Dots). IsSorted dots) m
      → Values (λ (dots : Dots). IsSorted dots) (upsert value [] (BTree.insert dot tt) m)
  Values-insert value dot m v q = elim (Bool-cases (e.beq q value)) [
    | inl own ↦
        rw (get-upsert q value [] (BTree.insert dot tt) m, own)
          (insert-IsSorted dot tt (get_or (get value m) []) (IsSorted-of (get value m) (v value)))
    | inr other ↦ rw (get-upsert q value [] (BTree.insert dot tt) m, other) (v q)
  ]

  -- An add to a well-formed set that returns gives a well-formed set: distinct keys in both
  -- hash maps, and dots in order.
  pub add-IsWellFormed :
      (build : Build) (value : T) (node_id : Bytes16) (s s' : OrSet T)
      → IsWellFormed s
      → add build value node_id s ≡ done s'
      → IsWellFormed s'
  add-IsWellFormed build value node_id s s' v h =
      let (seq, _, entries, next_seq) = add-eq-done build value node_id s s' h in
      record {
        distinct = rw entries (upsert-IsDistinct value [] _ s.entries v.distinct);
        sorted = rw entries (Values-insert value _ s.entries v.sorted);
        distinct_seq = rw next_seq (upsert-IsDistinct node_id 0 _ s.next_seq v.distinct_seq);
      }

  Values-remove :
      (value : T) (m : HashMap T Dots)
      → IsDistinct m
      → Values (λ (dots : Dots). IsSorted dots) m
      → Values (λ (dots : Dots). IsSorted dots) (HashMap.remove value m)
  Values-remove value m s v q = elim (Bool-cases (e.beq q value)) [
    | inl own ↦ rw (get-remove q value m s, own) tt
    | inr other ↦ rw (get-remove q value m s, other) (v q)
  ]

  -- A `remove` keeps it too.
  pub remove-IsWellFormed :
      (value : T) (s : OrSet T) → IsWellFormed s → IsWellFormed (remove value s)
  unfolding remove
  remove-IsWellFormed value s v = record {
    distinct = remove-IsDistinct value s.entries v.distinct;
    sorted = Values-remove value s.entries v.distinct v.sorted;
    distinct_seq = v.distinct_seq;
  }

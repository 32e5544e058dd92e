-- ===== src/Orset/Members.antt =====
-- crates/mercury-crdt/src/orset.rs: `contains` after `add`, `remove` and `merge`.
use mercury_messaging.Base.{
  ℕ, ◌≡◌, refl, [], ◌∷◌, true, not, ◌&&◌, ◌||◌, arith, done, Build, add_word, u64_mod, get_or,
  >>=-eq-done,
}
use mercury_messaging.BTree
use mercury_messaging.BTree.{IsSorted}
use mercury_messaging.HashMap.Bytes.{bytes_eq}
use mercury_messaging.HashMap.{Eq, get, upsert}
use mercury_messaging.HashMap.Lookup.{get-upsert, get-remove}
use mercury_messaging.HashMap.Merge.{get-absorb}
use mercury_messaging.Hlc.{Bytes16}
use mercury_messaging.Orset.Dots.{Dot, Dots, dot_ord, union}
use mercury_messaging.Orset.Defs.{OrSet, any_dots, add, remove, contains, merge}
use mercury_messaging.Orset.Laws.{IsWellFormed}

any_dots-insert : (d : Dot) (dots : Dots) → any_dots (BTree.insert d tt dots) ≡ true
unfolding BTree.insert
any_dots-insert d [] = refl
any_dots-insert d ((c, u) ∷ dots) = ground arith

any_dots-union : (a b : Dots) → any_dots (union a b) ≡ (any_dots a || any_dots b)
unfolding union BTree.absorb BTree.upsert
any_dots-union a [] = ground arith
any_dots-union a ((d, u) ∷ b) =
    ground (arith, any_dots-union (BTree.insert d tt a) b, any_dots-insert d a)

module _ {ℓ} {T : Type ℓ} ⦃e : Eq T⦄ where
  -- An `add` that returns has inserted one new dot for the value, and counted it.
  pub add-eq-done :
      (build : Build) (value : T) (node_id : Bytes16) (s s' : OrSet T)
      → add build value node_id s ≡ done s'
      → (seq : ℕ) × (add_word build u64_mod (get_or (get node_id s.next_seq) 0) 1 ≡ done seq)
        × (s'.entries
            ≡ upsert value [] (BTree.insert (record { node_id = node_id; seq = seq }) tt) s.entries)
        × (s'.next_seq ≡ upsert node_id 0 (λ _. seq) s.next_seq)
  unfolding add
  add-eq-done build value node_id s s' h =
      let (seq, sum, written) =
        >>=-eq-done (add_word build u64_mod (get_or (get node_id s.next_seq) 0) 1) _ h in
      (seq, sum, cc written, cc written)

  -- After an `add` that returns, the set contains the value, and what it contained before.
  pub contains-add :
      (build : Build) (value : T) (node_id : Bytes16) (s s' : OrSet T) (q : T)
      → add build value node_id s ≡ done s'
      → contains q s' ≡ (e.beq q value || contains q s)
  unfolding contains
  contains-add build value node_id s s' q h =
      let (seq, _, entries, _) = add-eq-done build value node_id s s' h in
      let dot : Dot = record { node_id = node_id; seq = seq } in
      rw entries (
        ground (
          arith,
          get-upsert q value [] (BTree.insert dot tt) s.entries,
          any_dots-insert dot (get_or (get value s.entries) []),
        ))

  -- After a `remove` the set does not contain the value, and contains the others that it did.
  pub contains-remove :
      (value q : T) (s : OrSet T)
      → IsWellFormed s
      → contains q (remove value s) ≡ (not (e.beq q value) && contains q s)
  unfolding contains remove
  contains-remove value q s v = ground (arith, get-remove q value s.entries v.distinct)

  -- If the other set is well-formed, a merge contains exactly the values that one of the two
  -- sets contains.
  pub contains-merge :
      (a b : OrSet T) (q : T)
      → IsWellFormed b
      → contains q (merge a b) ≡ (contains q a || contains q b)
  unfolding contains merge
  contains-merge a b q w = ground (
    arith,
    get-absorb [] union a.entries b.entries q w.distinct,
    any_dots-union (get_or (get q a.entries) []) (get_or (get q b.entries) []),
  )

  -- No removal survives a merge: of two well-formed sets, whether a value is in the merge of
  -- the one that has removed it with the other depends on the other alone.
  pub contains-merge-remove :
      (a b : OrSet T) (value : T)
      → IsWellFormed a
      → IsWellFormed b
      → contains value (merge (remove value a) b) ≡ contains value b
  contains-merge-remove a b value v w = ground (
    arith,
    contains-merge (remove value a) b value w,
    contains-remove value value a v,
    e.beq_iff value value,
  )

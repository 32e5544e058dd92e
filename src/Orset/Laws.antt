-- ===== src/Orset/Laws.antt =====
-- crates/mercury-crdt/src/orset.rs: `merge`, and the equality of its hash maps.
use mercury_messaging.Base.{ℕ, refl, sym, ◌∙◌, max, []}
use mercury_messaging.Join.{Holds-of_all}
use mercury_messaging.BTree.{IsSorted}
use mercury_messaging.HashMap.Bytes.{bytes_eq}
use mercury_messaging.HashMap.{Eq, HashMap, IsDistinct, Same, get}
use mercury_messaging.HashMap.Lookup.{absorb-IsDistinct}
use mercury_messaging.HashMap.Merge.{
  Values, absorb-Same, absorb-Values, absorb_comm, absorb_assoc, absorb_idem,
}
use mercury_messaging.Mergeable.{Mergeable, IsLawful}
use mercury_messaging.Hlc.{Bytes16}
use mercury_messaging.Gcounter.Laws.{Count, max-IsJoin}
use mercury_messaging.Orset.Dots.{Dots, dot_ord, union, union-IsJoin}
use mercury_messaging.Orset.Defs.{OrSet, merge}

seqs-Values : (m : HashMap Bytes16 ℕ) → Values Count m
seqs-Values m q = Holds-of_all Count (λ v. tt) (get q m)

module _ {ℓ} {T : Type ℓ} ⦃e : Eq T⦄ where
  -- The keys of both maps are distinct, and the sets of dots are sets.
  pub record IsWellFormed (s : OrSet T) : Type ℓ where
    pub distinct : IsDistinct s.entries
    pub sorted : Values (λ (dots : Dots). IsSorted dots) s.entries
    pub distinct_seq : IsDistinct s.next_seq

  -- `==`: the same dots for each value, and the same counter for each node.
  pub record SameSet (a b : OrSet T) : Type ℓ where
    pub same_entries : Same a.entries b.entries
    pub same_seq : Same a.next_seq b.next_seq

  abbrev pub orset_mergeable : Mergeable {ℓ, ℓ, ℓ} (OrSet T)
  orset_mergeable = record { merge = merge; Valid = IsWellFormed; Same = SameSet }

  pub merge-IsWellFormed :
      (a b : OrSet T) → IsWellFormed a → IsWellFormed b → IsWellFormed (merge a b)
  unfolding merge
  merge-IsWellFormed a b v w = record {
    distinct = absorb-IsDistinct [] union a.entries b.entries v.distinct;
    sorted = absorb-Values union-IsJoin a.entries b.entries w.distinct v.sorted w.sorted;
    distinct_seq = absorb-IsDistinct 0 max a.next_seq b.next_seq v.distinct_seq;
  }

  merge_comm : (a b : OrSet T) → IsWellFormed a → IsWellFormed b → SameSet (merge a b) (merge b a)
  unfolding merge
  merge_comm a b v w = record {
    same_entries =
        absorb_comm union-IsJoin a.entries b.entries v.distinct w.distinct v.sorted w.sorted;
    same_seq =
        absorb_comm max-IsJoin a.next_seq b.next_seq v.distinct_seq w.distinct_seq
          (seqs-Values a.next_seq) (seqs-Values b.next_seq);
  }

  merge_assoc :
      (a b c : OrSet T)
      → IsWellFormed a
      → IsWellFormed b
      → IsWellFormed c
      → SameSet (merge (merge a b) c) (merge a (merge b c))
  unfolding merge
  merge_assoc a b c v w x =
      let bc = merge-IsWellFormed b c w x in
      record {
        same_entries =
            absorb_assoc union-IsJoin a.entries b.entries c.entries w.distinct x.distinct
              bc.distinct v.sorted w.sorted x.sorted;
        same_seq =
            absorb_assoc max-IsJoin a.next_seq b.next_seq c.next_seq w.distinct_seq x.distinct_seq
              bc.distinct_seq (seqs-Values a.next_seq) (seqs-Values b.next_seq)
              (seqs-Values c.next_seq);
      }

  merge_idem : (a : OrSet T) → IsWellFormed a → SameSet (merge a a) a
  unfolding merge
  merge_idem a v = record {
    same_entries = absorb_idem union-IsJoin a.entries v.distinct v.sorted;
    same_seq = absorb_idem max-IsJoin a.next_seq v.distinct_seq (seqs-Values a.next_seq);
  }

  merge_congruent :
      (a a' b b' : OrSet T)
      → IsWellFormed a
      → IsWellFormed a'
      → IsWellFormed b
      → IsWellFormed b'
      → SameSet a a'
      → SameSet b b'
      → SameSet (merge a b) (merge a' b')
  unfolding merge
  merge_congruent a a' b b' v v' w w' p q = record {
    same_entries =
        absorb-Same [] union a.entries a'.entries b.entries b'.entries w.distinct w'.distinct
          p.same_entries q.same_entries;
    same_seq =
        absorb-Same 0 max a.next_seq a'.next_seq b.next_seq b'.next_seq w.distinct_seq
          w'.distinct_seq p.same_seq q.same_seq;
  }

  -- Among well-formed sets, merge gives a well-formed set and is commutative, associative
  -- and idempotent, up to the equality of the hash maps, which merge respects.
  pub orset-IsLawful : IsLawful orset_mergeable
  orset-IsLawful = record {
    same_refl = λ a. record { same_entries = λ q. refl; same_seq = λ q. refl };
    same_sym = λ a b p. record {
      same_entries = λ q. sym (p.same_entries q);
      same_seq = λ q. sym (p.same_seq q);
    };
    same_trans = λ a b c p q. record {
      same_entries = λ k. p.same_entries k ∙ q.same_entries k;
      same_seq = λ k. p.same_seq k ∙ q.same_seq k;
    };
    congruent = merge_congruent;
    closed = merge-IsWellFormed;
    commutative = merge_comm;
    associative = merge_assoc;
    idempotent = merge_idem;
  }

-- ===== src/Tests/Sets.antt =====
-- Replicas of a counter and of a set.
use mercury_messaging.Base.{ℕ, ◌+◌, ◌≡◌, refl, arith, List, [], ◌∷◌, done, release, if◌then◌else◌}
use mercury_messaging.Order.{same, nat_ord, list_ord}
use mercury_messaging.BTree
use mercury_messaging.BTree.{IsSorted}
use mercury_messaging.HashMap
use mercury_messaging.HashMap.{Eq}
use mercury_messaging.HashMap.Bytes.{bytes_eq}
use mercury_messaging.Mergeable.{IsLawful}
use mercury_messaging.Gcounter.{GCounter, increment, value}
use mercury_messaging.Gcounter.Laws.{slot, gcounter_mergeable}
use mercury_messaging.Gcounter.Value.{total, increment_lem}
use mercury_messaging.Orset.Dots.{Dots, dot_ord}
use mercury_messaging.Orset.Defs
use mercury_messaging.Orset.Defs.{OrSet, add, remove, contains, merge, elements, live_keys}
use mercury_messaging.Orset.Laws.{IsWellFormed, orset_mergeable, orset-IsLawful}
use mercury_messaging.Orset.Members.{contains-merge-remove}
use mercury_messaging.Orset.Fresh.{HasDot, IsTagged, add_fresh, add-IsTagged}
use mercury_messaging.Orset.Invariant.{new-IsWellFormed, add-IsWellFormed}
use mercury_messaging.Tests.Clocks.{node_a, node_b}

abbrev counter_a : GCounter
counter_a = record { counts = (node_a, 3) ∷ [] }

abbrev counter_b : GCounter
counter_b = record { counts = (node_a, 1) ∷ (node_b, 2) ∷ [] }

increment_run : increment release node_a counter_a ≡ done (record { counts = (node_a, 4) ∷ [] })
unfolding increment BTree.get BTree.insert list_ord nat_ord
increment_run = refl

counter_b-IsSorted : IsSorted counter_b.counts
unfolding list_ord nat_ord
counter_b-IsSorted = ((refl, tt), (tt, tt))

increment_lem_example :
    (total (record { counts = (node_a, 4) ∷ [] }) ≡ total counter_a + 1)
    × ((q : List ℕ)
        → slot q (record { counts = (node_a, 4) ∷ [] })
          ≡ (if same q node_a then slot q counter_a + 1 else slot q counter_a))
unfolding BTree.get list_ord nat_ord
increment_lem_example =
    increment_lem release node_a counter_a (record { counts = (node_a, 4) ∷ [] }) (tt, tt)
      (omega arith) increment_run

abbrev pub word : List ℕ
word = 104 ∷ 105 ∷ []

abbrev pub other_word : List ℕ
other_word = 120 ∷ []

abbrev dots_of : List ℕ → ℕ → Dots
dots_of node seq = (record { node_id = node; seq = seq }, tt) ∷ []

abbrev pub set_a : OrSet (List ℕ)
set_a = record { entries = (word, dots_of node_a 1) ∷ []; next_seq = (node_a, 1) ∷ [] }

abbrev set_b : OrSet (List ℕ)
set_b = record { entries = (other_word, dots_of node_b 1) ∷ []; next_seq = (node_b, 1) ∷ [] }

pub add_run_a : add release word node_a Defs.new ≡ done set_a
unfolding add Defs.new BTree.insert HashMap.get HashMap.upsert dot_ord
add_run_a = refl

add_run_b : add release other_word node_b Defs.new ≡ done set_b
unfolding add Defs.new BTree.insert HashMap.get HashMap.upsert dot_ord
add_run_b = refl

pub set_a-IsWellFormed : IsWellFormed set_a
set_a-IsWellFormed = add-IsWellFormed release word node_a Defs.new set_a new-IsWellFormed add_run_a

pub set_b-IsWellFormed : IsWellFormed set_b
set_b-IsWellFormed =
    add-IsWellFormed release other_word node_b Defs.new set_b new-IsWellFormed add_run_b

contains-merge-remove_example :
    contains word (merge (remove word set_a) set_a) ≡ contains word set_a
contains-merge-remove_example =
    contains-merge-remove set_a set_a word set_a-IsWellFormed set_a-IsWellFormed

new-IsTagged : IsTagged (Defs.new {T = List ℕ})
unfolding Defs.new HashMap.get BTree.get
new-IsTagged value dot h = cc

set_a-IsTagged : IsTagged set_a
unfolding Defs.new HashMap.get
set_a-IsTagged =
    add-IsTagged release word node_a Defs.new set_a (omega arith) add_run_a new-IsTagged

set_b-IsTagged : IsTagged set_b
unfolding Defs.new HashMap.get
set_b-IsTagged =
    add-IsTagged release other_word node_b Defs.new set_b (omega arith) add_run_b new-IsTagged

-- The second dot of `node_a` is new.
abbrev pub set_a2 : OrSet (List ℕ)
set_a2 = record {
  entries = (word, dots_of node_a 1) ∷ (other_word, dots_of node_a 2) ∷ [];
  next_seq = (node_a, 2) ∷ [];
}

pub add_run_a2 : add release other_word node_a set_a ≡ done set_a2
unfolding add BTree.insert HashMap.get HashMap.upsert dot_ord list_ord nat_ord
add_run_a2 = refl

add_fresh_example :
    ((other : List ℕ) → ¬ HasDot set_a other (record { node_id = node_a; seq = 2 }))
    × HasDot set_a2 other_word (record { node_id = node_a; seq = 2 })
    × IsTagged set_a2
unfolding HashMap.get list_ord nat_ord
add_fresh_example =
    add_fresh release other_word node_a set_a set_a2 (omega arith) add_run_a2 set_a-IsTagged

orset-IsLawful_example : IsLawful (orset_mergeable {T = List ℕ})
orset-IsLawful_example = orset-IsLawful {T = List ℕ}

-- ===== src/Orset/Dots.antt =====
-- crates/mercury-crdt/src/orset.rs: the dots, their derived order, and the union of sets of
-- dots.
use mercury_messaging.Base.{ℕ, ◌≡◌, refl, Ordering, lt, eq, compare, arith, ◌∙◌, []}
use mercury_messaging.Order.{
  Ord, reverse, ordering_then, cmp_list, nat_ord, cmp_list_self, eq_of_cmp_list, cmp_list_swap,
  cmp_list_trans, compare_swap,
}
use mercury_messaging.Join.{IsJoin, join, join-none, Holds-of_all}
use mercury_messaging.BTree.{BTreeSet, IsSorted, get, absorb}
use mercury_messaging.BTree.Sorted.{IsSorted-ext, absorb-IsSorted}
use mercury_messaging.BTree.Merge.{Values, get-absorb, absorb_comm, absorb_assoc, absorb_idem}
use mercury_messaging.Hlc.{Bytes16}

-- The tag of one `add`.
pub record Dot : Type 0 where
  pub node_id : Bytes16
  pub seq : ℕ

-- The derived `Ord`: by `node_id`, then by `seq`.
unfoldable pub cmp_dot : Dot → Dot → Ordering
unfolding cmp_list nat_ord
cmp_dot a b = ordering_then (cmp_list a.node_id b.node_id) (compare a.seq b.seq)

pub cmp_dot_self : (a : Dot) → cmp_dot a a ≡ eq
unfolding cmp_dot
cmp_dot_self a = ground (arith, cmp_list_self a.node_id)

pub eq_of_cmp_dot : (a b : Dot) → cmp_dot a b ≡ eq → a ≡ b
unfolding cmp_dot
eq_of_cmp_dot a b h = ground (arith, eq_of_cmp_list a.node_id b.node_id)

pub cmp_dot_swap : (a b : Dot) → cmp_dot b a ≡ reverse (cmp_dot a b)
unfolding cmp_dot
cmp_dot_swap a b = ground (arith, compare_swap a.seq b.seq, cmp_list_swap a.node_id b.node_id)

pub cmp_dot_trans : (a b c : Dot) → cmp_dot a b ≡ lt → cmp_dot b c ≡ lt → cmp_dot a c ≡ lt
unfolding cmp_dot
cmp_dot_trans a b c h k = ground (
  arith,
  cmp_list_trans a.node_id b.node_id c.node_id,
  eq_of_cmp_list a.node_id b.node_id,
  eq_of_cmp_list b.node_id c.node_id,
  cmp_list_self b.node_id,
)

instance unfoldable pub dot_ord : Ord Dot
unfolding cmp_dot
dot_ord = record {
  cmp = cmp_dot;
  cmp_self = cmp_dot_self;
  eq_of_cmp = eq_of_cmp_dot;
  cmp_swap = cmp_dot_swap;
  lt_trans = cmp_dot_trans;
}

abbrev pub Dots : Type 0
Dots = BTreeSet Dot

-- `for dot in other_dots { dots.insert(*dot) }`
unfoldable pub union : Dots → Dots → Dots
union dots other = absorb tt (λ x y. tt) dots other

-- There is one element for a dot to be mapped to.
abbrev Present : Unit {0} → Type 0
Present u = Unit

unit-IsJoin : IsJoin Present tt (λ x y. tt)
unit-IsJoin = record {
  unit = λ v p. refl;
  comm = λ a b p q. refl;
  assoc = λ a b c p q r. refl;
  idem = λ a p. refl;
  closed = λ a b p q. tt;
  unit_holds = tt;
}

all-Present : (dots : Dots) → Values Present dots
all-Present dots q = Holds-of_all Present (λ v. tt) (get q dots)

pub union-IsSorted : (a b : Dots) → IsSorted a → IsSorted (union a b)
unfolding union
union-IsSorted a b s = absorb-IsSorted tt (λ x y. tt) a b s

pub get-union :
    (a b : Dots) (q : Dot)
    → IsSorted b
    → get q (union a b) ≡ join tt (λ x y. tt) (get q a) (get q b)
unfolding union
get-union a b q s = get-absorb tt (λ x y. tt) a b q s

union_empty : (a : Dots) → IsSorted a → union [] a ≡ a
unfolding union get
union_empty a s =
    IsSorted-ext (absorb tt (λ x y. tt) [] a) a (absorb-IsSorted tt (λ x y. tt) [] a tt) s
      λ q. get-absorb tt (λ x y. tt) [] a q s ∙ join-none unit-IsJoin (get q a) (all-Present a q)

-- Union is a join on sorted sets.
pub union-IsJoin : IsJoin (λ (dots : Dots). IsSorted dots) [] union
unfolding union
union-IsJoin = record {
  unit = union_empty;
  comm = λ a b s t. absorb_comm unit-IsJoin a b s t (all-Present a) (all-Present b);
  assoc = λ a b c s t u.
      absorb_assoc unit-IsJoin a b c s t u (all-Present a) (all-Present b) (all-Present c);
  idem = λ a s. absorb_idem unit-IsJoin a s (all-Present a);
  closed = λ a b s t. union-IsSorted a b s;
  unit_holds = tt;
}

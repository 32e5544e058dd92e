-- ===== src/Order/Instances.antt =====
-- The orders of `core` on integers, on slices and arrays (lexicographic), and on pairs.
use mercury_messaging.Base.{ℕ, ◌≡◌, refl, Ordering, lt, eq, gt, compare, List, [], ◌∷◌, arith}
use mercury_messaging.Order.Defs.{Ord, ordering_then, reverse}

pub compare_self : (a : ℕ) → compare a a ≡ eq
compare_self a = ground arith

pub eq_of_compare : (a b : ℕ) → compare a b ≡ eq → a ≡ b
eq_of_compare a b h = ground arith

pub compare_swap : (a b : ℕ) → compare b a ≡ reverse (compare a b)
compare_swap a b = ground arith

pub compare_trans : (a b c : ℕ) → compare a b ≡ lt → compare b c ≡ lt → compare a c ≡ lt
compare_trans a b c h k = ground arith

instance unfoldable pub nat_ord : Ord ℕ
nat_ord = record {
  cmp = compare;
  cmp_self = compare_self;
  eq_of_cmp = eq_of_compare;
  cmp_swap = compare_swap;
  lt_trans = compare_trans;
}

module _ {ℓ} {A : Type ℓ} ⦃o : Ord A⦄ where
  unfoldable pub cmp_list : List A → List A → Ordering
  cmp_list [] [] = eq
  cmp_list [] (y ∷ ys) = lt
  cmp_list (x ∷ xs) [] = gt
  cmp_list (x ∷ xs) (y ∷ ys) = ordering_then (o.cmp x y) (cmp_list xs ys)

  pub cmp_list_self : (xs : List A) → cmp_list xs xs ≡ eq
  unfolding cmp_list
  cmp_list_self [] = refl
  cmp_list_self (x ∷ xs) = ground (arith, o.cmp_self x, cmp_list_self xs)

  pub eq_of_cmp_list : (xs ys : List A) → cmp_list xs ys ≡ eq → xs ≡ ys
  unfolding cmp_list
  eq_of_cmp_list [] [] h = refl
  eq_of_cmp_list [] (y ∷ ys) h = cc
  eq_of_cmp_list (x ∷ xs) [] h = cc
  eq_of_cmp_list (x ∷ xs) (y ∷ ys) h = ground (arith, o.eq_of_cmp x y, eq_of_cmp_list xs ys)

  pub cmp_list_swap : (xs ys : List A) → cmp_list ys xs ≡ reverse (cmp_list xs ys)
  unfolding cmp_list
  cmp_list_swap [] [] = refl
  cmp_list_swap [] (y ∷ ys) = refl
  cmp_list_swap (x ∷ xs) [] = refl
  cmp_list_swap (x ∷ xs) (y ∷ ys) = ground (arith, o.cmp_swap x y, cmp_list_swap xs ys)

  pub cmp_list_trans :
      (xs ys zs : List A) → cmp_list xs ys ≡ lt → cmp_list ys zs ≡ lt → cmp_list xs zs ≡ lt
  unfolding cmp_list
  cmp_list_trans [] [] zs h k = cc
  cmp_list_trans [] (y ∷ ys) [] h k = cc
  cmp_list_trans [] (y ∷ ys) (z ∷ zs) h k = refl
  cmp_list_trans (x ∷ xs) [] zs h k = cc
  cmp_list_trans (x ∷ xs) (y ∷ ys) [] h k = cc
  cmp_list_trans (x ∷ xs) (y ∷ ys) (z ∷ zs) h k = ground (
    arith,
    o.eq_of_cmp x y,
    o.eq_of_cmp y z,
    o.cmp_self y,
    o.lt_trans x y z,
    cmp_list_trans xs ys zs,
  )

  instance unfoldable pub list_ord : Ord (List A)
  unfolding cmp_list
  list_ord = record {
    cmp = cmp_list;
    cmp_self = cmp_list_self;
    eq_of_cmp = eq_of_cmp_list;
    cmp_swap = cmp_list_swap;
    lt_trans = cmp_list_trans;
  }

module _ {ℓ κ} {A : Type ℓ} {B : Type κ} ⦃o : Ord A⦄ ⦃p : Ord B⦄ where
  abbrev pub cmp_pair : A × B → A × B → Ordering
  cmp_pair x y = ordering_then (o.cmp x.0 y.0) (p.cmp x.1 y.1)

  pub cmp_pair_self : (x : A × B) → cmp_pair x x ≡ eq
  cmp_pair_self x = ground (arith, o.cmp_self x.0, p.cmp_self x.1)

  pub eq_of_cmp_pair : (x y : A × B) → cmp_pair x y ≡ eq → x ≡ y
  eq_of_cmp_pair x y h = ground (arith, o.eq_of_cmp x.0 y.0, p.eq_of_cmp x.1 y.1)

  pub cmp_pair_swap : (x y : A × B) → cmp_pair y x ≡ reverse (cmp_pair x y)
  cmp_pair_swap x y = ground (arith, o.cmp_swap x.0 y.0, p.cmp_swap x.1 y.1)

  pub cmp_pair_trans : (x y z : A × B) → cmp_pair x y ≡ lt → cmp_pair y z ≡ lt → cmp_pair x z ≡ lt
  cmp_pair_trans x y z h k = ground (
    arith,
    o.eq_of_cmp x.0 y.0,
    o.eq_of_cmp y.0 z.0,
    o.cmp_self y.0,
    o.lt_trans x.0 y.0 z.0,
    p.lt_trans x.1 y.1 z.1,
  )

  instance unfoldable pub pair_ord : Ord (A × B)
  pair_ord = record {
    cmp = cmp_pair;
    cmp_self = cmp_pair_self;
    eq_of_cmp = eq_of_cmp_pair;
    cmp_swap = cmp_pair_swap;
    lt_trans = cmp_pair_trans;
  }

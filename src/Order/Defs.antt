-- ===== src/Order/Defs.antt =====
-- The interface `Ord`, `Ordering::then` and `Ordering::reverse`.
use mercury_messaging.Base.{◌≡◌, ◌≢◌, Bool, true, false, Ordering, lt, eq, gt, arith}

abbrev pub reverse : Ordering → Ordering
reverse lt = gt
reverse eq = eq
reverse gt = lt

abbrev pub ordering_then : Ordering → Ordering → Ordering
ordering_then eq next = next
ordering_then lt next = lt
ordering_then gt next = gt

pub record Ord {ℓ} (K : Type ℓ) : Type ℓ where
  pub cmp : K → K → Ordering
  pub cmp_self : (a : K) → cmp a a ≡ eq
  pub eq_of_cmp : (a b : K) → cmp a b ≡ eq → a ≡ b
  pub cmp_swap : (a b : K) → cmp b a ≡ reverse (cmp a b)
  pub lt_trans : (a b c : K) → cmp a b ≡ lt → cmp b c ≡ lt → cmp a c ≡ lt

infix 50 ◌≺◌
abbrev pub ◌≺◌ {ℓ} : {K : Type ℓ} ⦃o : Ord K⦄ → K → K → Type 0
◌≺◌ ⦃o⦄ a b = o.cmp a b ≡ lt

-- `a == b` as derived beside `Ord`.
abbrev pub same {ℓ} : {K : Type ℓ} ⦃o : Ord K⦄ → K → K → Bool
same ⦃o⦄ a b = elim (o.cmp a b) [ eq ↦ true | _ ↦ false ]

module _ {ℓ} {K : Type ℓ} ⦃o : Ord K⦄ where
  pub ne_of_lt : (a b : K) → a ≺ b → a ≢ b
  ne_of_lt a b h e = ground (arith, o.cmp_self a)

  pub eq_of_same : (a b : K) → same a b ≡ true → a ≡ b
  eq_of_same a b h = ground (arith, o.eq_of_cmp a b)

  pub same_self : (a : K) → same a a ≡ true
  same_self a = ground (arith, o.cmp_self a)

  pub not-lt_trans : (a b c : K) → ¬ (a ≺ b) → ¬ (b ≺ c) → ¬ (a ≺ c)
  not-lt_trans a b c h k l = ground (
    arith,
    o.cmp_swap b a,
    o.cmp_swap b c,
    o.lt_trans b a c,
    o.eq_of_cmp a b,
    o.eq_of_cmp b c,
    o.lt_trans c b a,
    o.cmp_swap a c,
    o.cmp_swap a b,
  )

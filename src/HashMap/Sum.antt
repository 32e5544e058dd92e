-- ===== src/HashMap/Sum.antt =====
-- Sums over the entries of a hash map.
use mercury_messaging.Base.{ℕ, ◌+◌, ◌≡◌, refl, [], ◌∷◌, some, arith}
use mercury_messaging.HashMap.{Eq, HashMap, IsDistinct, Same, get, remove}
use mercury_messaging.HashMap.Lookup.{get-remove, remove-IsDistinct}

module _ {ℓ κ} {K : Type ℓ} {V : Type κ} ⦃e : Eq K⦄ (weight : K → V → ℕ) where
  unfoldable pub sum_by : HashMap K V → ℕ
  sum_by [] = 0
  sum_by ((k, v) ∷ m) = weight k v + sum_by m

  sum_by-remove :
      (k : K) (v : V) (m : HashMap K V)
      → get k m ≡ some v
      → sum_by m ≡ weight k v + sum_by (remove k m)
  unfolding sum_by get remove
  sum_by-remove k v [] h = cc
  sum_by-remove k v ((j, w) ∷ m) h = ground (arith, sum_by-remove k v m, e.beq_iff k j)

  not-Same_cons : (k : K) (v : V) (m : HashMap K V) → ¬ Same [] ((k, v) ∷ m)
  unfolding get
  not-Same_cons k v m h = ground (arith, h k, e.beq_iff k k)

  Same-head : (k : K) (v : V) (m n : HashMap K V) → Same ((k, v) ∷ m) n → get k n ≡ some v
  unfolding get
  Same-head k v m n h = ground (arith, h k, e.beq_iff k k)

  Same-tail :
      (k : K) (v : V) (m n : HashMap K V)
      → IsDistinct ((k, v) ∷ m)
      → IsDistinct n
      → Same ((k, v) ∷ m) n
      → Same m (remove k n)
  unfolding get
  Same-tail k v m n s t h q = ground (arith, h q, get-remove q k n t, e.beq_iff q k)

  pub sum_by-Same :
      (m n : HashMap K V) → IsDistinct m → IsDistinct n → Same m n → sum_by m ≡ sum_by n
  unfolding sum_by
  sum_by-Same [] [] s t h = refl
  sum_by-Same [] ((k, v) ∷ n) s t h = absurd (not-Same_cons k v n h)
  sum_by-Same ((k, v) ∷ m) n s t h = omega (
    arith,
    sum_by-remove k v n (Same-head k v m n h),
    sum_by-Same m (remove k n) s.1 (remove-IsDistinct k n t) (Same-tail k v m n s t h),
  )

-- ===== src/HashMap/Lookup.antt =====
-- Lookups in a hash map after a change.
use mercury_messaging.Base.{◌≡◌, refl, [], ◌∷◌, none, some, get_or, if◌then◌else◌, arith}
use mercury_messaging.HashMap.{Eq, HashMap, IsDistinct, get, upsert, remove, absorb}

module _ {ℓ κ} {K : Type ℓ} {V : Type κ} ⦃e : Eq K⦄ where
  pub get-upsert :
      (q k : K) (d : V) (g : V → V) (m : HashMap K V)
      → get q (upsert k d g m) ≡ (if e.beq q k then some (g (get_or (get k m) d)) else get q m)
  unfolding get upsert
  get-upsert q k d g [] = ground arith
  get-upsert q k d g ((j, v) ∷ m) =
      ground
        (arith, get-upsert q k d g m, e.beq_iff q k, e.beq_iff q j, e.beq_iff k j, e.beq_iff k k)

  pub upsert-IsDistinct :
      (k : K) (d : V) (g : V → V) (m : HashMap K V) → IsDistinct m → IsDistinct (upsert k d g m)
  unfolding get upsert
  upsert-IsDistinct k d g [] s = (refl, tt)
  upsert-IsDistinct k d g ((j, v) ∷ m) s =
      ground
        (arith, upsert-IsDistinct k d g m s.1, get-upsert j k d g m, e.beq_iff j k, e.beq_iff k j)

  pub get-remove :
      (q k : K) (m : HashMap K V)
      → IsDistinct m
      → get q (remove k m) ≡ (if e.beq q k then none else get q m)
  unfolding get remove
  get-remove q k [] s = ground arith
  get-remove q k ((j, v) ∷ m) s =
      ground (arith, get-remove q k m s.1, e.beq_iff q k, e.beq_iff q j, e.beq_iff k j)

  pub remove-IsDistinct : (k : K) (m : HashMap K V) → IsDistinct m → IsDistinct (remove k m)
  unfolding get remove
  remove-IsDistinct k [] s = tt
  remove-IsDistinct k ((j, v) ∷ m) s =
      ground (arith, remove-IsDistinct k m s.1, get-remove j k m s.1)

  pub absorb-IsDistinct :
      (d : V) (f : V → V → V) (m other : HashMap K V)
      → IsDistinct m
      → IsDistinct (absorb d f m other)
  unfolding absorb
  absorb-IsDistinct d f m [] s = s
  absorb-IsDistinct d f m ((k, v) ∷ other) s =
      absorb-IsDistinct d f (upsert k d (λ x. f x v) m) other
        (upsert-IsDistinct k d (λ x. f x v) m s)

-- ===== src/HashMap.antt =====
-- `std::collections::HashMap`, as an association list whose order is that of its iterator. The
-- standard library leaves this order open, so what is proved of a map speaks of its lookups:
-- `Same`, which is what `==` compares. `IsDistinct` is what the type guarantees.
pub mod Bytes
pub mod Lookup
pub mod Merge
pub mod Sum
use mercury_messaging.Base.{
  ℕ, ◌≡◌, ◌↔◌, Bool, true, List, [], ◌∷◌, Option, none, some, get_or, if◌then◌else◌, is_some,
}

-- `K: Eq`
pub record Eq {ℓ} (K : Type ℓ) : Type ℓ where
  pub beq : K → K → Bool
  pub beq_iff : (a b : K) → (beq a b ≡ true) ↔ (a ≡ b)

abbrev pub HashMap {ℓ κ} : Type ℓ → Type κ → Type (ℓ ⊔ κ)
HashMap K V = List (K × V)

module _ {ℓ κ} {K : Type ℓ} {V : Type κ} ⦃e : Eq K⦄ where
  unfoldable pub get : K → HashMap K V → Option V
  get k [] = none
  get k ((j, v) ∷ m) = if e.beq k j then some v else get k m

  abbrev pub IsDistinct : HashMap K V → Type κ
  IsDistinct [] = Unit
  IsDistinct ((k, v) ∷ m) = (get k m ≡ none) × IsDistinct m

  abbrev pub Same : HashMap K V → HashMap K V → Type (ℓ ⊔ κ)
  Same m n = (q : K) → get q m ≡ get q n

  -- `let e = m.entry(k).or_insert(d); *e = g(*e)`
  unfoldable pub upsert : K → V → (V → V) → HashMap K V → HashMap K V
  upsert k d g [] = (k, g d) ∷ []
  upsert k d g ((j, v) ∷ m) = if e.beq k j then (j, g v) ∷ m else (j, v) ∷ upsert k d g m

  unfoldable pub remove : K → HashMap K V → HashMap K V
  remove k [] = []
  remove k ((j, v) ∷ m) = if e.beq k j then m else (j, v) ∷ remove k m

  -- `for (k, v) in other { let e = m.entry(k).or_insert(d); *e = f(*e, v) }`
  unfoldable pub absorb : V → (V → V → V) → HashMap K V → HashMap K V → HashMap K V
  absorb d f m [] = m
  absorb d f m ((k, v) ∷ other) = absorb d f (upsert k d (λ x. f x v) m) other

-- ===== src/BTree.antt =====
-- `std::collections::BTreeMap` and `BTreeSet`, which the crates build on: a map is the list of its
-- entries in the order of its iterator. `IsSorted` is what the type guarantees; on sorted lists
-- the derived `==` is the equality of the lists. A set is a map to the one-element type, as in
-- the standard library. `upsert` is `*m.entry(k).or_insert(d)` with what is assigned to it.
pub mod Lookup
pub mod Sorted
pub mod Merge
pub mod Size
pub mod Range
use mercury_messaging.Base.{ℕ, Ordering, lt, eq, gt, List, [], ◌∷◌, Option, none, some, All, get_or}
use mercury_messaging.Order.{Ord, ◌≺◌}

abbrev pub BTreeMap {ℓ κ} : Type ℓ → Type κ → Type (ℓ ⊔ κ)
BTreeMap K V = List (K × V)

abbrev pub BTreeSet {ℓ} : Type ℓ → Type ℓ
BTreeSet K = BTreeMap K (Unit {0})

module _ {ℓ κ} {K : Type ℓ} {V : Type κ} ⦃o : Ord K⦄ where
  -- Every key of the entries is above `k`.
  abbrev pub Above : K → BTreeMap K V → Type 0
  Above k m = All (λ e. k ≺ e.0) m

  abbrev pub IsSorted : BTreeMap K V → Type 0
  IsSorted [] = Unit
  IsSorted ((k, v) ∷ m) = Above k m × IsSorted m

  unfoldable pub get : K → BTreeMap K V → Option V
  get k [] = none
  get k ((j, v) ∷ m) = elim (o.cmp k j) [ eq ↦ some v | _ ↦ get k m ]

  unfoldable pub insert : K → V → BTreeMap K V → BTreeMap K V
  insert k v [] = (k, v) ∷ []
  insert k v ((j, w) ∷ m) = elim (o.cmp k j) [
    | lt ↦ (k, v) ∷ (j, w) ∷ m
    | eq ↦ (j, v) ∷ m
    | gt ↦ (j, w) ∷ insert k v m
  ]

  -- `let e = m.entry(k).or_insert(d); *e = g(*e)`
  unfoldable pub upsert : K → V → (V → V) → BTreeMap K V → BTreeMap K V
  upsert k d g m = insert k (g (get_or (get k m) d)) m

  -- `for (k, v) in other { let e = m.entry(k).or_insert(d); *e = f(*e, v) }`
  unfoldable pub absorb : V → (V → V → V) → BTreeMap K V → BTreeMap K V → BTreeMap K V
  absorb d f m [] = m
  absorb d f m ((k, v) ∷ other) = absorb d f (upsert k d (λ x. f x v) m) other

  -- `m.entry(k).or_insert_with(|| d)`
  unfoldable pub or_insert : K → V → BTreeMap K V → BTreeMap K V
  or_insert k d m = elim (get k m) [ none ↦ insert k d m | some _ ↦ m ]

  -- `m.range((Bound::Excluded(since), Bound::Unbounded))`
  unfoldable pub range_after : K → BTreeMap K V → BTreeMap K V
  range_after since [] = []
  range_after since ((k, v) ∷ m) = elim (o.cmp since k) [
    | lt ↦ (k, v) ∷ range_after since m
    | _ ↦ range_after since m
  ]

module _ {ℓ κ} {K : Type ℓ} {V : Type κ} where
  -- `m.keys().next_back()`
  unfoldable pub last_key : BTreeMap K V → Option K
  last_key [] = none
  last_key ((k, v) ∷ []) = some k
  last_key (e ∷ f ∷ m) = last_key (f ∷ m)

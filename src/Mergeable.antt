-- ===== src/Mergeable.antt =====
-- crates/mercury-crdt/src/traits.rs: the trait `Mergeable` and its three laws. `Valid` is the
-- representation invariant of the states, and `Same` their equality (`==`).
pub mod Convergence
use mercury_messaging.Base.{List, ◌∷◌, ◌≡◌, ◌⊎◌, inl, inr, refl}

pub record Mergeable {ℓ κ μ} (A : Type ℓ) : Type (ℓ ⊔ (κ + 1) ⊔ (μ + 1)) where
  pub merge : A → A → A
  pub Valid : A → Type κ
  pub Same : A → A → Type μ

pub record IsLawful {ℓ κ μ} {A : Type ℓ} (m : Mergeable {ℓ, κ, μ} A) : Type (ℓ ⊔ κ ⊔ μ) where
  pub same_refl : (a : A) → m.Same a a
  pub same_sym : (a b : A) → m.Same a b → m.Same b a
  pub same_trans : (a b c : A) → m.Same a b → m.Same b c → m.Same a c
  -- equal states merge equally
  pub congruent :
      (a a' b b' : A)
      → m.Valid a
      → m.Valid a'
      → m.Valid b
      → m.Valid b'
      → m.Same a a'
      → m.Same b b'
      → m.Same (m.merge a b) (m.merge a' b')
  pub closed : (a b : A) → m.Valid a → m.Valid b → m.Valid (m.merge a b)
  pub commutative : (a b : A) → m.Valid a → m.Valid b → m.Same (m.merge a b) (m.merge b a)
  pub associative :
      (a b c : A)
      → m.Valid a
      → m.Valid b
      → m.Valid c
      → m.Same (m.merge (m.merge a b) c) (m.merge a (m.merge b c))
  pub idempotent : (a : A) → m.Valid a → m.Same (m.merge a a) a

pub data Elem {ℓ} {A : Type ℓ} (x : A) : List A → Type ℓ where
  here : {xs : List A} → Elem x (x ∷ xs)
  there : {y : A} {xs : List A} → Elem x xs → Elem x (y ∷ xs)

pub Elem-cons {ℓ} : {A : Type ℓ} {x y : A} {ys : List A} → Elem x (y ∷ ys) → (x ≡ y) ⊎ Elem x ys
Elem-cons here = inl refl
Elem-cons (there e) = inr e

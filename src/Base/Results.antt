-- ===== src/Base/Results.antt =====
-- How a Rust call ends. `Outcome` is a call that may panic; `Result` is the type of `core::result`.
use mathlib.Core.Path.{◌≡◌, refl}
use mathlib.Core.Logic.{◌⊎◌, inl, inr}

pub data Result {ℓ κ} (A : Type ℓ) (E : Type κ) : Type (ℓ ⊔ κ) where
  ok : A → Result A E
  err : E → Result A E

pub data Outcome {ℓ} (A : Type ℓ) : Type ℓ where
  done : A → Outcome A
  panic : Outcome A

infixl 5 ◌>>=◌
abbrev pub ◌>>=◌ {ℓ κ} : {A : Type ℓ} {B : Type κ} → Outcome A → (A → Outcome B) → Outcome B
done a >>= f = f a
panic >>= f = panic

pub Outcome-cases {ℓ} : {A : Type ℓ} (o : Outcome A) → ((a : A) × (o ≡ done a)) ⊎ (o ≡ panic)
Outcome-cases (done a) = inl (a, refl)
Outcome-cases panic = inr refl

-- Inversion of a call that returns.
pub >>=-eq-done {ℓ κ} :
    {A : Type ℓ} {B : Type κ} (m : Outcome A) (f : A → Outcome B) {b : B}
    → (m >>= f) ≡ done b
    → (a : A) × (m ≡ done a) × (f a ≡ done b)
>>=-eq-done (done a) f h = (a, refl, h)
>>=-eq-done panic f h = cc

pub done_injective {ℓ} : {A : Type ℓ} {a b : A} → done a ≡ done b → a ≡ b
done_injective h = cc

pub panic_not_done {ℓ κ} : {A : Type ℓ} {B : Type κ} {a : A} → panic ≡ done a → B
panic_not_done h = cc

-- A call whose last step gives a value.
pub >>=-done {ℓ κ} :
    {A : Type ℓ} {B : Type κ} (m : Outcome A) (f : A → B) {a : A}
    → m ≡ done a
    → (b : B) × ((m >>= λ x. done (f x)) ≡ done b)
>>=-done (done x) f h = (f x, refl)
>>=-done panic f h = panic_not_done h

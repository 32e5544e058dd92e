-- ===== src/Crypto/Step.antt =====
-- Code with `&mut` access to a state `S` that may return early with an error `E` (the operator
-- `?`). The changes made before the error stay.
use mercury_messaging.Base.{Result, ok, err}

abbrev pub Step : Type 0 → Type 0 → Type 0 → Type 0
Step S E A = S → S × Result A E

module _ {S E : Type 0} where
  unfoldable pub pure : {A : Type 0} → A → Step S E A
  pure a s = (s, ok a)

  unfoldable pub bail : {A : Type 0} → E → Step S E A
  bail e s = (s, err e)

  -- A result that does not touch the state.
  unfoldable pub from_result : {A F : Type 0} → (F → E) → Result A F → Step S E A
  from_result wrap (ok a) s = (s, ok a)
  from_result wrap (err e) s = (s, err (wrap e))

  -- A call with another type of errors.
  unfoldable pub call : {A F : Type 0} → (F → E) → Step S F A → Step S E A
  unfolding from_result
  call wrap m s = let (t, r) = m s in from_result wrap r t

  abbrev pub and_then : {A B : Type 0} → S × Result A E → (A → Step S E B) → S × Result B E
  and_then (s, ok a) f = f a s
  and_then (s, err e) f = (s, err e)

  infixl 5 ◌>>=◌
  unfoldable pub ◌>>=◌ : {A B : Type 0} → Step S E A → (A → Step S E B) → Step S E B
  (m >>= f) s = and_then (m s) f

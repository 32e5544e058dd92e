-- ===== src/Base/Word.antt =====
-- Unsigned machine words as native numbers. Rust's `+` panics on overflow in a debug build and
-- wraps in a release build (no profile of the workspace sets `overflow-checks`), so addition
-- takes the build; `checked_add` does not.
use Prim.Native.Nat.{ℕ, ◌+◌, ◌%◌, ◌^◌}
use mathlib.Core.Option.{Option, none, some}
use mercury_messaging.Base.Results.{Outcome, done, panic}
use mercury_messaging.Base.Tests.{ltb, if◌then◌else◌}

abbrev pub u32_mod : ℕ
u32_mod = 2 ^ 32

abbrev pub u64_mod : ℕ
u64_mod = 2 ^ 64

pub data Build : Type 0 where
  debug release : Build

-- What a sum that does not fit gives.
abbrev pub overflow : Build → ℕ → ℕ → Outcome ℕ
overflow debug modulus s = panic
overflow release modulus s = done (s % modulus)

-- `a + b` at the width that `modulus` stands for.
abbrev pub add_word : Build → ℕ → ℕ → ℕ → Outcome ℕ
add_word build modulus a b =
    if ltb (a + b) modulus then done (a + b) else overflow build modulus (a + b)

abbrev pub checked_add : ℕ → ℕ → ℕ → Option ℕ
checked_add modulus a b = if ltb (a + b) modulus then some (a + b) else none

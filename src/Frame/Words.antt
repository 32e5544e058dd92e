-- ===== src/Frame/Words.antt =====
-- `setUint16`, `setUint32` and `setBigUint64` of a JavaScript `DataView` with `true` for little
-- endian, and Elixir's `n::16-little`, `n::32-little` and `n::64-little`; and their readers.
use mercury_messaging.Base.{ℕ, ◌+◌, ◌*◌, ◌/◌, ◌%◌, ◌^◌, ◌<◌, ◌≡◌, arith, [], ◌∷◌, ◌++◌, u32_mod}
use mercury_messaging.MessageLog.{Bytes}

abbrev pub u16_mod : ℕ
u16_mod = 2 ^ 16

unfoldable pub le16 : ℕ → Bytes
le16 n = n % 256 ∷ n / 256 % 256 ∷ []

unfoldable pub of_le16 : ℕ → ℕ → ℕ
of_le16 a b = a + b * 256

unfoldable pub le32 : ℕ → Bytes
le32 n = n % 256 ∷ n / 256 % 256 ∷ n / 2 ^ 16 % 256 ∷ n / 2 ^ 24 % 256 ∷ []

unfoldable pub of_le32 : ℕ → ℕ → ℕ → ℕ → ℕ
of_le32 a b c d = a + b * 256 + c * 2 ^ 16 + d * 2 ^ 24

unfoldable pub le64 : ℕ → Bytes
le64 n = le32 n ++ le32 (n / 2 ^ 32)

pub of_le16-le16 : (n : ℕ) → n < u16_mod → of_le16 (n % 256) (n / 256 % 256) ≡ n
unfolding of_le16
of_le16-le16 n h = omega arith

pub of_le32-le32 :
    (n : ℕ)
    → n < u32_mod
    → of_le32 (n % 256) (n / 256 % 256) (n / 2 ^ 16 % 256) (n / 2 ^ 24 % 256) ≡ n
unfolding of_le32
of_le32-le32 n h = omega arith

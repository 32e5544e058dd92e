-- ===== src/Gateway/Hex.antt =====
-- Elixir's `Base.encode16` and `Base.decode16(case: :mixed)`, and `channel_id_to_bin` of
-- apps/gateway/lib/gateway/binary_socket.ex.
use mercury_messaging.Base.{
  ℕ, ◌+◌, ◌-◌, ◌*◌, ◌/◌, ◌%◌, ◌<◌, ◌≡◌, refl, arith, [], ◌∷◌, ltb, leb, ◌&&◌, ◌==◌, if◌then◌else◌,
  Option, none, some, length, All,
}
use mercury_messaging.MessageLog.{Bytes}

unfoldable pub hex_digit : ℕ → ℕ
hex_digit n = if ltb n 10 then n + 48 else n + 55

unfoldable pub encode16 : Bytes → Bytes
encode16 [] = []
encode16 (b ∷ bytes) = hex_digit (b / 16) ∷ hex_digit (b % 16) ∷ encode16 bytes

unfoldable pub hex_value : ℕ → Option ℕ
hex_value c =
    if leb b'0' c && leb c b'9'
    then some (c - 48)
    else (if leb b'A' c && leb c b'F'
        then some (c - 55)
        else (if leb b'a' c && leb c b'f' then some (c - 87) else none))

infixl 5 ◌>>=◌
abbrev ◌>>=◌ : {A B : Type 0} → Option A → (A → Option B) → Option B
none >>= f = none
some a >>= f = f a

unfoldable pub decode16 : Bytes → Option Bytes
decode16 [] = some []
decode16 (a ∷ []) = none
decode16 (a ∷ b ∷ text) = do
  high ← hex_value a
  low ← hex_value b
  bytes ← decode16 text
  some ((high * 16 + low) ∷ bytes)

sixteen : Bytes → Option Bytes
sixteen bin = if length bin == 16 then some bin else none

unfoldable pub channel_id_to_bin : Bytes → Option Bytes
unfolding sixteen
channel_id_to_bin text = do bin ← decode16 text; sixteen bin

hex_value-hex_digit : (n : ℕ) → n < 16 → hex_value (hex_digit n) ≡ some n
unfolding hex_value hex_digit
hex_value-hex_digit n h = ground arith

-- The text of bytes reads back as the bytes.
pub decode16-encode16 :
    (bytes : Bytes) → All (λ b. b < 256) bytes → decode16 (encode16 bytes) ≡ some bytes
unfolding decode16 encode16
decode16-encode16 [] h = refl
decode16-encode16 (b ∷ bytes) h =
    let whole : b / 16 * 16 + b % 16 ≡ b = omega arith in
    rw
      (
        hex_value-hex_digit (b / 16) (omega (arith, h.0)),
        hex_value-hex_digit (b % 16) (omega arith),
        decode16-encode16 bytes h.1,
        whole,
      )
      refl

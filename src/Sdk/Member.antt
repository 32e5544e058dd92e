-- ===== src/Sdk/Member.antt =====
-- The bytes that `MlsManager::add_member` hands to sdks/mercury-sdk-js/src/mls.ts, which unpacks
-- them.
use mercury_messaging.Base.{
  ℕ, ◌+◌, ◌*◌, ◌/◌, ◌%◌, ◌^◌, ◌≤◌, ◌<◌, ◌≡◌, ◌↔◌, refl, sym, ap, ◌∙◌, arith, [], ◌∷◌, ◌++◌, length,
  take, drop, take-append, drop-append, Option, none, some, ltb, if◌then◌else◌, Outcome, done,
  panic, u32_mod,
}
use mercury_messaging.MessageLog.{Bytes}

-- `u32::to_be_bytes`
unfoldable pub to_be_bytes : ℕ → Bytes
to_be_bytes n = (n / 2 ^ 24 % 256) ∷ (n / 2 ^ 16 % 256) ∷ (n / 2 ^ 8 % 256) ∷ (n % 256) ∷ []

-- `u32::try_from(commit.len()).expect(..)`, then the three pieces.
unfoldable pub pack : Bytes → Bytes → Outcome Bytes
pack commit welcome =
    if ltb (length commit) u32_mod
    then done (to_be_bytes (length commit) ++ (commit ++ welcome))
    else panic

-- `unpackAddMember`. `getUint32` throws on fewer than four bytes, and `slice` stops at the end.
unfoldable pub unpack : Bytes → Option (Bytes × Bytes)
unpack (a ∷ b ∷ c ∷ d ∷ rest) =
    let commit_len = a * 2 ^ 24 + b * 2 ^ 16 + c * 2 ^ 8 + d in
    some (take commit_len rest, drop commit_len rest)
unpack _ = none

value_of :
    (n : ℕ)
    → n < u32_mod
    → n / 2 ^ 24 % 256 * 2 ^ 24 + n / 2 ^ 16 % 256 * 2 ^ 16 + n / 2 ^ 8 % 256 * 2 ^ 8 + n % 256 ≡ n
value_of n h = omega arith

unpack-bytes :
    (n : ℕ) (rest : Bytes)
    → n < u32_mod
    → unpack (to_be_bytes n ++ rest) ≡ some (take n rest, drop n rest)
unfolding unpack to_be_bytes
unpack-bytes n rest h = ap (λ k. some (take k rest, drop k rest)) (value_of n h)

-- `pack` panics exactly for a commit of 2^32 bytes or more, and `unpackAddMember` reads what
-- `pack` wrote back as the commit and the welcome.
pub unpack-pack :
    (commit welcome : Bytes)
    → ((pack commit welcome ≡ panic) ↔ (u32_mod ≤ length commit))
      × ((out : Bytes) → pack commit welcome ≡ done out → unpack out ≡ some (commit, welcome))
unfolding pack
unpack-pack commit welcome = (
  ground arith,
  λ out h.
      let fits : length commit < u32_mod = ground arith in
      let packed : to_be_bytes (length commit) ++ (commit ++ welcome) ≡ out = ground arith in
      ap unpack (sym packed)
      ∙ unpack-bytes (length commit) (commit ++ welcome) fits
      ∙ rw (take-append commit welcome, drop-append commit welcome) refl,
)

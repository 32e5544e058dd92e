-- ===== src/Frame/Envelopes.antt =====
-- Packed envelopes of one side as the other reads them.
use Prim.Native.Nat.{zero, suc}
use mercury_messaging.Base.{
  ℕ, ◌<◌, ◌≡◌, ◌⊎◌, inl, inr, ap, ◌∙◌, arith, refl, List, [], ◌∷◌, ◌++◌, length, All, leb,
  Bool-cases, sym, done_injective, panic_not_done, >>=-eq-done, drop-all, u32_mod, done, take, drop,
  take-append, length-append, drop-append,
}
use mercury_messaging.MessageLog.{Bytes}
use mercury_messaging.Frame.Words.{le32, of_le32, of_le32-le32}
use mercury_messaging.Frame.{
  pack_blobs, pack_envelopes, unpack_blobs, unpack_envelopes, read_blobs, read_envelopes,
}

abbrev pub IsShort : Bytes → Type 0
IsShort blob = length blob < u32_mod

unpack_blobs-pack_blobs :
    (blobs : List Bytes)
    → All IsShort blobs
    → unpack_blobs (length blobs) (pack_blobs blobs) ≡ done blobs
unfolding unpack_blobs pack_blobs le32
unpack_blobs-pack_blobs [] h = refl
unpack_blobs-pack_blobs (blob ∷ blobs) h =
    rw
      (
        of_le32-le32 (length blob) h.0,
        drop-append blob (pack_blobs blobs),
        take-append blob (pack_blobs blobs),
        unpack_blobs-pack_blobs blobs h.1,
      )
      refl

read_blobs-pack_blobs :
    (blobs : List Bytes) → All IsShort blobs → read_blobs (length blobs) (pack_blobs blobs) ≡ blobs
unfolding read_blobs pack_blobs le32
read_blobs-pack_blobs [] h = refl
read_blobs-pack_blobs (blob ∷ blobs) h =
    rw
      (
        of_le32-le32 (length blob) h.0,
        drop-append blob (pack_blobs blobs),
        take-append blob (pack_blobs blobs),
        read_blobs-pack_blobs blobs h.1,
      )
      (ground (arith, length-append blob (pack_blobs blobs)))

-- The gateway and the client read the same blobs, but for a last one that is not whole: the
-- client takes what there is of it, the gateway leaves it out.
abbrev pub Agrees : List Bytes → List Bytes → Type 0
Agrees read unpacked = (unpacked ≡ read) ⊎ ((last : Bytes) × (unpacked ≡ read ++ last ∷ []))

Agrees-cons :
    (blob : Bytes) (read unpacked : List Bytes)
    → Agrees read unpacked
    → Agrees (blob ∷ read) (blob ∷ unpacked)
Agrees-cons blob read unpacked (inl e) = inl (ap (λ l. blob ∷ l) e)
Agrees-cons blob read unpacked (inr (last, e)) = inr (last, ap (λ l. blob ∷ l) e)

unpack_blobs-nil : (n : ℕ) → unpack_blobs n [] ≡ done []
unfolding unpack_blobs
unpack_blobs-nil zero = refl
unpack_blobs-nil (suc n) = refl

unpack_blobs-Agrees :
    (n : ℕ) (rest : Bytes) (out : List Bytes)
    → unpack_blobs n rest ≡ done out
    → Agrees (read_blobs n rest) out
unfolding unpack_blobs read_blobs
unpack_blobs-Agrees zero rest out h = inl (sym (done_injective h))
unpack_blobs-Agrees (suc n) [] out h = inl (sym (done_injective h))
unpack_blobs-Agrees (suc n) (a ∷ b ∷ c ∷ d ∷ rest) out h =
    let len = of_le32 a b c d in
    let (blobs, e, f) =
      >>=-eq-done (unpack_blobs n (drop len rest)) (λ blobs. done (take len rest ∷ blobs)) h in
    elim (Bool-cases (leb len (length rest))) [
      | inl whole ↦
          rw (whole, sym (done_injective f))
            (Agrees-cons (take len rest) (read_blobs n (drop len rest)) blobs
              (unpack_blobs-Agrees n (drop len rest) blobs e))
      | inr short ↦ inr (
        take len rest,
        let over : drop len rest ≡ [] = drop-all len rest (ground arith) in
            let none_left : blobs ≡ [] = done_injective (sym e ∙ rw over (unpack_blobs-nil n)) in
            rw short (rw none_left at (sym (done_injective f))),
      )
    ]
unpack_blobs-Agrees (suc n) (a ∷ []) out h = panic_not_done h
unpack_blobs-Agrees (suc n) (a ∷ b ∷ []) out h = panic_not_done h
unpack_blobs-Agrees (suc n) (a ∷ b ∷ c ∷ []) out h = panic_not_done h

module _ (blobs : List Bytes) (few : length blobs < u32_mod) (short : All IsShort blobs) where
  -- If there are fewer than 2^32 blobs and each is shorter than 2^32 bytes, then the packed
  -- blobs unpack to the same blobs, both at the client and at the gateway.
  pub unpack_envelopes-pack_envelopes :
      (unpack_envelopes (pack_envelopes blobs) ≡ done blobs)
      × (read_envelopes (pack_envelopes blobs) ≡ blobs)
  unfolding unpack_envelopes read_envelopes pack_envelopes le32
  unpack_envelopes-pack_envelopes =
      rw (of_le32-le32 (length blobs) few)
        (unpack_blobs-pack_blobs blobs short, read_blobs-pack_blobs blobs short)

-- Whatever the bytes are: if the client unpacks them without throwing, it has the blobs that
-- the gateway reads, or these and one more, which is cut off.
pub unpack_envelopes-Agrees :
    (bytes : Bytes) (out : List Bytes)
    → unpack_envelopes bytes ≡ done out
    → Agrees (read_envelopes bytes) out
unfolding unpack_envelopes read_envelopes
unpack_envelopes-Agrees (a ∷ b ∷ c ∷ d ∷ rest) out h =
    unpack_blobs-Agrees (of_le32 a b c d) rest out h
unpack_envelopes-Agrees [] out h = inl (sym (done_injective h))
unpack_envelopes-Agrees (a ∷ []) out h = inl (sym (done_injective h))
unpack_envelopes-Agrees (a ∷ b ∷ []) out h = inl (sym (done_injective h))
unpack_envelopes-Agrees (a ∷ b ∷ c ∷ []) out h = inl (sym (done_injective h))

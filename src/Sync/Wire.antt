-- ===== src/Sync/Wire.antt =====
-- The payloads of `sync:request` and its reply: `sync` of sdks/mercury-sdk-js/src/channel.ts, and the
-- clause of `dispatch` in apps/gateway/lib/gateway/binary_socket.ex. A delta is its envelope.
use mercury_messaging.Base.{
  ℕ, ◌+◌, ◌*◌, ◌/◌, ◌%◌, ◌^◌, ◌<◌, ◌≡◌, refl, arith, List, [], ◌∷◌, ◌++◌, Bool, true, false,
  if◌then◌else◌, ◌==◌, length, All, Outcome, done, panic, ◌>>=◌, u32_mod, u64_mod,
}
use mercury_messaging.MessageLog.{Bytes}
use mercury_messaging.Frame.Words.{le32, le64, of_le32, of_le32-le32}
use mercury_messaging.Frame.{pack_envelopes, unpack_envelopes}
use mercury_messaging.Frame.Envelopes.{IsShort, unpack_envelopes-pack_envelopes}

pub record Request : Type 0 where
  pub since_wall : ℕ
  pub limit : ℕ
  pub last_counter : ℕ

-- The client sends the counter 0.
unfoldable pub encode_request : ℕ → ℕ → Bytes
encode_request last_hlc_wall limit = le64 last_hlc_wall ++ (le32 limit ++ le32 0)

abbrev pub of_le64 : ℕ → ℕ → ℕ
of_le64 low high = low + high * 2 ^ 32

-- The first 16 bytes, or the defaults for a shorter payload.
unfoldable pub decode_request : Bytes → Request
decode_request (a ∷ b ∷ c ∷ d ∷ e ∷ f ∷ g ∷ h ∷ i ∷ j ∷ k ∷ l ∷ m ∷ n ∷ o ∷ p ∷ rest) = record {
  since_wall = of_le64 (of_le32 a b c d) (of_le32 e f g h);
  limit = of_le32 i j k l;
  last_counter = of_le32 m n o p;
}
decode_request _ = record { since_wall = 0; limit = 100; last_counter = 0 }

pub record Reply : Type 0 where
  pub server_hlc : ℕ
  pub has_more : Bool
  pub deltas : List Bytes

unfoldable pub encode_reply : Reply → Bytes
encode_reply r = le64 r.server_hlc ++ ((if r.has_more then 1 else 0) ∷ pack_envelopes r.deltas)

-- `getBigUint64(0)` throws on less than eight bytes. `Number` is exact up to 2^53.
unfoldable pub decode_reply : Bytes → Outcome Reply
decode_reply (a ∷ b ∷ c ∷ d ∷ e ∷ f ∷ g ∷ h ∷ flag ∷ rest) = do
  deltas ← unpack_envelopes rest
  done (record {
    server_hlc = of_le64 (of_le32 a b c d) (of_le32 e f g h);
    has_more = flag == 1;
    deltas = deltas;
  })
decode_reply (a ∷ b ∷ c ∷ d ∷ e ∷ f ∷ g ∷ h ∷ []) = done (record {
  server_hlc = of_le64 (of_le32 a b c d) (of_le32 e f g h);
  has_more = false;
  deltas = [];
})
decode_reply _ = panic

of_le64-le64 :
    (n : ℕ)
    → n < u64_mod
    → of_le64 (of_le32 (n % 256) (n / 256 % 256) (n / 2 ^ 16 % 256) (n / 2 ^ 24 % 256)) (
        of_le32
          (n / 2 ^ 32 % 256)
          (n / 2 ^ 32 / 256 % 256)
          (n / 2 ^ 32 / 2 ^ 16 % 256)
          (n / 2 ^ 32 / 2 ^ 24 % 256))
      ≡ n
unfolding of_le32
of_le64-le64 n h = omega arith

-- The gateway reads the time and the limit that the client asked with.
pub decode_request-encode_request :
    (wall limit : ℕ)
    → wall < u64_mod
    → limit < u32_mod
    → decode_request (encode_request wall limit)
      ≡ record { since_wall = wall; limit = limit; last_counter = 0 }
unfolding decode_request encode_request le64 le32 of_le32
decode_request-encode_request wall limit h k = rw (of_le64-le64 wall h, of_le32-le32 limit k) refl

flag_lem : (b : Bool) → ((if b then 1 else 0) == 1) ≡ b
flag_lem true = refl
flag_lem false = refl

-- The client reads back the gateway's reply with a time of less than 2^53 and fewer than 2^32
-- envelopes of fewer than 2^32 bytes each.
pub decode_reply-encode_reply :
    (r : Reply)
    → r.server_hlc < 2 ^ 53
    → length r.deltas < u32_mod
    → All IsShort r.deltas
    → decode_reply (encode_reply r) ≡ done r
unfolding decode_reply encode_reply le64 le32
decode_reply-encode_reply r h few short =
    rw
      (
        of_le64-le64 r.server_hlc (omega arith),
        (unpack_envelopes-pack_envelopes r.deltas few short).0,
      )
      (rw (flag_lem r.has_more) refl)

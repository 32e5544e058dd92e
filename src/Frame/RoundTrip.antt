-- ===== src/Frame/RoundTrip.antt =====
-- A frame of one side as the other reads it.
use mercury_messaging.Base.{◌%◌, ◌<◌, ◌≡◌, ◌↔◌, arith, refl, [], ◌∷◌, length, u32_mod, done, panic}
use mercury_messaging.MessageLog.{Bytes}
use mercury_messaging.Frame.Words.{u16_mod, le16, le32, of_le16-le16, of_le32-le32}
use mercury_messaging.Frame.{Frame, encode_frame, decode_frame, classify, parse}

-- The numbers of a frame fit into its header.
pub record Fits (f : Frame) : Type 0 where
  pub kind : f.kind < 256
  pub ref : f.ref < u32_mod
  pub topic_id : f.topic_id < u16_mod

-- If the fields of a frame fit 8, 32 and 16 bits, then the bytes of the frame decode to it at
-- the client, and the gateway reads them as the clause that the fields of the frame choose.
pub decode_frame-encode_frame :
    (f : Frame)
    → Fits f
    → (decode_frame (encode_frame f) ≡ done f) × (parse (encode_frame f) ≡ classify f)
unfolding decode_frame encode_frame parse le16 le32
decode_frame-encode_frame f v =
    let one_byte : f.kind % 256 ≡ f.kind = ground arith in
    rw (of_le32-le32 f.ref v.ref, of_le16-le16 f.topic_id v.topic_id, one_byte) (refl, refl)

-- `decodeFrame` throws exactly below seven bytes.
pub decode_frame_throws : (bytes : Bytes) → (decode_frame bytes ≡ panic) ↔ (length bytes < 7)
unfolding decode_frame
decode_frame_throws [] = ground arith
decode_frame_throws (a ∷ []) = ground arith
decode_frame_throws (a ∷ b ∷ []) = ground arith
decode_frame_throws (a ∷ b ∷ c ∷ []) = ground arith
decode_frame_throws (a ∷ b ∷ c ∷ d ∷ []) = ground arith
decode_frame_throws (a ∷ b ∷ c ∷ d ∷ e ∷ []) = ground arith
decode_frame_throws (a ∷ b ∷ c ∷ d ∷ e ∷ f ∷ []) = ground arith
decode_frame_throws (a ∷ b ∷ c ∷ d ∷ e ∷ f ∷ g ∷ rest) = ground arith

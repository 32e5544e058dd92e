-- ===== src/Tests/Frames.antt =====
-- Frames and packed envelopes.
use mercury_messaging.Base.{◌≡◌, refl, arith, [], ◌∷◌, take, done}
use mercury_messaging.MessageLog.{Bytes}
use mercury_messaging.Frame.{
  Frame, encode_frame, decode_frame, parse, classify, pack_envelopes, unpack_envelopes,
  unpack_blobs, read_envelopes,
}
use mercury_messaging.Frame.Words.{of_le32}
use mercury_messaging.Frame.RoundTrip.{decode_frame-encode_frame}
use mercury_messaging.Frame.Envelopes.{
  Agrees, unpack_envelopes-pack_envelopes, unpack_envelopes-Agrees,
}
use mercury_messaging.Tests.Sets.{word, other_word}

abbrev push_frame : Frame
push_frame = record { kind = 4; ref = 70000; topic_id = 258; payload = 1 ∷ 9 ∷ [] }

decode_frame-encode_frame_example :
    (decode_frame (encode_frame push_frame) ≡ done push_frame)
    × (parse (encode_frame push_frame) ≡ classify push_frame)
decode_frame-encode_frame_example =
    decode_frame-encode_frame push_frame
      (record { kind = omega arith; ref = omega arith; topic_id = omega arith })

unpack_envelopes-pack_envelopes_example :
    (unpack_envelopes (pack_envelopes (word ∷ other_word ∷ [])) ≡ done (word ∷ other_word ∷ []))
    × (read_envelopes (pack_envelopes (word ∷ other_word ∷ [])) ≡ word ∷ other_word ∷ [])
unpack_envelopes-pack_envelopes_example =
    unpack_envelopes-pack_envelopes (word ∷ other_word ∷ []) (omega arith)
      (omega arith, (omega arith, tt))

-- One envelope of five bytes, of which two came.
abbrev cut_off : Bytes
cut_off = 1 ∷ 0 ∷ 0 ∷ 0 ∷ 5 ∷ 0 ∷ 0 ∷ 0 ∷ 104 ∷ 105 ∷ []

cut_off_run : unpack_envelopes cut_off ≡ done (word ∷ [])
unfolding unpack_envelopes unpack_blobs of_le32 take
cut_off_run = refl

unpack_envelopes-Agrees_example : Agrees (read_envelopes cut_off) (word ∷ [])
unpack_envelopes-Agrees_example = unpack_envelopes-Agrees cut_off (word ∷ []) cut_off_run

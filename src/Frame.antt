-- ===== src/Frame.antt =====
-- The binary frames between sdks/mercury-sdk-js/src/frame.ts and
-- apps/gateway/lib/gateway/binary_socket.ex. A call that throws a RangeError is a `panic`.
pub mod Words
pub mod RoundTrip
pub mod Envelopes
use Prim.Native.Nat.{zero, suc}
use mercury_messaging.Base.{
  ℕ, ◌+◌, ◌*◌, ◌%◌, ◌^◌, List, [], ◌∷◌, ◌++◌, ◌==◌, ◌&&◌, leb, if◌then◌else◌, length, take, drop,
  Outcome, done, panic, ◌>>=◌,
}
use mercury_messaging.MessageLog.{Bytes}
use mercury_messaging.Frame.Words.{le16, le32, of_le16, of_le32}

pub record Frame : Type 0 where
  pub kind : ℕ
  pub ref : ℕ
  pub topic_id : ℕ
  pub payload : Bytes

abbrev pub frame_join : ℕ
frame_join = 1

abbrev pub frame_leave : ℕ
frame_leave = 2

abbrev pub frame_reply : ℕ
frame_reply = 3

abbrev pub frame_push : ℕ
frame_push = 4

abbrev pub frame_broadcast : ℕ
frame_broadcast = 5

abbrev pub frame_heartbeat : ℕ
frame_heartbeat = 6

-- `encodeFrame`, and the frames that the gateway writes.
unfoldable pub encode_frame : Frame → Bytes
encode_frame f = f.kind % 256 ∷ (le32 f.ref ++ (le16 f.topic_id ++ f.payload))

-- `decodeFrame`: the `DataView` has no `getUint16(5)` below seven bytes.
unfoldable pub decode_frame : Bytes → Outcome Frame
decode_frame (k ∷ a ∷ b ∷ c ∷ d ∷ e ∷ f ∷ rest) =
    done (record { kind = k; ref = of_le32 a b c d; topic_id = of_le16 e f; payload = rest })
decode_frame _ = panic

-- The clauses of `handle_in` for a binary frame.
pub data Incoming : Type 0 where
  heartbeat : Incoming
  joins : (ref : ℕ) (topic : Bytes) → Incoming
  leaves : (topic_id : ℕ) → Incoming
  pushes : (ref topic_id event : ℕ) (payload : Bytes) → Incoming
  ignored : Incoming

-- `<<@leave, _ref::32-little, topic_id::16-little>>` ends with the header.
if_bare : Bytes → Incoming → Incoming
if_bare [] i = i
if_bare (b ∷ rest) i = ignored

push_of : ℕ → ℕ → Bytes → Incoming
push_of ref topic_id [] = ignored
push_of ref topic_id (event ∷ payload) = pushes ref topic_id event payload

pub classify : Frame → Incoming
unfolding if_bare push_of
classify f =
    if f.kind == frame_heartbeat
    then if_bare f.payload heartbeat
    else (if f.kind == frame_join && f.topic_id == 0
        then joins f.ref f.payload
        else (if f.kind == frame_leave
            then if_bare f.payload (leaves f.topic_id)
            else (if f.kind == frame_push then push_of f.ref f.topic_id f.payload else ignored)))

unfoldable pub parse : Bytes → Incoming
unfolding classify
parse (k ∷ a ∷ b ∷ c ∷ d ∷ e ∷ f ∷ rest) =
    classify (record { kind = k; ref = of_le32 a b c d; topic_id = of_le16 e f; payload = rest })
parse _ = ignored

-- The blobs of `packEnvelopes` and `pack_envelopes`, each after its length.
unfoldable pub pack_blobs : List Bytes → Bytes
pack_blobs [] = []
pack_blobs (blob ∷ blobs) = le32 (length blob) ++ (blob ++ pack_blobs blobs)

unfoldable pub pack_envelopes : List Bytes → Bytes
pack_envelopes blobs = le32 (length blobs) ++ pack_blobs blobs

-- The loop of `unpackEnvelopes` on what follows `offset`: `getUint32` throws on one to three
-- bytes, and `subarray` stops at the end.
unfoldable pub unpack_blobs : ℕ → Bytes → Outcome (List Bytes)
unpack_blobs zero rest = done []
unpack_blobs (suc n) [] = done []
unpack_blobs (suc n) (a ∷ b ∷ c ∷ d ∷ rest) = do
  blobs ← unpack_blobs n (drop (of_le32 a b c d) rest)
  done (take (of_le32 a b c d) rest ∷ blobs)
unpack_blobs (suc n) (a ∷ rest) = panic

unfoldable pub unpack_envelopes : Bytes → Outcome (List Bytes)
unpack_envelopes (a ∷ b ∷ c ∷ d ∷ rest) = unpack_blobs (of_le32 a b c d) rest
unpack_envelopes _ = done []

-- `unpack_envelopes_loop` of the gateway, which stops at a blob that is not whole.
unfoldable pub read_blobs : ℕ → Bytes → List Bytes
read_blobs zero rest = []
read_blobs (suc n) (a ∷ b ∷ c ∷ d ∷ rest) =
    let blobs = read_blobs n (drop (of_le32 a b c d) rest) in
    if leb (of_le32 a b c d) (length rest) then take (of_le32 a b c d) rest ∷ blobs else []
read_blobs (suc n) _ = []

-- `unpack_envelopes` of the gateway.
unfoldable pub read_envelopes : Bytes → List Bytes
read_envelopes (a ∷ b ∷ c ∷ d ∷ rest) = read_blobs (of_le32 a b c d) rest
read_envelopes _ = []

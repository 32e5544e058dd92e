-- ===== src/Gateway/Process.antt =====
-- apps/gateway/lib/gateway/binary_socket.ex: `handle_in`, `handle_info`, and the process over the
-- messages that reach it.
pub mod Invariant
pub mod Heartbeat
pub mod Rejoin
use mercury_messaging.Base.{
  ℕ, ◌+◌, List, [], ◌∷◌, ◌++◌, leb, if◌then◌else◌, Option, none, some, Outcome, done, panic,
}
use mercury_messaging.MessageLog.{Bytes}
use mercury_messaging.HashMap.{get}
use mercury_messaging.HashMap.Bytes.{bytes_eq}
use mercury_messaging.Frame.{
  Frame, encode_frame, frame_broadcast, Incoming, heartbeat, joins, leaves, pushes, ignored, parse,
}
use mercury_messaging.Gateway.Socket.{Socket, Output, handle_leave}
use mercury_messaging.Gateway.Join.{Persistence, handle_join}
use mercury_messaging.Gateway.Services.{Services}
use mercury_messaging.Gateway.Dispatch.{handle_push}

abbrev pub max_missed_heartbeats : ℕ
max_missed_heartbeats = 3

-- What a callback leaves: the process goes on, it stops with `heartbeat timeout`, or it has raised
-- or exited.
pub data Handled : Type 0 where
  goes_on : Output → Handled
  stops : Handled
  raised : Handled

abbrev pub quiet : Socket → Output
quiet s = record { socket = s; calls = []; frames = [] }

abbrev pub of_outcome : Outcome Output → Handled
of_outcome (done out) = goes_on out
of_outcome panic = raised

-- The messages of the process: a frame, the timer, a broadcast of the pubsub, any other.
pub data Message : Type 0 where
  binary : (bytes : Bytes) → Message
  text : (bytes : Bytes) → Message
  heartbeat_check : Message
  binary_broadcast : (pubsub : Bytes) (event : ℕ) (payload : Bytes) → Message
  other : Message

-- `<<@broadcast, 0::32-little, topic_id::16-little, event_byte::8, payload::binary>>`
unfoldable pub broadcast_frame : ℕ → ℕ → Bytes → Bytes
broadcast_frame topic_id event payload =
    encode_frame
      (record { kind = frame_broadcast; ref = 0; topic_id = topic_id; payload = event ∷ payload })

broadcast_to : Option ℕ → ℕ → Bytes → List Bytes
broadcast_to none event payload = []
broadcast_to (some topic_id) event payload = broadcast_frame topic_id event payload ∷ []

unfoldable pub handle_broadcast : Bytes → ℕ → Bytes → Socket → Output
unfolding broadcast_to
handle_broadcast pubsub event payload s = record {
  socket = s;
  calls = [];
  frames = broadcast_to (get pubsub s.pubsub_topics) event payload;
}

-- The new timer is left out: a check comes every 30 seconds.
unfoldable pub handle_check : Socket → Handled
handle_check s =
    if leb max_missed_heartbeats (s.missed_heartbeats + 1)
    then stops
    else goes_on (quiet (record s { missed_heartbeats = s.missed_heartbeats + 1 }))

abbrev pub continue : Handled → (Socket → Handled) → Handled
continue (goes_on out) f = f out.socket
continue stops f = stops
continue raised f = raised

module _ (db : Persistence) (v : Services) where
  handle_frame : Incoming → Socket → Handled
  handle_frame heartbeat s = goes_on (quiet (record s { missed_heartbeats = 0 }))
  handle_frame (joins ref topic) s = of_outcome (handle_join db ref topic s)
  handle_frame (leaves topic_id) s = goes_on (handle_leave topic_id s)
  handle_frame (pushes ref topic_id event payload) s =
      of_outcome (handle_push v s ref topic_id event payload)
  handle_frame ignored s = goes_on (quiet s)

  unfoldable pub handle_in : Bytes → Socket → Handled
  unfolding handle_frame
  handle_in bytes s = handle_frame (parse bytes) s

  unfoldable pub handle : Message → Socket → Handled
  handle (binary bytes) s = handle_in bytes s
  handle (text bytes) s = goes_on (quiet s)
  handle heartbeat_check s = handle_check s
  handle (binary_broadcast pubsub event payload) s =
      goes_on (handle_broadcast pubsub event payload s)
  handle other s = goes_on (quiet s)

  -- The process over a list of messages: what the last callback leaves.
  unfoldable pub run : List Message → Socket → Handled
  run [] s = goes_on (quiet s)
  run (m ∷ ms) s = continue (handle m s) (λ s'. run ms s')

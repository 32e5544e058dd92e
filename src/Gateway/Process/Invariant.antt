-- ===== src/Gateway/Process/Invariant.antt =====
-- apps/gateway/lib/gateway/binary_socket.ex: what holds of the topics after any messages.
use mercury_messaging.Base.{
  Outcome, done, panic, ℕ, ◌≡◌, ◌<◌, refl, List, [], ◌∷◌, some, Option-cases, inl, inr, arith, ◌+◌,
  leb, Bool-cases, ◌⊎◌,
}
use mercury_messaging.MessageLog.{Bytes}
use mercury_messaging.HashMap.{get}
use mercury_messaging.HashMap.Bytes.{bytes_eq, nat_eq}
use mercury_messaging.Frame.{Incoming, heartbeat, joins, leaves, pushes, ignored, parse}
use mercury_messaging.Gateway.Socket.{Socket, Info, Output, init}
use mercury_messaging.Gateway.Socket.Invariant.{IsSound, init-IsSound}
use mercury_messaging.Gateway.Socket.Left.{handle_leave-IsSound}
use mercury_messaging.Gateway.Join.{Persistence, handle_join}
use mercury_messaging.Gateway.Join.Laws.{Answered, handle_join_answers}
use mercury_messaging.Gateway.Dispatch.{handle_push}
use mercury_messaging.Gateway.Services.{Services}
use mercury_messaging.Gateway.Dispatch.Answers.{push_socket}
use mercury_messaging.Gateway.Process.{
  Handled, goes_on, stops, raised, of_outcome, Message, binary, text, heartbeat_check,
  binary_broadcast, other, handle_frame, handle_in, handle_check, handle_broadcast, broadcast_to,
  broadcast_frame, handle, continue, run, max_missed_heartbeats,
}

-- If the process goes on, its socket has the property.
abbrev pub After : (Socket → Type 0) → Handled → Type 0
After P (goes_on out) = P out.socket
After P stops = Unit
After P raised = Unit

missed-IsSound : (s : Socket) (n : ℕ) → IsSound s → IsSound (record s { missed_heartbeats = n })
missed-IsSound s n v = record {
  positive = v.positive;
  bounded = v.bounded;
  distinct_topics = v.distinct_topics;
  distinct_ids = v.distinct_ids;
  distinct_pubsub = v.distinct_pubsub;
  used = v.used;
  named = v.named;
  subscribed = v.subscribed;
}

handle_check-IsSound : (s : Socket) → IsSound s → After IsSound (handle_check s)
unfolding handle_check
handle_check-IsSound s v = elim (Bool-cases (leb max_missed_heartbeats (s.missed_heartbeats + 1))) [
  | inl last ↦ rw last tt
  | inr early ↦ rw early (missed-IsSound s (s.missed_heartbeats + 1) v)
]

pub continue-After :
    (P Q : Socket → Type 0) (h : Handled) (f : Socket → Handled)
    → After P h
    → ((s : Socket) → P s → After Q (f s))
    → After Q (continue h f)
continue-After P Q (goes_on out) f p step = step out.socket p
continue-After P Q stops f p step = tt
continue-After P Q raised f p step = tt

pub of_outcome-After :
    (P : Socket → Type 0) (o : Outcome Output)
    → ((out : Output) → o ≡ done out → P out.socket)
    → After P (of_outcome o)
of_outcome-After P (done out) h = h out refl
of_outcome-After P panic h = tt

module _ (db : Persistence) (v : Services) where
  join-IsSound :
      (ref : ℕ) (topic : Bytes) (s : Socket)
      → IsSound s
      → After IsSound (of_outcome (handle_join db ref topic s))
  join-IsSound ref topic s k =
      of_outcome-After IsSound (handle_join db ref topic s)
        (λ out h. sound out (handle_join_answers db ref topic s out k h))
    where
      sound : (out : Output) → Answered ref topic s out → IsSound out.socket
      sound out (inl (n, frames)) = n.sound
      sound out (inr (kept, calls, frames)) = rw kept k

  handle_frame-IsSound :
      (i : Incoming) (s : Socket) → IsSound s → After IsSound (handle_frame db v i s)
  unfolding handle_frame
  handle_frame-IsSound heartbeat s k = missed-IsSound s 0 k
  handle_frame-IsSound (joins ref topic) s k = join-IsSound ref topic s k
  handle_frame-IsSound (leaves topic_id) s k = handle_leave-IsSound topic_id s k
  handle_frame-IsSound (pushes ref topic_id event payload) s k =
      of_outcome-After IsSound (handle_push v s ref topic_id event payload)
        (λ out h. rw (push_socket v s ref topic_id event payload out h) k)
  handle_frame-IsSound ignored s k = k

  pub handle-IsSound : (m : Message) (s : Socket) → IsSound s → After IsSound (handle db v m s)
  unfolding handle handle_in handle_broadcast
  handle-IsSound (binary bytes) s k = handle_frame-IsSound (parse bytes) s k
  handle-IsSound (text bytes) s k = k
  handle-IsSound heartbeat_check s k = handle_check-IsSound s k
  handle-IsSound (binary_broadcast pubsub event payload) s k = k
  handle-IsSound other s k = k

  pub run-IsSound : (ms : List Message) (s : Socket) → IsSound s → After IsSound (run db v ms s)
  unfolding run
  run-IsSound [] s k = k
  run-IsSound (m ∷ ms) s k =
      continue-After IsSound IsSound (handle db v m s) (run db v ms) (handle-IsSound m s k)
        (run-IsSound ms)

  -- Whatever messages reach a new connection - joins, leaves, pushes, checks and broadcasts
  -- in any order - as long as its process goes on: the ids of the joined topics are from 1
  -- to 65535 and below the next one, and each name of a topic or of the pubsub that is kept
  -- stands for a joined topic of that name.
  pub run-init-IsSound :
      (tenant user device : Bytes) (ms : List Message)
      → After IsSound (run db v ms (init tenant user device))
  run-init-IsSound tenant user device ms = run-IsSound ms _ (init-IsSound tenant user device)

-- In a sound socket a broadcast of the pubsub is dropped, or it is sent once, with the id of a
-- topic that is joined now under that name of the pubsub; the id fits the 16 bits of the frame.
pub handle_broadcast_joined :
    (s : Socket) (pubsub : Bytes) (event : ℕ) (payload : Bytes)
    → IsSound s
    → ((handle_broadcast pubsub event payload s).frames ≡ [])
      ⊎ ((id : ℕ) × (info : Info) × (get id s.topic_ids ≡ some info)
          × (info.pubsub ≡ some pubsub)
          × (id < 65536)
          × ((handle_broadcast pubsub event payload s).frames
              ≡ broadcast_frame id event payload ∷ []))
unfolding handle_broadcast broadcast_to
handle_broadcast_joined s pubsub event payload v =
    elim (Option-cases (get pubsub s.pubsub_topics)) [
      | inl absent ↦ inl (rw absent refl)
      | inr (id, there) ↦
          let n = v.subscribed pubsub id there in
          let (low, high) = v.used id n.info n.joined in
          inr (id, n.info, n.joined, n.claim, omega (arith, high, v.bounded), rw there refl)
    ]

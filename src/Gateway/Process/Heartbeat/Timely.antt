-- ===== src/Gateway/Process/Heartbeat/Timely.antt =====
-- apps/gateway/lib/gateway/binary_socket.ex: a client whose heartbeats are in time.
use mathlib.Core.Path.{subst}
use mercury_messaging.Base.{
  ℕ, ◌+◌, ◌<◌, sym, arith, List, [], ◌∷◌, leb, Bool-cases, inl, inr, Outcome, done, panic,
}
use mercury_messaging.Frame.{Incoming, heartbeat, joins, leaves, pushes, ignored, parse}
use mercury_messaging.HashMap.Bytes.{nat_eq}
use mercury_messaging.Gateway.Socket.{Socket, Output}
use mercury_messaging.Gateway.Socket.Invariant.{IsSound}
use mercury_messaging.Gateway.Join.{Persistence, handle_join}
use mercury_messaging.Gateway.Dispatch.{handle_push}
use mercury_messaging.Gateway.Services.{Services}
use mercury_messaging.Gateway.Process.{
  Handled, goes_on, stops, raised, of_outcome, Message, binary, text, heartbeat_check,
  binary_broadcast, other, max_missed_heartbeats, handle_frame, handle_in, handle_check, handle,
  continue, run,
}
use mercury_messaging.Gateway.Process.Invariant.{After}
use mercury_messaging.Gateway.Process.Heartbeat.{pulse, missed_after, Later, handle-Later}

-- The process has not stopped with `heartbeat timeout`.
abbrev pub HasNoTimeout : Handled → Type 0
HasNoTimeout (goes_on out) = Unit
HasNoTimeout stops = ⊥
HasNoTimeout raised = Unit

of_outcome-HasNoTimeout : (o : Outcome Output) → HasNoTimeout (of_outcome o)
of_outcome-HasNoTimeout (done out) = tt
of_outcome-HasNoTimeout panic = tt

continue-HasNoTimeout :
    (P : Socket → Type 0) (h : Handled) (f : Socket → Handled)
    → After P h
    → HasNoTimeout h
    → ((s : Socket) → P s → HasNoTimeout (f s))
    → HasNoTimeout (continue h f)
continue-HasNoTimeout P (goes_on out) f p up step = step out.socket p
continue-HasNoTimeout P stops f p up step = up
continue-HasNoTimeout P raised f p up step = tt

-- The checks that come between two heartbeats are at most two, `n` of them before the messages.
abbrev pub IsTimely : ℕ → List Message → Type 0
IsTimely n [] = Unit
IsTimely n (m ∷ ms) = (missed_after (pulse m) n < 3) × IsTimely (missed_after (pulse m) n) ms

check_goes_on : (s : Socket) → s.missed_heartbeats + 1 < 3 → HasNoTimeout (handle_check s)
unfolding handle_check
check_goes_on s early = elim (Bool-cases (leb max_missed_heartbeats (s.missed_heartbeats + 1))) [
  | inl last ↦ ground (arith, early, last)
  | inr early ↦ rw early tt
]

module _ (db : Persistence) (v : Services) where
  frame-HasNoTimeout : (i : Incoming) (s : Socket) → HasNoTimeout (handle_frame db v i s)
  unfolding handle_frame
  frame-HasNoTimeout heartbeat s = tt
  frame-HasNoTimeout (joins ref topic) s = of_outcome-HasNoTimeout (handle_join db ref topic s)
  frame-HasNoTimeout (leaves topic_id) s = tt
  frame-HasNoTimeout (pushes ref topic_id event payload) s =
      of_outcome-HasNoTimeout (handle_push v s ref topic_id event payload)
  frame-HasNoTimeout ignored s = tt

  handle-HasNoTimeout :
      (m : Message) (s : Socket)
      → missed_after (pulse m) s.missed_heartbeats < 3
      → HasNoTimeout (handle db v m s)
  unfolding handle handle_in
  handle-HasNoTimeout (binary bytes) s few = frame-HasNoTimeout (parse bytes) s
  handle-HasNoTimeout (text bytes) s few = tt
  handle-HasNoTimeout heartbeat_check s few = check_goes_on s few
  handle-HasNoTimeout (binary_broadcast pubsub event payload) s few = tt
  handle-HasNoTimeout other s few = tt

  -- Let a sound socket have missed fewer than three heartbeats, and let at most two checks
  -- come between two heartbeats, those before the messages included. Then no run of the
  -- messages, whatever else they are, ends with the heartbeat timeout.
  pub run-HasNoTimeout :
      (ms : List Message) (s : Socket)
      → IsSound s
      → s.missed_heartbeats < 3
      → IsTimely s.missed_heartbeats ms
      → HasNoTimeout (run db v ms s)
  unfolding run
  run-HasNoTimeout [] s k below timely = tt
  run-HasNoTimeout (m ∷ ms) s k below (few, timely) =
      continue-HasNoTimeout (Later (pulse m) s) (handle db v m s) (run db v ms)
        (handle-Later db v m s k below) (handle-HasNoTimeout m s few)
        (λ s' l.
          run-HasNoTimeout ms s' l.sound l.below (subst (λ n. IsTimely n ms) (sym l.counts) timely))

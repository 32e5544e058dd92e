-- ===== src/Gateway/Process/Heartbeat.antt =====
-- apps/gateway/lib/gateway/binary_socket.ex: the heartbeats of the client and the checks of the timer.
pub mod Idle
pub mod Timely
use Prim.Native.Nat.{zero, suc}
use mercury_messaging.Base.{
  ap, ℕ, ◌+◌, ◌≤◌, ◌<◌, ◌≡◌, ◌≢◌, refl, arith, List, [], ◌∷◌, All, leb, true, false, Bool-cases,
  inl, inr, Option-cases, get_or, Outcome, done, panic, Outcome-cases, Option, none, some,
}
use mercury_messaging.MessageLog.{Bytes}
use mercury_messaging.Frame.{Incoming, heartbeat, joins, leaves, pushes, ignored, parse}
use mercury_messaging.HashMap.{get}
use mercury_messaging.HashMap.Bytes.{nat_eq}
use mercury_messaging.Gateway.Socket.{Socket, Output, Info, handle_leave, leave}
use mercury_messaging.Gateway.Socket.Invariant.{IsSound}
use mercury_messaging.Gateway.Join.{Persistence, handle_join}
use mercury_messaging.Gateway.Join.Laws.{Answered, handle_join_answers}
use mercury_messaging.Gateway.Dispatch.{handle_push}
use mercury_messaging.Gateway.Services.{Services}
use mercury_messaging.Gateway.Dispatch.Answers.{push_socket}
use mercury_messaging.Gateway.Process.{
  Handled, goes_on, stops, raised, of_outcome, Message, binary, text, heartbeat_check,
  binary_broadcast, other, max_missed_heartbeats, handle_frame, handle_in, handle_check,
  handle_broadcast, handle, continue, run,
}
use mercury_messaging.Gateway.Process.Invariant.{
  of_outcome-After, After, handle-IsSound, continue-After,
}

-- What a message is to the heartbeats.
pub data Pulse : Type 0 where
  beat check neither : Pulse

abbrev pub pulse_of_frame : Incoming → Pulse
pulse_of_frame heartbeat = beat
pulse_of_frame (joins ref topic) = neither
pulse_of_frame (leaves topic_id) = neither
pulse_of_frame (pushes ref topic_id event payload) = neither
pulse_of_frame ignored = neither

abbrev pub pulse : Message → Pulse
pulse (binary bytes) = pulse_of_frame (parse bytes)
pulse (text bytes) = neither
pulse heartbeat_check = check
pulse (binary_broadcast pubsub event payload) = neither
pulse other = neither

-- The number of missed heartbeats after a message.
abbrev pub missed_after : Pulse → ℕ → ℕ
missed_after beat n = 0
missed_after check n = n + 1
missed_after neither n = n

leave_missed :
    (id : ℕ) (o : Option Info) (s : Socket)
    → (leave id o s).socket.missed_heartbeats ≡ s.missed_heartbeats
unfolding leave
leave_missed id none s = refl
leave_missed id (some info) s = refl

-- What a message leaves, if the process goes on.
pub record Later (p : Pulse) (s s' : Socket) : Type 0 where
  pub sound : IsSound s'
  pub counts : s'.missed_heartbeats ≡ missed_after p s.missed_heartbeats
  pub below : s'.missed_heartbeats < 3

After-both :
    (P Q R : Socket → Type 0) (h : Handled)
    → After P h
    → After Q h
    → ((s : Socket) → P s → Q s → R s)
    → After R h
After-both P Q R (goes_on out) p q both = both out.socket p q
After-both P Q R stops p q both = tt
After-both P Q R raised p q both = tt

After-Unit : (h : Handled) → After (λ s. Unit) h
After-Unit (goes_on out) = tt
After-Unit stops = tt
After-Unit raised = tt

module _ (db : Persistence) (v : Services) where
  -- The count after a message, if the process goes on.
  abbrev Counts : Pulse → Socket → Handled → Type 0
  Counts p s = After (λ s'. s'.missed_heartbeats ≡ missed_after p s.missed_heartbeats)

  join-Counts :
      (ref : ℕ) (topic : Bytes) (s : Socket)
      → IsSound s
      → Counts neither s (of_outcome (handle_join db ref topic s))
  join-Counts ref topic s k =
      of_outcome-After (λ s'. s'.missed_heartbeats ≡ s.missed_heartbeats)
        (handle_join db ref topic s)
        (λ out h. same_count out (handle_join_answers db ref topic s out k h))
    where
      same_count :
          (out : Output)
          → Answered ref topic s out
          → out.socket.missed_heartbeats ≡ s.missed_heartbeats
      same_count out (inl (n, frames)) = n.kept
      same_count out (inr (kept, calls, frames)) = rw kept refl

  frame-Counts :
      (i : Incoming) (s : Socket) → IsSound s → Counts (pulse_of_frame i) s (handle_frame db v i s)
  unfolding handle_frame handle_leave
  frame-Counts heartbeat s k = refl
  frame-Counts (joins ref topic) s k = join-Counts ref topic s k
  frame-Counts (leaves topic_id) s k = leave_missed topic_id (get topic_id s.topic_ids) s
  frame-Counts (pushes ref topic_id event payload) s k =
      of_outcome-After (λ s'. s'.missed_heartbeats ≡ s.missed_heartbeats)
        (handle_push v s ref topic_id event payload)
        (λ out h.
          ap (λ (k : Socket). k.missed_heartbeats)
            (push_socket v s ref topic_id event payload out h))
  frame-Counts ignored s k = refl

  check-Counts : (s : Socket) → Counts check s (handle_check s)
  unfolding handle_check
  check-Counts s = elim (Bool-cases (leb max_missed_heartbeats (s.missed_heartbeats + 1))) [
    | inl last ↦ rw last tt
    | inr early ↦ rw early refl
  ]

  handle-Counts : (m : Message) (s : Socket) → IsSound s → Counts (pulse m) s (handle db v m s)
  unfolding handle handle_in handle_broadcast
  handle-Counts (binary bytes) s k = frame-Counts (parse bytes) s k
  handle-Counts (text bytes) s k = refl
  handle-Counts heartbeat_check s k = check-Counts s
  handle-Counts (binary_broadcast pubsub event payload) s k = refl
  handle-Counts other s k = refl

  check_below : (s : Socket) → After (λ s'. s'.missed_heartbeats < 3) (handle_check s)
  unfolding handle_check
  check_below s = elim (Bool-cases (leb max_missed_heartbeats (s.missed_heartbeats + 1))) [
    | inl last ↦ rw last tt
    | inr early ↦ rw early (ground (arith, early))
  ]

  frame-below :
      (i : Incoming) (s : Socket)
      → IsSound s
      → s.missed_heartbeats < 3
      → After (λ s'. s'.missed_heartbeats < 3) (handle_frame db v i s)
  frame-below i s k below =
      After-both (λ s'. s'.missed_heartbeats ≡ missed_after (pulse_of_frame i) s.missed_heartbeats)
        (λ s'. Unit) (λ s'. s'.missed_heartbeats < 3) (handle_frame db v i s) (frame-Counts i s k)
        (After-Unit (handle_frame db v i s)) (λ s' e u. no_check i s'.missed_heartbeats e)
    where
      no_check :
          (i : Incoming) (k : ℕ) → k ≡ missed_after (pulse_of_frame i) s.missed_heartbeats → k < 3
      no_check heartbeat k e = omega (arith, e, below)
      no_check (joins ref topic) k e = omega (arith, e, below)
      no_check (leaves topic_id) k e = omega (arith, e, below)
      no_check (pushes ref topic_id event payload) k e = omega (arith, e, below)
      no_check ignored k e = omega (arith, e, below)

  handle-below :
      (m : Message) (s : Socket)
      → IsSound s
      → s.missed_heartbeats < 3
      → After (λ s'. s'.missed_heartbeats < 3) (handle db v m s)
  unfolding handle handle_in handle_broadcast
  handle-below (binary bytes) s k below = frame-below (parse bytes) s k below
  handle-below (text bytes) s k below = below
  handle-below heartbeat_check s k below = check_below s
  handle-below (binary_broadcast pubsub event payload) s k below = below
  handle-below other s k below = below

  pub handle-Later :
      (m : Message) (s : Socket)
      → IsSound s
      → s.missed_heartbeats < 3
      → After (Later (pulse m) s) (handle db v m s)
  handle-Later m s k below =
      After-both IsSound
        (λ s'.
          (s'.missed_heartbeats ≡ missed_after (pulse m) s.missed_heartbeats)
          × (s'.missed_heartbeats < 3))
        (Later (pulse m) s) (handle db v m s) (handle-IsSound db v m s k)
        (After-both (λ s'. s'.missed_heartbeats ≡ missed_after (pulse m) s.missed_heartbeats)
          (λ s'. s'.missed_heartbeats < 3) _ (handle db v m s) (handle-Counts m s k)
          (handle-below m s k below) (λ s' e b. (e, b)))
        (λ s' sound (e, b). record { sound = sound; counts = e; below = b })

-- ===== src/Gateway/Process/Heartbeat/Idle.antt =====
-- apps/gateway/lib/gateway/binary_socket.ex: a client that sends no heartbeat.
use mercury_messaging.Base.{ℕ, ◌+◌, ◌≤◌, ◌<◌, ◌≡◌, ◌≢◌, refl, arith, List, [], ◌∷◌, All}
use mercury_messaging.HashMap.Bytes.{nat_eq}
use mercury_messaging.Gateway.Socket.{Socket}
use mercury_messaging.Gateway.Socket.Invariant.{IsSound}
use mercury_messaging.Gateway.Join.{Persistence}
use mercury_messaging.Gateway.Services.{Services}
use mercury_messaging.Gateway.Process.{Message, handle, run}
use mercury_messaging.Gateway.Process.Invariant.{After, continue-After}
use mercury_messaging.Gateway.Process.Heartbeat.{
  Pulse, beat, check, neither, pulse, missed_after, Later, handle-Later,
}

-- How many checks come, if no heartbeat does.
abbrev pub checks : List Message → ℕ
checks [] = 0
checks (m ∷ ms) = missed_after (pulse m) 0 + checks ms

-- No frame of the messages is a heartbeat.
abbrev pub IsIdle : List Message → Type 0
IsIdle = All (λ m. pulse m ≢ beat)

idle-Pulse :
    (p : Pulse) (n k rest : ℕ)
    → p ≢ beat
    → k ≡ missed_after p n
    → 3 ≤ n + (missed_after p 0 + rest)
    → 3 ≤ k + rest
idle-Pulse beat n k rest idle e le = elim (idle refl) [ ]
idle-Pulse check n k rest idle e le = omega (arith, e, le)
idle-Pulse neither n k rest idle e le = omega (arith, e, le)

module _ (db : Persistence) (v : Services) where
  -- Let a sound socket have missed fewer than three heartbeats, let messages come of which
  -- none is a heartbeat, and let the checks among them make the missed ones at least three.
  -- Then the process does not go on after them: it stops with the heartbeat timeout, or it
  -- has raised or exited.
  pub idle_stops :
      (ms : List Message) (s : Socket)
      → IsSound s
      → s.missed_heartbeats < 3
      → IsIdle ms
      → 3 ≤ s.missed_heartbeats + checks ms
      → After (λ s'. ⊥) (run db v ms s)
  unfolding run
  idle_stops [] s k below idle late = absurd (omega (arith, below, late))
  idle_stops (m ∷ ms) s k below (idle, rest) late =
      continue-After (Later (pulse m) s) (λ s'. ⊥) (handle db v m s) (run db v ms)
        (handle-Later db v m s k below)
        (λ s' l. idle_stops ms s' l.sound l.below rest (
          idle-Pulse (pulse m) s.missed_heartbeats s'.missed_heartbeats (checks ms) idle l.counts
            late))

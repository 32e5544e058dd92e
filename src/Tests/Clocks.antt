-- ===== src/Tests/Clocks.antt =====
-- Two nodes exchange a message; registers written at their clocks.
use mercury_messaging.Base.{
  ℕ, ◌-◌, ◌≤◌, ◌≡◌, ◌↔◌, refl, arith, [], ◌∷◌, some, done, debug, release, u32_mod,
}
use mercury_messaging.Order.{◌≺◌}
use mercury_messaging.Hlc.{Hlc, Bytes16, tick, merge, system_time_ms, merge_counter}
use mercury_messaging.Hlc.Order.{hlc_ord}
use mercury_messaging.Hlc.Advance.{merge_advances, merge_total, merge_release_wraps}
use mercury_messaging.Hlc.Causality.{local, next, message, chain, Causes-lt}
use mercury_messaging.LwwRegister.{LwwRegister, merge as merge_registers}
use mercury_messaging.LwwRegister.Laws.{merge_comm_iff}

abbrev pub node_a : Bytes16
node_a = 1 ∷ 1 ∷ 1 ∷ 1 ∷ 1 ∷ 1 ∷ 1 ∷ 1 ∷ 1 ∷ 1 ∷ 1 ∷ 1 ∷ 1 ∷ 1 ∷ 1 ∷ 1 ∷ []

abbrev pub node_b : Bytes16
node_b = 2 ∷ 2 ∷ 2 ∷ 2 ∷ 2 ∷ 2 ∷ 2 ∷ 2 ∷ 2 ∷ 2 ∷ 2 ∷ 2 ∷ 2 ∷ 2 ∷ 2 ∷ 2 ∷ []

abbrev pub clock : ℕ → ℕ → Bytes16 → Hlc
clock wall counter node = record { wall_clock_ms = wall; counter = counter; node_id = node }

-- The system time stands behind the clock of `node_a`.
tick_run : tick (some 90) (clock 100 4 node_a) ≡ done (clock 100 5 node_a)
unfolding tick system_time_ms
tick_run = refl

merge_run :
    merge debug (some 90) (clock 95 7 node_b) (clock 100 5 node_a) ≡ done (clock 100 6 node_b)
unfolding merge system_time_ms merge_counter
merge_run = refl

merge_advances_example :
    (clock 95 7 node_b ≺ clock 100 6 node_b)
    × (clock 100 5 node_a ≺ clock 100 6 node_b)
    × (node_b ≡ node_b)
    × (90 ≤ 100)
merge_advances_example =
    merge_advances 90 (clock 95 7 node_b) (clock 100 5 node_a) (clock 100 6 node_b) merge_run

-- The tick of `node_a` is sent to `node_b`.
Causes-lt_example : clock 100 4 node_a ≺ clock 100 6 node_b
Causes-lt_example = Causes-lt (
    chain (clock 100 5 node_a) (next (local 90 tick_run))
      (message 90 (clock 95 7 node_b) merge_run))

merge_total_example :
    (h' : Hlc) × (merge debug (some 90) (clock 95 7 node_b) (clock 100 5 node_a) ≡ done h')
    × (merge release (some 90) (clock 95 7 node_b) (clock 100 5 node_a) ≡ done h')
merge_total_example =
    merge_total 90 (clock 95 7 node_b) (clock 100 5 node_a) (omega arith) (omega arith)
      (omega arith)

abbrev last_clock : Hlc
last_clock = clock 100 (u32_mod - 1) node_a

merge_release_wraps_example :
    (h' : Hlc) × (merge release (some 90) last_clock (clock 95 7 node_b) ≡ done h')
    × (h' ≺ last_clock)
merge_release_wraps_example =
    merge_release_wraps 90 last_clock (clock 95 7 node_b) (omega arith) (omega arith) (omega arith)
      (omega arith)

abbrev register : ℕ → Hlc → LwwRegister ℕ
register value timestamp = record { value = value; timestamp = timestamp }

merge_comm_iff_example :
    (merge_registers (register 1 (clock 100 4 node_a)) (register 2 (clock 100 4 node_a))
      ≡ merge_registers (register 2 (clock 100 4 node_a)) (register 1 (clock 100 4 node_a)))
    ↔ (clock 100 4 node_a ≡ clock 100 4 node_a
        → (register 1 (clock 100 4 node_a)).value ≡ (register 2 (clock 100 4 node_a)).value)
merge_comm_iff_example =
    merge_comm_iff (register 1 (clock 100 4 node_a)) (register 2 (clock 100 4 node_a))

-- ===== src/Hlc.antt =====
-- crates/mercury-crdt/src/hlc.rs: the hybrid logical clock. A method that changes the clock
-- returns the new one. The system clock is an argument: what `duration_since(UNIX_EPOCH)` gave, in
-- milliseconds, or `none` for a time before the epoch.
pub mod Order
pub mod Advance
pub mod Causality
use mercury_messaging.Base.{
  ℕ, ◌+◌, ◌≡◌, Ordering, max, compare, List, Option, none, some, Bool, ◌&&◌, ◌==◌, ltb,
  if◌then◌else◌, Outcome, done, panic, ◌>>=◌, Build, add_word, checked_add, u32_mod, u64_mod,
}
use mercury_messaging.Order.{ordering_then, cmp_list, nat_ord}

-- `[u8; 16]`
abbrev pub Bytes16 : Type 0
Bytes16 = List ℕ

pub record Hlc : Type 0 where
  pub wall_clock_ms : ℕ
  pub counter : ℕ
  pub node_id : Bytes16

abbrev pub ClockReading : Type 0
ClockReading = Option ℕ

-- Both `expect`s panic.
unfoldable pub system_time_ms : ClockReading → Outcome ℕ
system_time_ms none = panic
system_time_ms (some ms) = if ltb ms u64_mod then done ms else panic

unfoldable pub now : ClockReading → Bytes16 → Outcome Hlc
unfolding system_time_ms
now clock node_id = do
  ms ← system_time_ms clock
  done (record { wall_clock_ms = ms; counter = 0; node_id = node_id })

-- `checked_add(..).expect(..)`
abbrev pub expect : Option ℕ → Outcome ℕ
expect none = panic
expect (some n) = done n

unfoldable pub tick : ClockReading → Hlc → Outcome Hlc
unfolding system_time_ms
tick clock h = do
  ms ← system_time_ms clock
  if ltb h.wall_clock_ms ms
      then done (record h { wall_clock_ms = ms; counter = 0 })
      else expect (checked_add u32_mod h.counter 1) >>= λ c. done (record h { counter = c })

-- The ladder of `merge` that picks the counter, for the greatest of the three wall clocks.
unfoldable pub merge_counter : Build → ℕ → Hlc → Hlc → Outcome ℕ
merge_counter build max_wall h remote =
    if (max_wall == h.wall_clock_ms) && (max_wall == remote.wall_clock_ms)
    then add_word build u32_mod (max h.counter remote.counter) 1
    else if max_wall == h.wall_clock_ms
    then add_word build u32_mod h.counter 1
    else if max_wall == remote.wall_clock_ms
    then add_word build u32_mod remote.counter 1
    else done 0

unfoldable pub merge : Build → ClockReading → Hlc → Hlc → Outcome Hlc
unfolding system_time_ms merge_counter
merge build clock h remote = do
  ms ← system_time_ms clock
  let max_wall = max (max ms h.wall_clock_ms) remote.wall_clock_ms
  c ← merge_counter build max_wall h remote
  done (record h { wall_clock_ms = max_wall; counter = c })

unfoldable pub cmp_hlc : Hlc → Hlc → Ordering
unfolding cmp_list nat_ord
cmp_hlc a b =
    ordering_then
      (ordering_then (compare a.wall_clock_ms b.wall_clock_ms) (compare a.counter b.counter))
      (cmp_list a.node_id b.node_id)

-- ===== src/Nif/Clock.antt =====
-- `compute_time_bucket`, `hlc_tick` and `hlc_merge`.
use mercury_messaging.Base.{
  ℕ, ◌*◌, ◌/◌, u32_mod, ◌≤◌, ◌<◌, ◌≡◌, ◌≢◌, ◌↔◌, ◌⊎◌, arith, length, Outcome, done, ◌>>=◌, Result,
  ok, err, none, some, Build, debug,
}
use mercury_messaging.MessageLog.{Bytes}
use mercury_messaging.Hlc
use mercury_messaging.Hlc.{Bytes16, Hlc, ClockReading, tick}
use mercury_messaging.Hlc.Order.{hlc_ord}
use mercury_messaging.Core.TimeBucket.{
  from_timestamp_ms, as_u32, bucket_ms, ms_per_day, days_per_bucket,
}
use mercury_messaging.Nif.Validate.{Atom, bad_length, parse_uuid_16}

unfoldable pub compute_time_bucket : ℕ → Outcome ℕ
unfolding as_u32
compute_time_bucket timestamp_ms = do bucket ← from_timestamp_ms timestamp_ms; done (as_u32 bucket)

-- The bucket of a time, as far as it fits 32 bits.
pub compute_time_bucket_lem :
    (ts : ℕ)
    → ts < u32_mod * bucket_ms
    → compute_time_bucket ts ≡ done (ts / ms_per_day / days_per_bucket)
unfolding compute_time_bucket from_timestamp_ms
compute_time_bucket_lem ts h = ground arith

pub compute_time_bucket_bound :
    (ts b : ℕ) → compute_time_bucket ts ≡ done b → ts < u32_mod * bucket_ms
unfolding compute_time_bucket from_timestamp_ms
compute_time_bucket_bound ts b h = ground arith

-- The operator `?` before a call that may panic.
abbrev pub or_fail :
    {A B : Type 0} → Result A Atom → (A → Outcome (Result B Atom)) → Outcome (Result B Atom)
or_fail (ok a) f = f a
or_fail (err e) f = done (err e)

unfoldable pub hlc_tick : ClockReading → ℕ → ℕ → Bytes → Outcome (Result (ℕ × ℕ) Atom)
hlc_tick clock wall_clock_ms counter node_id = or_fail (parse_uuid_16 node_id) (λ node.
    tick clock (record { wall_clock_ms = wall_clock_ms; counter = counter; node_id = node })
    >>= λ h. done (ok (h.wall_clock_ms, h.counter)))

unfoldable pub hlc_merge :
    Build → ClockReading → ℕ → ℕ → Bytes → ℕ → ℕ → Bytes → Outcome (Result (ℕ × ℕ) Atom)
hlc_merge build clock local_wall local_counter local_node remote_wall remote_counter remote_node =
    or_fail (parse_uuid_16 local_node) (λ local. or_fail (parse_uuid_16 remote_node) (λ remote.
      Hlc.merge build clock
        (record { wall_clock_ms = local_wall; counter = local_counter; node_id = local })
        (record { wall_clock_ms = remote_wall; counter = remote_counter; node_id = remote })
      >>= λ h. done (ok (h.wall_clock_ms, h.counter))))

-- `hlc_tick` answers `bad_length` exactly for a node id that has not 16 bytes. With 16 bytes, an
-- answer is later than the clock that was sent, in the order of the wall clock, then the counter.
pub hlc_tick_answers :
    (clock : ClockReading) (wall counter : ℕ) (node_id : Bytes)
    → ((hlc_tick clock wall counter node_id ≡ done (err bad_length)) ↔ (length node_id ≢ 16))
      × ((wall' counter' : ℕ)
          → hlc_tick clock wall counter node_id ≡ done (ok (wall', counter'))
          → (wall < wall') ⊎ ((wall ≡ wall') × (counter < counter')))
unfolding hlc_tick parse_uuid_16 tick Hlc.system_time_ms
hlc_tick_answers none wall counter node_id =
    ((λ e. ground arith, λ n. ground arith), λ wall' counter' e. ground arith)
hlc_tick_answers (some ms) wall counter node_id =
    ((λ e. ground arith, λ n. ground arith), λ wall' counter' e. ground arith)

-- In a debug build an answer of `hlc_merge` is later than both clocks that were sent.
pub hlc_merge_answers :
    (ms : ℕ) (local_wall local_counter : ℕ) (local_node : Bytes) (remote_wall remote_counter : ℕ)
    (remote_node : Bytes) (wall counter : ℕ)
    → hlc_merge debug
        (some ms)
        local_wall
        local_counter
        local_node
        remote_wall
        remote_counter
        remote_node
      ≡ done (ok (wall, counter))
    → ((local_wall < wall) ⊎ ((local_wall ≡ wall) × (local_counter < counter)))
      × ((remote_wall < wall) ⊎ ((remote_wall ≡ wall) × (remote_counter < counter)))
unfolding hlc_merge parse_uuid_16 Hlc.merge Hlc.merge_counter Hlc.system_time_ms
hlc_merge_answers ms local_wall local_counter local_node remote_wall remote_counter remote_node wall
      counter e =
    ground arith

-- In either build an answer of `hlc_merge` has a wall clock at or after those that were sent.
pub hlc_merge_forward :
    (build : Build) (clock : ClockReading) (local_wall local_counter : ℕ) (local_node : Bytes)
    (remote_wall remote_counter : ℕ) (remote_node : Bytes) (wall counter : ℕ)
    → hlc_merge build clock local_wall local_counter local_node remote_wall remote_counter
        remote_node
      ≡ done (ok (wall, counter))
    → (local_wall ≤ wall) × (remote_wall ≤ wall)
unfolding hlc_merge parse_uuid_16 Hlc.merge Hlc.merge_counter Hlc.system_time_ms
hlc_merge_forward build none local_wall local_counter local_node remote_wall remote_counter
      remote_node wall counter e =
    ground arith
hlc_merge_forward build (some ms) local_wall local_counter local_node remote_wall remote_counter
      remote_node wall counter e =
    ground arith

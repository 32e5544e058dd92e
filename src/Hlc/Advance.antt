-- ===== src/Hlc/Advance.antt =====
-- crates/mercury-crdt/src/hlc.rs: the clock after `tick` and `merge`, and their panics.
use mercury_messaging.Base.{
  ℕ, ◌+◌, ◌≤◌, ◌<◌, ◌≡◌, ◌↔◌, ◌⊎◌, ◌≢◌, inl, inr, Outcome-cases, some, arith, done, panic, debug,
  release, u32_mod, u64_mod,
}
use mercury_messaging.Order.{◌≺◌, nat_ord}
use mercury_messaging.Hlc.{Hlc, tick, merge, cmp_hlc}
use mercury_messaging.Hlc.Order.{hlc_ord}

-- A clock is behind another whatever the node ids, if its wall clock and counter are.
abbrev pub Behind : Hlc → Hlc → Type 0
Behind a b =
    (a.wall_clock_ms < b.wall_clock_ms)
    ⊎ ((a.wall_clock_ms ≡ b.wall_clock_ms) × (a.counter < b.counter))

pub lt_of_Behind : (a b : Hlc) → Behind a b → a ≺ b
unfolding hlc_ord cmp_hlc
lt_of_Behind a b h = ground arith

tick-Behind :
    (ms : ℕ) (h h' : Hlc)
    → tick (some ms) h ≡ done h'
    → Behind h h' × (h'.node_id ≡ h.node_id) × (ms ≤ h'.wall_clock_ms)
unfolding tick
tick-Behind ms h h' e = ground arith

merge-Behind :
    (ms : ℕ) (h remote h' : Hlc)
    → merge debug (some ms) h remote ≡ done h'
    → Behind h h' × Behind remote h' × (h'.node_id ≡ h.node_id) × (ms ≤ h'.wall_clock_ms)
unfolding merge
merge-Behind ms h remote h' e = ground arith

-- A tick that returns gives a clock of the same node that is later than the old one, and whose
-- wall clock is at least the system time.
pub tick_advances :
    (ms : ℕ) (h h' : Hlc)
    → tick (some ms) h ≡ done h'
    → (h ≺ h') × (h'.node_id ≡ h.node_id) × (ms ≤ h'.wall_clock_ms)
tick_advances ms h h' e =
    let (behind, node, time) = tick-Behind ms h h' e in (lt_of_Behind h h' behind, node, time)

-- `tick` panics exactly if the system time does not fit 64 bits, or if it does not get past the
-- clock while the counter stands at its last value.
pub tick-eq-panic :
    (ms : ℕ) (h : Hlc)
    → (tick (some ms) h ≡ panic)
      ↔ ((u64_mod ≤ ms) ⊎ ((ms ≤ h.wall_clock_ms) × (u32_mod ≤ h.counter + 1)))
unfolding tick
tick-eq-panic ms h = ground arith

-- In a debug build, a merge that returns gives a clock of the same node that is later than the
-- old clock and later than the remote one, and whose wall clock is at least the system time.
pub merge_advances :
    (ms : ℕ) (h remote h' : Hlc)
    → merge debug (some ms) h remote ≡ done h'
    → (h ≺ h') × (remote ≺ h') × (h'.node_id ≡ h.node_id) × (ms ≤ h'.wall_clock_ms)
merge_advances ms h remote h' e =
    let (behind, remote_behind, node, time) = merge-Behind ms h remote h' e in
    (lt_of_Behind h h' behind, lt_of_Behind remote h' remote_behind, node, time)

module _ (ms : ℕ) (h remote : Hlc) (t : ms < u64_mod) (p : h.counter + 1 < u32_mod)
    (q : remote.counter + 1 < u32_mod) where
  merge-ne-panic : merge debug (some ms) h remote ≢ panic
  unfolding merge
  merge-ne-panic e = ground arith

  -- While the system time fits 64 bits and neither of the two counters is at its last value,
  -- merge returns a clock, the same in debug and release builds.
  pub merge_total :
      (h' : Hlc) × (merge debug (some ms) h remote ≡ done h')
      × (merge release (some ms) h remote ≡ done h')
  unfolding merge
  merge_total = elim (Outcome-cases (merge debug (some ms) h remote)) [
    | inl (h', e) ↦ (h', e, ground arith)
    | inr e ↦ absurd (merge-ne-panic e)
  ]

-- In a release build the counter of merge wraps: if the system time fits 64 bits, the wall
-- clock of the node is at least the system time and ahead of the remote one, and its counter
-- is at its last value, then merge returns a clock before the old one.
pub merge_release_wraps :
    (ms : ℕ) (h remote : Hlc)
    → ms < u64_mod
    → ms ≤ h.wall_clock_ms
    → remote.wall_clock_ms < h.wall_clock_ms
    → h.counter + 1 ≡ u32_mod
    → (h' : Hlc) × (merge release (some ms) h remote ≡ done h') × (h' ≺ h)
unfolding merge hlc_ord cmp_hlc
merge_release_wraps ms h remote t p q e = (record h { counter = 0 }, ground arith, ground arith)

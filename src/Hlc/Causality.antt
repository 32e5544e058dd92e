-- ===== src/Hlc/Causality.antt =====
-- crates/mercury-crdt/src/hlc.rs: exchanges of messages. An event is one call on the clock of
-- its node: a local event ticks the clock, and the receipt of a message merges the clock that
-- the message carries.
use mercury_messaging.Base.{ℕ, ◌≡◌, some, done, debug}
use mercury_messaging.Order.{◌≺◌}
use mercury_messaging.Hlc.{Hlc, tick, merge}
use mercury_messaging.Hlc.Order.{hlc_ord}
use mercury_messaging.Hlc.Advance.{tick_advances, merge_advances}

-- `Event before after`: the node's clock is `before`, and the event is stamped `after`.
pub data Event (before after : Hlc) : Type 0 where
  local : (ms : ℕ) → tick (some ms) before ≡ done after → Event before after
  receive :
      (ms : ℕ) (remote : Hlc)
      → merge debug (some ms) before remote ≡ done after
      → Event before after

-- `Causes a b`: an event stamped `a` happened before one stamped `b`.
pub data Causes : Hlc → Hlc → Type 0 where
  -- the next event of the node that was stamped `a`
  next : {a b : Hlc} → Event a b → Causes a b
  -- the receipt, on a node whose clock is `here`, of a message that carries `a`
  message : {a b : Hlc} (ms : ℕ) (here : Hlc) → merge debug (some ms) here a ≡ done b → Causes a b
  chain : {a b : Hlc} (middle : Hlc) → Causes a middle → Causes middle b → Causes a b

Event-lt : {a b : Hlc} → Event a b → a ≺ b
Event-lt {a} {b} (local ms e) = (tick_advances ms a b e).0
Event-lt {a} {b} (receive ms remote e) = (merge_advances ms a remote b e).0

-- If one event can have caused another - by later events of its node, by a message that
-- carries its clock and is merged, or by a chain of these, in a debug build - then its clock
-- is strictly smaller in the order of the clocks.
pub Causes-lt : {a b : Hlc} → Causes a b → a ≺ b
Causes-lt (next e) = Event-lt e
Causes-lt {a} {b} (message ms here e) = (merge_advances ms here a b e).1
Causes-lt {a} {b} (chain middle r s) = hlc_ord.lt_trans a middle b (Causes-lt r) (Causes-lt s)

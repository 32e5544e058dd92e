-- ===== src/Tests/Replicas.antt =====
-- Two replicas of a set that exchange a copy, and a log that is built.
use mercury_messaging.Base.{ℕ, refl, arith, List, ◌∷◌, All, release}
use mercury_messaging.Order.{nat_ord, list_ord}
use mercury_messaging.HashMap.{get}
use mercury_messaging.HashMap.Bytes.{bytes_eq}
use mercury_messaging.Orset.Defs
use mercury_messaging.Orset.Defs.{OrSet, add, merge}
use mercury_messaging.Orset.Fresh.{HasDot}
use mercury_messaging.Orset.Network.{
  Network, store, start, adds, sends, receives, first, Reachable, initial, next, HasRoom,
  StepHasRoom, IsSound,
}
use mercury_messaging.Orset.Network.Sound.{Reachable-IsSound, add_fresh_everywhere}
use mercury_messaging.MessageLog.{append, new, merge as merge_logs}
use mercury_messaging.MessageLog.Append.{IsValid}
use mercury_messaging.MessageLog.Built.{fresh, appended, merged, Built-IsValid}
use mercury_messaging.Tests.Clocks.{node_a, node_b, clock}
use mercury_messaging.Tests.Sets.{word, other_word, set_a, set_a2, add_run_a, add_run_a2}

-- `node_a` adds a word and sends its set.
abbrev sending : Network (List ℕ)
sending = let w = store node_a set_a start in record w { sent = w.replica node_a ∷ w.sent }

-- `node_b` takes the copy in.
abbrev met : Network (List ℕ)
met = store node_b (merge (sending.replica node_b) set_a) sending

unfoldable met-Reachable : Reachable release met
unfolding get Defs.new list_ord nat_ord
met-Reachable =
    next
      (next (next initial (adds start node_a word set_a add_run_a))
        (sends (store node_a set_a start) node_a))
      (receives sending node_b set_a (first refl))

met-HasRoom : HasRoom release met-Reachable
unfolding met-Reachable HasRoom StepHasRoom get Defs.new
met-HasRoom = (((tt, omega arith), tt), tt)

Reachable-IsSound_example : IsSound met
Reachable-IsSound_example = Reachable-IsSound release met-Reachable met-HasRoom

add_fresh_everywhere_example :
    HasDot set_a2 other_word (record { node_id = node_a; seq = 2 })
    × ((m : List ℕ) (other : List ℕ)
        → ¬ HasDot (met.replica m) other (record { node_id = node_a; seq = 2 }))
    × All (λ s. (other : List ℕ) → ¬ HasDot s other (record { node_id = node_a; seq = 2 })) met.sent
unfolding get list_ord nat_ord
add_fresh_everywhere_example =
    add_fresh_everywhere release node_a other_word set_a2 met-Reachable met-HasRoom (omega arith)
      add_run_a2

-- Two logs that began alike and were merged.
Built-IsValid_example : IsValid (
    merge_logs
      (append (clock 100 5 node_a) word new).0
      (append (clock 100 6 node_b) other_word new).0)
Built-IsValid_example = Built-IsValid (
    merged (appended (clock 100 5 node_a) word fresh)
      (appended (clock 100 6 node_b) other_word fresh))

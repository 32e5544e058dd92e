-- ===== src/Tests/Logs.antt =====
-- A server and a replica of its log of messages.
use mercury_messaging.Base.{◌+◌, ◌≡◌, refl, arith, [], ◌∷◌, some, is_some, ok, if◌then◌else◌}
use mercury_messaging.Order.{◌≺◌, same, nat_ord, list_ord}
use mercury_messaging.BTree.{get, insert}
use mercury_messaging.BTree.Size.{Sub}
use mercury_messaging.HashMap.Bytes.{bytes_eq}
use mercury_messaging.Mergeable.{IsLawful}
use mercury_messaging.Hlc.{Hlc}
use mercury_messaging.Hlc.Order.{hlc_ord}
use mercury_messaging.MessageLog.{Bytes, MessageLog, append, len, merge, entries_after}
use mercury_messaging.MessageLog.Append.{IsValid, append_room}
use mercury_messaging.MessageLog.Laws.{log_mergeable, log-IsLawful}
use mercury_messaging.MessageLog.Sync.{HoldsUpTo, merge-entries_after}
use mercury_messaging.Tests.Clocks.{node_a, node_b, clock}

abbrev hi : Bytes
hi = 104 ∷ 105 ∷ []

abbrev yo : Bytes
yo = 121 ∷ 111 ∷ []

abbrev first : Hlc
first = clock 100 5 node_a

abbrev second : Hlc
second = clock 100 6 node_b

abbrev server : MessageLog
server = record { entries = (first, hi) ∷ (second, yo) ∷ [] }

abbrev replica : MessageLog
replica = record { entries = (first, hi) ∷ [] }

append_run : append second yo replica ≡ (server, ok tt)
unfolding append insert hlc_ord list_ord nat_ord
append_run = refl

replica-IsValid : IsValid replica
replica-IsValid = record { sorted = (tt, tt); bounded = omega arith }

server-IsValid : IsValid server
unfolding hlc_ord list_ord nat_ord
server-IsValid = record { sorted = ((refl, tt), (tt, tt)); bounded = omega arith }

append_room_example :
    ((append second yo replica).1 ≡ ok tt)
    × ((q : Hlc)
        → get q (append second yo replica).0.entries
          ≡ (if same q second then some yo else get q replica.entries))
    × (len (append second yo replica).0
        ≡ (if is_some (get second replica.entries) then len replica else len replica + 1))
unfolding len
append_room_example = append_room second yo replica replica-IsValid (omega arith)

log-IsLawful_example : IsLawful (log_mergeable server)
log-IsLawful_example = log-IsLawful server server-IsValid

replica-Sub : Sub replica.entries server.entries
unfolding get
replica-Sub q x e = ground (arith, hlc_ord.eq_of_cmp q first)

first_before : first ≺ second
unfolding hlc_ord list_ord nat_ord
first_before = refl

replica-HoldsUpTo : HoldsUpTo first server replica
unfolding get
replica-HoldsUpTo q x e n =
    ground (arith, first_before, hlc_ord.eq_of_cmp q first, hlc_ord.eq_of_cmp q second)

merge-entries_after_example :
    merge replica (record { entries = entries_after first server }) ≡ server
merge-entries_after_example =
    merge-entries_after first server replica server-IsValid replica-IsValid replica-Sub
      replica-HoldsUpTo

second_read : get second server.entries ≡ some yo
unfolding get hlc_ord list_ord nat_ord
second_read = refl

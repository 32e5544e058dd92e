-- ===== src/MessageLog/Append.antt =====
-- crates/mercury-crdt/src/message_log.rs: `append`, and what a log guarantees.
use mercury_messaging.Base.{
  ◌+◌, ◌≤◌, ◌<◌, ◌≡◌, refl, some, ok, err, length, arith, if◌then◌else◌, is_some, leb, false,
}
use mercury_messaging.Order.{same}
use mercury_messaging.BTree.{IsSorted, get}
use mercury_messaging.BTree.Lookup.{get-insert}
use mercury_messaging.BTree.Sorted.{insert-IsSorted}
use mercury_messaging.BTree.Size.{length-insert}
use mercury_messaging.Hlc.{Hlc}
use mercury_messaging.Hlc.Order.{hlc_ord}
use mercury_messaging.MessageLog.{Bytes, MessageLog, log_full, max_log_entries, len, append}

pub record IsValid (log : MessageLog) : Type 0 where
  pub sorted : IsSorted log.entries
  pub bounded : length log.entries ≤ max_log_entries

-- An append to a valid log - in the order of the HLCs, with at most 100000 entries - gives a
-- valid log.
pub append-IsValid :
    (hlc : Hlc) (payload : Bytes) (log : MessageLog)
    → IsValid log
    → IsValid (append hlc payload log).0
unfolding append
append-IsValid hlc payload log v = ground (
  arith,
  insert-IsSorted hlc payload log.entries v.sorted,
  length-insert hlc payload log.entries v.sorted,
)

-- `append` refuses a full log, also for an HLC that is there, and leaves it as it was.
pub append_full :
    (hlc : Hlc) (payload : Bytes) (log : MessageLog)
    → max_log_entries ≤ len log
    → append hlc payload log ≡ (log, err (log_full max_log_entries))
unfolding append len
append_full hlc payload log h = ground arith

-- On a valid log with room, append returns Ok; the HLC then reads the payload, also where it
-- read another before, every other HLC reads as it did, and the log is longer by one exactly
-- if the HLC is new.
pub append_room :
    (hlc : Hlc) (payload : Bytes) (log : MessageLog)
    → IsValid log
    → len log < max_log_entries
    → ((append hlc payload log).1 ≡ ok tt)
      × ((q : Hlc)
          → get q (append hlc payload log).0.entries
            ≡ (if same q hlc then some payload else get q log.entries))
      × (len (append hlc payload log).0
          ≡ (if is_some (get hlc log.entries) then len log else len log + 1))
unfolding append len
append_room hlc payload log v h =
    let room : leb max_log_entries (length log.entries) ≡ false = ground arith in
    rw room (
      refl,
      λ q. get-insert q hlc payload log.entries,
      length-insert hlc payload log.entries v.sorted,
    )

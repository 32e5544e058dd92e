-- ===== src/MessageLog/Built.antt =====
-- crates/mercury-crdt/src/message_log.rs: the logs that a program can come to hold.
use mercury_messaging.Base.{arith}
use mercury_messaging.Hlc.{Hlc}
use mercury_messaging.MessageLog.{Bytes, MessageLog, new, append, merge}
use mercury_messaging.MessageLog.Append.{IsValid, append-IsValid}
use mercury_messaging.MessageLog.Merge.{merge-IsValid}

-- A log that starts empty, is appended to - also when it refuses - and merges other such logs.
pub data Built : MessageLog → Type 0 where
  fresh : Built new
  appended :
      {log : MessageLog} (hlc : Hlc) (payload : Bytes)
      → Built log
      → Built (append hlc payload log).0
  merged : {a b : MessageLog} → Built a → Built b → Built (merge a b)

-- Every log that appends and merges build, in whatever order and with whatever HLCs, is in the
-- order of the HLCs and has at most 100000 entries.
pub Built-IsValid : {log : MessageLog} → Built log → IsValid log
unfolding new
Built-IsValid fresh = record { sorted = tt; bounded = omega arith }
Built-IsValid (appended hlc payload b) = append-IsValid hlc payload _ (Built-IsValid b)
Built-IsValid (merged a b) = merge-IsValid _ _ (Built-IsValid a)

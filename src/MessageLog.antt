-- ===== src/MessageLog.antt =====
-- crates/mercury-crdt/src/message_log.rs: the log of messages by HLC, with a bound on its entries;
-- and crates/mercury-crdt/src/error.rs.
pub mod Append
pub mod Built
pub mod Merge
pub mod Laws
pub mod Sync
pub mod Equality
use mercury_messaging.Base.{
  ℕ, List, [], ◌∷◌, Option, Bool, true, false, ◌&&◌, leb, ◌==◌, if◌then◌else◌, Result, ok, err,
  length,
}
use mercury_messaging.Order.{same, nat_ord, list_ord}
use mercury_messaging.BTree.{BTreeMap, get, insert, or_insert, range_after, last_key}
use mercury_messaging.Hlc.{Hlc}
use mercury_messaging.Hlc.Order.{hlc_ord}

-- `Vec<u8>`
abbrev pub Bytes : Type 0
Bytes = List ℕ

-- `reason` is the text.
pub data CrdtError : Type 0 where
  log_full : (max : ℕ) → CrdtError
  invalid_delta : (reason : Bytes) → CrdtError
  merge_conflict : (reason : Bytes) → CrdtError

abbrev pub max_log_entries : ℕ
max_log_entries = 100000

pub record MessageLog : Type 0 where
  pub entries : BTreeMap Hlc Bytes

unfoldable pub new : MessageLog
new = record { entries = [] }

unfoldable pub len : MessageLog → ℕ
len log = length log.entries

unfoldable pub is_empty : MessageLog → Bool
is_empty log = elim log.entries [ [] ↦ true | _ ↦ false ]

-- The log afterwards, and what the call returns.
unfoldable pub append : Hlc → Bytes → MessageLog → MessageLog × Result (Unit {0}) CrdtError
append hlc payload log =
    if leb max_log_entries (length log.entries)
    then (log, err (log_full max_log_entries))
    else (record { entries = insert hlc payload log.entries }, ok tt)

unfoldable pub entries_after : Hlc → MessageLog → List (Hlc × Bytes)
entries_after since log = range_after since log.entries

unfoldable pub latest_hlc : MessageLog → Option Hlc
latest_hlc log = last_key log.entries

-- The loop of `merge`, which breaks when the log is full.
unfoldable pub merge_entries : BTreeMap Hlc Bytes → BTreeMap Hlc Bytes → BTreeMap Hlc Bytes
merge_entries m [] = m
merge_entries m ((hlc, payload) ∷ other) =
    let rest = merge_entries (or_insert hlc payload m) other in
    if leb max_log_entries (length m) then m else rest

unfoldable pub merge : MessageLog → MessageLog → MessageLog
unfolding merge_entries
merge log other = record { entries = merge_entries log.entries other.entries }

-- `zip(..).all(|((k1, v1), (k2, v2))| k1 == k2 && v1 == v2)`
unfoldable pub all_equal : BTreeMap Hlc Bytes → BTreeMap Hlc Bytes → Bool
all_equal [] n = true
all_equal (e ∷ m) [] = true
all_equal ((k1, v1) ∷ m) ((k2, v2) ∷ n) = (same k1 k2 && same v1 v2) && all_equal m n

-- `impl PartialEq`
unfoldable pub eq : MessageLog → MessageLog → Bool
unfolding all_equal
eq log other = (length log.entries == length other.entries) && all_equal log.entries other.entries

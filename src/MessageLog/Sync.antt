-- ===== src/MessageLog/Sync.antt =====
-- crates/mercury-crdt/src/message_log.rs: `entries_after` and `latest_hlc`, as delta sync uses
-- them.
use mercury_messaging.Base.{
  ◌≡◌, ◌↔◌, ◌∙◌, arith, some, is_some, true, Option-cases, inl, inr, Ordering-cases,
}
use mercury_messaging.Order.{◌≺◌}
use mercury_messaging.BTree.{IsSorted, get, range_after}
use mercury_messaging.BTree.Sorted.{IsSorted-ext}
use mercury_messaging.BTree.Size.{Sub}
use mercury_messaging.BTree.Range.{range_after-IsSorted, get-range_after, last_key_lem}
use mercury_messaging.Hlc.{Hlc}
use mercury_messaging.Hlc.Order.{hlc_ord}
use mercury_messaging.MessageLog.{
  Bytes, MessageLog, merge, merge_entries, entries_after, latest_hlc,
}
use mercury_messaging.MessageLog.Append.{IsValid}
use mercury_messaging.MessageLog.Merge.{or_else, merge_entries-IsSorted, get-merge_entries}

-- `entries_after` gives the entries whose HLC is strictly after `since`, and no other, in order.
pub entries_after_lem :
    (since : Hlc) (log : MessageLog) (q : Hlc) (x : Bytes)
    → IsValid log
    → IsSorted (entries_after since log)
      × ((get q (entries_after since log) ≡ some x) ↔ ((since ≺ q) × (get q log.entries ≡ some x)))
unfolding entries_after
entries_after_lem since log q x v = (
  range_after-IsSorted since log.entries v.sorted,
  (
    λ e. ground (arith, get-range_after q since log.entries),
    λ e. ground (arith, get-range_after q since log.entries),
  ),
)

-- If a valid log has an entry, its latest HLC is the HLC of an entry, and is not before the
-- HLC of that entry.
pub latest_hlc_lem :
    (log : MessageLog) (q : Hlc) (x : Bytes)
    → IsValid log
    → get q log.entries ≡ some x
    → (l : Hlc) × (latest_hlc log ≡ some l) × (is_some (get l log.entries) ≡ true) × (¬ (l ≺ q))
unfolding latest_hlc
latest_hlc_lem log q x v e =
    let (l, last, (found, top)) = last_key_lem log.entries q x v.sorted e in (l, last, found, top)

-- The replica holds what the server has up to `since`.
abbrev pub HoldsUpTo : Hlc → MessageLog → MessageLog → Type 0
HoldsUpTo since server replica =
    (q : Hlc) (x : Bytes)
    → get q server.entries ≡ some x
    → ¬ (since ≺ q)
    → get q replica.entries ≡ some x

module _ (since : Hlc) (server replica : MessageLog) (v : IsValid server) (w : IsValid replica)
    (sub : Sub replica.entries server.entries) (held : HoldsUpTo since server replica) where
  Sub-delta : Sub (entries_after since server) server.entries
  unfolding entries_after
  Sub-delta q x e = ground (arith, get-range_after q since server.entries)

  get_caught_up :
      (q : Hlc)
      → or_else (get q replica.entries) (get q (entries_after since server)) ≡ get q server.entries
  unfolding entries_after
  get_caught_up q = elim (Option-cases (get q server.entries)) [
    | inl absent ↦ elim (Option-cases (get q replica.entries)) [
      | inl e ↦ ground (arith, get-range_after q since server.entries)
      | inr (y, e) ↦ ground (arith, sub q y e)
    ]
    | inr (x, e) ↦ elim (Ordering-cases (hlc_ord.cmp since q)) [
      | inl after ↦ elim (Option-cases (get q replica.entries)) [
        | inl f ↦ ground (arith, get-range_after q since server.entries)
        | inr (y, f) ↦ ground (arith, sub q y f)
      ]
      | inr other ↦ let old = held q x e (λ after. ground arith) in ground arith
    ]
  ]

  -- Let two valid logs be given, a replica with only entries of the server and with all of
  -- those up to an HLC. When the replica merges the entries of the server after that HLC, it
  -- is exactly the log of the server.
  pub merge-entries_after : merge replica (record { entries = entries_after since server }) ≡ server
  unfolding merge entries_after
  merge-entries_after =
      let t = range_after-IsSorted since server.entries v.sorted in
      let e =
        IsSorted-ext (merge_entries replica.entries (range_after since server.entries))
          server.entries
          (merge_entries-IsSorted replica.entries (range_after since server.entries) w.sorted)
          v.sorted
          λ q.
            get-merge_entries server.entries v.sorted v.bounded replica.entries
              (range_after since server.entries) q w.sorted t sub Sub-delta
            ∙ get_caught_up q in
      cc e

-- ===== src/MessageLog/Laws.antt =====
-- crates/mercury-crdt/src/message_log.rs: `merge` of logs whose entries are all entries of one
-- log, which stands for all that was ever sent.
use mercury_messaging.Base.{◌≡◌, refl, ◌∙◌, sym, arith, Option, none, some, Option-cases, inl, inr}
use mercury_messaging.BTree.{IsSorted, get}
use mercury_messaging.BTree.Sorted.{IsSorted-ext}
use mercury_messaging.BTree.Size.{Sub}
use mercury_messaging.Mergeable.{Mergeable, IsLawful}
use mercury_messaging.Hlc.{Hlc}
use mercury_messaging.Hlc.Order.{hlc_ord}
use mercury_messaging.MessageLog.{Bytes, MessageLog, merge, merge_entries}
use mercury_messaging.MessageLog.Append.{IsValid}
use mercury_messaging.MessageLog.Merge.{
  or_else, merge_entries-IsSorted, merge_entries_sources, get-merge_entries,
}

module _ (universe : MessageLog) where
  pub record IsWithin (log : MessageLog) : Type 0 where
    pub sorted : IsSorted log.entries
    pub within : Sub log.entries universe.entries

  abbrev pub log_mergeable : Mergeable {0, 0, 0} MessageLog
  log_mergeable = record { merge = merge; Valid = IsWithin; Same = λ a b. a ≡ b }

  module _ (u : IsValid universe) where
    get-merge :
        (a b : MessageLog) (q : Hlc)
        → IsWithin a
        → IsWithin b
        → get q (merge_entries a.entries b.entries) ≡ or_else (get q a.entries) (get q b.entries)
    get-merge a b q v w =
        get-merge_entries universe.entries u.sorted u.bounded a.entries b.entries q v.sorted
          w.sorted v.within w.within

    merge-IsWithin : (a b : MessageLog) → IsWithin a → IsWithin b → IsWithin (merge a b)
    unfolding merge
    merge-IsWithin a b v w = record {
      sorted = merge_entries-IsSorted a.entries b.entries v.sorted;
      within = λ q x e. ground (
        arith,
        merge_entries_sources a.entries b.entries q x w.sorted e,
        v.within q x,
        w.within q x,
      );
    }

    -- Two logs within the universe with the same lookups are the same log.
    log-ext :
        (a b : MessageLog)
        → IsWithin a
        → IsWithin b
        → ((q : Hlc) → get q a.entries ≡ get q b.entries)
        → a ≡ b
    log-ext a b v w h = let e = IsSorted-ext a.entries b.entries v.sorted w.sorted h in cc e

    or_else_agree :
        (a b : MessageLog) (q : Hlc)
        → IsWithin a
        → IsWithin b
        → or_else (get q a.entries) (get q b.entries) ≡ or_else (get q b.entries) (get q a.entries)
    or_else_agree a b q v w = elim (Option-cases (get q a.entries)) [
      | inl e ↦ ground arith
      | inr (x, e) ↦ elim (Option-cases (get q b.entries)) [
        | inl f ↦ ground arith
        | inr (y, f) ↦ ground (arith, v.within q x e, w.within q y f)
      ]
    ]

    merge_comm : (a b : MessageLog) → IsWithin a → IsWithin b → merge a b ≡ merge b a
    unfolding merge
    merge_comm a b v w =
        log-ext _ _ (merge-IsWithin a b v w) (merge-IsWithin b a w v)
          λ q. get-merge a b q v w ∙ or_else_agree a b q v w ∙ sym (get-merge b a q w v)

    or_else_assoc : (x y z : Option Bytes) → or_else (or_else x y) z ≡ or_else x (or_else y z)
    or_else_assoc none y z = refl
    or_else_assoc (some x) y z = refl

    merge_assoc :
        (a b c : MessageLog)
        → IsWithin a
        → IsWithin b
        → IsWithin c
        → merge (merge a b) c ≡ merge a (merge b c)
    unfolding merge
    merge_assoc a b c v w x =
        let ab = merge-IsWithin a b v w in
        let bc = merge-IsWithin b c w x in
        log-ext _ _ (merge-IsWithin _ c ab x) (merge-IsWithin a _ v bc) λ q.
          rw
            (
              get-merge (merge a b) c q ab x,
              get-merge a b q v w,
              get-merge a (merge b c) q v bc,
              get-merge b c q w x,
            )
            (or_else_assoc (get q a.entries) (get q b.entries) (get q c.entries))

    merge_idem : (a : MessageLog) → IsWithin a → merge a a ≡ a
    unfolding merge
    merge_idem a v =
        log-ext _ _ (merge-IsWithin a a v v) v
          λ q. get-merge a a q v v ∙ or_else_idem (get q a.entries)
      where
        or_else_idem : (x : Option Bytes) → or_else x x ≡ x
        or_else_idem none = refl
        or_else_idem (some x) = refl

    -- Among the logs in order whose entries all are entries of one valid log, merge stays
    -- among them and is commutative, associative and idempotent.
    pub log-IsLawful : IsLawful log_mergeable
    log-IsLawful = record {
      same_refl = λ a. refl;
      same_sym = λ a b p. cc;
      same_trans = λ a b c p q. cc;
      congruent = λ a a' b b' _ _ _ _ p q. cc;
      closed = merge-IsWithin;
      commutative = merge_comm;
      associative = merge_assoc;
      idempotent = merge_idem;
    }

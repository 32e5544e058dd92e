-- ===== src/MessageLog/Merge.antt =====
-- crates/mercury-crdt/src/message_log.rs: `merge`, entry by entry.
use mercury_messaging.Base.{
  sym, ◌+◌, ◌≤◌, ◌≡◌, ◌⊎◌, ◌≢◌, inl, inr, refl, true, Option, none, some, length, arith,
  if◌then◌else◌, leb, [], ◌∷◌, Option-cases, Bool-cases, ◌∙◌,
}
use mercury_messaging.Order.{same, eq_of_same}
use mercury_messaging.BTree.{BTreeMap, IsSorted, get, or_insert}
use mercury_messaging.BTree.Lookup.{get-insert, get_of_Above}
use mercury_messaging.BTree.Sorted.{insert-IsSorted, get_head}
use mercury_messaging.BTree.Size.{length-insert_new, Sub, length-lt_of_Sub}
use mercury_messaging.Hlc.{Hlc}
use mercury_messaging.Hlc.Order.{hlc_ord}
use mercury_messaging.MessageLog.{Bytes, MessageLog, max_log_entries, merge, merge_entries}
use mercury_messaging.MessageLog.Append.{IsValid}

abbrev pub or_else {ℓ} : {A : Type ℓ} → Option A → Option A → Option A
or_else none y = y
or_else (some x) y = some x

abbrev pub Entries : Type 0
Entries = BTreeMap Hlc Bytes

get-or_insert :
    (q k : Hlc) (d : Bytes) (m : Entries)
    → get q (or_insert k d m) ≡ (if same q k then or_else (get k m) (some d) else get q m)
unfolding or_insert
get-or_insert q k d m = ground (arith, get-insert q k d m, eq_of_same q k)

or_else-none {ℓ} : {A : Type ℓ} (x : Option A) → or_else x none ≡ x
or_else-none none = refl
or_else-none (some v) = refl

or_else-or_insert :
    (k : Hlc) (d : Bytes) (m other : Entries) (q : Hlc)
    → or_else (get q (or_insert k d m)) (get q other) ≡ or_else (get q m) (get q ((k, d) ∷ other))
unfolding get
or_else-or_insert k d m other q = ground (arith, get-or_insert q k d m, eq_of_same q k)

or_insert-IsSorted : (k : Hlc) (d : Bytes) (m : Entries) → IsSorted m → IsSorted (or_insert k d m)
unfolding or_insert
or_insert-IsSorted k d m s = ground (arith, insert-IsSorted k d m s)

length-or_insert :
    (k : Hlc) (d : Bytes) (m : Entries) → IsSorted m → length (or_insert k d m) ≤ length m + 1
unfolding or_insert
length-or_insert k d m s = ground (arith, length-insert_new k d m s)

pub merge_entries-IsSorted : (m other : Entries) → IsSorted m → IsSorted (merge_entries m other)
unfolding merge_entries
merge_entries-IsSorted m [] s = s
merge_entries-IsSorted m ((k, d) ∷ other) s =
    ground (arith, merge_entries-IsSorted (or_insert k d m) other (or_insert-IsSorted k d m s))

merge_entries_bounded :
    (m other : Entries)
    → IsSorted m
    → length m ≤ max_log_entries
    → length (merge_entries m other) ≤ max_log_entries
unfolding merge_entries
merge_entries_bounded m [] s h = h
merge_entries_bounded m ((k, d) ∷ other) s h = ground (
  arith,
  merge_entries_bounded (or_insert k d m) other (or_insert-IsSorted k d m s),
  length-or_insert k d m s,
)

merge_entries_keeps :
    (m other : Entries) (q : Hlc) (x : Bytes)
    → get q m ≡ some x
    → get q (merge_entries m other) ≡ some x
unfolding merge_entries
merge_entries_keeps m [] q x e = e
merge_entries_keeps m ((k, d) ∷ other) q x e =
    ground (
      arith,
      merge_entries_keeps (or_insert k d m) other q x,
      get-or_insert q k d m,
      eq_of_same q k,
    )

pub merge_entries_sources :
    (m other : Entries) (q : Hlc) (x : Bytes)
    → IsSorted other
    → get q (merge_entries m other) ≡ some x
    → (get q m ≡ some x) ⊎ (get q other ≡ some x)
unfolding merge_entries get
merge_entries_sources m [] q x s e = inl e
merge_entries_sources m ((k, d) ∷ other) q x s e = ground (
  arith,
  merge_entries_sources (or_insert k d m) other q x s.1,
  get-or_insert q k d m,
  get_of_Above k other s.0,
  eq_of_same q k,
)

-- Where all entries are entries of one log that is within the bound, nothing is dropped.
module _ (universe : Entries) (u : IsSorted universe)
    (fits : length universe ≤ max_log_entries) where
  -- A full log holds the whole universe.
  get_full :
      (m other : Entries) (q : Hlc)
      → IsSorted m
      → Sub m universe
      → Sub other universe
      → leb max_log_entries (length m) ≡ true
      → get q m ≡ or_else (get q m) (get q other)
  get_full m other q s h i full = elim (Option-cases (get q m)) [
    | inr (x, e) ↦ ground arith
    | inl absent ↦ elim (Option-cases (get q other)) [
      | inl e ↦ ground arith
      | inr (x, e) ↦ absurd (ground (arith, length-lt_of_Sub m universe q x s u h absent (i q x e)))
    ]
  ]

  Sub-or_insert :
      (k : Hlc) (d : Bytes) (m : Entries)
      → Sub m universe
      → get k universe ≡ some d
      → Sub (or_insert k d m) universe
  Sub-or_insert k d m h e q x f =
      ground (arith, get-or_insert q k d m, h q x, h k x, eq_of_same q k)

  Sub-rest :
      (k : Hlc) (d : Bytes) (other : Entries)
      → IsSorted ((k, d) ∷ other)
      → Sub ((k, d) ∷ other) universe
      → Sub other universe
  unfolding get
  Sub-rest k d other s h q x e =
      ground (arith, h q x, get_of_Above k other s.0, hlc_ord.eq_of_cmp q k)

  pub get-merge_entries :
      (m other : Entries) (q : Hlc)
      → IsSorted m
      → IsSorted other
      → Sub m universe
      → Sub other universe
      → get q (merge_entries m other) ≡ or_else (get q m) (get q other)
  unfolding merge_entries get
  get-merge_entries m [] q s t h i = sym (or_else-none (get q m))
  get-merge_entries m ((k, d) ∷ other) q s t h i =
      elim (Bool-cases (leb max_log_entries (length m))) [
        | inl full ↦ rw full (get_full m ((k, d) ∷ other) q s h i full)
        | inr room ↦ rw room (
            get-merge_entries (or_insert k d m) other q (or_insert-IsSorted k d m s) t.1
              (Sub-or_insert k d m h (i k d (get_head k d other))) (Sub-rest k d other t i)
            ∙ or_else-or_insert k d m other q)
      ]

-- `merge` keeps the order of the log and its bound.
pub merge-IsValid : (a b : MessageLog) → IsValid a → IsValid (merge a b)
unfolding merge
merge-IsValid a b v = record {
  sorted = merge_entries-IsSorted a.entries b.entries v.sorted;
  bounded = merge_entries_bounded a.entries b.entries v.sorted v.bounded;
}

merge_entries_full : (m other : Entries) → max_log_entries ≤ length m → merge_entries m other ≡ m
unfolding merge_entries
merge_entries_full m [] h = refl
merge_entries_full m ((k, d) ∷ other) h = ground arith

-- A full log takes nothing from a merge.
pub merge_full : (a b : MessageLog) → max_log_entries ≤ length a.entries → merge a b ≡ a
unfolding merge
merge_full a b h = ground (arith, merge_entries_full a.entries b.entries h)

-- If the other log is valid, merge keeps every entry of the log, and each entry of the result
-- is an entry of one of the two.
pub merge_entries_lem :
    (a b : MessageLog) (q : Hlc) (x : Bytes)
    → IsValid b
    → (get q a.entries ≡ some x → get q (merge a b).entries ≡ some x)
      × (get q (merge a b).entries ≡ some x
          → (get q a.entries ≡ some x) ⊎ (get q b.entries ≡ some x))
unfolding merge
merge_entries_lem a b q x v = (
  merge_entries_keeps a.entries b.entries q x,
  merge_entries_sources a.entries b.entries q x v.sorted,
)

-- Two logs that hold different messages under one HLC do not merge to the same log in both orders.
pub merge_conflict :
    (a b : MessageLog) (q : Hlc) (x y : Bytes)
    → get q a.entries ≡ some x
    → get q b.entries ≡ some y
    → x ≢ y
    → merge a b ≢ merge b a
unfolding merge
merge_conflict a b q x y e f n p = ground (
  arith,
  merge_entries_keeps a.entries b.entries q x e,
  merge_entries_keeps b.entries a.entries q y f,
)

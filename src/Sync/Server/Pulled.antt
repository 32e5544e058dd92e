-- ===== src/Sync/Server/Pulled.antt =====
-- apps/persistence/lib/persistence/sync.ex: the rows that the lists of `get_deltas` hold.
use Prim.Native.Nat.{zero, suc}
use mercury_messaging.Base.{
  ℕ, ◌≤◌, ◌<◌, ◌≡◌, ◌↔◌, ◌⊎◌, inl, inr, arith, List, [], ◌∷◌, ◌++◌, ltb, leb, take, Has, All-take,
  Bool-cases, All, All-imp,
}
use mercury_messaging.Sync.Server.{Row, after, insert_by_time, sort_by_time}

abbrev pub IsSortedByTime : List Row → Type 0
IsSortedByTime [] = Unit
IsSortedByTime (r ∷ rows) = All (λ x. r.created_at ≤ x.created_at) rows × IsSortedByTime rows

pub Has-append : (r : Row) (xs ys : List Row) → Has r (xs ++ ys) ↔ (Has r xs ⊎ Has r ys)
Has-append r [] ys = (λ h. inr h, λ h. elim h [ inl e ↦ absurd e | inr k ↦ k ])
Has-append r (x ∷ xs) ys = ground (arith, Has-append r xs ys)

pub Has-after :
    (r : Row) (since : ℕ) (rows : List Row)
    → Has r (after since rows) ↔ (Has r rows × (since < r.created_at))
unfolding after
Has-after r since [] = (λ h. absurd h, λ h. h.0)
Has-after r since (x ∷ rows) = elim (Bool-cases (ltb since x.created_at)) [
  | inl late ↦ rw late (ground (arith, Has-after r since rows))
  | inr early ↦ rw early (ground (arith, Has-after r since rows))
]

Has-insert : (r x : Row) (rows : List Row) → Has r (insert_by_time x rows) ↔ ((r ≡ x) ⊎ Has r rows)
unfolding insert_by_time
Has-insert r x [] = (λ h. h, λ h. h)
Has-insert r x (y ∷ rows) =
    (λ h. ground (arith, Has-insert r x rows), λ h. ground (arith, Has-insert r x rows))

pub Has-sort : (r : Row) (rows : List Row) → Has r (sort_by_time rows) ↔ Has r rows
unfolding sort_by_time
Has-sort r [] = (λ h. h, λ h. h)
Has-sort r (x ∷ rows) = ground (arith, Has-insert r x (sort_by_time rows), Has-sort r rows)

pub Has-take : (r : Row) (n : ℕ) (rows : List Row) → Has r (take n rows) → Has r rows
unfolding take
Has-take r zero rows h = absurd h
Has-take r (suc n) [] h = h
Has-take r (suc n) (x ∷ rows) (inl e) = inl e
Has-take r (suc n) (x ∷ rows) (inr h) = inr (Has-take r n rows h)

All-insert :
    (t : ℕ) (x : Row) (rows : List Row)
    → t ≤ x.created_at
    → All (λ y. t ≤ y.created_at) rows
    → All (λ y. t ≤ y.created_at) (insert_by_time x rows)
unfolding insert_by_time
All-insert t x [] h a = (h, tt)
All-insert t x (y ∷ rows) h a = ground (arith, All-insert t x rows h a.1)

insert-IsSortedByTime :
    (x : Row) (rows : List Row) → IsSortedByTime rows → IsSortedByTime (insert_by_time x rows)
unfolding insert_by_time
insert-IsSortedByTime x [] s = (tt, tt)
insert-IsSortedByTime x (y ∷ rows) s = elim (Bool-cases (leb x.created_at y.created_at)) [
  | inl first ↦
      let below : x.created_at ≤ y.created_at = ground arith in
      rw first ((below, All-imp (λ z h. omega arith) rows s.0), s)
  | inr later ↦
      let above : y.created_at ≤ x.created_at = ground arith in
      rw later (All-insert y.created_at x rows above s.0, insert-IsSortedByTime x rows s.1)
]

pub sort-IsSortedByTime : (rows : List Row) → IsSortedByTime (sort_by_time rows)
unfolding sort_by_time
sort-IsSortedByTime [] = tt
sort-IsSortedByTime (x ∷ rows) =
    insert-IsSortedByTime x (sort_by_time rows) (sort-IsSortedByTime rows)

pub take-IsSortedByTime :
    (n : ℕ) (rows : List Row) → IsSortedByTime rows → IsSortedByTime (take n rows)
unfolding take
take-IsSortedByTime zero rows s = tt
take-IsSortedByTime (suc n) [] s = tt
take-IsSortedByTime (suc n) (x ∷ rows) s = (All-take _ n rows s.0, take-IsSortedByTime n rows s.1)

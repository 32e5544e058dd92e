-- ===== src/Sync/Server/Answer.antt =====
-- apps/persistence/lib/persistence/sync.ex: which messages an answer of `get_deltas` carries.
use Prim.Native.Nat.{zero, suc}
use mathlib.Core.Path.{subst}
use mercury_messaging.Base.{
  true, All, ◌≢◌, inl, inr, ℕ, ◌+◌, ◌*◌, ◌/◌, u32_mod, ◌≤◌, ◌<◌, ◌≡◌, ◌↔◌, ◌⊎◌, arith, refl, List,
  [], ◌∷◌, false, Option, ltb, length, take, length-take-le, take-all, take_short, done_injective,
  >>=-eq-done, sym, ◌∙◌, get_or, Has, done,
}
use mercury_messaging.Core.TimeBucket.{bucket_ms, ms_per_day, days_per_bucket}
use mercury_messaging.Nif.Clock.{
  compute_time_bucket, compute_time_bucket_lem, compute_time_bucket_bound,
}
use mercury_messaging.Sync.Server.{
  Row, Deltas, max_deltas, min, sort_by_time, range, fetch_messages_after, fetch_all, get_deltas,
}
use mercury_messaging.Sync.Server.Pulled.{
  IsSortedByTime, Has-append, Has-after, Has-sort, Has-take, sort-IsSortedByTime,
  take-IsSortedByTime,
}

abbrev pub bucket_of : ℕ → ℕ
bucket_of ts = ts / ms_per_day / days_per_bucket

take_some : (n : ℕ) (rows : List Row) → 0 < n → 0 < length rows → take n rows ≢ []
unfolding take
take_some zero rows h k e = absurd (omega arith)
take_some (suc n) [] h k e = absurd (omega arith)
take_some (suc n) (r ∷ rows) h k e = let differ : ⊥ = cc e in differ

none_of : (rows : List Row) → ((r : Row) → ¬ Has r rows) → rows ≡ []
none_of [] h = refl
none_of (r ∷ rows) h = absurd (h r (inl refl))

Has-All : (P : Row → Type 0) (r : Row) (rows : List Row) → All P rows → Has r rows → P r
Has-All P r [] h m = absurd m
Has-All P r (x ∷ rows) h (inl e) = subst P (sym e) h.0
Has-All P r (x ∷ rows) h (inr m) = Has-All P r rows h.1 m

module _ (select : ℕ → ℕ → Option (List Row)) where
  -- The row stands in what the query gives for one of the buckets.
  abbrev pub Selected : Row → List ℕ → ℕ → Type 0
  Selected r [] limit = ⊥
  Selected r (b ∷ bs) limit = Has r (get_or (select b limit) []) ⊎ Selected r bs limit

  Selected-le :
      (top : ℕ)
      → ((b n : ℕ) → All (λ (r : Row). r.created_at ≤ top) (get_or (select b n) []))
      → (r : Row) (bs : List ℕ) (n : ℕ) → Selected r bs n
      → r.created_at ≤ top
  Selected-le top old r [] n s = absurd s
  Selected-le top old r (b ∷ bs) n (inl m) =
      Has-All (λ (r : Row). r.created_at ≤ top) r (get_or (select b n) []) (old b n) m
  Selected-le top old r (b ∷ bs) n (inr s) = Selected-le top old r bs n s

  Has-fetch_messages_after :
      (r : Row) (b since limit : ℕ)
      → Has r (fetch_messages_after select b since limit)
        ↔ (Has r (get_or (select b limit) []) × (since < r.created_at))
  unfolding fetch_messages_after
  Has-fetch_messages_after r b since limit = Has-after r since (get_or (select b limit) [])

  Has-fetch_all :
      (r : Row) (bs : List ℕ) (since limit : ℕ)
      → Has r (fetch_all select bs since limit) ↔ (Selected r bs limit × (since < r.created_at))
  unfolding fetch_all
  Has-fetch_all r [] since limit = (λ h. absurd h, λ h. h.0)
  Has-fetch_all r (b ∷ bs) since limit = ground (
    arith,
    Has-append r (fetch_messages_after select b since limit) (fetch_all select bs since limit),
    Has-fetch_messages_after r b since limit,
    Has-fetch_all r bs since limit,
  )

  -- The rows that `get_deltas` takes its answer from.
  abbrev candidates : ℕ → ℕ → ℕ → List Row
  candidates now since limit =
      sort_by_time (fetch_all select (range (bucket_of since) (bucket_of now)) since (limit + 1))

  get_deltas-eq-done :
      (now since limit : ℕ)
      → now < u32_mod * bucket_ms
      → since < u32_mod * bucket_ms
      → let limit' = min limit max_deltas in
        let found = take (limit' + 1) (candidates now since limit') in
        get_deltas select now since limit
        ≡ done (record {
          deltas = take limit' found;
          server_hlc = now;
          has_more = ltb limit' (length found);
        })
  unfolding get_deltas
  get_deltas-eq-done now since limit h k =
      rw (compute_time_bucket_lem now h, compute_time_bucket_lem since k) refl

  -- Only times that have a bucket are answered.
  pub get_deltas_in_time :
      (now since limit : ℕ) (d : Deltas)
      → get_deltas select now since limit ≡ done d
      → (now < u32_mod * bucket_ms) × (since < u32_mod * bucket_ms)
  unfolding get_deltas
  get_deltas_in_time now since limit d e =
      let (current_bucket, f, rest) = >>=-eq-done (compute_time_bucket now) _ e in
      let (since_bucket, g, last) = >>=-eq-done (compute_time_bucket since) _ rest in
      (
        compute_time_bucket_bound now current_bucket f,
        compute_time_bucket_bound since since_bucket g,
      )

  module _ (now since limit : ℕ) (h : now < u32_mod * bucket_ms) (k : since < u32_mod * bucket_ms)
      (d : Deltas) (answered : get_deltas select now since limit ≡ done d) where
    abbrev found : List Row
    found = take (min limit max_deltas + 1) (candidates now since (min limit max_deltas))

    answer_lem :
        (d.deltas ≡ take (min limit max_deltas) found)
        × (d.server_hlc ≡ now)
        × (d.has_more ≡ ltb (min limit max_deltas) (length found))
    answer_lem =
        let e = done_injective (sym answered ∙ get_deltas-eq-done now since limit h k) in
        rw e (refl, refl, refl)

    -- What an answer of `get_deltas` carries.
    pub get_deltas_sound :
        (length d.deltas ≤ min limit max_deltas)
        × IsSortedByTime d.deltas
        × ((r : Row)
            → Has r d.deltas
            → Selected r (range (bucket_of since) (bucket_of now)) (min limit max_deltas + 1)
              × (since < r.created_at))
    get_deltas_sound = rw (answer_lem.0) (
      length-take-le (min limit max_deltas) found,
      take-IsSortedByTime (min limit max_deltas) found
          (take-IsSortedByTime (min limit max_deltas + 1) _ (sort-IsSortedByTime _)),
      λ r m. (Has-fetch_all r _ since (min limit max_deltas + 1)).0 (
          (Has-sort r _).0
            (Has-take r (min limit max_deltas + 1) _ (Has-take r (min limit max_deltas) found m))),
    )

    -- An answer that says that there is no more carries all that it can.
    pub get_deltas_all :
        d.has_more ≡ false
        → (r : Row)
        → Selected r (range (bucket_of since) (bucket_of now)) (min limit max_deltas + 1)
        → since < r.created_at
        → Has r d.deltas
    get_deltas_all more r s late =
        let few : ltb (min limit max_deltas) (length found) ≡ false = sym (answer_lem.2) ∙ more in
        let short : length found < min limit max_deltas + 1 = ground arith in
        rw
          (
            answer_lem.0,
            take-all (min limit max_deltas) found (omega arith),
            take_short (min limit max_deltas + 1) (candidates now since (min limit max_deltas))
                short,
          )
          ((Has-sort r _).1 ((Has-fetch_all r _ since (min limit max_deltas + 1)).1 (s, late)))

    -- An answer that says that there is more carries a row.
    pub get_deltas_some : 0 < min limit max_deltas → d.has_more ≡ true → d.deltas ≢ []
    get_deltas_some room more =
        let full : ltb (min limit max_deltas) (length found) ≡ true = sym (answer_lem.2) ∙ more in
        rw (answer_lem.0) (take_some (min limit max_deltas) found room (ground (arith, full)))

    -- If no row of the table is after a time, and the request is from that time or later, then
    -- the answer carries nothing.
    pub get_deltas_none :
        (top : ℕ)
        → ((b n : ℕ) → All (λ (r : Row). r.created_at ≤ top) (get_or (select b n) []))
        → top ≤ since
        → d.deltas ≡ []
    get_deltas_none top old passed = none_of d.deltas (λ r m.
        let (read, late) = (get_deltas_sound.2 r m) in
        let early = Selected-le top old r _ (min limit max_deltas + 1) read in
        absurd {A = ⊥} (omega (arith, passed, late, early)))

-- ===== src/Sync/Server/Complete.antt =====
-- apps/persistence/lib/persistence/sync.ex: `get_deltas` over the rows that are stored. The query
-- gives the newest rows of a bucket, by their ids, up to its limit.
use Prim.Native.Nat.{zero, suc}
use mercury_messaging.Base.{
  ℕ, ◌+◌, ◌-◌, ◌*◌, u32_mod, ◌≤◌, ◌<◌, ◌≡◌, inl, inr, arith, dec_lt, List, [], ◌∷◌, true, false,
  Option, some, leb, get_or, Has, length, take, take-all, done,
}
use mercury_messaging.Core.TimeBucket.{bucket_ms}
use mercury_messaging.Sync.Server.{Row, Deltas, max_deltas, min, range, upwards, get_deltas}
use mercury_messaging.Sync.Server.Answer.{bucket_of, Selected, get_deltas_sound, get_deltas_all}

module _ (select : ℕ → ℕ → Option (List Row)) where
  Selected-upwards :
      (r : Row) (b limit n a : ℕ)
      → a ≤ b
      → b < a + n
      → Has r (get_or (select b limit) [])
      → Selected select r (upwards n a) limit
  unfolding upwards
  Selected-upwards r b limit zero a h k m = absurd (omega arith)
  Selected-upwards r b limit (suc n) a h k m = elim (dec_lt a b) [
    | yes later ↦ inr (Selected-upwards r b limit n (a + 1) (omega arith) (omega arith) m)
    | no here ↦ let e : a ≡ b = omega arith in inl (rw e m)
  ]

  Selected-range :
      (r : Row) (b limit first last : ℕ)
      → first ≤ b
      → b ≤ last
      → Has r (get_or (select b limit) [])
      → Selected select r (range first last) limit
  unfolding range
  Selected-range r b limit first last h k m =
      let up : leb first last ≡ true = ground arith in
      rw up (Selected-upwards r b limit (last - first + 1) first h (omega arith) m)

  -- The rows of a bucket, in the order of the query, and what the query gives of them.
  module _ (partition : ℕ → List Row)
      (query : (b n : ℕ) → select b n ≡ some (take n (partition b))) where
    module _ (now since limit : ℕ) (h : now < u32_mod * bucket_ms) (k : since < u32_mod * bucket_ms)
        (d : Deltas) (answered : get_deltas select now since limit ≡ done d) where
      -- Let the query give the newest rows of a bucket up to a limit, let both times be
      -- within the range of the buckets, and let an answer say that there is no more.
      -- Then it carries every row after the time of the request that stands in a bucket
      -- from that of the request to that of the present and that holds at most one row
      -- more than the answer may carry.
      pub get_deltas_complete :
          (r : Row) (b : ℕ)
          → d.has_more ≡ false
          → bucket_of since ≤ b
          → b ≤ bucket_of now
          → length (partition b) ≤ min limit max_deltas + 1
          → Has r (partition b)
          → since < r.created_at
          → Has r d.deltas
      get_deltas_complete r b more from to fits m late =
          let read : Has r (get_or (select b (min limit max_deltas + 1)) []) =
            rw (query, take-all (min limit max_deltas + 1) (partition b) fits) m in
          get_deltas_all select now since limit h k d answered more r
            (Selected-range r b (min limit max_deltas + 1) (bucket_of since) (bucket_of now) from to
              read)
            late

      Has-Selected :
          (r : Row) (bs : List ℕ) (n : ℕ)
          → Selected select r bs n
          → (b : ℕ) × Has r (take n (partition b))
      Has-Selected r [] n s = absurd s
      Has-Selected r (b ∷ bs) n (inl m) = (b, rw query at m)
      Has-Selected r (b ∷ bs) n (inr s) = Has-Selected r bs n s

      -- Whatever time the client asks from, an answer carries no row of a bucket but its newest
      -- ones, as many as the answer may carry, and one: older rows are not reached.
      pub get_deltas_newest :
          (r : Row)
          → Has r d.deltas
          → (b : ℕ) × Has r (take (min limit max_deltas + 1) (partition b))
      get_deltas_newest r m =
          Has-Selected r _ (min limit max_deltas + 1)
            (((get_deltas_sound select now since limit h k d answered).2 r m).0)

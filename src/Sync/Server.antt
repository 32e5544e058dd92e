-- ===== src/Sync/Server.antt =====
-- apps/persistence/lib/persistence/sync.ex: `get_deltas` for one channel. The
-- table of the messages is read through `select`: what the query of `fetch_messages_after` gives
-- for a bucket and a limit, or `none` for an error. The texts in base 16 and 64 in which a delta
-- carries its bytes to the gateway, which decodes them again, are left out.
pub mod Pulled
pub mod Answer
pub mod Complete
pub mod Apply
use Prim.Native.Nat.{zero, suc}
use mercury_messaging.Base.{
  ℕ, ◌+◌, ◌-◌, List, [], ◌∷◌, ◌++◌, Bool, true, false, Option, get_or, ltb, leb, if◌then◌else◌,
  length, take, Outcome, done, ◌>>=◌,
}
use mercury_messaging.MessageLog.{Bytes}
use mercury_messaging.Nif.Clock.{compute_time_bucket}

pub record Row : Type 0 where
  pub message_id : Bytes
  pub sender_id : Bytes
  pub encrypted_content : Bytes
  pub content_type : ℕ
  pub created_at : ℕ

pub record Deltas : Type 0 where
  pub deltas : List Row
  pub server_hlc : ℕ
  pub has_more : Bool

abbrev pub max_deltas : ℕ
max_deltas = 100

abbrev pub min : ℕ → ℕ → ℕ
min a b = if leb a b then a else b

-- `Enum.filter(&(row_timestamp(&1) > since_ts))`
unfoldable pub after : ℕ → List Row → List Row
after since [] = []
after since (r ∷ rows) =
    let rest = after since rows in if ltb since r.created_at then r ∷ rest else rest

-- `Enum.sort_by(& &1.created_at)`, which is stable.
unfoldable pub insert_by_time : Row → List Row → List Row
insert_by_time r [] = r ∷ []
insert_by_time r (x ∷ rows) =
    let rest = insert_by_time r rows in
    if leb r.created_at x.created_at then r ∷ x ∷ rows else x ∷ rest

unfoldable pub sort_by_time : List Row → List Row
sort_by_time [] = []
sort_by_time (r ∷ rows) = insert_by_time r (sort_by_time rows)

-- `since_bucket..current_bucket`, which counts down when the first is the greater.
unfoldable pub upwards : ℕ → ℕ → List ℕ
upwards zero a = []
upwards (suc n) a = a ∷ upwards n (a + 1)

unfoldable pub downwards : ℕ → ℕ → List ℕ
downwards zero a = []
downwards (suc n) a = a ∷ downwards n (a - 1)

unfoldable pub range : ℕ → ℕ → List ℕ
range a b = if leb a b then upwards (b - a + 1) a else downwards (a - b + 1) a

module _ (select : ℕ → ℕ → Option (List Row)) where
  -- An error counts as no rows.
  unfoldable pub fetch_messages_after : ℕ → ℕ → ℕ → List Row
  fetch_messages_after bucket since limit = after since (get_or (select bucket limit) [])

  unfoldable pub fetch_all : List ℕ → ℕ → ℕ → List Row
  fetch_all [] since limit = []
  fetch_all (b ∷ bs) since limit = fetch_messages_after b since limit ++ fetch_all bs since limit

  unfoldable pub get_deltas : ℕ → ℕ → ℕ → Outcome Deltas
  get_deltas now since limit = do
    current_bucket ← compute_time_bucket now
    since_bucket ← compute_time_bucket since
    let limit' = min limit max_deltas
    let found =
        take (limit' + 1)
          (sort_by_time (fetch_all (range since_bucket current_bucket) since (limit' + 1)))
    done (record {
      deltas = take limit' found;
      server_hlc = now;
      has_more = ltb limit' (length found);
    })

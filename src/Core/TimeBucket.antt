-- ===== src/Core/TimeBucket.antt =====
-- crates/mercury-core/src/time_bucket.rs: the partition of a message's time.
use mercury_messaging.Base.{
  ℕ, ◌+◌, ◌-◌, ◌*◌, ◌/◌, ◌^◌, ◌≤◌, ◌<◌, ◌≡◌, ◌↔◌, arith, ltb, if◌then◌else◌, Outcome, done, panic,
  ℤ, pos, negsuc, u32_mod,
}
use mercury_messaging.Core.Ids.{IdCrates, MessageId, timestamp_ms}

pub record TimeBucket : Type 0 where
  pub bucket : ℕ

abbrev pub ms_per_day : ℕ
ms_per_day = 86_400_000

abbrev pub days_per_bucket : ℕ
days_per_bucket = 10

-- `u32::try_from(..).expect(..)`
unfoldable pub from_timestamp_ms : ℕ → Outcome TimeBucket
from_timestamp_ms ts_ms =
    let epoch_days = ts_ms / ms_per_day in
    let bucket = epoch_days / days_per_bucket in
    if ltb bucket u32_mod then done (record { bucket = bucket }) else panic

unfoldable pub from_message_id : (c : IdCrates) → MessageId c → Outcome TimeBucket
unfolding timestamp_ms
from_message_id c id = from_timestamp_ms (timestamp_ms c id)

-- `self.0 as i32` reads the 32 bits as two's complement.
unfoldable pub as_i32 : TimeBucket → ℤ
as_i32 b = if ltb b.bucket (2 ^ 31) then pos b.bucket else negsuc (u32_mod - 1 - b.bucket)

unfoldable pub as_u32 : TimeBucket → ℕ
as_u32 b = b.bucket

-- Milliseconds in a bucket.
abbrev pub bucket_ms : ℕ
bucket_ms = 864_000_000

-- `from_timestamp_ms` gives a bucket exactly if the time lies in the ten days of that bucket and
-- the bucket fits 32 bits.
pub from_timestamp_ms_iff :
    (ts b : ℕ)
    → (from_timestamp_ms ts ≡ done (record { bucket = b }))
      ↔ ((b * bucket_ms ≤ ts) × (ts < (b + 1) * bucket_ms) × (b < u32_mod))
unfolding from_timestamp_ms
from_timestamp_ms_iff ts b = ground arith

-- `from_timestamp_ms` panics exactly from the end of the last bucket on, which `u64` can hold.
pub from_timestamp_ms-eq-panic :
    (ts : ℕ) → (from_timestamp_ms ts ≡ panic) ↔ (u32_mod * bucket_ms ≤ ts)
unfolding from_timestamp_ms
from_timestamp_ms-eq-panic ts = ground arith

-- Later times are in the same or a later bucket, and a time ten days later is in the next one.
pub from_timestamp_ms_mono :
    (ts us : ℕ) (a b : TimeBucket)
    → from_timestamp_ms ts ≡ done a
    → from_timestamp_ms us ≡ done b
    → (ts ≤ us → a.bucket ≤ b.bucket) × (us ≡ ts + bucket_ms → b.bucket ≡ a.bucket + 1)
unfolding from_timestamp_ms
from_timestamp_ms_mono ts us a b e f = (λ h. ground arith, λ h. ground arith)

-- The time bucket of a message id is always found, is below 325782, and its signed reading is
-- the bucket itself.
pub from_message_id_total :
    (c : IdCrates) (id : MessageId c)
    → (b : TimeBucket) × (from_message_id c id ≡ done b)
      × (b.bucket < 325782)
      × (as_i32 b ≡ pos (as_u32 b))
unfolding from_message_id from_timestamp_ms as_i32 as_u32
from_message_id_total c id =
    let bits = c.ulid_timestamp_bits id.ulid in
    (
      record { bucket = timestamp_ms c id / ms_per_day / days_per_bucket },
      ground arith,
      ground arith,
      ground arith,
    )

-- The signed reading loses nothing: two buckets of 32 bits with one reading are the same.
pub as_i32_injective :
    (a b : TimeBucket) → a.bucket < u32_mod → b.bucket < u32_mod → as_i32 a ≡ as_i32 b → a ≡ b
unfolding as_i32
as_i32_injective a b p q e = ground arith

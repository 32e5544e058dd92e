-- ===== src/Core/Ids.antt =====
-- crates/mercury-core/src/ids.rs. The crates `uuid` and `ulid` are a parameter: their types, the
-- functions that the newtypes call, and what those promise. A fresh id is an argument of the calls
-- that make one.
use mercury_messaging.Base.{ℕ, ◌<◌, ◌^◌, ◌≡◌, ◌↔◌, Bool, true, Result, ok, err, List}
use mercury_messaging.Hlc.{Bytes16}

pub record IdCrates : Type 1 where
  pub Uuid : Type 0
  pub uuid_from_bytes : Bytes16 → Uuid
  pub uuid_as_bytes : Uuid → Bytes16
  pub uuid_fmt : Uuid → List ℕ
  pub UuidError : Type 0
  pub uuid_from_str : List ℕ → Result Uuid UuidError
  pub Ulid : Type 0
  pub ulid_from_bytes : Bytes16 → Ulid
  pub ulid_to_bytes : Ulid → Bytes16
  pub ulid_timestamp_ms : Ulid → ℕ
  pub ulid_fmt : Ulid → List ℕ
  pub DecodeError : Type 0
  pub ulid_from_str : List ℕ → Result Ulid DecodeError
  pub ulid_eq : Ulid → Ulid → Bool
  -- `==` is equality, and the timestamp of a ULID is its first 48 bits
  pub ulid_eq_iff : (a b : Ulid) → (ulid_eq a b ≡ true) ↔ (a ≡ b)
  pub ulid_timestamp_bits : (a : Ulid) → ulid_timestamp_ms a < 2 ^ 48

-- `TenantId`, and the three types that the macro `uuid_id!` declares with the same functions.
pub data IdKind : Type 0 where
  tenant channel user device : IdKind

module _ (c : IdCrates) where
  open c use {
    Uuid, uuid_from_bytes, uuid_as_bytes, uuid_fmt, UuidError, uuid_from_str, Ulid, ulid_from_bytes,
    ulid_to_bytes, ulid_timestamp_ms, ulid_fmt, DecodeError, ulid_from_str,
  }

  -- `struct $name(Uuid)`
  pub record UuidId (kind : IdKind) : Type 0 where
    pub uuid : Uuid

  abbrev pub TenantId : Type 0
  TenantId = UuidId tenant

  abbrev pub ChannelId : Type 0
  ChannelId = UuidId channel

  abbrev pub UserId : Type 0
  UserId = UuidId user

  abbrev pub DeviceId : Type 0
  DeviceId = UuidId device

  unfoldable pub id_from_bytes : {kind : IdKind} → Bytes16 → UuidId kind
  id_from_bytes bytes = record { uuid = uuid_from_bytes bytes }

  unfoldable pub id_as_bytes : {kind : IdKind} → UuidId kind → Bytes16
  id_as_bytes id = uuid_as_bytes id.uuid

  unfoldable pub id_fmt : {kind : IdKind} → UuidId kind → List ℕ
  id_fmt id = uuid_fmt id.uuid

  -- `Uuid::from_str(s).map(Self)`
  abbrev wrap_uuid : {kind : IdKind} → Result Uuid UuidError → Result (UuidId kind) UuidError
  wrap_uuid (ok u) = ok (record { uuid = u })
  wrap_uuid (err e) = err e

  unfoldable pub id_from_str : {kind : IdKind} → List ℕ → Result (UuidId kind) UuidError
  id_from_str s = wrap_uuid (uuid_from_str s)

  pub record MessageId : Type 0 where
    pub ulid : Ulid

  unfoldable pub message_id_from_bytes : Bytes16 → MessageId
  message_id_from_bytes bytes = record { ulid = ulid_from_bytes bytes }

  unfoldable pub message_id_as_bytes : MessageId → Bytes16
  message_id_as_bytes id = ulid_to_bytes id.ulid

  -- The embedded creation time.
  unfoldable pub timestamp_ms : MessageId → ℕ
  timestamp_ms id = ulid_timestamp_ms id.ulid

  unfoldable pub message_id_fmt : MessageId → List ℕ
  message_id_fmt id = ulid_fmt id.ulid

  abbrev wrap_ulid : Result Ulid DecodeError → Result MessageId DecodeError
  wrap_ulid (ok u) = ok (record { ulid = u })
  wrap_ulid (err e) = err e

  unfoldable pub message_id_from_str : List ℕ → Result MessageId DecodeError
  message_id_from_str s = wrap_ulid (ulid_from_str s)

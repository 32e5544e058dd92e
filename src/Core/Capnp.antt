-- ===== src/Core/Capnp.antt =====
-- The crate `capnp` and the accessors that the build generates from schema/mercury/v1, as a
-- parameter. A root struct is built by its setters, written to bytes and read by its getters.
use mercury_messaging.Base.{ℕ, ◌<◌, ◌≡◌, ◌≢◌, Result, ok}
use mercury_messaging.MessageLog.{Bytes}

-- The root structs, and their fields of type `Data`.
pub data Schema : Type 0 where
  envelope typing_event read_receipt mls_key_package mls_key_package_list : Schema
  mls_commit mls_welcome : Schema

pub data Field : Type 0 where
  tenant_id channel_id sender_id message_id payload user_id key_package commit welcome : Field

abbrev pub field_code : Field → ℕ
field_code tenant_id = 0
field_code channel_id = 1
field_code sender_id = 2
field_code message_id = 3
field_code payload = 4
field_code user_id = 5
field_code key_package = 6
field_code commit = 7
field_code welcome = 8

pub record Capnp : Type 1 where
  -- the bytes of a message
  pub Wire : Type 0
  pub Error : Type 0
  pub Builder : Schema → Type 0
  pub Message : Type 0
  pub Reader : Schema → Type 0
  pub ListReader : Type 0
  -- `Builder::new_default().init_root()`
  pub init_root : (s : Schema) → Builder s
  pub set_data : {s : Schema} → Field → Bytes → Builder s → Builder s
  pub set_timestamp : ℕ → Builder envelope → Builder envelope
  -- a list of so many empty packages, and the write of one of them
  pub init_key_packages : ℕ → Builder mls_key_package_list → Builder mls_key_package_list
  pub set_key_package : ℕ → Bytes → Builder mls_key_package_list → Builder mls_key_package_list
  pub write_message : {s : Schema} → Builder s → Result Wire Error
  pub read_message : Wire → Result Message Error
  pub get_root : (s : Schema) → Message → Result (Reader s) Error
  pub get_data : {s : Schema} → Field → Reader s → Result Bytes Error
  pub get_timestamp : Reader envelope → ℕ
  pub get_key_packages : Reader mls_key_package_list → Result ListReader Error
  pub list_len : ListReader → ℕ
  pub list_get : ℕ → ListReader → Result Bytes Error

-- What the format promises. A builder holds what was last set, writing to memory does not fail,
-- and the reader of a written message shows the builder, unless the message is above the limit
-- of `ReaderOptions::default()` on what a reader may traverse.
pub record CapnpLaws (c : Capnp) : Type 1 where
  pub data_of : {s : Schema} → Field → c.Builder s → Bytes
  pub timestamp_of : c.Builder envelope → ℕ
  pub count_of : c.Builder mls_key_package_list → ℕ
  pub package_at : ℕ → c.Builder mls_key_package_list → Bytes
  pub data_of_set :
      {s : Schema} (f : Field) (b : Bytes) (x : c.Builder s) → data_of f (c.set_data f b x) ≡ b
  pub data_of_other :
      {s : Schema} (f g : Field) (b : Bytes) (x : c.Builder s)
      → field_code f ≢ field_code g
      → data_of f (c.set_data g b x) ≡ data_of f x
  pub data_of_timestamp :
      (f : Field) (t : ℕ) (x : c.Builder envelope) → data_of f (c.set_timestamp t x) ≡ data_of f x
  pub timestamp_of_set : (t : ℕ) (x : c.Builder envelope) → timestamp_of (c.set_timestamp t x) ≡ t
  pub timestamp_of_data :
      (f : Field) (b : Bytes) (x : c.Builder envelope)
      → timestamp_of (c.set_data f b x) ≡ timestamp_of x
  pub count_of_init :
      (n : ℕ) (x : c.Builder mls_key_package_list) → count_of (c.init_key_packages n x) ≡ n
  pub count_of_set :
      (i : ℕ) (b : Bytes) (x : c.Builder mls_key_package_list)
      → count_of (c.set_key_package i b x) ≡ count_of x
  pub package_at_set :
      (i : ℕ) (b : Bytes) (x : c.Builder mls_key_package_list)
      → i < count_of x
      → package_at i (c.set_key_package i b x) ≡ b
  pub package_at_other :
      (i j : ℕ) (b : Bytes) (x : c.Builder mls_key_package_list)
      → i ≢ j
      → package_at i (c.set_key_package j b x) ≡ package_at i x
  pub writes : {s : Schema} (x : c.Builder s) → (w : c.Wire) × (c.write_message x ≡ ok w)
  -- within the limit
  pub IsReadable : {s : Schema} → c.Builder s → Type 0
  pub Shows : {s : Schema} → c.Reader s → c.Builder s → Type 0
  pub reads :
      {s : Schema} (x : c.Builder s) (w : c.Wire)
      → c.write_message x ≡ ok w
      → IsReadable x
      → (m : c.Message) × (c.read_message w ≡ ok m)
        × (r : c.Reader s) × (c.get_root s m ≡ ok r)
        × Shows r x
  pub shows_data :
      {s : Schema} (f : Field) (r : c.Reader s) (x : c.Builder s)
      → Shows r x
      → c.get_data f r ≡ ok (data_of f x)
  pub shows_timestamp :
      (r : c.Reader envelope) (x : c.Builder envelope)
      → Shows r x
      → c.get_timestamp r ≡ timestamp_of x
  pub shows_packages :
      (r : c.Reader mls_key_package_list) (x : c.Builder mls_key_package_list)
      → Shows r x
      → (l : c.ListReader) × (c.get_key_packages r ≡ ok l)
        × (c.list_len l ≡ count_of x)
        × ((i : ℕ) → i < count_of x → c.list_get i l ≡ ok (package_at i x))

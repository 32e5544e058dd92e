-- ===== src/Core/Proto.antt =====
-- crates/mercury-core/src/proto.rs: the messages of the wire format. An encoder that panics does so
-- in an `expect` or `assert!`.
pub mod ReadBack
pub mod Envelope
pub mod Events
pub mod KeyPackages
use Prim.Native.Nat.{zero, suc}
use mercury_messaging.Base.{
  ℕ, ◌+◌, List, [], ◌∷◌, length, ltb, if◌then◌else◌, Outcome, done, panic, Result, ok, err,
}
use mercury_messaging.MessageLog.{Bytes}
use mercury_messaging.Core.Capnp.{
  Capnp, Schema, envelope, typing_event, read_receipt, mls_key_package, mls_key_package_list,
  mls_commit, mls_welcome, Field, tenant_id, channel_id, sender_id, message_id, payload, user_id,
  key_package, commit, welcome,
}

-- The operator `?`.
infixl 5 ◌>>=◌
abbrev pub ◌>>=◌ : {A B E : Type 0} → Result A E → (A → Result B E) → Result B E
ok a >>= f = f a
err e >>= f = err e

pub record DecodedEnvelope : Type 0 where
  pub tenant_id : Bytes
  pub channel_id : Bytes
  pub sender_id : Bytes
  pub message_id : Bytes
  pub timestamp : ℕ
  pub payload : Bytes

pub record DecodedReadReceipt : Type 0 where
  pub user_id : Bytes
  pub message_id : Bytes

pub record DecodedMlsWelcome : Type 0 where
  pub welcome : Bytes
  pub user_id : Bytes

abbrev pub max_key_packages : ℕ
max_key_packages = 10_000

module _ (c : Capnp) where
  open c use {
    Wire, Error, Builder, Reader, ListReader, init_root, set_data, set_timestamp, init_key_packages,
    set_key_package, write_message, read_message, get_root, get_data, get_timestamp,
    get_key_packages, list_len, list_get,
  }

  -- `write_message(&mut out, &builder).expect("capnp serialize")`
  abbrev pub expect_written : Result Wire Error → Outcome Wire
  expect_written (ok w) = done w
  expect_written (err e) = panic

  -- `read_message(bytes, ..)?.get_root()?`
  abbrev pub read_root : (s : Schema) → Wire → Result (Reader s) Error
  read_root s w = read_message w >>= get_root s

  unfoldable pub envelope_builder : Bytes → Bytes → Bytes → Bytes → ℕ → Bytes → Builder envelope
  envelope_builder tenant channel sender message timestamp content = set_data payload content (
      set_timestamp timestamp (
        set_data message_id message (
          set_data sender_id sender
            (set_data channel_id channel (set_data tenant_id tenant (init_root envelope))))))

  unfoldable pub envelope_encode : Bytes → Bytes → Bytes → Bytes → ℕ → Bytes → Outcome Wire
  envelope_encode tenant channel sender message timestamp content =
      expect_written
        (write_message (envelope_builder tenant channel sender message timestamp content))

  unfoldable pub envelope_decode : Wire → Result DecodedEnvelope Error
  envelope_decode w = do
    env ← read_root envelope w
    tenant ← get_data tenant_id env
    channel ← get_data channel_id env
    sender ← get_data sender_id env
    message ← get_data message_id env
    content ← get_data payload env
    ok (record {
      tenant_id = tenant;
      channel_id = channel;
      sender_id = sender;
      message_id = message;
      timestamp = get_timestamp env;
      payload = content;
    })

  -- A message with one field.
  abbrev pub encode_field : (s : Schema) → Field → Bytes → Outcome Wire
  encode_field s f bytes = expect_written (write_message (set_data f bytes (init_root s)))

  abbrev pub decode_field : (s : Schema) → Field → Wire → Result Bytes Error
  decode_field s f w = read_root s w >>= get_data f

  unfoldable pub typing_encode : Bytes → Outcome Wire
  typing_encode user = encode_field typing_event user_id user

  unfoldable pub typing_decode : Wire → Result Bytes Error
  typing_decode w = decode_field typing_event user_id w

  -- A message with two.
  abbrev pub two_fields : (s : Schema) → Field → Bytes → Field → Bytes → Builder s
  two_fields s f a g b = set_data g b (set_data f a (init_root s))

  unfoldable pub read_receipt_encode : Bytes → Bytes → Outcome Wire
  read_receipt_encode user message =
      expect_written (write_message (two_fields read_receipt user_id user message_id message))

  unfoldable pub read_receipt_decode : Wire → Result DecodedReadReceipt Error
  read_receipt_decode w = do
    rr ← read_root read_receipt w
    user ← get_data user_id rr
    message ← get_data message_id rr
    ok (record { user_id = user; message_id = message })

  unfoldable pub mls_key_package_encode : Bytes → Outcome Wire
  mls_key_package_encode kp = encode_field mls_key_package key_package kp

  unfoldable pub mls_key_package_decode : Wire → Result Bytes Error
  mls_key_package_decode w = decode_field mls_key_package key_package w

  -- `for (i, pkg) in packages.iter().enumerate()`
  unfoldable pub set_all :
      ℕ → List Bytes → Builder mls_key_package_list → Builder mls_key_package_list
  set_all i [] x = x
  set_all i (pkg ∷ packages) x = set_all (i + 1) packages (set_key_package i pkg x)

  unfoldable pub list_builder : List Bytes → Builder mls_key_package_list
  list_builder packages =
      set_all 0 packages (init_key_packages (length packages) (init_root mls_key_package_list))

  unfoldable pub mls_key_package_list_encode : List Bytes → Outcome Wire
  mls_key_package_list_encode packages =
      if ltb max_key_packages (length packages)
      then panic
      else expect_written (write_message (list_builder packages))

  -- `for i in 0..list.len()`: the packages that are left, from the index on.
  unfoldable pub get_from : ℕ → ℕ → ListReader → Result (List Bytes) Error
  get_from zero i l = ok []
  get_from (suc n) i l = do pkg ← list_get i l; rest ← get_from n (i + 1) l; ok (pkg ∷ rest)

  unfoldable pub mls_key_package_list_decode : Wire → Result (List Bytes) Error
  mls_key_package_list_decode w = do
    r ← read_root mls_key_package_list w
    l ← get_key_packages r
    get_from (list_len l) 0 l

  unfoldable pub mls_commit_encode : Bytes → Outcome Wire
  mls_commit_encode bytes = encode_field mls_commit commit bytes

  unfoldable pub mls_commit_decode : Wire → Result Bytes Error
  mls_commit_decode w = decode_field mls_commit commit w

  unfoldable pub mls_welcome_encode : Bytes → Bytes → Outcome Wire
  mls_welcome_encode bytes user =
      expect_written (write_message (two_fields mls_welcome welcome bytes user_id user))

  unfoldable pub mls_welcome_decode : Wire → Result DecodedMlsWelcome Error
  mls_welcome_decode w = do
    x ← read_root mls_welcome w
    bytes ← get_data welcome x
    user ← get_data user_id x
    ok (record { welcome = bytes; user_id = user })

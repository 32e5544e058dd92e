-- ===== src/Core/Proto/Events.antt =====
-- crates/mercury-core/src/proto.rs: writing and reading the events and the messages of MLS.
use mercury_messaging.Base.{◌≡◌, refl, arith, ok, done}
use mercury_messaging.MessageLog.{Bytes}
use mercury_messaging.Core.Capnp.{
  Capnp, CapnpLaws, typing_event, read_receipt, mls_key_package, mls_commit, mls_welcome, user_id,
  message_id, key_package, commit, welcome,
}
use mercury_messaging.Core.Proto.{
  two_fields, typing_encode, typing_decode, read_receipt_encode, read_receipt_decode,
  mls_key_package_encode, mls_key_package_decode, mls_commit_encode, mls_commit_decode,
  mls_welcome_encode, mls_welcome_decode,
}
use mercury_messaging.Core.Proto.ReadBack.{read_back, field_round_trip, read_two}

module _ (c : Capnp) (laws : CapnpLaws c) where
  pub one_field_round_trips :
      (b : Bytes)
      → laws.IsReadable (c.set_data user_id b (c.init_root typing_event))
      → laws.IsReadable (c.set_data key_package b (c.init_root mls_key_package))
      → laws.IsReadable (c.set_data commit b (c.init_root mls_commit))
      → ((w : c.Wire) × (typing_encode c b ≡ done w) × (typing_decode c w ≡ ok b))
        × ((w : c.Wire) × (mls_key_package_encode c b ≡ done w)
            × (mls_key_package_decode c w ≡ ok b))
        × ((w : c.Wire) × (mls_commit_encode c b ≡ done w) × (mls_commit_decode c w ≡ ok b))
  unfolding typing_encode typing_decode mls_key_package_encode mls_key_package_decode
      mls_commit_encode mls_commit_decode
  one_field_round_trips b h i j = (
    field_round_trip c laws typing_event user_id b h,
    field_round_trip c laws mls_key_package key_package b i,
    field_round_trip c laws mls_commit commit b j,
  )

  pub read_receipt_round_trip :
      (user message : Bytes)
      → laws.IsReadable (two_fields c read_receipt user_id user message_id message)
      → (w : c.Wire) × (read_receipt_encode c user message ≡ done w)
        × (read_receipt_decode c w ≡ ok (record { user_id = user; message_id = message }))
  unfolding read_receipt_encode read_receipt_decode
  read_receipt_round_trip user message h =
      let (w, written, r, root, shows) = read_back c laws _ h in
      let (a, b) = read_two c laws user_id message_id user message r (omega arith) shows in
      (w, written, rw (root, a, b) refl)

  -- Let the format keep its promises, and let the message of a welcome and a user be within
  -- the limit of the reader. Then encoding them returns, and the bytes decode to both.
  pub mls_welcome_round_trip :
      (bytes user : Bytes)
      → laws.IsReadable (two_fields c mls_welcome welcome bytes user_id user)
      → (w : c.Wire) × (mls_welcome_encode c bytes user ≡ done w)
        × (mls_welcome_decode c w ≡ ok (record { welcome = bytes; user_id = user }))
  unfolding mls_welcome_encode mls_welcome_decode
  mls_welcome_round_trip bytes user h =
      let (w, written, r, root, shows) = read_back c laws _ h in
      let (a, b) = read_two c laws welcome user_id bytes user r (omega arith) shows in
      (w, written, rw (root, a, b) refl)

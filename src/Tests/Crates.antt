-- ===== src/Tests/Crates.antt =====
-- Concrete functions for the crates that the model takes as parameters.
use mercury_messaging.Base.{ℕ, ◌+◌, ◌*◌, ◌%◌, ◌^◌, ◌<◌, ◌∷◌, [], arith, refl, some, ok}
use mercury_messaging.Order.{nat_ord, list_ord, same}
use mercury_messaging.Core.Ids.{IdCrates}
use mercury_messaging.MessageLog.{Bytes}
use mercury_messaging.HashMap.Bytes.{bytes_beq_iff}
use mercury_messaging.Crypto.Crates.{MlsCrates, KeepsGroupId, application_message}

-- The 48 bits of a ULID's time.
abbrev pub ulid_time : Bytes → ℕ
ulid_time (a ∷ b ∷ c ∷ d ∷ e ∷ f ∷ rest) =
    (a * 2 ^ 40 + b * 2 ^ 32 + c * 2 ^ 24 + d * 2 ^ 16 + e * 2 ^ 8 + f) % 2 ^ 48
ulid_time _ = 0

pub ulid_time_bits : (a : Bytes) → ulid_time a < 2 ^ 48
ulid_time_bits (a ∷ b ∷ c ∷ d ∷ e ∷ f ∷ rest) = omega arith
ulid_time_bits [] = omega arith
ulid_time_bits (a ∷ []) = omega arith
ulid_time_bits (a ∷ b ∷ []) = omega arith
ulid_time_bits (a ∷ b ∷ c ∷ []) = omega arith
ulid_time_bits (a ∷ b ∷ c ∷ d ∷ []) = omega arith
ulid_time_bits (a ∷ b ∷ c ∷ d ∷ e ∷ []) = omega arith

-- Ids are their bytes, and their texts too.
abbrev pub id_crates : IdCrates
id_crates = record {
  Uuid = Bytes;
  uuid_from_bytes = λ b. b;
  uuid_as_bytes = λ b. b;
  uuid_fmt = λ b. b;
  UuidError = Unit;
  uuid_from_str = λ s. ok s;
  Ulid = Bytes;
  ulid_from_bytes = λ b. b;
  ulid_to_bytes = λ b. b;
  ulid_timestamp_ms = ulid_time;
  ulid_fmt = λ b. b;
  DecodeError = Unit;
  ulid_from_str = λ s. ok s;
  ulid_eq = same;
  ulid_eq_iff = bytes_beq_iff;
  ulid_timestamp_bits = ulid_time_bits;
}

-- A group is its id and the number of its members; messages are sent as they are.
abbrev pub mls_crates : MlsCrates
mls_crates = record {
  LibError = Unit;
  Provider = ℕ;
  Signer = ℕ;
  Credential = Bytes;
  KeyPackage = Bytes;
  KeyPackageIn = Bytes;
  MlsGroup = Bytes × ℕ;
  MessageOut = Bytes;
  MessageIn = Bytes;
  ProtocolMessage = Bytes;
  ProcessedMessage = Bytes;
  Welcome = Bytes;
  StagedWelcome = Bytes;
  StagedCommit = Bytes;
  provider_default = 0;
  store_signer = λ signer p. (p + 1, ok tt);
  credential_with_key = λ identity signer. identity;
  build_key_package = λ signer credential p. (p + 1, ok credential);
  serialize_key_package = λ kp. ok kp;
  build_group = λ signer credential id p. (p + 1, ok (id, 1));
  group_id = λ g. g.0;
  members_count = λ g. g.1;
  deserialize_key_package = λ bytes. ok bytes;
  validate_key_package = λ kp. ok kp;
  add_members = λ signer kp s. ((s.0 + 1, (s.1.0, s.1.1 + 1)), ok (kp, s.1.0));
  remove_members = λ signer leaf s. (s, ok (leaf ∷ []));
  merge_pending_commit = λ s. (s, ok tt);
  create_message = λ signer plaintext s. (s, ok plaintext);
  serialize_message = λ m. ok m;
  deserialize_message = λ bytes. ok bytes;
  try_into_protocol_message = λ m. ok m;
  process_message = λ m s. (s, ok m);
  into_content = λ m. application_message m;
  merge_staged_commit = λ staged s. (s, ok tt);
  into_welcome = λ m. some m;
  stage_welcome = λ w p. (p + 1, ok w);
  into_group = λ w p. (p + 1, ok (w, 2));
}

pub mls_crates-KeepsGroupId : KeepsGroupId mls_crates
mls_crates-KeepsGroupId = record {
  built = λ signer credential id p q g h. cc;
  added = λ signer kp s. refl;
  removed = λ signer leaf s. refl;
  merged_pending = λ s. refl;
  created = λ signer plaintext s. refl;
  processed = λ message s. refl;
  merged_staged = λ commit s. refl;
}

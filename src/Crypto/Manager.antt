-- ===== src/Crypto/Manager.antt =====
-- crates/mercury-crypto/src/mls.rs: `struct MlsGroupManager` and its methods. A method gives the
-- new manager and its result; `panic` is a failed `assert!`, before which nothing has changed.
use mercury_messaging.Base.{
  ℕ, [], Option, none, some, ltb, leb, ◌==◌, is_some, if◌then◌else◌, length, Outcome, done, panic,
  Result, ok, err,
}
use mercury_messaging.HashMap.{HashMap, get, upsert}
use mercury_messaging.HashMap.Bytes.{bytes_eq}
use mercury_messaging.MessageLog.{Bytes}
use mercury_messaging.Crypto.Crates.{
  MlsCrates, Content, application_message, staged_commit_message, proposal_message,
}
use mercury_messaging.Crypto.Step.{Step, pure, bail, from_result, call, ◌>>=◌}

abbrev pub max_group_members : ℕ
max_group_members = 1000

abbrev pub max_message_size : ℕ
max_message_size = 65_536

-- The texts that `context` puts before an error of a library.
pub data Action : Type 0 where
  generate_signer store_signer build_kp create_mls_group : Action
  deserialize_kp key_package_validation add_mls_member remove_mls_member : Action
  merge_pending encrypt_message deserialize_mls_message protocol_message : Action
  process_mls_message deserialize_welcome stage join deserialize_commit : Action
  process_mls_commit merge_staged tls_serialize : Action

pub data MlsError (c : MlsCrates) : Type 0 where
  failed : Action → c.LibError → MlsError c
  group_not_found group_already_exists member_limit_reached : MlsError c
  expected_application expected_commit not_a_welcome : MlsError c

pub record MlsGroupManager (c : MlsCrates) : Type 0 where
  pub provider : c.Provider
  pub credential_with_key : c.Credential
  pub signer : c.Signer
  pub groups : HashMap Bytes c.MlsGroup

module _ (c : MlsCrates) where
  open c use {
    LibError, Provider, Signer, MlsGroup, MessageOut, MessageIn, StagedWelcome, StagedCommit,
    ProtocolMessage,
  }

  abbrev pub Reply : Type 0 → Type 0
  Reply A = MlsGroupManager c × Result A (MlsError c)

  -- The state of a group's functions, and that of the functions on the provider.
  abbrev pub OnGroup : Type 0 → Type 0
  OnGroup A = Step (Provider × MlsGroup) (MlsError c) A

  abbrev pub OnProvider : Type 0 → Type 0
  OnProvider A = Step Provider (MlsError c) A

  -- `SignatureKeyPair::new` gives the signer, `store` its second error.
  unfoldable pub new :
      Result Signer LibError → Bytes → Outcome (Result (MlsGroupManager c) (MlsError c))
  new (ok signer) identity =
      if length identity == 0
      then panic
      else let (provider, stored) = c.store_signer signer c.provider_default in
        done (elim stored [
          | err e ↦ err (failed store_signer e)
          | ok u ↦ ok (record {
            provider = provider;
            credential_with_key = c.credential_with_key identity signer;
            signer = signer;
            groups = [];
          })
        ])
  new (err e) identity =
      if length identity == 0 then panic else done (err (failed generate_signer e))

  abbrev pub to_bytes : MessageOut → OnGroup Bytes
  to_bytes m = from_result (failed tls_serialize) (c.serialize_message m)

  unfoldable pub generate_key_package : MlsGroupManager c → Reply Bytes
  generate_key_package m =
      let build : OnProvider Bytes = do
        kp ← call (failed build_kp) (c.build_key_package m.signer m.credential_with_key)
        from_result (failed tls_serialize) (c.serialize_key_package kp)
      in let (provider, r) = build m.provider in (record m { provider = provider }, r)

  -- `self.groups.insert(id, group)`
  abbrev pub insert_group : Bytes → MlsGroup → HashMap Bytes MlsGroup → HashMap Bytes MlsGroup
  insert_group id g groups = upsert id g (λ _. g) groups

  -- A call that makes a group and puts it under the id that it gives.
  abbrev pub enter :
      {A : Type 0}
      → (MlsGroup → Bytes × A)
      → MlsGroupManager c
      → Provider × Result MlsGroup (MlsError c)
      → Reply A
  enter f m (provider, ok g) =
      (record m { provider = provider; groups = insert_group (f g).0 g m.groups }, ok (f g).1)
  enter f m (provider, err e) = (record m { provider = provider }, err e)

  unfoldable pub create_group : Bytes → MlsGroupManager c → Outcome (Reply (Unit {0}))
  create_group id m =
      if length id == 0
      then panic
      else if is_some (get id m.groups)
      then done (m, err group_already_exists)
      else done (
          enter (λ g. (id, tt)) m
            (call (failed create_mls_group) (c.build_group m.signer m.credential_with_key id)
              m.provider))

  -- `let group = self.groups.get_mut(id).context("group not found")?`, and what follows on it.
  abbrev pub on_found :
      {A : Type 0} → Bytes → MlsGroupManager c → OnGroup A → Option MlsGroup → Reply A
  on_found id m f none = (m, err group_not_found)
  on_found id m f (some g) =
      let ((provider, group), r) = f (m.provider, g) in
      (record m { provider = provider; groups = insert_group id group m.groups }, r)

  abbrev pub with_group : {A : Type 0} → Bytes → MlsGroupManager c → OnGroup A → Reply A
  with_group id m f = on_found id m f (get id m.groups)

  -- The steps after `get_mut` of each method. Those of `add_member` start with the member limit.
  unfoldable pub add_key_package : Signer → Bytes → OnGroup (Bytes × Bytes)
  add_key_package signer kp_bytes = do
    kp_in ← from_result (failed deserialize_kp) (c.deserialize_key_package kp_bytes)
    kp ← from_result (failed key_package_validation) (c.validate_key_package kp_in)
    (commit, welcome) ← call (failed add_mls_member) (c.add_members signer kp)
    _ ← call (failed merge_pending) c.merge_pending_commit
    commit_bytes ← to_bytes commit
    welcome_bytes ← to_bytes welcome
    pure (commit_bytes, welcome_bytes)

  unfoldable pub add_member_to : Signer → Bytes → OnGroup (Bytes × Bytes)
  add_member_to signer kp_bytes s =
      if leb max_group_members (c.members_count s.1)
      then (s, err member_limit_reached)
      else add_key_package signer kp_bytes s

  unfoldable pub remove_member_of : Signer → ℕ → OnGroup Bytes
  remove_member_of signer index = do
    commit ← call (failed remove_mls_member) (c.remove_members signer index)
    _ ← call (failed merge_pending) c.merge_pending_commit
    to_bytes commit

  unfoldable pub encrypt_in : Signer → Bytes → OnGroup Bytes
  encrypt_in signer plaintext = do
    message ← call (failed encrypt_message) (c.create_message signer plaintext)
    to_bytes message

  abbrev pub expect_application : Content StagedCommit → OnGroup Bytes
  expect_application (application_message bytes) = pure bytes
  expect_application (staged_commit_message commit) = bail expected_application
  expect_application proposal_message = bail expected_application

  -- `try_into_protocol_message`, then `process_message`.
  unfoldable pub decrypt_in : Bytes → OnGroup Bytes
  decrypt_in ciphertext = do
    message ← from_result (failed deserialize_mls_message) (c.deserialize_message ciphertext)
    protocol ← from_result (failed protocol_message) (c.try_into_protocol_message message)
    processed ← call (failed process_mls_message) (c.process_message protocol)
    expect_application (c.into_content processed)

  abbrev pub expect_staged_commit : Content StagedCommit → OnGroup (Unit {0})
  expect_staged_commit (application_message bytes) = bail expected_commit
  expect_staged_commit (staged_commit_message commit) =
      call (failed merge_staged) (c.merge_staged_commit commit)
  expect_staged_commit proposal_message = bail expected_commit

  unfoldable pub process_commit_in : Bytes → OnGroup (Unit {0})
  process_commit_in commit_bytes = do
    message ← from_result (failed deserialize_commit) (c.deserialize_message commit_bytes)
    protocol ← from_result (failed protocol_message) (c.try_into_protocol_message message)
    processed ← call (failed process_mls_commit) (c.process_message protocol)
    expect_staged_commit (c.into_content processed)

  unfoldable pub add_member : Bytes → Bytes → MlsGroupManager c → Reply (Bytes × Bytes)
  add_member id kp_bytes m = with_group id m (add_member_to m.signer kp_bytes)

  unfoldable pub remove_member : Bytes → ℕ → MlsGroupManager c → Reply Bytes
  remove_member id index m = with_group id m (remove_member_of m.signer index)

  unfoldable pub encrypt : Bytes → Bytes → MlsGroupManager c → Outcome (Reply Bytes)
  encrypt id plaintext m =
      if ltb max_message_size (length plaintext)
      then panic
      else done (with_group id m (encrypt_in m.signer plaintext))

  unfoldable pub decrypt : Bytes → Bytes → MlsGroupManager c → Reply Bytes
  decrypt id ciphertext m = with_group id m (decrypt_in ciphertext)

  unfoldable pub process_commit : Bytes → Bytes → MlsGroupManager c → Reply (Unit {0})
  process_commit id commit_bytes m = with_group id m (process_commit_in commit_bytes)

  abbrev pub expect_welcome : Option c.Welcome → OnProvider c.Welcome
  expect_welcome none = bail not_a_welcome
  expect_welcome (some welcome) = pure welcome

  -- The steps of `process_welcome` before the new group is stored.
  unfoldable pub join_group : Bytes → OnProvider MlsGroup
  join_group welcome_bytes = do
    message ← from_result (failed deserialize_welcome) (c.deserialize_message welcome_bytes)
    welcome ← expect_welcome (c.into_welcome message)
    staged ← call (failed stage) (c.stage_welcome welcome)
    call (failed join) (c.into_group staged)

  unfoldable pub process_welcome : Bytes → MlsGroupManager c → Reply Bytes
  process_welcome welcome_bytes m =
      enter (λ g. (c.group_id g, c.group_id g)) m (join_group welcome_bytes m.provider)

  unfoldable pub member_count : Bytes → MlsGroupManager c → Option ℕ
  member_count id m = elim (get id m.groups) [ none ↦ none | some g ↦ some (c.members_count g) ]

-- ===== src/Crypto/Crates.antt =====
-- The crates `openmls`, `openmls_rust_crypto`, `openmls_basic_credential` and `tls_codec`, as a
-- parameter: their types and the functions that mls.rs calls. A provider holds the key storage
-- and the random generator, which its functions change; a group function changes both the
-- provider and the group, also where it fails.
use mercury_messaging.Base.{ℕ, ◌≡◌, Option, Result, ok}
use mercury_messaging.MessageLog.{Bytes}

-- `ProcessedMessageContent`, whose proposals the code does not tell apart.
pub data Content (StagedCommit : Type 0) : Type 0 where
  application_message : Bytes → Content StagedCommit
  staged_commit_message : StagedCommit → Content StagedCommit
  proposal_message : Content StagedCommit

pub record MlsCrates : Type 1 where
  pub LibError : Type 0
  pub Provider : Type 0
  pub Signer : Type 0
  pub Credential : Type 0
  pub KeyPackage : Type 0
  pub KeyPackageIn : Type 0
  pub MlsGroup : Type 0
  pub MessageOut : Type 0
  pub MessageIn : Type 0
  pub ProtocolMessage : Type 0
  pub ProcessedMessage : Type 0
  pub Welcome : Type 0
  pub StagedWelcome : Type 0
  pub StagedCommit : Type 0
  pub provider_default : Provider
  pub store_signer : Signer → Provider → Provider × Result (Unit {0}) LibError
  pub credential_with_key : Bytes → Signer → Credential
  pub build_key_package : Signer → Credential → Provider → Provider × Result KeyPackage LibError
  pub serialize_key_package : KeyPackage → Result Bytes LibError
  pub build_group : Signer → Credential → Bytes → Provider → Provider × Result MlsGroup LibError
  pub group_id : MlsGroup → Bytes
  pub members_count : MlsGroup → ℕ
  pub deserialize_key_package : Bytes → Result KeyPackageIn LibError
  pub validate_key_package : KeyPackageIn → Result KeyPackage LibError
  pub add_members :
      Signer
      → KeyPackage
      → Provider × MlsGroup
      → (Provider × MlsGroup) × Result (MessageOut × MessageOut) LibError
  pub remove_members :
      Signer → ℕ → Provider × MlsGroup → (Provider × MlsGroup) × Result MessageOut LibError
  pub merge_pending_commit :
      Provider × MlsGroup → (Provider × MlsGroup) × Result (Unit {0}) LibError
  pub create_message :
      Signer → Bytes → Provider × MlsGroup → (Provider × MlsGroup) × Result MessageOut LibError
  pub serialize_message : MessageOut → Result Bytes LibError
  pub deserialize_message : Bytes → Result MessageIn LibError
  pub try_into_protocol_message : MessageIn → Result ProtocolMessage LibError
  pub process_message :
      ProtocolMessage
      → Provider × MlsGroup
      → (Provider × MlsGroup) × Result ProcessedMessage LibError
  pub into_content : ProcessedMessage → Content StagedCommit
  pub merge_staged_commit :
      StagedCommit → Provider × MlsGroup → (Provider × MlsGroup) × Result (Unit {0}) LibError
  pub into_welcome : MessageIn → Option Welcome
  pub stage_welcome : Welcome → Provider → Provider × Result StagedWelcome LibError
  pub into_group : StagedWelcome → Provider → Provider × Result MlsGroup LibError

-- What the documentation promises of a group's id: a built group has the id that was asked for,
-- and no function on a group changes it.
pub record KeepsGroupId (c : MlsCrates) : Type 0 where
  pub built :
      (signer : c.Signer) (credential : c.Credential) (id : Bytes) (p q : c.Provider)
      (g : c.MlsGroup)
      → c.build_group signer credential id p ≡ (q, ok g)
      → c.group_id g ≡ id
  pub added :
      (signer : c.Signer) (kp : c.KeyPackage) (s : c.Provider × c.MlsGroup)
      → c.group_id (c.add_members signer kp s).0.1 ≡ c.group_id s.1
  pub removed :
      (signer : c.Signer) (leaf : ℕ) (s : c.Provider × c.MlsGroup)
      → c.group_id (c.remove_members signer leaf s).0.1 ≡ c.group_id s.1
  pub merged_pending :
      (s : c.Provider × c.MlsGroup) → c.group_id (c.merge_pending_commit s).0.1 ≡ c.group_id s.1
  pub created :
      (signer : c.Signer) (plaintext : Bytes) (s : c.Provider × c.MlsGroup)
      → c.group_id (c.create_message signer plaintext s).0.1 ≡ c.group_id s.1
  pub processed :
      (message : c.ProtocolMessage) (s : c.Provider × c.MlsGroup)
      → c.group_id (c.process_message message s).0.1 ≡ c.group_id s.1
  pub merged_staged :
      (commit : c.StagedCommit) (s : c.Provider × c.MlsGroup)
      → c.group_id (c.merge_staged_commit commit s).0.1 ≡ c.group_id s.1

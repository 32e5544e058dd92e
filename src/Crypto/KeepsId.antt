-- ===== src/Crypto/KeepsId.antt =====
-- crates/mercury-crypto/src/mls.rs: the id of a group under the steps of the methods on it.
use mercury_messaging.Base.{ℕ, ◌≡◌, refl, ap, ◌∙◌, inl, inr, Bool-cases, Result, ok, err, leb}
use mercury_messaging.HashMap.Bytes.{bytes_eq}
use mercury_messaging.MessageLog.{Bytes}
use mercury_messaging.Crypto.Crates.{
  MlsCrates, KeepsGroupId, Content, application_message, staged_commit_message, proposal_message,
}
use mercury_messaging.Crypto.Step.{and_then, call, from_result, pure, bail, ◌>>=◌ as ◌>>>=◌}
use mercury_messaging.Crypto.Manager.{
  max_group_members, MlsError, OnGroup, add_key_package, add_member_to, remove_member_of,
  encrypt_in, decrypt_in, process_commit_in, expect_application, expect_staged_commit,
}

module _ (c : MlsCrates) where
  -- A step on a group that leaves its id.
  pub record KeepsId {A : Type 0} (f : OnGroup c A) : Type 0 where
    pub keeps : (s : c.Provider × c.MlsGroup) → c.group_id (f s).0.1 ≡ c.group_id s.1

  group_id-from_result :
      {A F : Type 0} (wrap : F → MlsError c) (r : Result A F) (s : c.Provider × c.MlsGroup)
      → (from_result wrap r s).0 ≡ s
  unfolding from_result
  group_id-from_result wrap (ok a) s = refl
  group_id-from_result wrap (err e) s = refl

  KeepsId-from_result :
      {A F : Type 0} (wrap : F → MlsError c) (r : Result A F) → KeepsId (from_result wrap r)
  KeepsId-from_result wrap r = record {
    keeps = λ s. ap (λ t. c.group_id t.1) (group_id-from_result wrap r s);
  }

  group_id-and_then :
      {A B : Type 0} (r : (c.Provider × c.MlsGroup) × Result A (MlsError c)) (f : A → OnGroup c B)
      (g : c.MlsGroup)
      → c.group_id r.0.1 ≡ c.group_id g
      → ((a : A) → KeepsId (f a))
      → c.group_id (and_then r f).0.1 ≡ c.group_id g
  group_id-and_then (t, ok a) f g e k = (k a).keeps t ∙ e
  group_id-and_then (t, err x) f g e k = e

  KeepsId-then :
      {A B : Type 0} {m : OnGroup c A} {f : A → OnGroup c B}
      → KeepsId m
      → ((a : A) → KeepsId (f a))
      → KeepsId (m >>>= f)
  unfolding ◌>>>=◌
  KeepsId-then {m = m} {f = f} k h = record {
    keeps = λ s. group_id-and_then (m s) f s.1 (k.keeps s) h;
  }

  KeepsId-call :
      {A F : Type 0} (wrap : F → MlsError c)
      (m : c.Provider × c.MlsGroup → (c.Provider × c.MlsGroup) × Result A F)
      → ((s : c.Provider × c.MlsGroup) → c.group_id (m s).0.1 ≡ c.group_id s.1)
      → KeepsId (call wrap m)
  unfolding call
  KeepsId-call wrap m k = record {
    keeps = λ s. (KeepsId-from_result wrap (m s).1).keeps (m s).0 ∙ k s;
  }

  KeepsId-pure : {A : Type 0} (a : A) → KeepsId (pure a)
  unfolding pure
  KeepsId-pure a = record { keeps = λ s. refl }

  KeepsId-bail : {A : Type 0} (e : MlsError c) → KeepsId {A = A} (bail e)
  unfolding bail
  KeepsId-bail e = record { keeps = λ s. refl }

module _ (c : MlsCrates) (laws : KeepsGroupId c) where
  KeepsId-add_key_package :
      (signer : c.Signer) (kp : Bytes) → KeepsId c (add_key_package c signer kp)
  unfolding add_key_package
  KeepsId-add_key_package signer kp =
      KeepsId-then c (KeepsId-from_result c _ (c.deserialize_key_package kp)) (λ kp_in.
        KeepsId-then c (KeepsId-from_result c _ (c.validate_key_package kp_in)) (λ verified.
          KeepsId-then c (KeepsId-call c _ _ (laws.added signer verified)) (λ messages.
            KeepsId-then c (KeepsId-call c _ _ laws.merged_pending) (λ _.
              KeepsId-then c (KeepsId-from_result c _ (c.serialize_message messages.0)) (λ a.
                KeepsId-then c (KeepsId-from_result c _ (c.serialize_message messages.1))
                  (λ b. KeepsId-pure c (a, b)))))))

  pub KeepsId-add_member_to :
      (signer : c.Signer) (kp : Bytes) → KeepsId c (add_member_to c signer kp)
  unfolding add_member_to
  KeepsId-add_member_to signer kp = record {
    keeps = λ s. elim (Bool-cases (leb max_group_members (c.members_count s.1))) [
      | inl full ↦ rw full refl
      | inr room ↦ rw room ((KeepsId-add_key_package signer kp).keeps s)
    ];
  }

  pub KeepsId-remove_member_of :
      (signer : c.Signer) (index : ℕ) → KeepsId c (remove_member_of c signer index)
  unfolding remove_member_of
  KeepsId-remove_member_of signer index =
      KeepsId-then c (KeepsId-call c _ _ (laws.removed signer index)) (λ message.
        KeepsId-then c (KeepsId-call c _ _ laws.merged_pending) (λ _. KeepsId-from_result c _ _))

  pub KeepsId-encrypt_in :
      (signer : c.Signer) (plaintext : Bytes) → KeepsId c (encrypt_in c signer plaintext)
  unfolding encrypt_in
  KeepsId-encrypt_in signer plaintext =
      KeepsId-then c (KeepsId-call c _ _ (laws.created signer plaintext))
        (λ message. KeepsId-from_result c _ _)

  KeepsId-expect_application :
      (content : Content c.StagedCommit) → KeepsId c (expect_application c content)
  KeepsId-expect_application (application_message bytes) = KeepsId-pure c bytes
  KeepsId-expect_application (staged_commit_message staged) = KeepsId-bail c _
  KeepsId-expect_application proposal_message = KeepsId-bail c _

  KeepsId-expect_staged_commit :
      (content : Content c.StagedCommit) → KeepsId c (expect_staged_commit c content)
  KeepsId-expect_staged_commit (application_message bytes) = KeepsId-bail c _
  KeepsId-expect_staged_commit (staged_commit_message staged) =
      KeepsId-call c _ _ (laws.merged_staged staged)
  KeepsId-expect_staged_commit proposal_message = KeepsId-bail c _

  pub KeepsId-decrypt_in : (ciphertext : Bytes) → KeepsId c (decrypt_in c ciphertext)
  unfolding decrypt_in
  KeepsId-decrypt_in ciphertext = KeepsId-then c (KeepsId-from_result c _ _) (λ message.
      KeepsId-then c (KeepsId-from_result c _ _) (λ protocol.
        KeepsId-then c (KeepsId-call c _ _ (laws.processed protocol))
          (λ processed. KeepsId-expect_application (c.into_content processed))))

  pub KeepsId-process_commit_in : (bytes : Bytes) → KeepsId c (process_commit_in c bytes)
  unfolding process_commit_in
  KeepsId-process_commit_in bytes = KeepsId-then c (KeepsId-from_result c _ _) (λ message.
      KeepsId-then c (KeepsId-from_result c _ _) (λ protocol.
        KeepsId-then c (KeepsId-call c _ _ (laws.processed protocol))
          (λ processed. KeepsId-expect_staged_commit (c.into_content processed))))

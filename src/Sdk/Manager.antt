-- ===== src/Sdk/Manager.antt =====
-- `MlsManager`: the class that wraps the group manager for JavaScript.
use mercury_messaging.Base.{
  ℕ, ◌≡◌, arith, Option, none, some, ltb, if◌then◌else◌, Outcome, done, panic, ◌>>=◌, >>=-eq-done,
  Result, ok, err, u32_mod,
}
use mercury_messaging.MessageLog.{Bytes}
use mercury_messaging.Crypto.Crates.{MlsCrates}
use mercury_messaging.Crypto.Manager
use mercury_messaging.Crypto.Manager.{MlsGroupManager, MlsError, Reply}
use mercury_messaging.Sdk.Member.{pack, unpack, unpack-pack}

-- The text before the manager's error.
pub data Prefix : Type 0 where
  mls_init key_package : Prefix
  creating_group adding_member removing_member encrypting decrypting : Prefix
  processing_welcome processing_commit : Prefix

pub data JsError (c : MlsCrates) : Type 0 where
  of_manager : Prefix → MlsError c → JsError c
  no_group : JsError c

pub record MlsManager (c : MlsCrates) : Type 0 where
  pub inner : MlsGroupManager c

module _ (c : MlsCrates) where
  abbrev pub JsReply : Type 0 → Type 0
  JsReply A = MlsManager c × Result A (JsError c)

  -- `map_err(|e| JsError::new(&format!("..: {e}")))`
  abbrev pub to_js : {A : Type 0} → Prefix → Result A (MlsError c) → Result A (JsError c)
  to_js p (ok a) = ok a
  to_js p (err e) = err (of_manager p e)

  abbrev pub wrap : {A : Type 0} → Prefix → Reply c A → JsReply A
  wrap p (m, r) = (record { inner = m }, to_js p r)

  unfoldable pub new :
      Result c.Signer c.LibError → Bytes → Outcome (Result (MlsManager c) (JsError c))
  new generated identity = elim (Manager.new c generated identity) [
    | done (ok inner) ↦ done (ok (record { inner = inner }))
    | done (err e) ↦ done (err (of_manager mls_init e))
    | panic ↦ panic
  ]

  unfoldable pub generate_key_package : MlsManager c → JsReply Bytes
  generate_key_package s = wrap key_package (Manager.generate_key_package c s.inner)

  unfoldable pub create_group : Bytes → MlsManager c → Outcome (JsReply (Unit {0}))
  create_group group_id s =
      Manager.create_group c group_id s.inner >>= λ r. done (wrap creating_group r)

  -- The packing of the two messages of `add_member`.
  abbrev pub pack_reply : Reply c (Bytes × Bytes) → Outcome (JsReply Bytes)
  pack_reply (m, ok (commit, welcome)) =
      pack commit welcome >>= λ out. done (record { inner = m }, ok out)
  pack_reply (m, err e) = done (record { inner = m }, err (of_manager adding_member e))

  unfoldable pub add_member : Bytes → Bytes → MlsManager c → Outcome (JsReply Bytes)
  add_member group_id kp s = pack_reply (Manager.add_member c group_id kp s.inner)

  unfoldable pub encrypt : Bytes → Bytes → MlsManager c → Outcome (JsReply Bytes)
  encrypt group_id plaintext s =
      Manager.encrypt c group_id plaintext s.inner >>= λ r. done (wrap encrypting r)

  unfoldable pub decrypt : Bytes → Bytes → MlsManager c → JsReply Bytes
  decrypt group_id ciphertext s = wrap decrypting (Manager.decrypt c group_id ciphertext s.inner)

  unfoldable pub process_welcome : Bytes → MlsManager c → JsReply Bytes
  process_welcome welcome s = wrap processing_welcome (Manager.process_welcome c welcome s.inner)

  unfoldable pub process_commit : Bytes → Bytes → MlsManager c → JsReply (Unit {0})
  process_commit group_id commit s =
      wrap processing_commit (Manager.process_commit c group_id commit s.inner)

  unfoldable pub remove_member : Bytes → ℕ → MlsManager c → JsReply Bytes
  remove_member group_id index s =
      wrap removing_member (Manager.remove_member c group_id index s.inner)

  -- `u32::try_from(n).expect(..)` on the count of members.
  abbrev pub count_of : Option ℕ → Outcome (Result ℕ (JsError c))
  count_of none = done (err no_group)
  count_of (some n) = if ltb n u32_mod then done (ok n) else panic

  unfoldable pub member_count : Bytes → MlsManager c → Outcome (Result ℕ (JsError c))
  member_count group_id s = count_of (Manager.member_count c group_id s.inner)

  -- A key package for an identity whose manager is then dropped.
  unfoldable pub standalone_key_package :
      Result c.Signer c.LibError → Bytes → Outcome (Result Bytes (JsError c))
  standalone_key_package generated identity = elim (Manager.new c generated identity) [
    | done (ok inner) ↦ done (to_js key_package (Manager.generate_key_package c inner).1)
    | done (err e) ↦ done (err (of_manager mls_init e))
    | panic ↦ panic
  ]

  -- If the group manager adds a member and the call of the SDK returns, then the SDK holds
  -- the manager afterwards, and the bytes that it returns unpack to the commit and the
  -- welcome of the group manager.
  pub unpack-add_member :
      (group_id kp commit welcome out : Bytes) (s s' : MlsManager c) (m : MlsGroupManager c)
      → Manager.add_member c group_id kp s.inner ≡ (m, ok (commit, welcome))
      → add_member group_id kp s ≡ done (s', ok out)
      → (s'.inner ≡ m) × (unpack out ≡ some (commit, welcome))
  unfolding add_member
  unpack-add_member group_id kp commit welcome out s s' m added h =
      let (bytes, packed, returned) = >>=-eq-done (pack commit welcome) _ (rw added at h) in
      (ground arith, (unpack-pack commit welcome).1 out (ground arith))

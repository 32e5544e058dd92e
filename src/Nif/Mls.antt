-- ===== src/Nif/Mls.antt =====
-- `MlsManagerResource` and the functions on it. The lock of the resource is poisoned by a panic
-- of the code that holds it: the runtime turns the panic into an exception of the caller, and the
-- resource lives on. The asserts that panic stand before every change of the manager.
use mercury_messaging.Base.{
  ◌<◌, ◌≡◌, ◌↔◌, ◌⊎◌, refl, arith, length, Bool, true, false, Outcome, done, panic, Result, ok, err,
  if◌then◌else◌,
}
use mercury_messaging.HashMap.Bytes.{bytes_eq}
use mercury_messaging.MessageLog.{Bytes}
use mercury_messaging.Crypto.Crates.{MlsCrates}
use mercury_messaging.Crypto.Manager
use mercury_messaging.Crypto.Manager.{
  MlsGroupManager, MlsError, max_message_size, generate_key_package, create_group, add_member,
  encrypt, decrypt, process_commit, process_welcome,
}

-- The term of the error: a fixed text, or the text of the manager's error.
pub data MlsNifError (c : MlsCrates) : Type 0 where
  lock_poisoned : MlsNifError c
  mls_error : MlsError c → MlsNifError c

-- `Mutex<MlsGroupManager>`
pub record MlsManagerResource (c : MlsCrates) : Type 0 where
  pub poisoned : Bool
  pub manager : MlsGroupManager c

module _ (c : MlsCrates) where
  abbrev pub Answer : Type 0 → Type 0
  Answer A = MlsManagerResource c × Outcome (Result A (MlsNifError c))

  -- `map_err(|e| rustler::Error::Term(Box::new(e.to_string())))`
  abbrev pub to_term : {A : Type 0} → Result A (MlsError c) → Result A (MlsNifError c)
  to_term (ok a) = ok a
  to_term (err e) = err (mls_error e)

  -- The end of a call that holds the lock.
  abbrev pub release :
      {A : Type 0}
      → MlsManagerResource c
      → Outcome (MlsGroupManager c × Result A (MlsError c))
      → Answer A
  release r (done (manager, a)) = (record { poisoned = false; manager = manager }, done (to_term a))
  release r panic = (record r { poisoned = true }, panic)

  -- `resource.0.lock().map_err(..)?`, and the call.
  abbrev pub locked :
      {A : Type 0}
      → MlsManagerResource c
      → (MlsGroupManager c → Outcome (MlsGroupManager c × Result A (MlsError c)))
      → Answer A
  locked r f = if r.poisoned then (r, done (err lock_poisoned)) else release r (f r.manager)

  unfoldable pub mls_create_identity :
      Result c.Signer c.LibError → Bytes → Outcome (Result (MlsManagerResource c) (MlsNifError c))
  mls_create_identity generated identity = elim (Manager.new c generated identity) [
    | done (ok manager) ↦ done (ok (record { poisoned = false; manager = manager }))
    | done (err e) ↦ done (err (mls_error e))
    | panic ↦ panic
  ]

  unfoldable pub mls_generate_key_package : MlsManagerResource c → Answer Bytes
  mls_generate_key_package r = locked r (λ m. done (generate_key_package c m))

  unfoldable pub mls_create_group : MlsManagerResource c → Bytes → Answer (Unit {0})
  mls_create_group r group_id = locked r (create_group c group_id)

  unfoldable pub mls_add_member : MlsManagerResource c → Bytes → Bytes → Answer (Bytes × Bytes)
  mls_add_member r group_id key_package = locked r (λ m. done (add_member c group_id key_package m))

  unfoldable pub mls_encrypt : MlsManagerResource c → Bytes → Bytes → Answer Bytes
  mls_encrypt r group_id plaintext = locked r (encrypt c group_id plaintext)

  unfoldable pub mls_decrypt : MlsManagerResource c → Bytes → Bytes → Answer Bytes
  mls_decrypt r group_id ciphertext = locked r (λ m. done (decrypt c group_id ciphertext m))

  unfoldable pub mls_process_welcome : MlsManagerResource c → Bytes → Answer Bytes
  mls_process_welcome r welcome = locked r (λ m. done (process_welcome c welcome m))

  unfoldable pub mls_process_commit : MlsManagerResource c → Bytes → Bytes → Answer (Unit {0})
  mls_process_commit r group_id commit = locked r (λ m. done (process_commit c group_id commit m))

  -- A call of mls_encrypt leaves the lock of the resource poisoned exactly if it was
  -- poisoned before or the plaintext has more than 65536 bytes.
  pub mls_encrypt-poisoned :
      (r : MlsManagerResource c) (group_id plaintext : Bytes)
      → ((mls_encrypt r group_id plaintext).0.poisoned ≡ true)
        ↔ ((r.poisoned ≡ true) ⊎ (max_message_size < length plaintext))
  unfolding mls_encrypt encrypt
  mls_encrypt-poisoned r group_id plaintext = (λ e. ground arith, λ h. ground arith)

  -- `mls_create_group` leaves the lock poisoned exactly if it was, or if the group's id is empty.
  pub mls_create_group-poisoned :
      (r : MlsManagerResource c) (group_id : Bytes)
      → ((mls_create_group r group_id).0.poisoned ≡ true)
        ↔ ((r.poisoned ≡ true) ⊎ (length group_id ≡ 0))
  unfolding mls_create_group create_group
  mls_create_group-poisoned r group_id = (λ e. ground arith, λ h. ground arith)

  -- With a poisoned lock each of the seven functions on a manager answers that the lock is
  -- poisoned and changes nothing.
  pub poisoned_lem :
      (r : MlsManagerResource c) (a b : Bytes)
      → r.poisoned ≡ true
      → (mls_generate_key_package r ≡ (r, done (err lock_poisoned)))
        × (mls_create_group r a ≡ (r, done (err lock_poisoned)))
        × (mls_add_member r a b ≡ (r, done (err lock_poisoned)))
        × (mls_encrypt r a b ≡ (r, done (err lock_poisoned)))
        × (mls_decrypt r a b ≡ (r, done (err lock_poisoned)))
        × (mls_process_welcome r a ≡ (r, done (err lock_poisoned)))
        × (mls_process_commit r a b ≡ (r, done (err lock_poisoned)))
  unfolding mls_generate_key_package mls_create_group mls_add_member mls_encrypt mls_decrypt
      mls_process_welcome mls_process_commit
  poisoned_lem r a b h =
      (rw h refl, rw h refl, rw h refl, rw h refl, rw h refl, rw h refl, rw h refl)

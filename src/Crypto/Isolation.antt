-- ===== src/Crypto/Isolation.antt =====
-- crates/mercury-crypto/src/mls.rs: which groups the methods of the manager touch.
use mercury_messaging.Base.{
  ◌≡◌, ◌≢◌, refl, sym, ap, inl, inr, arith, Option, none, some, is_some, ltb, ◌==◌, length,
  Bool-cases, done, done_injective, panic_not_done, Result, ok, err,
}
use mercury_messaging.HashMap.{HashMap, get}
use mercury_messaging.HashMap.Bytes.{bytes_eq}
use mercury_messaging.HashMap.Lookup.{get-upsert}
use mercury_messaging.MessageLog.{Bytes}
use mercury_messaging.Crypto.Crates.{MlsCrates}
use mercury_messaging.Crypto.Step.{call}
use mercury_messaging.Crypto.Manager.{
  max_message_size, MlsGroupManager, MlsError, OnGroup, insert_group, enter, on_found, with_group,
  generate_key_package, create_group, add_member, remove_member, encrypt, decrypt, process_commit,
  process_welcome, join_group, add_member_to, remove_member_of, encrypt_in, decrypt_in,
  process_commit_in, failed, create_mls_group,
}
use mercury_messaging.Crypto.Calls.{
  Call, generate, create, add, remove, seal, unseal, commit, welcome, after,
}

module _ (c : MlsCrates) where
  abbrev joined_id : Result c.MlsGroup (MlsError c) → Option Bytes
  joined_id (ok g) = some (c.group_id g)
  joined_id (err e) = none

  -- The group that a call is about; for a welcome, the one that it lets the device join.
  unfoldable pub target_of : Call → MlsGroupManager c → Option Bytes
  target_of generate m = none
  target_of (create id) m = some id
  target_of (add id kp) m = some id
  target_of (remove id index) m = some id
  target_of (seal id bytes) m = some id
  target_of (unseal id bytes) m = some id
  target_of (commit id bytes) m = some id
  target_of (welcome bytes) m = joined_id (join_group c bytes m.provider).1

  get-insert_group :
      (q id : Bytes) (g : c.MlsGroup) (groups : HashMap Bytes c.MlsGroup)
      → q ≢ id
      → get q (insert_group c id g groups) ≡ get q groups
  get-insert_group q id g groups n =
      ground (arith, get-upsert q id g (λ _. g) groups, bytes_eq.beq_iff q id)

  on_found-others :
      {A : Type 0} (q id : Bytes) (m : MlsGroupManager c) (f : OnGroup c A) (o : Option c.MlsGroup)
      → q ≢ id
      → get q (on_found c id m f o).0.groups ≡ get q m.groups
  on_found-others q id m f none n = refl
  on_found-others q id m f (some g) n = get-insert_group q id (f (m.provider, g)).0.1 m.groups n

  enter-others :
      {A : Type 0} (q : Bytes) (f : c.MlsGroup → Bytes × A) (m : MlsGroupManager c)
      (r : c.Provider × Result c.MlsGroup (MlsError c))
      → ((g : c.MlsGroup) → r.1 ≡ ok g → q ≢ (f g).0)
      → get q (enter c f m r).0.groups ≡ get q m.groups
  enter-others q f m (p, ok g) n = get-insert_group q (f g).0 g m.groups (n g refl)
  enter-others q f m (p, err e) n = refl

  via_group :
      {A : Type 0} (q id : Bytes) (m m' : MlsGroupManager c) (f : OnGroup c A)
      → q ≢ id
      → (with_group c id m f).0 ≡ m'
      → get q m'.groups ≡ get q m.groups
  via_group q id m m' f n h = rw h at (on_found-others q id m f (get id m.groups) n)

  via_enter :
      (q : Bytes) {A : Type 0} (f : c.MlsGroup → Bytes × A) (m m' : MlsGroupManager c)
      (r : c.Provider × Result c.MlsGroup (MlsError c))
      → ((g : c.MlsGroup) → r.1 ≡ ok g → q ≢ (f g).0)
      → (enter c f m r).0 ≡ m'
      → get q m'.groups ≡ get q m.groups
  via_enter q f m m' r n h = rw h at (enter-others q f m r n)

  -- A call of the manager that returns leaves every group as it was but the one that the
  -- call names or, for a welcome, the one that it joins.
  pub after-others :
      (k : Call) (m m' : MlsGroupManager c) (q : Bytes)
      → after c k m ≡ done m'
      → target_of k m ≢ some q
      → get q m'.groups ≡ get q m.groups
  unfolding after target_of generate_key_package create_group add_member remove_member encrypt
      decrypt process_commit process_welcome
  after-others generate m m' q h n = ap (λ x. get q x.groups) (sym (done_injective h))
  after-others (create id) m m' q h n = elim (Bool-cases (length id == 0)) [
    | inl no_id ↦ panic_not_done (rw no_id at h)
    | inr an_id ↦ elim (Bool-cases (is_some (get id m.groups))) [
      | inl taken ↦ ap (λ x. get q x.groups) (sym (done_injective (rw (an_id, taken) at h)))
      | inr free ↦
          via_enter q (λ g. (id, tt)) m m'
            (call (failed create_mls_group) (c.build_group m.signer m.credential_with_key id)
              m.provider)
            (λ g _ e. n (ap some (sym e))) (done_injective (rw (an_id, free) at h))
    ]
  ]
  after-others (add id kp) m m' q h n =
      via_group q id m m' (add_member_to c m.signer kp) (λ e. n (ap some (sym e)))
        (done_injective h)
  after-others (remove id index) m m' q h n =
      via_group q id m m' (remove_member_of c m.signer index) (λ e. n (ap some (sym e)))
        (done_injective h)
  after-others (seal id bytes) m m' q h n =
      elim (Bool-cases (ltb max_message_size (length bytes))) [
        | inl long ↦ panic_not_done (rw long at h)
        | inr short ↦
            via_group q id m m' (encrypt_in c m.signer bytes) (λ e. n (ap some (sym e)))
              (done_injective (rw short at h))
      ]
  after-others (unseal id bytes) m m' q h n =
      via_group q id m m' (decrypt_in c bytes) (λ e. n (ap some (sym e))) (done_injective h)
  after-others (commit id bytes) m m' q h n =
      via_group q id m m' (process_commit_in c bytes) (λ e. n (ap some (sym e))) (done_injective h)
  after-others (welcome bytes) m m' q h n =
      via_enter q (λ g. (c.group_id g, c.group_id g)) m m' (join_group c bytes m.provider)
        (λ g joined e. n (rw joined (ap some (sym e)))) (done_injective h)

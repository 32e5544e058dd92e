-- ===== src/Crypto/Keyed.antt =====
-- crates/mercury-crypto/src/mls.rs: the keys of the map of groups.
use mercury_messaging.Base.{
  ◌≡◌, refl, ap, ◌∙◌, inl, inr, arith, List, [], ◌∷◌, Option, none, some, is_some, ltb, ◌==◌,
  length, Bool-cases, done, done_injective, panic_not_done, >>=-eq-done, Result, ok, err,
}
use mercury_messaging.HashMap.{get}
use mercury_messaging.HashMap.Bytes.{bytes_eq}
use mercury_messaging.HashMap.Lookup.{get-upsert}
use mercury_messaging.MessageLog.{Bytes}
use mercury_messaging.Crypto.Crates.{MlsCrates, KeepsGroupId}
use mercury_messaging.Crypto.Step.{call, from_result}
use mercury_messaging.Crypto.Manager.{
  max_message_size, MlsGroupManager, MlsError, OnGroup, enter, on_found, failed, create_mls_group,
  generate_key_package, create_group, add_member, remove_member, encrypt, decrypt, process_commit,
  process_welcome, join_group,
}
use mercury_messaging.Crypto.Calls.{
  Call, generate, create, add, remove, seal, unseal, commit, welcome, after, after_all,
}
use mercury_messaging.Crypto.KeepsId.{
  KeepsId, KeepsId-add_member_to, KeepsId-remove_member_of, KeepsId-encrypt_in, KeepsId-decrypt_in,
  KeepsId-process_commit_in,
}

module _ (c : MlsCrates) where
  abbrev pub IsKeyed : MlsGroupManager c → Type 0
  IsKeyed m = (id : Bytes) (g : c.MlsGroup) → get id m.groups ≡ some g → c.group_id g ≡ id

  IsKeyed-on_found :
      {A : Type 0} (id : Bytes) (m : MlsGroupManager c) (f : OnGroup c A) (o : Option c.MlsGroup)
      → KeepsId c f
      → IsKeyed m
      → get id m.groups ≡ o
      → IsKeyed (on_found c id m f o).0
  IsKeyed-on_found id m f none k v e q h found = v q h found
  IsKeyed-on_found id m f (some g) k v e q h found =
      let t = f (m.provider, g) in
      ground (
        arith,
        get-upsert q id t.0.1 (λ _. t.0.1) m.groups,
        bytes_eq.beq_iff q id,
        k.keeps (m.provider, g),
        v id g e,
        v q h,
      )

  IsKeyed-enter :
      {A : Type 0} (f : c.MlsGroup → Bytes × A) (m : MlsGroupManager c)
      (r : c.Provider × Result c.MlsGroup (MlsError c))
      → ((g : c.MlsGroup) → r.1 ≡ ok g → c.group_id g ≡ (f g).0)
      → IsKeyed m
      → IsKeyed (enter c f m r).0
  IsKeyed-enter f m (p, ok g) k v q h found =
      ground (
        arith,
        get-upsert q (f g).0 g (λ _. g) m.groups,
        bytes_eq.beq_iff q (f g).0,
        k g refl,
        v q h,
      )
  IsKeyed-enter f m (p, err e) k v q h found = v q h found

module _ (c : MlsCrates) (laws : KeepsGroupId c) where
  IsKeyed-groups : (m m' : MlsGroupManager c) → m.groups ≡ m'.groups → IsKeyed c m → IsKeyed c m'
  IsKeyed-groups m m' e v id g found = v id g (ap (get id) e ∙ found)

  from_result-ok :
      {S A F E : Type 0} (wrap : F → E) (r : Result A F) (s : S) (a : A)
      → (from_result wrap r s).1 ≡ ok a
      → r ≡ ok a
  unfolding from_result
  from_result-ok wrap (ok b) s a e = cc
  from_result-ok wrap (err x) s a e = cc

  call-ok :
      {S A F E : Type 0} (wrap : F → E) (m : S → S × Result A F) (s : S) (a : A)
      → (call wrap m s).1 ≡ ok a
      → m s ≡ ((m s).0, ok a)
  unfolding call
  call-ok wrap m s a h = ap (λ r. ((m s).0, r)) (from_result-ok wrap (m s).1 (m s).0 a h)

  -- A call that returns keeps every group under its own id.
  after-IsKeyed :
      (k : Call) (m m' : MlsGroupManager c) → IsKeyed c m → after c k m ≡ done m' → IsKeyed c m'
  unfolding after generate_key_package create_group add_member remove_member encrypt decrypt
      process_commit process_welcome
  after-IsKeyed generate m m' v h = IsKeyed-groups m m' (ap (λ x. x.groups) (done_injective h)) v
  after-IsKeyed (create id) m m' v h = elim (Bool-cases (length id == 0)) [
    | inl no_id ↦ panic_not_done (rw no_id at h)
    | inr an_id ↦ elim (Bool-cases (is_some (get id m.groups))) [
      | inl taken ↦ rw (done_injective (rw (an_id, taken) at h)) at v
      | inr free ↦ rw (done_injective (rw (an_id, free) at h)) at (
          IsKeyed-enter c (λ g. (id, tt)) m
            (call (failed create_mls_group) (c.build_group m.signer m.credential_with_key id)
              m.provider)
            (λ g made. laws.built m.signer m.credential_with_key id m.provider _ g (
              call-ok (failed create_mls_group) (c.build_group m.signer m.credential_with_key id)
                m.provider g made))
            v)
    ]
  ]
  after-IsKeyed (add id kp) m m' v h =
      rw (done_injective h) at
        (IsKeyed-on_found c id m _ _ (KeepsId-add_member_to c laws m.signer kp) v refl)
  after-IsKeyed (remove id index) m m' v h =
      rw (done_injective h) at
        (IsKeyed-on_found c id m _ _ (KeepsId-remove_member_of c laws m.signer index) v refl)
  after-IsKeyed (seal id bytes) m m' v h = elim (Bool-cases (ltb max_message_size (length bytes))) [
    | inl long ↦ panic_not_done (rw long at h)
    | inr short ↦
        rw (done_injective (rw short at h)) at
          (IsKeyed-on_found c id m _ _ (KeepsId-encrypt_in c laws m.signer bytes) v refl)
  ]
  after-IsKeyed (unseal id bytes) m m' v h =
      rw (done_injective h) at
        (IsKeyed-on_found c id m _ _ (KeepsId-decrypt_in c laws bytes) v refl)
  after-IsKeyed (commit id bytes) m m' v h =
      rw (done_injective h) at
        (IsKeyed-on_found c id m _ _ (KeepsId-process_commit_in c laws bytes) v refl)
  after-IsKeyed (welcome bytes) m m' v h = rw (done_injective h) at (
      IsKeyed-enter c (λ g. (c.group_id g, c.group_id g)) m (join_group c bytes m.provider)
        (λ g _. refl) v)

  -- Let the library keep the id of a group. If every group of a manager is stored under its
  -- own id, then so it is after every sequence of calls that returns, whatever the calls are
  -- and whether they succeed.
  pub after_all-IsKeyed :
      (calls : List Call) (m m' : MlsGroupManager c)
      → IsKeyed c m
      → after_all c calls m ≡ done m'
      → IsKeyed c m'
  unfolding after_all
  after_all-IsKeyed [] m m' v h = rw (done_injective h) at v
  after_all-IsKeyed (k ∷ calls) m m' v h =
      let (n, first, rest) = >>=-eq-done (after c k m) (after_all c calls) h in
      after_all-IsKeyed calls n m' (after-IsKeyed k m n v first) rest

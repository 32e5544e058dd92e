-- ===== src/Crypto/Limits.antt =====
-- crates/mercury-crypto/src/mls.rs: the bounds and the errors of the methods.
use mercury_messaging.Base.{
  ℕ, ◌≤◌, ◌<◌, ◌≡◌, ◌≢◌, ◌↔◌, refl, arith, none, some, ltb, leb, length, done, panic, err, true,
  false,
}
use mercury_messaging.HashMap.{get}
use mercury_messaging.HashMap.Bytes.{bytes_eq}
use mercury_messaging.HashMap.Lookup.{get-upsert}
use mercury_messaging.MessageLog.{Bytes}
use mercury_messaging.Crypto.Crates.{MlsCrates}
use mercury_messaging.Crypto.Manager.{
  max_group_members, max_message_size, MlsGroupManager, group_not_found, group_already_exists,
  member_limit_reached, create_group, add_member, remove_member, encrypt, decrypt, process_commit,
  add_member_to, member_count,
}

module _ (c : MlsCrates) where
  -- Without the group, each method on a group returns "group not found" and changes nothing;
  -- `member_count` returns `None`.
  pub group_not_found_lem :
      (id bytes : Bytes) (index : ℕ) (m : MlsGroupManager c)
      → get id m.groups ≡ none
      → (add_member c id bytes m ≡ (m, err group_not_found))
        × (remove_member c id index m ≡ (m, err group_not_found))
        × (decrypt c id bytes m ≡ (m, err group_not_found))
        × (process_commit c id bytes m ≡ (m, err group_not_found))
        × (length bytes ≤ max_message_size → encrypt c id bytes m ≡ done (m, err group_not_found))
        × (member_count c id m ≡ none)
  unfolding add_member remove_member decrypt process_commit encrypt member_count
  group_not_found_lem id bytes index m h = (
    rw h refl,
    rw h refl,
    rw h refl,
    rw h refl,
    λ fits.
        let short : ltb max_message_size (length bytes) ≡ false = ground arith in
        rw (h, short) refl,
    ground arith,
  )

  -- If a group has 1000 members or more, adding a member returns the error of the limit, and
  -- the provider and every group stay as they were.
  pub add_member_limit :
      (id kp : Bytes) (m : MlsGroupManager c) (g : c.MlsGroup)
      → get id m.groups ≡ some g
      → max_group_members ≤ c.members_count g
      → ((add_member c id kp m).1 ≡ err member_limit_reached)
        × ((add_member c id kp m).0.provider ≡ m.provider)
        × ((q : Bytes) → get q (add_member c id kp m).0.groups ≡ get q m.groups)
  unfolding add_member add_member_to
  add_member_limit id kp m g found many =
      let full : leb max_group_members (c.members_count g) ≡ true = ground arith in
      (
        rw (found, full) refl,
        rw (found, full) refl,
        λ q.
            rw (found, full)
              (ground (arith, get-upsert q id g (λ _. g) m.groups, bytes_eq.beq_iff q id)),
      )

  -- `encrypt` panics exactly for a plaintext above 65536 bytes, whatever the group.
  pub encrypt-eq-panic :
      (id plaintext : Bytes) (m : MlsGroupManager c)
      → (encrypt c id plaintext m ≡ panic) ↔ (max_message_size < length plaintext)
  unfolding encrypt
  encrypt-eq-panic id plaintext m = ground arith

  -- `create_group` panics exactly for an empty id. For another id whose group exists it returns
  -- "group already exists" and changes nothing.
  pub create_group_guards :
      (id : Bytes) (m : MlsGroupManager c)
      → ((create_group c id m ≡ panic) ↔ (length id ≡ 0))
        × (length id ≢ 0
            → get id m.groups ≢ none
            → create_group c id m ≡ done (m, err group_already_exists))
  unfolding create_group
  create_group_guards id m = (ground arith, λ n t. ground arith)

-- ===== src/Core/Channel.antt =====
-- crates/mercury-core/src/channel.rs
use mercury_messaging.Base.{
  ℕ, ◌≤◌, ◌<◌, ◌≡◌, ◌≢◌, ◌↔◌, ◌⊎◌, arith, not, ◌&&◌, ◌||◌, ltb, ◌==◌, is_some, if◌then◌else◌,
  Option, none, some, List, length, Outcome, done, panic, Result, ok, err,
}
use mercury_messaging.Core.Ids.{IdCrates, TenantId, ChannelId, UserId}
use mercury_messaging.Core.Error.{
  CoreError, invalid_channel, ChannelReason, dm_has_name, dm_needs_two_members, name_required,
  name_length, member_count_exceeds,
}

pub data ChannelType : Type 0 where
  dm group broadcast : ChannelType

pub data MemberRole : Type 0 where
  member admin owner : MemberRole

-- The discriminants of `#[repr(u8)]`.
unfoldable pub channel_type_code : ChannelType → ℕ
channel_type_code dm = 0
channel_type_code group = 1
channel_type_code broadcast = 2

-- A name is its bytes, which `len` counts.
pub record Channel (c : IdCrates) : Type 0 where
  pub tenant_id : TenantId c
  pub id : ChannelId c
  pub channel_type : ChannelType
  pub name : Option (List ℕ)
  pub member_ids : List (UserId c)
  pub created_by : UserId c
  pub created_at : ℕ

abbrev pub max_name_len : ℕ
max_name_len = 128

abbrev pub max_channel_members : ℕ
max_channel_members = 1000

-- What the arms of the `match` return early with.
abbrev pub Check : Type 0
Check = Result (Unit {0}) CoreError

-- The arm `ChannelType::Dm`, by the name and the number of members.
unfoldable pub check_dm : Option (List ℕ) → ℕ → Check
check_dm name members =
    if is_some name
    then err (invalid_channel dm_has_name)
    else if not (members == 0) && not (members == 2)
    then err (invalid_channel dm_needs_two_members)
    else ok tt

-- The arm `ChannelType::Group | ChannelType::Broadcast`.
unfoldable pub check_group : Option (List ℕ) → ℕ → Check
check_group none members = err (invalid_channel name_required)
check_group (some name) members =
    if (length name == 0) || ltb max_name_len (length name)
    then err (invalid_channel (name_length max_name_len))
    else if ltb max_channel_members members
    then err (invalid_channel (member_count_exceeds members max_channel_members))
    else ok tt

unfoldable pub check_type : ChannelType → Option (List ℕ) → ℕ → Check
unfolding check_dm check_group
check_type dm name members = check_dm name members
check_type group name members = check_group name members
check_type broadcast name members = check_group name members

-- `assert!(created_at > 0)` once the arm has not returned.
unfoldable pub validate : (c : IdCrates) → Channel c → Outcome Check
validate c ch = elim (check_type ch.channel_type ch.name (length ch.member_ids)) [
  | err e ↦ done (err e)
  | ok u ↦ if ltb 0 ch.created_at then done (ok u) else panic
]

-- The invariants of a channel, by its type.
abbrev pub IsNamed : Option (List ℕ) → Type 0
IsNamed name = (n : List ℕ) × (name ≡ some n) × (0 < length n) × (length n ≤ max_name_len)

abbrev pub Meets : ChannelType → Option (List ℕ) → ℕ → Type 0
Meets dm name members = (name ≡ none) × ((members ≡ 0) ⊎ (members ≡ 2))
Meets group name members = IsNamed name × (members ≤ max_channel_members)
Meets broadcast name members = IsNamed name × (members ≤ max_channel_members)

check_type-ok :
    (t : ChannelType) (name : Option (List ℕ)) (members : ℕ)
    → check_type t name members ≡ ok tt
    → Meets t name members
unfolding check_type
check_type-ok dm name members e = ground arith
check_type-ok group none members e = cc
check_type-ok group (some n) members e = ground arith
check_type-ok broadcast none members e = cc
check_type-ok broadcast (some n) members e = ground arith

ok-check_type :
    (t : ChannelType) (name : Option (List ℕ)) (members : ℕ)
    → Meets t name members
    → check_type t name members ≡ ok tt
unfolding check_type
ok-check_type dm name members m = ground arith
ok-check_type group none members m = cc (m.0.1)
ok-check_type group (some n) members m = ground arith
ok-check_type broadcast none members m = cc (m.0.1)
ok-check_type broadcast (some n) members m = ground arith

-- What an error of `validate` says of the channel.
abbrev pub Violates : ChannelReason → ChannelType → Option (List ℕ) → ℕ → Type 0
Violates dm_has_name t name members = (t ≡ dm) × (name ≢ none)
Violates dm_needs_two_members t name members = (t ≡ dm) × (members ≢ 0) × (members ≢ 2)
Violates name_required t name members = (t ≢ dm) × (name ≡ none)
Violates (name_length max) t name members =
    (t ≢ dm)
    × (max ≡ max_name_len)
    × (n : List ℕ) × (name ≡ some n)
    × ((length n ≡ 0) ⊎ (max < length n))
Violates (member_count_exceeds count max) t name members =
    (t ≢ dm) × (count ≡ members) × (max ≡ max_channel_members) × (max < members)

-- The reason that an arm returns with, `none` if it does not return.
abbrev pub ErrViolates : Check → ChannelType → Option (List ℕ) → ℕ → Type 0
ErrViolates (err (invalid_channel reason)) t name members = Violates reason t name members
ErrViolates (err _) t name members = ⊥
ErrViolates (ok u) t name members = Unit

check_type-Violates :
    (t : ChannelType) (name : Option (List ℕ)) (members : ℕ)
    → ErrViolates (check_type t name members) t name members
unfolding check_type
check_type-Violates dm none members = ground arith
check_type-Violates dm (some n) members = ground arith
check_type-Violates group none members = ground arith
check_type-Violates group (some n) members = ground arith
check_type-Violates broadcast none members = ground arith
check_type-Violates broadcast (some n) members = ground arith

module _ (c : IdCrates) (ch : Channel c) where
  abbrev members : ℕ
  members = length ch.member_ids

  -- Validating a channel returns Ok exactly if its time is not 0 and it is a DM without a
  -- name and with none or two members, or a group or broadcast with a name of 1 to 128 bytes
  -- and at most 1000 members.
  pub channel_validate-eq-ok :
      (validate c ch ≡ done (ok tt))
      ↔ (Meets ch.channel_type ch.name (length ch.member_ids) × (0 < ch.created_at))
  unfolding validate
  channel_validate-eq-ok = (
    λ e.
        let checked : check_type ch.channel_type ch.name members ≡ ok tt = ground arith in
        (check_type-ok ch.channel_type ch.name members checked, ground arith),
    λ m. ground (arith, ok-check_type ch.channel_type ch.name members m.0),
  )

  -- It panics exactly for those that meet the invariants and have no time.
  pub channel_validate-eq-panic :
      (validate c ch ≡ panic)
      ↔ (Meets ch.channel_type ch.name (length ch.member_ids) × (ch.created_at ≡ 0))
  unfolding validate
  channel_validate-eq-panic = (
    λ e.
        let checked : check_type ch.channel_type ch.name members ≡ ok tt = ground arith in
        (check_type-ok ch.channel_type ch.name members checked, ground arith),
    λ m. ground (arith, ok-check_type ch.channel_type ch.name members m.0),
  )

  -- If validating a channel returns an error, it is one of the five of a channel, and the
  -- channel breaks what that error names, with the numbers that it shows.
  pub channel_validate-eq-err :
      (e : CoreError)
      → validate c ch ≡ done (err e)
      → ErrViolates (err e) ch.channel_type ch.name (length ch.member_ids)
  unfolding validate
  channel_validate-eq-err e h =
      let checked : check_type ch.channel_type ch.name members ≡ err e = ground arith in
      rw checked at (check_type-Violates ch.channel_type ch.name members)

-- ===== src/Nif/Validate.antt =====
-- `validate_message`, `validate_channel`, and the parsing of their arguments. A fresh id and the
-- reading of the system clock are arguments.
use mercury_messaging.Base.{
  ℕ, ◌≤◌, ◌<◌, ◌≡◌, ◌≢◌, ◌↔◌, ◌⊎◌, arith, [], length, Option, none, some, ◌==◌, if◌then◌else◌,
  Outcome, done, panic, ◌>>=◌, Result, ok, err, u64_mod,
}
use mercury_messaging.MessageLog.{Bytes}
use mercury_messaging.Hlc.{Bytes16, ClockReading, system_time_ms}
use mercury_messaging.Core.Ids.{
  IdCrates, tenant, channel, user, ChannelId, UserId, MessageId, id_from_bytes,
}
use mercury_messaging.Core.Error.{CoreError}
use mercury_messaging.Core.Message
use mercury_messaging.Core.Message.{
  ContentType, text, image, file, reaction, edit, delete, Message, content_type_code,
  max_content_size,
}
use mercury_messaging.Core.Channel
use mercury_messaging.Core.Channel.{ChannelType, dm, group, broadcast, Channel, max_name_len}

-- The atoms, with an underscore where Rust's word is one of `Result`.
pub data Atom : Type 0 where
  atom_ok error invalid_message invalid_channel invalid_content_type invalid_channel_type
        bad_length :
      Atom

-- `NifResult` with an atom for its error.
unfoldable pub parse_content_type : ℕ → Result ContentType Atom
parse_content_type ct =
    if ct == 0
    then ok text
    else if ct == 1
    then ok image
    else if ct == 2
    then ok file
    else if ct == 3
    then ok reaction
    else if ct == 4
    then ok edit
    else if ct == 5
    then ok delete
    else err invalid_content_type

unfoldable pub parse_uuid_16 : Bytes → Result Bytes16 Atom
parse_uuid_16 bin = if length bin == 16 then ok bin else err bad_length

unfoldable pub parse_channel_type : ℕ → Result ChannelType Atom
parse_channel_type ct =
    if ct == 0
    then ok dm
    else if ct == 1
    then ok group
    else if ct == 2
    then ok broadcast
    else err invalid_channel_type

-- The pair of atoms for what the core's `validate` returns.
abbrev pub verdict : Atom → Result (Unit {0}) CoreError → Atom × Atom
verdict reason (ok u) = (atom_ok, atom_ok)
verdict reason (err e) = (error, reason)

-- `let Ok(x) = r else { return (error, reason) }`
abbrev pub or_return {ℓ} :
    {A : Type ℓ} → Result A Atom → Atom → (A → Outcome (Atom × Atom)) → Outcome (Atom × Atom)
or_return (ok a) reason f = f a
or_return (err e) reason f = done (error, reason)

module _ (c : IdCrates) where
  -- The `Message` that `validate_message` builds, and the verdict on it.
  unfoldable pub build_message :
      MessageId c → Bytes → ContentType → Bytes16 → Bytes16 → Bytes16 → ℕ → Message c
  unfolding id_from_bytes
  build_message id content ct tid cid sid ms = record {
    tenant_id = id_from_bytes c {kind = tenant} tid;
    channel_id = id_from_bytes c {kind = channel} cid;
    id = id;
    sender_id = id_from_bytes c {kind = user} sid;
    encrypted_content = content;
    content_type = ct;
    reply_to = none;
    created_at = ms;
    edited_at = none;
    server_received_at = none;
  }

  unfoldable pub validate_message :
      MessageId c → ClockReading → Bytes → Bytes → Bytes → Bytes → ℕ → Outcome (Atom × Atom)
  validate_message id clock tenant_id channel_id sender_id content content_type =
      or_return (parse_content_type content_type) invalid_content_type (λ ct.
        or_return (parse_uuid_16 tenant_id) invalid_message (λ tid.
          or_return (parse_uuid_16 channel_id) invalid_message (λ cid.
            or_return (parse_uuid_16 sender_id) invalid_message (λ sid.
              system_time_ms clock >>= λ ms.
              Message.validate c (build_message id content ct tid cid sid ms) >>= λ r.
              done (verdict invalid_message r)))))

  unfoldable pub validate_channel :
      ChannelId c → UserId c → Bytes → ℕ → Option Bytes → Outcome (Atom × Atom)
  unfolding id_from_bytes
  validate_channel id created_by tenant_id channel_type name =
      or_return (parse_channel_type channel_type) invalid_channel_type (λ ct.
        or_return (parse_uuid_16 tenant_id) invalid_channel (λ tid.
          Channel.validate c (record {
            tenant_id = id_from_bytes c {kind = tenant} tid;
            id = id;
            channel_type = ct;
            name = name;
            member_ids = [];
            created_by = created_by;
            created_at = 1;
          })
          >>= λ r. done (verdict invalid_channel r)))

module _ (c : IdCrates) where
  -- The validation of a message for Elixir answers ok exactly if the content type is at most
  -- 5, the three ids have 16 bytes, the content is not empty unless the type is 5, it has at
  -- most 262144 bytes, and the clock reads a time after the epoch that fits 64 bits.
  pub nif_validate_message_iff :
      (id : MessageId c) (clock : ClockReading) (tenant_id channel_id sender_id content : Bytes)
      (content_type : ℕ)
      → (validate_message c id clock tenant_id channel_id sender_id content content_type
          ≡ done (atom_ok, atom_ok))
        ↔ ((content_type ≤ 5)
            × (length tenant_id ≡ 16)
            × (length channel_id ≡ 16)
            × (length sender_id ≡ 16)
            × (content_type ≢ 5 → 0 < length content)
            × (length content ≤ max_content_size)
            × (ms : ℕ) × (clock ≡ some ms)
            × (0 < ms)
            × (ms < u64_mod))
  unfolding validate_message parse_content_type parse_uuid_16 build_message Message.validate
      system_time_ms
  nif_validate_message_iff id none tenant_id channel_id sender_id content content_type =
      ground arith
  nif_validate_message_iff id (some ms) tenant_id channel_id sender_id content content_type =
      ground arith

  -- `validate_channel` answers `{:ok, :ok}` exactly if the tenant's id has 16 bytes and the
  -- channel is a DM without a name, or a group or broadcast with a name of 1 to 128 bytes; and it
  -- never panics.
  pub nif_validate_channel_iff :
      (id : ChannelId c) (created_by : UserId c) (tenant_id : Bytes) (channel_type : ℕ)
      (name : Option Bytes)
      → ((validate_channel c id created_by tenant_id channel_type name ≡ done (atom_ok, atom_ok))
          ↔ ((length tenant_id ≡ 16)
              × (((channel_type ≡ 0) × (name ≡ none))
                  ⊎ (((channel_type ≡ 1) ⊎ (channel_type ≡ 2))
                      × (n : Bytes) × (name ≡ some n)
                      × (0 < length n)
                      × (length n ≤ max_name_len)))))
        × (validate_channel c id created_by tenant_id channel_type name ≢ panic)
  unfolding validate_channel parse_channel_type parse_uuid_16 Channel.validate Channel.check_type
      Channel.check_dm Channel.check_group
  nif_validate_channel_iff id created_by tenant_id channel_type none = ground arith
  nif_validate_channel_iff id created_by tenant_id channel_type (some n) = ground arith

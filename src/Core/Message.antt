-- ===== src/Core/Message.antt =====
-- crates/mercury-core/src/message.rs
use mercury_messaging.Base.{
  ℕ, ◌*◌, ◌≤◌, ◌<◌, ◌≡◌, ◌≢◌, ◌↔◌, ◌⊎◌, arith, Bool, true, false, ◌&&◌, ltb, ◌==◌, if◌then◌else◌,
  Option, none, some, List, length, Outcome, done, panic, Result, ok, err,
}
use mercury_messaging.Core.Ids.{IdCrates, TenantId, ChannelId, UserId, MessageId}
use mercury_messaging.Core.Error.{
  CoreError, invalid_message, content_is_empty, content_size_exceeds, replies_to_itself,
}

pub data ContentType : Type 0 where
  text image file reaction edit delete : ContentType

-- The discriminants of `#[repr(u8)]`.
unfoldable pub content_type_code : ContentType → ℕ
content_type_code text = 0
content_type_code image = 1
content_type_code file = 2
content_type_code reaction = 3
content_type_code edit = 4
content_type_code delete = 5

pub record Message (c : IdCrates) : Type 0 where
  pub tenant_id : TenantId c
  pub channel_id : ChannelId c
  pub id : MessageId c
  pub sender_id : UserId c
  pub encrypted_content : List ℕ
  pub content_type : ContentType
  pub reply_to : Option (MessageId c)
  pub created_at : ℕ
  pub edited_at : Option ℕ
  pub server_received_at : Option ℕ

abbrev pub max_content_size : ℕ
max_content_size = 256 * 1024

-- `content_type != ContentType::Delete`
abbrev pub is_not_delete : ContentType → Bool
is_not_delete delete = false
is_not_delete _ = true

-- `reply_to.is_some_and(|r| r == id)`
abbrev pub replies_to : (c : IdCrates) → Option (MessageId c) → MessageId c → Bool
replies_to c none id = false
replies_to c (some r) id = c.ulid_eq r.ulid id.ulid

unfoldable pub validate : (c : IdCrates) → Message c → Outcome (Result (Unit {0}) CoreError)
validate c m =
    if (length m.encrypted_content == 0) && is_not_delete m.content_type
    then done (err (invalid_message content_is_empty))
    else if ltb max_content_size (length m.encrypted_content)
    then done
        (err (invalid_message (content_size_exceeds (length m.encrypted_content) max_content_size)))
    else if replies_to c m.reply_to m.id
    then done (err (invalid_message replies_to_itself))
    else if ltb 0 m.created_at
    then done (ok tt)
    else panic

-- The invariants of a message.
pub record IsValid (c : IdCrates) (m : Message c) : Type 0 where
  pub has_content : (m.content_type ≡ delete) ⊎ (0 < length m.encrypted_content)
  pub within_size : length m.encrypted_content ≤ max_content_size
  pub replies_to_other : m.reply_to ≢ some m.id

replies_to_iff :
    (c : IdCrates) (r : Option (MessageId c)) (id : MessageId c)
    → (replies_to c r id ≡ true) ↔ (r ≡ some id)
replies_to_iff c none id = ground arith
replies_to_iff c (some r) id = ground (arith, c.ulid_eq_iff r.ulid id.ulid)

module _ (c : IdCrates) (m : Message c) where
  -- Validating a message returns Ok exactly if the message has content or is a delete, has
  -- at most 262144 bytes of content, does not reply to itself, and has a time that is not 0.
  pub message_validate-eq-ok : (validate c m ≡ done (ok tt)) ↔ (IsValid c m × (0 < m.created_at))
  unfolding validate
  message_validate-eq-ok = (
    λ e. ground (arith, replies_to_iff c m.reply_to m.id),
    λ v. ground (arith, replies_to_iff c m.reply_to m.id),
  )

  -- It panics exactly for those that meet the invariants and have no time.
  pub message_validate-eq-panic : (validate c m ≡ panic) ↔ (IsValid c m × (m.created_at ≡ 0))
  unfolding validate
  message_validate-eq-panic = (
    λ e. ground (arith, replies_to_iff c m.reply_to m.id),
    λ v. ground (arith, replies_to_iff c m.reply_to m.id),
  )

  -- If validating a message returns an error, it is one of three, and the message breaks
  -- what that error names: it is empty and no delete, its content is above 262144 bytes, or
  -- it replies to itself.
  pub message_validate-eq-err :
      (e : CoreError)
      → validate c m ≡ done (err e)
      → ((e ≡ invalid_message content_is_empty)
          × (length m.encrypted_content ≡ 0)
          × (m.content_type ≢ delete))
        ⊎ ((e
              ≡ invalid_message
                  (content_size_exceeds (length m.encrypted_content) max_content_size))
            × (max_content_size < length m.encrypted_content))
        ⊎ ((e ≡ invalid_message replies_to_itself) × (m.reply_to ≡ some m.id))
  unfolding validate
  message_validate-eq-err e h = ground (arith, replies_to_iff c m.reply_to m.id)

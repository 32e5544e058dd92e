-- ===== src/Core/Error.antt =====
-- crates/mercury-core/src/error.rs. The reasons that `validate` formats are data: a constructor
-- for each text, with the numbers that it shows.
use mercury_messaging.Base.{ℕ, List}

pub data MessageReason : Type 0 where
  content_is_empty : MessageReason
  content_size_exceeds : (size max : ℕ) → MessageReason
  replies_to_itself : MessageReason

pub data ChannelReason : Type 0 where
  dm_has_name : ChannelReason
  dm_needs_two_members : ChannelReason
  name_required : ChannelReason
  name_length : (max : ℕ) → ChannelReason
  member_count_exceeds : (count max : ℕ) → ChannelReason

pub data CoreError : Type 0 where
  invalid_message : (reason : MessageReason) → CoreError
  invalid_channel : (reason : ChannelReason) → CoreError
  invalid_id : (text : List ℕ) → CoreError
  missing_tenant_context : CoreError
  rate_limit_exceeded : (limit : ℕ) → CoreError

-- ===== src/Tests/Domain.antt =====
-- Messages, channels and time buckets, and the functions that Elixir calls on them.
use mercury_messaging.Base.{
  ℕ, ◌≤◌, ◌<◌, ◌≡◌, ◌≢◌, ◌↔◌, refl, [], ◌∷◌, Option, none, some, length, done, ok, err, u64_mod,
}
use mercury_messaging.MessageLog.{Bytes}
use mercury_messaging.Core.Ids.{MessageId}
use mercury_messaging.Core.Error.{invalid_message, content_is_empty, invalid_channel, name_required}
use mercury_messaging.Core.Message.{
  Message, text, delete, max_content_size, message_validate-eq-ok, message_validate-eq-err,
}
use mercury_messaging.Core.Message
use mercury_messaging.Core.Channel.{
  Channel, group, Meets, ErrViolates, channel_validate-eq-ok, channel_validate-eq-err, check_type,
  check_group,
}
use mercury_messaging.Core.Channel
use mercury_messaging.Nif.Validate.{atom_ok, validate_message, nif_validate_message_iff}
use mercury_messaging.Tests.Clocks.{node_a, node_b}
use mercury_messaging.Tests.Crates.{id_crates}

abbrev message_id : MessageId id_crates
message_id = record { ulid = node_a }

abbrev message : Bytes → Message id_crates
message content = record {
  tenant_id = record { uuid = node_a };
  channel_id = record { uuid = node_b };
  id = message_id;
  sender_id = record { uuid = node_a };
  encrypted_content = content;
  content_type = text;
  reply_to = none;
  created_at = 1_700_000_000_000;
  edited_at = none;
  server_received_at = none;
}

message_validate-eq-ok_example :
    (Message.validate id_crates (message (104 ∷ [])) ≡ done (ok tt))
    ↔ (Message.IsValid id_crates (message (104 ∷ [])) × (0 < 1_700_000_000_000))
message_validate-eq-ok_example = message_validate-eq-ok id_crates (message (104 ∷ []))

empty_run : Message.validate id_crates (message []) ≡ done (err (invalid_message content_is_empty))
unfolding Message.validate
empty_run = refl

abbrev channel_of : Option Bytes → Channel id_crates
channel_of name = record {
  tenant_id = record { uuid = node_a };
  id = record { uuid = node_b };
  channel_type = group;
  name = name;
  member_ids = record { uuid = node_a } ∷ [];
  created_by = record { uuid = node_a };
  created_at = 1;
}

channel_validate-eq-ok_example :
    (Channel.validate id_crates (channel_of (some (104 ∷ []))) ≡ done (ok tt))
    ↔ (Meets group (some (104 ∷ [])) 1 × (0 < 1))
channel_validate-eq-ok_example = channel_validate-eq-ok id_crates (channel_of (some (104 ∷ [])))

unnamed_run :
    Channel.validate id_crates (channel_of none) ≡ done (err (invalid_channel name_required))
unfolding Channel.validate check_type check_group
unnamed_run = refl

abbrev text_code : ℕ
text_code = 0

nif_validate_message_iff_example :
    (validate_message id_crates message_id
        (some 1_700_000_000_000)
        node_a
        node_b
        node_a
        (104 ∷ [])
        text_code
      ≡ done (atom_ok, atom_ok))
    ↔ ((text_code ≤ 5)
        × (length node_a ≡ 16)
        × (length node_b ≡ 16)
        × (length node_a ≡ 16)
        × (text_code ≢ 5 → 0 < 1)
        × (1 ≤ max_content_size)
        × (ms : ℕ) × (some 1_700_000_000_000 ≡ some ms)
        × (0 < ms)
        × (ms < u64_mod))
nif_validate_message_iff_example =
    nif_validate_message_iff id_crates message_id (some 1_700_000_000_000) node_a node_b node_a
      (104 ∷ []) text_code

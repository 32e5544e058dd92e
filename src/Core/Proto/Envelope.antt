-- ===== src/Core/Proto/Envelope.antt =====
-- crates/mercury-core/src/proto.rs: writing and reading an envelope.
use mercury_messaging.Base.{ℕ, ◌≡◌, refl, ◌∙◌, arith, ok, done}
use mercury_messaging.MessageLog.{Bytes}
use mercury_messaging.Core.Capnp.{
  Capnp, CapnpLaws, envelope, tenant_id, channel_id, sender_id, message_id, payload,
}
use mercury_messaging.Core.Proto.{envelope_builder, envelope_encode, envelope_decode}
use mercury_messaging.Core.Proto.ReadBack.{read_back}

module _ (c : Capnp) (laws : CapnpLaws c) where
  -- What the setters of an envelope leave in it.
  module _ (tenant channel sender message : Bytes) (timestamp : ℕ) (content : Bytes) where
    abbrev built : c.Builder envelope
    built = envelope_builder c tenant channel sender message timestamp content

    built_data :
        (laws.data_of tenant_id built ≡ tenant)
        × (laws.data_of channel_id built ≡ channel)
        × (laws.data_of sender_id built ≡ sender)
        × (laws.data_of message_id built ≡ message)
        × (laws.data_of payload built ≡ content)
        × (laws.timestamp_of built ≡ timestamp)
    unfolding envelope_builder
    built_data =
        let x0 = c.init_root envelope in
        let x1 = c.set_data tenant_id tenant x0 in
        let x2 = c.set_data channel_id channel x1 in
        let x3 = c.set_data sender_id sender x2 in
        let x4 = c.set_data message_id message x3 in
        let x5 = c.set_timestamp timestamp x4 in
        (
          laws.data_of_other tenant_id payload content x5 (omega arith)
              ∙ laws.data_of_timestamp tenant_id timestamp x4
              ∙ laws.data_of_other tenant_id message_id message x3 (omega arith)
              ∙ laws.data_of_other tenant_id sender_id sender x2 (omega arith)
              ∙ laws.data_of_other tenant_id channel_id channel x1 (omega arith)
              ∙ laws.data_of_set tenant_id tenant x0,
          laws.data_of_other channel_id payload content x5 (omega arith)
              ∙ laws.data_of_timestamp channel_id timestamp x4
              ∙ laws.data_of_other channel_id message_id message x3 (omega arith)
              ∙ laws.data_of_other channel_id sender_id sender x2 (omega arith)
              ∙ laws.data_of_set channel_id channel x1,
          laws.data_of_other sender_id payload content x5 (omega arith)
              ∙ laws.data_of_timestamp sender_id timestamp x4
              ∙ laws.data_of_other sender_id message_id message x3 (omega arith)
              ∙ laws.data_of_set sender_id sender x2,
          laws.data_of_other message_id payload content x5 (omega arith)
              ∙ laws.data_of_timestamp message_id timestamp x4
              ∙ laws.data_of_set message_id message x3,
          laws.data_of_set payload content x5,
          laws.timestamp_of_data payload content x5 ∙ laws.timestamp_of_set timestamp x4,
        )

    -- Let the format keep its promises, and let the message of these fields be within the
    -- limit of the reader. Then encoding an envelope of any six fields returns, and the
    -- bytes decode to the six fields.
    pub envelope_round_trip :
        laws.IsReadable (envelope_builder c tenant channel sender message timestamp content)
        → (w : c.Wire) × (envelope_encode c tenant channel sender message timestamp content
            ≡ done w)
          × (envelope_decode c w
              ≡ ok (record {
                tenant_id = tenant;
                channel_id = channel;
                sender_id = sender;
                message_id = message;
                timestamp = timestamp;
                payload = content;
              }))
    unfolding envelope_encode envelope_decode
    envelope_round_trip h =
        let (w, written, r, root, shows) = read_back c laws built h in
        let (t, ch, s, m, p, ts) = built_data in
        (
          w,
          written,
          rw
              (
                root,
                laws.shows_data tenant_id r built shows,
                laws.shows_data channel_id r built shows,
                laws.shows_data sender_id r built shows,
                laws.shows_data message_id r built shows,
                laws.shows_data payload r built shows,
                laws.shows_timestamp r built shows,
              )
              (rw (t, ch, s, m, p, ts) refl),
        )

-- ===== src/Nif/Wire.antt =====
-- The functions around crates/mercury-core/src/proto.rs: each copies the bytes into a binary, and
-- an error becomes its text.
use mercury_messaging.Base.{ℕ, List, Outcome, Result, ok, err}
use mercury_messaging.MessageLog.{Bytes}
use mercury_messaging.Core.Capnp.{Capnp}
use mercury_messaging.Core.Proto
use mercury_messaging.Core.Proto.{DecodedEnvelope, DecodedReadReceipt, DecodedMlsWelcome}

module _ (c : Capnp) where
  -- `rustler::Error::Term(Box::new(e.to_string()))`
  pub record WireTerm : Type 0 where
    pub cause : c.Error

  -- `map_err(..)?`, and the binaries of the answer.
  abbrev pub answer : {A B : Type 0} → (A → B) → Result A c.Error → Result B WireTerm
  answer f (ok a) = ok (f a)
  answer f (err e) = err (record { cause = e })

  abbrev pub Six : Type 0
  Six = Bytes × Bytes × Bytes × Bytes × ℕ × Bytes

  abbrev pub six_of : DecodedEnvelope → Six
  six_of d = (d.tenant_id, d.channel_id, d.sender_id, d.message_id, d.timestamp, d.payload)

  unfoldable pub envelope_encode : Bytes → Bytes → Bytes → Bytes → ℕ → Bytes → Outcome c.Wire
  envelope_encode tenant channel sender message timestamp payload =
      Proto.envelope_encode c tenant channel sender message timestamp payload

  unfoldable pub envelope_decode : c.Wire → Result Six WireTerm
  envelope_decode w = answer six_of (Proto.envelope_decode c w)

  unfoldable pub typing_encode : Bytes → Outcome c.Wire
  typing_encode user = Proto.typing_encode c user

  unfoldable pub typing_decode : c.Wire → Result Bytes WireTerm
  typing_decode w = answer (λ b. b) (Proto.typing_decode c w)

  unfoldable pub read_receipt_encode : Bytes → Bytes → Outcome c.Wire
  read_receipt_encode user message = Proto.read_receipt_encode c user message

  unfoldable pub read_receipt_decode : c.Wire → Result (Bytes × Bytes) WireTerm
  read_receipt_decode w =
      answer (λ (rr : DecodedReadReceipt). (rr.user_id, rr.message_id))
        (Proto.read_receipt_decode c w)

  unfoldable pub mls_key_package_capnp_encode : Bytes → Outcome c.Wire
  mls_key_package_capnp_encode kp = Proto.mls_key_package_encode c kp

  unfoldable pub mls_key_package_capnp_decode : c.Wire → Result Bytes WireTerm
  mls_key_package_capnp_decode w = answer (λ b. b) (Proto.mls_key_package_decode c w)

  unfoldable pub mls_key_package_list_encode : List Bytes → Outcome c.Wire
  mls_key_package_list_encode packages = Proto.mls_key_package_list_encode c packages

  unfoldable pub mls_key_package_list_decode : c.Wire → Result (List Bytes) WireTerm
  mls_key_package_list_decode w = answer (λ b. b) (Proto.mls_key_package_list_decode c w)

  unfoldable pub mls_commit_capnp_encode : Bytes → Outcome c.Wire
  mls_commit_capnp_encode commit = Proto.mls_commit_encode c commit

  unfoldable pub mls_commit_capnp_decode : c.Wire → Result Bytes WireTerm
  mls_commit_capnp_decode w = answer (λ b. b) (Proto.mls_commit_decode c w)

  unfoldable pub mls_welcome_capnp_encode : Bytes → Bytes → Outcome c.Wire
  mls_welcome_capnp_encode welcome user = Proto.mls_welcome_encode c welcome user

  unfoldable pub mls_welcome_capnp_decode : c.Wire → Result (Bytes × Bytes) WireTerm
  mls_welcome_capnp_decode w =
      answer (λ (x : DecodedMlsWelcome). (x.welcome, x.user_id)) (Proto.mls_welcome_decode c w)

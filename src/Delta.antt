-- ===== src/Delta.antt =====
-- crates/mercury-crdt/src/delta.rs: the deltas of the sync protocol and their batches.
use mercury_messaging.Base.{
  ℕ, ◌≤◌, ◌<◌, ◌≡◌, ◌↔◌, arith, List, [], ◌∷◌, length, Option, none, some, Bool, ltb, if◌then◌else◌,
}
use mercury_messaging.Hlc.{Hlc, Bytes16}

abbrev pub max_deltas_per_batch : ℕ
max_deltas_per_batch = 1000

abbrev pub max_deltas_per_response : ℕ
max_deltas_per_response = 100

pub data Delta : Type 0 where
  message_append :
      (message_id sender_id : Bytes16) (encrypted_content : List ℕ) (content_type : ℕ) (hlc : Hlc)
      → Delta
  message_edit : (message_id : Bytes16) (encrypted_content : List ℕ) (hlc : Hlc) → Delta
  message_delete : (message_id : Bytes16) (hlc : Hlc) → Delta
  reaction_add : (message_id user_id : Bytes16) (emoji : List ℕ) (hlc : Hlc) → Delta
  reaction_remove : (message_id user_id : Bytes16) (emoji : List ℕ) (hlc : Hlc) → Delta
  member_add : (channel_id user_id : Bytes16) (hlc : Hlc) → Delta
  member_remove : (channel_id user_id : Bytes16) (hlc : Hlc) → Delta
  read_position_update : (channel_id user_id last_read_message_id : Bytes16) → Delta

unfoldable pub hlc_of : Delta → Option Hlc
hlc_of (message_append message_id sender_id content content_type hlc) = some hlc
hlc_of (message_edit message_id content hlc) = some hlc
hlc_of (message_delete message_id hlc) = some hlc
hlc_of (reaction_add message_id user_id emoji hlc) = some hlc
hlc_of (reaction_remove message_id user_id emoji hlc) = some hlc
hlc_of (member_add channel_id user_id hlc) = some hlc
hlc_of (member_remove channel_id user_id hlc) = some hlc
hlc_of (read_position_update channel_id user_id last) = none

pub record SyncRequest : Type 0 where
  pub channel_id : Bytes16
  pub last_hlc : Hlc
  pub device_id : Bytes16

pub record SyncResponse : Type 0 where
  pub deltas : List Delta
  pub server_hlc : Hlc
  pub has_more : Bool

pub record DeltaBatch : Type 0 where
  pub channel_id : Bytes16
  pub deltas : List Delta
  pub device_hlc : Hlc

pub data BatchValidation : Type 0 where
  ok too_large empty : BatchValidation

-- The test of `validate` on the deltas.
unfoldable pub check_bounds : List Delta → BatchValidation
check_bounds [] = empty
check_bounds (d ∷ deltas) = if ltb max_deltas_per_batch (length (d ∷ deltas)) then too_large else ok

unfoldable pub validate : DeltaBatch → BatchValidation
validate batch = check_bounds batch.deltas

check_bounds_iff :
    (deltas : List Delta)
    → ((check_bounds deltas ≡ ok) ↔ ((0 < length deltas) × (length deltas ≤ max_deltas_per_batch)))
      × ((check_bounds deltas ≡ empty) ↔ (deltas ≡ []))
      × ((check_bounds deltas ≡ too_large) ↔ (max_deltas_per_batch < length deltas))
unfolding check_bounds
check_bounds_iff [] = ground arith
check_bounds_iff (d ∷ deltas) = ground arith

-- A batch is `Ok` exactly from 1 to 1000 deltas, `Empty` exactly at none, and `TooLarge` exactly
-- above 1000.
pub validate_iff :
    (batch : DeltaBatch)
    → ((validate batch ≡ ok)
        ↔ ((0 < length batch.deltas) × (length batch.deltas ≤ max_deltas_per_batch)))
      × ((validate batch ≡ empty) ↔ (batch.deltas ≡ []))
      × ((validate batch ≡ too_large) ↔ (max_deltas_per_batch < length batch.deltas))
unfolding validate
validate_iff batch = check_bounds_iff batch.deltas

-- ===== src/LwwRegister.antt =====
-- crates/mercury-crdt/src/lww_register.rs: the last-writer-wins register.
pub mod Laws
pub mod Writes
use mercury_messaging.Base.{gt}
use mercury_messaging.Hlc.{Hlc}
use mercury_messaging.Hlc.Order.{hlc_ord}

pub record LwwRegister {ℓ} (T : Type ℓ) : Type ℓ where
  pub value : T
  pub timestamp : Hlc

module _ {ℓ} {T : Type ℓ} where
  unfoldable pub new : T → Hlc → LwwRegister T
  new value timestamp = record { value = value; timestamp = timestamp }

  -- A write counts only if it is strictly newer.
  unfoldable pub set : T → Hlc → LwwRegister T → LwwRegister T
  set value timestamp r = elim (hlc_ord.cmp timestamp r.timestamp) [
    | gt ↦ record { value = value; timestamp = timestamp }
    | _ ↦ r
  ]

  unfoldable pub get : LwwRegister T → T
  get r = r.value

  unfoldable pub timestamp : LwwRegister T → Hlc
  timestamp r = r.timestamp

  unfoldable pub merge : LwwRegister T → LwwRegister T → LwwRegister T
  merge r other = elim (hlc_ord.cmp other.timestamp r.timestamp) [
    | gt ↦ record { value = other.value; timestamp = other.timestamp }
    | _ ↦ r
  ]

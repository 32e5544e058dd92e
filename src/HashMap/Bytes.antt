-- ===== src/HashMap/Bytes.antt =====
-- `Eq` for keys that are bytes - `[u8; 16]`, `Vec<u8>` and `String` - and for numbers.
use mercury_messaging.Base.{ℕ, ◌≡◌, ◌↔◌, true, List, ◌==◌, arith}
use mercury_messaging.Order.{nat_ord, list_ord, same, eq_of_same, same_self}
use mercury_messaging.HashMap.{Eq}

pub bytes_beq_iff : (a b : List ℕ) → (same a b ≡ true) ↔ (a ≡ b)
bytes_beq_iff a b = (eq_of_same a b, λ e. rw e (same_self b))

instance abbrev pub bytes_eq : Eq (List ℕ)
bytes_eq = record { beq = same; beq_iff = bytes_beq_iff }

pub nat_beq_iff : (a b : ℕ) → ((a == b) ≡ true) ↔ (a ≡ b)
nat_beq_iff a b = (λ h. ground arith, λ h. ground arith)

instance abbrev pub nat_eq : Eq ℕ
nat_eq = record { beq = ◌==◌; beq_iff = nat_beq_iff }

-- ===== src/LwwRegister/Laws.antt =====
-- crates/mercury-crdt/src/lww_register.rs: `merge`.
use mercury_messaging.Base.{◌≡◌, ◌↔◌, refl, arith}
use mercury_messaging.Mergeable.{Mergeable, IsLawful}
use mercury_messaging.Hlc.{Hlc}
use mercury_messaging.Hlc.Order.{hlc_ord}
use mercury_messaging.LwwRegister.{LwwRegister, merge}

module _ {ℓ} {T : Type ℓ} where
  pub merge_idem : (a : LwwRegister T) → merge a a ≡ a
  unfolding merge
  merge_idem a = ground (arith, hlc_ord.cmp_self a.timestamp)

  pub merge_assoc : (a b c : LwwRegister T) → merge (merge a b) c ≡ merge a (merge b c)
  unfolding merge
  merge_assoc a b c = ground (
    arith,
    hlc_ord.cmp_swap a.timestamp b.timestamp,
    hlc_ord.cmp_swap b.timestamp c.timestamp,
    hlc_ord.cmp_swap a.timestamp c.timestamp,
    hlc_ord.lt_trans a.timestamp b.timestamp c.timestamp,
    hlc_ord.lt_trans c.timestamp b.timestamp a.timestamp,
    hlc_ord.eq_of_cmp a.timestamp b.timestamp,
    hlc_ord.eq_of_cmp b.timestamp a.timestamp,
    hlc_ord.eq_of_cmp c.timestamp b.timestamp,
    hlc_ord.eq_of_cmp c.timestamp a.timestamp,
  )

  -- Two registers merge to the same result in both orders exactly if they do not hold
  -- different values under one timestamp.
  pub merge_comm_iff :
      (a b : LwwRegister T)
      → (merge a b ≡ merge b a) ↔ (a.timestamp ≡ b.timestamp → a.value ≡ b.value)
  unfolding merge
  merge_comm_iff a b = (
    λ h e. ground (arith, hlc_ord.cmp_self a.timestamp, hlc_ord.cmp_self b.timestamp),
    λ h. ground (
      arith,
      hlc_ord.cmp_swap a.timestamp b.timestamp,
      hlc_ord.eq_of_cmp a.timestamp b.timestamp,
    ),
  )

  -- One timestamp was given to one write.
  module _ (written : Hlc → T) where
    abbrev pub lww_mergeable : Mergeable {ℓ, ℓ, ℓ} (LwwRegister T)
    lww_mergeable = record {
      merge = merge;
      Valid = λ r. r.value ≡ written r.timestamp;
      Same = λ a b. a ≡ b;
    }

    merge-Valid :
        (a b : LwwRegister T)
        → a.value ≡ written a.timestamp
        → b.value ≡ written b.timestamp
        → (merge a b).value ≡ written (merge a b).timestamp
    unfolding merge
    merge-Valid a b p q = ground arith

    -- Among registers whose values are those that a function gives for their timestamps,
    -- merge stays among them and is commutative, associative and idempotent.
    pub lww-IsLawful : IsLawful lww_mergeable
    lww-IsLawful = record {
      same_refl = λ a. refl;
      same_sym = λ a b p. cc;
      same_trans = λ a b c p q. cc;
      congruent = λ a a' b b' _ _ _ _ p q. cc;
      closed = merge-Valid;
      commutative = λ a b p q. (merge_comm_iff a b).1 (λ e. cc);
      associative = λ a b c _ _ _. merge_assoc a b c;
      idempotent = λ a _. merge_idem a;
    }

-- ===== src/LwwRegister/Writes.antt =====
-- crates/mercury-crdt/src/lww_register.rs: sequences of `set`.
use mercury_messaging.Base.{◌∙◌, List, [], ◌∷◌, ◌≡◌, ◌⊎◌, inl, inr, refl, arith, All}
use mercury_messaging.Order.{◌≺◌, not-lt_trans}
use mercury_messaging.Mergeable.{Elem, here, there}
use mercury_messaging.Hlc.{Hlc}
use mercury_messaging.Hlc.Order.{hlc_ord}
use mercury_messaging.LwwRegister.{LwwRegister, set}

module _ {ℓ} {T : Type ℓ} where
  pub write_all : List (T × Hlc) → LwwRegister T → LwwRegister T
  write_all [] r = r
  write_all ((value, timestamp) ∷ writes) r = write_all writes (set value timestamp r)

  -- `t` is not newer than the register.
  abbrev pub NotNewer : LwwRegister T → Hlc → Type 0
  NotNewer r t = ¬ (r.timestamp ≺ t)

  set-NotNewer :
      (v : T) (t : Hlc) (r : LwwRegister T)
      → NotNewer (set v t r) t × NotNewer (set v t r) r.timestamp
  unfolding set
  set-NotNewer v t r = (
    λ h. ground (arith, hlc_ord.cmp_self t, hlc_ord.cmp_swap t r.timestamp),
    λ h. ground (arith, hlc_ord.cmp_self r.timestamp, hlc_ord.cmp_swap t r.timestamp),
  )

  NotNewer-write_all :
      (writes : List (T × Hlc)) (r : LwwRegister T) → NotNewer (write_all writes r) r.timestamp
  unfolding write_all
  NotNewer-write_all [] r = λ h. ground (arith, hlc_ord.cmp_self r.timestamp)
  NotNewer-write_all ((v, t) ∷ writes) r =
      not-lt_trans _ (set v t r).timestamp r.timestamp (NotNewer-write_all writes (set v t r))
        (set-NotNewer v t r).1

  -- After any sequence of writes, neither the register at the start nor any of the writes is
  -- newer than the register.
  pub write_all_newest :
      (writes : List (T × Hlc)) (r : LwwRegister T)
      → NotNewer (write_all writes r) r.timestamp
        × All (λ w. NotNewer (write_all writes r) w.1) writes
  unfolding write_all
  write_all_newest [] r = (NotNewer-write_all [] r, tt)
  write_all_newest ((v, t) ∷ writes) r =
      let r' = set v t r in
      let later = NotNewer-write_all writes r' in
      (
        not-lt_trans _ r'.timestamp r.timestamp later (set-NotNewer v t r).1,
        (
          not-lt_trans _ r'.timestamp t later (set-NotNewer v t r).0,
          (write_all_newest writes r').1,
        ),
      )

  set-cases :
      (v : T) (t : Hlc) (r : LwwRegister T)
      → (set v t r ≡ r) ⊎ (set v t r ≡ record { value = v; timestamp = t })
  unfolding set
  set-cases v t r = ground arith

  -- What the register holds at the end was there at first, or was written.
  pub write_all_written :
      (writes : List (T × Hlc)) (r : LwwRegister T)
      → (write_all writes r ≡ r)
        ⊎ Elem ((write_all writes r).value, (write_all writes r).timestamp) writes
  unfolding write_all
  write_all_written [] r = inl refl
  write_all_written ((v, t) ∷ writes) r = elim (write_all_written writes (set v t r)) [
    | inl kept ↦ elim (set-cases v t r) [
      | inl old ↦ inl (kept ∙ old)
      | inr new ↦ inr (rw (kept, new) here)
    ]
    | inr written ↦ inr (there written)
  ]

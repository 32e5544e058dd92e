-- ===== src/Orset/Views.antt =====
-- crates/mercury-crdt/src/orset.rs: `elements`, `len` and `is_empty`.
use mercury_messaging.Base.{
  ◌≡◌, ◌≢◌, ◌↔◌, sym, ◌∙◌, inl, inr, refl, List, [], ◌∷◌, Option, none, some, Bool, true, false,
  length, arith, Bool-cases,
}
use native.Mathlib.Decide.{ℕ_discrete}
use mercury_messaging.HashMap.{Eq, HashMap, IsDistinct, get}
use mercury_messaging.Mergeable.{Elem, here, there, Elem-cons}
use mercury_messaging.Orset.Dots.{Dots}
use mercury_messaging.Orset.Defs.{
  OrSet, any_dots, live_keys, live_count, elements, len, is_empty, contains,
}
use mercury_messaging.Orset.Laws.{IsWellFormed}

abbrev live : Option Dots → Bool
live none = false
live (some dots) = any_dots dots

module _ {ℓ} {T : Type ℓ} ⦃e : Eq T⦄ where
  Elem-of_live : (m : HashMap T Dots) (q : T) → live (get q m) ≡ true → Elem q (live_keys m)
  unfolding live_keys get
  Elem-of_live [] q h = cc
  Elem-of_live ((k, dots) ∷ m) q h = elim (Bool-cases (any_dots dots)) [
    | inl some_dots ↦ elim (Bool-cases (e.beq q k)) [
      | inl found ↦ rw (some_dots, (e.beq_iff q k).0 found) here
      | inr other ↦ rw some_dots (there (Elem-of_live m q (ground arith)))
    ]
    | inr no_dots ↦ rw no_dots (Elem-of_live m q (ground arith))
  ]

  live_of_Elem :
      (m : HashMap T Dots) (q : T) → IsDistinct m → Elem q (live_keys m) → live (get q m) ≡ true
  unfolding live_keys get
  live_of_Elem [] q s h = elim h [ ]
  live_of_Elem ((k, dots) ∷ m) q s h = elim (Bool-cases (any_dots dots)) [
    | inl some_dots ↦ elim (Elem-cons {x = q} {y = k} {ys = live_keys m} (rw some_dots at h)) [
      | inl found ↦ ground (arith, e.beq_iff q k)
      | inr rest ↦ ground (arith, live_of_Elem m q s.1 rest, e.beq_iff q k)
    ]
    | inr no_dots ↦
        let rest : Elem q (live_keys m) = rw no_dots at h in
        ground (arith, live_of_Elem m q s.1 rest, e.beq_iff q k)
  ]

  contains-live : (q : T) (s : OrSet T) → contains q s ≡ live (get q s.entries)
  unfolding contains
  contains-live q s = ground arith

  -- The elements of a well-formed set list exactly the values that it contains.
  pub elements_iff :
      (s : OrSet T) (q : T) → IsWellFormed s → Elem q (elements s) ↔ (contains q s ≡ true)
  unfolding elements
  elements_iff s q v = (
    λ h. contains-live q s ∙ live_of_Elem s.entries q v.distinct h,
    λ h. Elem-of_live s.entries q (sym (contains-live q s) ∙ h),
  )

  live_count-length : (m : HashMap T Dots) → live_count m ≡ length (live_keys m)
  unfolding live_count live_keys
  live_count-length [] = refl
  live_count-length ((k, dots) ∷ m) = ground (arith, live_count-length m)

  -- `len` counts what `elements` lists.
  pub len_lem : (s : OrSet T) → len s ≡ length (elements s)
  unfolding len elements
  len_lem s = live_count-length s.entries

  some_element : (xs : List T) → length xs ≢ 0 → (x : T) × Elem x xs
  some_element [] h = absurd (h refl)
  some_element (x ∷ xs) h = (x, here)

  no_element : (xs : List T) (x : T) → length xs ≡ 0 → ¬ Elem x xs
  no_element [] x h m = elim m [ ]
  no_element (y ∷ xs) x h m = omega arith

  is_empty-len : (s : OrSet T) → (is_empty s ≡ true) ↔ (length (elements s) ≡ 0)
  unfolding is_empty
  is_empty-len s = ground (arith, len_lem s)

  -- A set is empty exactly if it contains no value.
  pub is_empty_iff :
      (s : OrSet T) → IsWellFormed s → (is_empty s ≡ true) ↔ ((q : T) → contains q s ≡ false)
  is_empty_iff s v = (
    λ h q. elim (Bool-cases (contains q s)) [
      | inl found ↦
          absurd (no_element (elements s) q ((is_empty-len s).0 h) ((elements_iff s q v).1 found))
      | inr absent ↦ absent
    ],
    λ h. (is_empty-len s).1 (no_elements h),
  )
    where
      no_elements : ((q : T) → contains q s ≡ false) → length (elements s) ≡ 0
      no_elements h = elim (ℕ_discrete (length (elements s)) 0) [
        | yes z ↦ z
        | no n ↦
            let (x, m) = some_element (elements s) n in
            absurd (ground (arith, h x, (elements_iff s x v).0 m))
      ]

-- ===== src/BTree/Range.antt =====
-- Ranges of a map, and its greatest key.
use mercury_messaging.Base.{
  ◌≡◌, refl, lt, eq, [], ◌∷◌, none, some, arith, inl, inr, is_some, true, Ordering-cases,
}
use mercury_messaging.Order.{Ord, ◌≺◌}
use mercury_messaging.BTree.{BTreeMap, Above, IsSorted, get, range_after, last_key}

module _ {ℓ κ} {K : Type ℓ} {V : Type κ} ⦃o : Ord K⦄ where
  Above-range_after : (j since : K) (m : BTreeMap K V) → Above j m → Above j (range_after since m)
  unfolding range_after
  Above-range_after j since [] a = tt
  Above-range_after j since ((k, v) ∷ m) a = ground (arith, Above-range_after j since m a.1)

  pub range_after-IsSorted :
      (since : K) (m : BTreeMap K V) → IsSorted m → IsSorted (range_after since m)
  unfolding range_after
  range_after-IsSorted since [] s = tt
  range_after-IsSorted since ((k, v) ∷ m) s =
      ground (arith, range_after-IsSorted since m s.1, Above-range_after k since m s.0)

  pub get-range_after :
      (q since : K) (m : BTreeMap K V)
      → get q (range_after since m) ≡ elim (o.cmp since q) [ lt ↦ get q m | _ ↦ none ]
  unfolding get range_after
  get-range_after q since [] = ground arith
  get-range_after q since ((k, v) ∷ m) = ground (arith, get-range_after q since m, o.eq_of_cmp q k)

  -- `l` is a key of `m`, and `q` is not above it.
  abbrev pub TopsAt : BTreeMap K V → K → K → Type 0
  TopsAt m q l = (is_some (get l m) ≡ true) × (¬ (l ≺ q))

  last_key-cons :
      (k : K) (w : V) (m : BTreeMap K V) (l q : K) → TopsAt m q l → TopsAt ((k, w) ∷ m) q l
  unfolding get
  last_key-cons k w m l q (found, top) = (ground arith, top)

  head_below :
      (k j : K) (x : V) (m : BTreeMap K V) (l q : K)
      → k ≺ j
      → o.cmp q k ≡ eq
      → TopsAt ((j, x) ∷ m) j l
      → TopsAt ((j, x) ∷ m) q l
  head_below k j x m l q h e (found, top) =
      (found, λ b. top (o.lt_trans l q j b (rw (o.eq_of_cmp q k e) h)))

  -- The last key of a map that has some key is one of its keys, and no key is above it.
  pub last_key_lem :
      (m : BTreeMap K V) (q : K) (v : V)
      → IsSorted m
      → get q m ≡ some v
      → (l : K) × (last_key m ≡ some l) × TopsAt m q l
  unfolding get last_key
  last_key_lem [] q v s e = cc
  last_key_lem ((k, w) ∷ []) q v s e =
      (k, refl, (ground (arith, o.cmp_self k), λ h. ground (arith, o.cmp_swap k q)))
  last_key_lem ((k, w) ∷ (j, x) ∷ m) q v s e = elim (Ordering-cases (o.cmp q k)) [
    | inr (inl here) ↦
        let (l, last, tops) = last_key_lem ((j, x) ∷ m) j x s.1 (ground (arith, o.cmp_self j)) in
        (l, last, last_key-cons k w ((j, x) ∷ m) l q (head_below k j x m l q s.0.0 here tops))
    | inl below ↦
        let (l, last, tops) = last_key_lem ((j, x) ∷ m) q v s.1 (ground arith) in
        (l, last, last_key-cons k w ((j, x) ∷ m) l q tops)
    | inr (inr above) ↦
        let (l, last, tops) = last_key_lem ((j, x) ∷ m) q v s.1 (ground arith) in
        (l, last, last_key-cons k w ((j, x) ∷ m) l q tops)
  ]

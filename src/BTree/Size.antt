-- ===== src/BTree/Size.antt =====
-- How many entries a map has.
use mercury_messaging.Base.{
  ◌+◌, ◌≤◌, ◌<◌, ◌≡◌, eq, [], ◌∷◌, none, some, length, arith, is_some, if◌then◌else◌,
  Ordering-cases, inl, inr,
}
use mercury_messaging.Order.{Ord, ◌≺◌, eq_of_same}
use mercury_messaging.BTree.{BTreeMap, Above, IsSorted, get, insert}
use mercury_messaging.BTree.Lookup.{get-insert, get_of_Above, Above-trans}
use mercury_messaging.BTree.Sorted.{insert-IsSorted}

module _ {ℓ κ} {K : Type ℓ} {V : Type κ} ⦃o : Ord K⦄ where
  pub length-insert :
      (k : K) (v : V) (m : BTreeMap K V)
      → IsSorted m
      → length (insert k v m) ≡ (if is_some (get k m) then length m else length m + 1)
  unfolding get insert
  length-insert k v [] s = omega arith
  length-insert k v ((j, w) ∷ m) s =
      ground (arith, length-insert k v m s.1, get_of_Above k m, Above-trans k j m)

  pub length-insert_new :
      (k : K) (v : V) (m : BTreeMap K V)
      → IsSorted m
      → get k m ≡ none
      → length (insert k v m) ≡ length m + 1
  length-insert_new k v m s e = rw (length-insert k v m s, e)

  -- Every entry of `m` is an entry of `n`.
  abbrev pub Sub : BTreeMap K V → BTreeMap K V → Type (ℓ ⊔ κ)
  Sub m n = (q : K) (v : V) → get q m ≡ some v → get q n ≡ some v

  Sub-tail :
      (j k : K) (v w : V) (m n : BTreeMap K V)
      → o.cmp j k ≡ eq
      → Above j m
      → Sub ((j, v) ∷ m) ((k, w) ∷ n)
      → Sub m n
  unfolding get
  Sub-tail j k v w m n i a h q x e =
      ground (arith, h q x, o.eq_of_cmp q j, o.eq_of_cmp q k, o.eq_of_cmp j k, get_of_Above j m a)

  Sub-Above : (k : K) (w : V) (m n : BTreeMap K V) → Above k m → Sub m ((k, w) ∷ n) → Sub m n
  unfolding get
  Sub-Above k w m n a h q x e = ground (arith, h q x e, o.eq_of_cmp q k, get_of_Above k m a)

  not-Sub_below :
      (j k : K) (v w : V) (m n : BTreeMap K V)
      → Sub ((j, v) ∷ m) ((k, w) ∷ n)
      → ¬ (Above k n × (j ≺ k))
  unfolding get
  not-Sub_below j k v w m n h (a, l) =
      ground (arith, h j v, o.cmp_self j, get_of_Above j n (Above-trans j k n l a))

  not-Sub-nil : (j : K) (v : V) (m : BTreeMap K V) → ¬ Sub ((j, v) ∷ m) []
  unfolding get
  not-Sub-nil j v m h = ground (arith, h j v, o.cmp_self j)

  pub length-le_of_Sub :
      (m n : BTreeMap K V) → IsSorted m → IsSorted n → Sub m n → length m ≤ length n
  length-le_of_Sub [] n s t h = omega arith
  length-le_of_Sub ((j, v) ∷ m) [] s t h = absurd (not-Sub-nil j v m h)
  length-le_of_Sub ((j, v) ∷ m) ((k, w) ∷ n) s t h = elim (Ordering-cases (o.cmp j k)) [
    | inl below ↦ absurd (not-Sub_below j k v w m n h (t.0, below))
    | inr (inl e) ↦ omega (arith, length-le_of_Sub m n s.1 t.1 (Sub-tail j k v w m n e s.0 h))
    | inr (inr above) ↦
        let up : k ≺ j = ground (arith, o.cmp_swap j k) in
        omega (
          arith,
          length-le_of_Sub ((j, v) ∷ m) n s t.1
              (Sub-Above k w ((j, v) ∷ m) n (up, Above-trans k j m up s.0) h),
        )
  ]

  Sub-insert :
      (k : K) (v : V) (m n : BTreeMap K V) → Sub m n → get k n ≡ some v → Sub (insert k v m) n
  Sub-insert k v m n h e q x f = ground (arith, get-insert q k v m, h q x, eq_of_same q k)

  -- A map of entries of `n` that lacks one of them is smaller than `n`.
  pub length-lt_of_Sub :
      (m n : BTreeMap K V) (k : K) (v : V)
      → IsSorted m
      → IsSorted n
      → Sub m n
      → get k m ≡ none
      → get k n ≡ some v
      → length m < length n
  length-lt_of_Sub m n k v s t h e f = omega (
    arith,
    length-insert_new k v m s e,
    length-le_of_Sub (insert k v m) n (insert-IsSorted k v m s) t (Sub-insert k v m n h f),
  )

-- ===== src/BTree/Merge.antt =====
-- The merge loop over ordered maps: what it reads, and its laws. They are what a state-based CRDT
-- needs of `merge`.
use mercury_messaging.Base.{◌≡◌, refl, ◌∙◌, sym, [], ◌∷◌, arith}
use mercury_messaging.Join.{Holds, join, IsJoin, join_comm, join_assoc, join_idem, join-Holds}
use mercury_messaging.Order.{Ord}
use mercury_messaging.BTree.{BTreeMap, IsSorted, get, upsert, absorb}
use mercury_messaging.BTree.Lookup.{get-upsert, get_of_Above}
use mercury_messaging.BTree.Sorted.{absorb-IsSorted, IsSorted-ext}

module _ {ℓ κ} {K : Type ℓ} {V : Type κ} ⦃o : Ord K⦄ where
  -- Every lookup of `m` satisfies `P`.
  abbrev pub Values {μ} : (V → Type μ) → BTreeMap K V → Type (ℓ ⊔ μ)
  Values P m = (q : K) → Holds P (get q m)

  pub get-absorb :
      (d : V) (f : V → V → V) (m other : BTreeMap K V) (q : K)
      → IsSorted other
      → get q (absorb d f m other) ≡ join d f (get q m) (get q other)
  unfolding absorb get
  get-absorb d f m [] q s = refl
  get-absorb d f m ((k, v) ∷ other) q s = ground (
    arith,
    get-absorb d f (upsert k d (λ x. f x v) m) other q s.1,
    get-upsert q k d (λ x. f x v) m,
    get_of_Above k other s.0,
    o.eq_of_cmp q k,
  )

  module _ {μ} {P : V → Type μ} {d : V} {f : V → V → V} (l : IsJoin P d f) where
    pub absorb-Values :
        (m n : BTreeMap K V) → IsSorted n → Values P m → Values P n → Values P (absorb d f m n)
    absorb-Values m n t p q k =
        rw (get-absorb d f m n k t) (join-Holds l (get k m) (get k n) (p k) (q k))

    pub absorb_comm :
        (m n : BTreeMap K V)
        → IsSorted m
        → IsSorted n
        → Values P m
        → Values P n
        → absorb d f m n ≡ absorb d f n m
    absorb_comm m n s t p q =
        IsSorted-ext _ _ (absorb-IsSorted d f m n s) (absorb-IsSorted d f n m t) λ k.
          get-absorb d f m n k t
          ∙ join_comm l (get k m) (get k n) (p k) (q k)
          ∙ sym (get-absorb d f n m k s)

    pub absorb_assoc :
        (m n r : BTreeMap K V)
        → IsSorted m
        → IsSorted n
        → IsSorted r
        → Values P m
        → Values P n
        → Values P r
        → absorb d f (absorb d f m n) r ≡ absorb d f m (absorb d f n r)
    absorb_assoc m n r s t u p q w =
        IsSorted-ext _ _ (absorb-IsSorted d f (absorb d f m n) r (absorb-IsSorted d f m n s))
          (absorb-IsSorted d f m (absorb d f n r) s)
          λ k.
            rw
              (
                get-absorb d f (absorb d f m n) r k u,
                get-absorb d f m n k t,
                get-absorb d f m (absorb d f n r) k (absorb-IsSorted d f n r t),
                get-absorb d f n r k u,
              )
              (join_assoc l (get k m) (get k n) (get k r) (p k) (q k) (w k))

    pub absorb_idem : (m : BTreeMap K V) → IsSorted m → Values P m → absorb d f m m ≡ m
    absorb_idem m s p =
        IsSorted-ext _ _ (absorb-IsSorted d f m m s) s
          λ k. get-absorb d f m m k s ∙ join_idem l (get k m) (p k)

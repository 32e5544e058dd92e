-- ===== src/HashMap/Merge.antt =====
-- The merge loop over hash maps: what it reads, and its laws up to `Same`.
use mercury_messaging.Base.{◌≡◌, refl, ◌∙◌, sym, [], ◌∷◌, arith}
use mercury_messaging.Join.{Holds, join, IsJoin, join_comm, join_assoc, join_idem, join-Holds}
use mercury_messaging.HashMap.{Eq, HashMap, IsDistinct, Same, get, upsert, absorb}
use mercury_messaging.HashMap.Lookup.{get-upsert}

module _ {ℓ κ} {K : Type ℓ} {V : Type κ} ⦃e : Eq K⦄ where
  -- Every lookup of `m` satisfies `P`.
  abbrev pub Values {μ} : (V → Type μ) → HashMap K V → Type (ℓ ⊔ μ)
  Values P m = (q : K) → Holds P (get q m)

  pub get-absorb :
      (d : V) (f : V → V → V) (m other : HashMap K V) (q : K)
      → IsDistinct other
      → get q (absorb d f m other) ≡ join d f (get q m) (get q other)
  unfolding absorb get
  get-absorb d f m [] q s = refl
  get-absorb d f m ((k, v) ∷ other) q s = ground (
    arith,
    get-absorb d f (upsert k d (λ x. f x v) m) other q s.1,
    get-upsert q k d (λ x. f x v) m,
    e.beq_iff q k,
  )

  -- Maps that read alike merge to maps that read alike.
  pub absorb-Same :
      (d : V) (f : V → V → V) (m m' n n' : HashMap K V)
      → IsDistinct n
      → IsDistinct n'
      → Same m m'
      → Same n n'
      → Same (absorb d f m n) (absorb d f m' n')
  absorb-Same d f m m' n n' s t h k q =
      rw (get-absorb d f m n q s, get-absorb d f m' n' q t, h q, k q)

  module _ {μ} {P : V → Type μ} {d : V} {f : V → V → V} (l : IsJoin P d f) where
    pub absorb-Values :
        (m n : HashMap K V) → IsDistinct n → Values P m → Values P n → Values P (absorb d f m n)
    absorb-Values m n t p q k =
        rw (get-absorb d f m n k t) (join-Holds l (get k m) (get k n) (p k) (q k))

    pub absorb_comm :
        (m n : HashMap K V)
        → IsDistinct m
        → IsDistinct n
        → Values P m
        → Values P n
        → Same (absorb d f m n) (absorb d f n m)
    absorb_comm m n s t p q k =
        get-absorb d f m n k t
        ∙ join_comm l (get k m) (get k n) (p k) (q k)
        ∙ sym (get-absorb d f n m k s)

    pub absorb_assoc :
        (m n r : HashMap K V)
        → IsDistinct n
        → IsDistinct r
        → IsDistinct (absorb d f n r)
        → Values P m
        → Values P n
        → Values P r
        → Same (absorb d f (absorb d f m n) r) (absorb d f m (absorb d f n r))
    absorb_assoc m n r s t u p q w k =
        rw
          (
            get-absorb d f (absorb d f m n) r k t,
            get-absorb d f m n k s,
            get-absorb d f m (absorb d f n r) k u,
            get-absorb d f n r k t,
          )
          (join_assoc l (get k m) (get k n) (get k r) (p k) (q k) (w k))

    pub absorb_idem : (m : HashMap K V) → IsDistinct m → Values P m → Same (absorb d f m m) m
    absorb_idem m s p k = get-absorb d f m m k s ∙ join_idem l (get k m) (p k)

-- ===== src/BTree/Sorted.antt =====
-- Ordered maps of BTree.antt: the order of the entries, and equality by lookups.
use mercury_messaging.Base.{◌≡◌, refl, [], ◌∷◌, none, some, arith, get_or, Ordering-cases, inl, inr}
use mercury_messaging.Order.{Ord, ◌≺◌}
use mercury_messaging.BTree.{BTreeMap, Above, IsSorted, get, insert, upsert, absorb}
use mercury_messaging.BTree.Lookup.{get_of_Above, Above-trans}

module _ {ℓ κ} {K : Type ℓ} {V : Type κ} ⦃o : Ord K⦄ where
  pub Above-insert :
      (j k : K) (v : V) (m : BTreeMap K V) → j ≺ k → Above j m → Above j (insert k v m)
  unfolding insert
  Above-insert j k v [] h a = (h, tt)
  Above-insert j k v ((i, w) ∷ m) h a = ground (arith, Above-insert j k v m h a.1)

  pub insert-IsSorted : (k : K) (v : V) (m : BTreeMap K V) → IsSorted m → IsSorted (insert k v m)
  unfolding insert
  insert-IsSorted k v [] s = (tt, tt)
  insert-IsSorted k v ((j, w) ∷ m) s =
      ground
        (arith, insert-IsSorted k v m s.1, Above-trans k j m, Above-insert j k v m, o.cmp_swap k j)

  pub absorb-IsSorted :
      (d : V) (f : V → V → V) (m other : BTreeMap K V) → IsSorted m → IsSorted (absorb d f m other)
  unfolding absorb upsert
  absorb-IsSorted d f m [] s = s
  absorb-IsSorted d f m ((k, v) ∷ other) s =
      absorb-IsSorted d f (insert k (f (get_or (get k m) d) v) m) other (insert-IsSorted k _ m s)

  pub get_head : (k : K) (v : V) (m : BTreeMap K V) → get k ((k, v) ∷ m) ≡ some v
  unfolding get
  get_head k v m = ground (arith, o.cmp_self k)

  get_below : (j k : K) (v : V) (m : BTreeMap K V) → j ≺ k → Above k m → get j ((k, v) ∷ m) ≡ none
  unfolding get
  get_below j k v m h a = rw (h, get) (get_of_Above j m (Above-trans j k m h a))

  get_nil : (k : K) → get {V = V} k [] ≡ none
  unfolding get
  get_nil k = refl

  -- Where two lists read alike and begin with one key, the values and the tails read alike too.
  module _ (j k : K) (v w : V) (m n : BTreeMap K V) (e : j ≡ k) where
    head_values : ((q : K) → get q ((j, v) ∷ m) ≡ get q ((k, w) ∷ n)) → v ≡ w
    unfolding get
    head_values h = ground (arith, h j, o.cmp_self j, o.cmp_self k)

    tail_lookups :
        Above j m
        → Above k n
        → ((q : K) → get q ((j, v) ∷ m) ≡ get q ((k, w) ∷ n))
        → (q : K) → get q m ≡ get q n
    unfolding get
    tail_lookups a b h q =
        ground
          (arith, h q, o.eq_of_cmp q j, o.eq_of_cmp q k, get_of_Above j m a, get_of_Above k n b)

  pub IsSorted-ext :
      (m n : BTreeMap K V) → IsSorted m → IsSorted n → ((q : K) → get q m ≡ get q n) → m ≡ n
  IsSorted-ext [] [] s t h = refl
  IsSorted-ext [] ((k, w) ∷ n) s t h = cc (h k, get_head k w n, get_nil k)
  IsSorted-ext ((j, v) ∷ m) [] s t h = cc (h j, get_head j v m, get_nil j)
  IsSorted-ext ((j, v) ∷ m) ((k, w) ∷ n) s t h = elim (Ordering-cases (o.cmp j k)) [
    | inl below ↦ cc (h j, get_head j v m, get_below j k w n below t.0)
    | inr (inl e) ↦
        let p = o.eq_of_cmp j k e in
        let tails = IsSorted-ext m n s.1 t.1 (tail_lookups j k v w m n p s.0 t.0 h) in
        cc (p, head_values j k v w m n p h, tails)
    | inr (inr above) ↦
        cc (h k, get_head k w n, get_below k j v m (ground (arith, o.cmp_swap j k)) s.0)
  ]

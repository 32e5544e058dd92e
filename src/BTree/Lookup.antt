-- ===== src/BTree/Lookup.antt =====
-- What can be read after an insertion.
use mercury_messaging.Base.{◌≡◌, refl, [], ◌∷◌, none, some, get_or, arith, if◌then◌else◌}
use mercury_messaging.Order.{Ord, ◌≺◌, same}
use mercury_messaging.BTree.{BTreeMap, Above, get, insert, upsert}

module _ {ℓ κ} {K : Type ℓ} {V : Type κ} ⦃o : Ord K⦄ where
  pub get-insert :
      (q k : K) (v : V) (m : BTreeMap K V)
      → get q (insert k v m) ≡ (if same q k then some v else get q m)
  unfolding get insert
  get-insert q k v [] = ground arith
  get-insert q k v ((j, w) ∷ m) = ground (
    arith,
    get-insert q k v m,
    o.eq_of_cmp q k,
    o.eq_of_cmp q j,
    o.eq_of_cmp k j,
    o.cmp_self k,
    o.cmp_self j,
  )

  pub get-upsert :
      (q k : K) (d : V) (g : V → V) (m : BTreeMap K V)
      → get q (upsert k d g m) ≡ (if same q k then some (g (get_or (get k m) d)) else get q m)
  unfolding upsert
  get-upsert q k d g m = get-insert q k (g (get_or (get k m) d)) m

  pub get_of_Above : (k : K) (m : BTreeMap K V) → Above k m → get k m ≡ none
  unfolding get
  get_of_Above k [] h = refl
  get_of_Above k ((j, v) ∷ m) h = ground (arith, get_of_Above k m h.1, o.cmp_self k)

  pub Above-trans : (j k : K) (m : BTreeMap K V) → j ≺ k → Above k m → Above j m
  Above-trans j k [] h a = tt
  Above-trans j k ((i, v) ∷ m) h a = (o.lt_trans j k i h a.0, Above-trans j k m h a.1)

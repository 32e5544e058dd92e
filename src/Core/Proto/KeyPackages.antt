-- ===== src/Core/Proto/KeyPackages.antt =====
-- crates/mercury-core/src/proto.rs: writing and reading a list of key packages, with the two
-- loops.
use mercury_messaging.Base.{
  ℕ, ◌+◌, ◌≤◌, ◌<◌, ◌≡◌, ◌↔◌, refl, ◌∙◌, arith, List, [], ◌∷◌, length, ltb, false, ok, done, panic,
}
use mercury_messaging.MessageLog.{Bytes}
use mercury_messaging.Core.Capnp.{Capnp, CapnpLaws, mls_key_package_list}
use mercury_messaging.Core.Proto.{
  max_key_packages, set_all, list_builder, get_from, mls_key_package_list_encode,
  mls_key_package_list_decode,
}
use mercury_messaging.Core.Proto.ReadBack.{read_back}

module _ (c : Capnp) (laws : CapnpLaws c) where
  -- The builder holds these packages from the index on.
  abbrev HoldsFrom : ℕ → List Bytes → c.Builder mls_key_package_list → Type 0
  HoldsFrom i [] x = Unit
  HoldsFrom i (pkg ∷ packages) x = (laws.package_at i x ≡ pkg) × HoldsFrom (i + 1) packages x

  count_of-set_all :
      (i : ℕ) (packages : List Bytes) (x : c.Builder mls_key_package_list)
      → laws.count_of (set_all c i packages x) ≡ laws.count_of x
  unfolding set_all
  count_of-set_all i [] x = refl
  count_of-set_all i (pkg ∷ packages) x =
      count_of-set_all (i + 1) packages (c.set_key_package i pkg x) ∙ laws.count_of_set i pkg x

  -- The loop does not touch what stands before its index.
  package_at-set_all :
      (j i : ℕ) (packages : List Bytes) (x : c.Builder mls_key_package_list)
      → j < i
      → laws.package_at j (set_all c i packages x) ≡ laws.package_at j x
  unfolding set_all
  package_at-set_all j i [] x h = refl
  package_at-set_all j i (pkg ∷ packages) x h =
      package_at-set_all j (i + 1) packages (c.set_key_package i pkg x) (omega arith)
      ∙ laws.package_at_other j i pkg x (omega arith)

  set_all-HoldsFrom :
      (i : ℕ) (packages : List Bytes) (x : c.Builder mls_key_package_list)
      → i + length packages ≤ laws.count_of x
      → HoldsFrom i packages (set_all c i packages x)
  unfolding set_all
  set_all-HoldsFrom i [] x h = tt
  set_all-HoldsFrom i (pkg ∷ packages) x h = (
    package_at-set_all i (i + 1) packages (c.set_key_package i pkg x) (omega arith)
        ∙ laws.package_at_set i pkg x (omega arith),
    set_all-HoldsFrom (i + 1) packages (c.set_key_package i pkg x)
        (omega (arith, laws.count_of_set i pkg x)),
  )

  get_from-HoldsFrom :
      (i : ℕ) (packages : List Bytes) (x : c.Builder mls_key_package_list) (l : c.ListReader)
      → i + length packages ≤ laws.count_of x
      → ((j : ℕ) → j < laws.count_of x → c.list_get j l ≡ ok (laws.package_at j x))
      → HoldsFrom i packages x
      → get_from c (length packages) i l ≡ ok packages
  unfolding get_from
  get_from-HoldsFrom i [] x l h k v = refl
  get_from-HoldsFrom i (pkg ∷ packages) x l h k v =
      rw (k i (omega arith), v.0, get_from-HoldsFrom (i + 1) packages x l (omega arith) k v.1) refl

  -- Let the format keep its promises, and let a list of at most 10000 key packages make a
  -- message within the limit of the reader. Then encoding the list returns, and the bytes
  -- decode to the same packages in the same order.
  pub key_packages_round_trip :
      (packages : List Bytes)
      → length packages ≤ max_key_packages
      → laws.IsReadable (list_builder c packages)
      → (w : c.Wire) × (mls_key_package_list_encode c packages ≡ done w)
        × (mls_key_package_list_decode c w ≡ ok packages)
  unfolding mls_key_package_list_encode mls_key_package_list_decode list_builder
  key_packages_round_trip packages few h =
      let empty = c.init_key_packages (length packages) (c.init_root mls_key_package_list) in
      let x = list_builder c packages in
      let (w, written, r, root, shows) = read_back c laws x h in
      let (l, list, len, items) = laws.shows_packages r x shows in
      let count : laws.count_of x ≡ length packages =
        count_of-set_all 0 packages empty ∙ laws.count_of_init (length packages) _ in
      let held =
        set_all-HoldsFrom 0 packages empty (
          omega (arith, laws.count_of_init (length packages) (c.init_root mls_key_package_list))) in
      let small : ltb max_key_packages (length packages) ≡ false = ground arith in
      (
        w,
        rw small written,
        rw (root, list, len, count)
            (get_from-HoldsFrom 0 packages x l (omega (arith, count)) items held),
      )

  pub key_packages_bound :
      (packages : List Bytes)
      → (mls_key_package_list_encode c packages ≡ panic) ↔ (max_key_packages < length packages)
  unfolding mls_key_package_list_encode
  key_packages_bound packages =
      let (w, written) = laws.writes (list_builder c packages) in ground (arith, written)

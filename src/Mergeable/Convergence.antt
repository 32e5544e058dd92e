-- ===== src/Mergeable/Convergence.antt =====
-- crates/mercury-crdt/src/traits.rs: replicas that receive each other's states.
use mercury_messaging.Base.{List, [], ◌∷◌, All}
use mercury_messaging.Mergeable.{Mergeable, IsLawful, Elem, here, there}

module _ {ℓ κ μ} {A : Type ℓ} (m : Mergeable {ℓ, κ, μ} A) where
  -- A replica merges the states that arrive, one after the other.
  pub deliver : A → List A → A
  deliver s [] = s
  deliver s (x ∷ xs) = deliver (m.merge s x) xs

module _ {ℓ κ μ} {A : Type ℓ} {m : Mergeable {ℓ, κ, μ} A} (l : IsLawful m) where
  open m use {merge, Valid, Same}

  -- Merging `a` into `b` changes nothing.
  abbrev Below : A → A → Type μ
  Below a b = Same (merge b a) b

  module _ (a b : A) (p : Valid a) (q : Valid b) where
    Below-merge_left : Below a (merge a b)
    Below-merge_left =
        let ab = l.closed a b p q in
        let ba = l.closed b a q p in
        l.same_trans _ _ _ (l.associative a b a p q p) (
          l.same_trans _ _ _ (l.congruent a a _ _ p p ba ab (l.same_refl a) (l.commutative b a q p))
            (l.same_trans _ _ _ (l.same_sym _ _ (l.associative a a b p p q))
              (l.congruent _ a b b (l.closed a a p p) p q q (l.idempotent a p) (l.same_refl b))))

    Below-merge_right : Below b (merge a b)
    Below-merge_right =
        l.same_trans _ _ _ (l.associative a b b p q q)
          (l.congruent a a _ b p p (l.closed b b q q) q (l.same_refl a) (l.idempotent b q))

  module _ (a b c : A) (p : Valid a) (q : Valid b) (r : Valid c) where
    Below-trans : Below a b → Below b c → Below a c
    Below-trans h k =
        let cb = l.closed c b r q in
        let ba = l.closed b a q p in
        l.same_trans _ _ _ (l.congruent c _ a a r cb p p (l.same_sym _ _ k) (l.same_refl a)) (
          l.same_trans _ _ _ (l.associative c b a r q p)
            (l.same_trans _ _ _ (l.congruent c c _ b r r ba q (l.same_refl c) h) k))

    merge-Below : Below a c → Below b c → Below (merge a b) c
    merge-Below h k =
        let ca = l.closed c a r p in
        l.same_trans _ _ _ (l.same_sym _ _ (l.associative c a b r p q))
          (l.same_trans _ _ _ (l.congruent _ c b b ca r q q h (l.same_refl b)) k)

  Below-antisym : (a b : A) → Valid a → Valid b → Below a b → Below b a → Same a b
  Below-antisym a b p q h k =
      l.same_trans _ _ _ (l.same_sym _ _ k) (l.same_trans _ _ _ (l.commutative a b p q) h)

  deliver-Valid : (s : A) (xs : List A) → Valid s → All Valid xs → Valid (deliver m s xs)
  unfolding deliver
  deliver-Valid s [] p v = p
  deliver-Valid s (x ∷ xs) p v = deliver-Valid (merge s x) xs (l.closed s x p v.0) v.1

  Below-deliver_start : (s : A) (xs : List A) → Valid s → All Valid xs → Below s (deliver m s xs)
  unfolding deliver
  Below-deliver_start s [] p v = l.idempotent s p
  Below-deliver_start s (x ∷ xs) p v =
      let sx = l.closed s x p v.0 in
      Below-trans s (merge s x) _ p sx (deliver-Valid (merge s x) xs sx v.1)
        (Below-merge_left s x p v.0) (Below-deliver_start (merge s x) xs sx v.1)

  All-Elem : {x : A} (xs : List A) → All Valid xs → Elem x xs → Valid x
  All-Elem [] v e = elim e [ ]
  All-Elem (y ∷ xs) v here = v.0
  All-Elem (y ∷ xs) v (there e) = All-Elem xs v.1 e

  Below-deliver-Elem :
      {x : A} (s : A) (xs : List A) → Valid s → All Valid xs → Elem x xs → Below x (deliver m s xs)
  unfolding deliver
  Below-deliver-Elem s [] p v e = elim e [ ]
  Below-deliver-Elem s (x ∷ xs) p v here =
      let sx = l.closed s x p v.0 in
      Below-trans x (merge s x) _ v.0 sx (deliver-Valid (merge s x) xs sx v.1)
        (Below-merge_right s x p v.0) (Below-deliver_start (merge s x) xs sx v.1)
  Below-deliver-Elem s (y ∷ xs) p v (there e) =
      Below-deliver-Elem (merge s y) xs (l.closed s y p v.0) v.1 e

  deliver-Below :
      (s c : A) (xs : List A)
      → Valid s
      → Valid c
      → All Valid xs
      → Below s c
      → ((x : A) → Elem x xs → Below x c)
      → Below (deliver m s xs) c
  unfolding deliver
  deliver-Below s c [] p q v h k = h
  deliver-Below s c (x ∷ xs) p q v h k =
      deliver-Below (merge s x) c xs (l.closed s x p v.0) q v.1
        (merge-Below s x c p v.0 q h (k x here)) (λ y e. k y (there e))

  -- For a lawful Mergeable: two replicas that start in one valid state and receive valid
  -- states, the same ones in whatever order and however often, end in equal states.
  pub deliver_converges :
      (s : A) (xs ys : List A)
      → Valid s
      → All Valid xs
      → All Valid ys
      → ((x : A) → Elem x xs → Elem x ys)
      → ((y : A) → Elem y ys → Elem y xs)
      → Same (deliver m s xs) (deliver m s ys)
  deliver_converges s xs ys p v w f g =
      let dx = deliver-Valid s xs p v in
      let dy = deliver-Valid s ys p w in
      Below-antisym _ _ dx dy
        (deliver-Below s _ xs p dy v (Below-deliver_start s ys p w)
          (λ x e. Below-deliver-Elem s ys p w (f x e)))
        (deliver-Below s _ ys p dx w (Below-deliver_start s xs p v)
          (λ y e. Below-deliver-Elem s xs p v (g y e)))

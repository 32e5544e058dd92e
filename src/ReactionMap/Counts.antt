-- ===== src/ReactionMap/Counts.antt =====
-- crates/mercury-crdt/src/reaction_map.rs: what `counts` and `user_reactions` report.
use mercury_messaging.Base.{
  ℕ, ◌+◌, ◌≡◌, ◌↔◌, sym, ◌∙◌, inl, inr, refl, ap, List, [], ◌∷◌, Option, none, some, true, ◌&&◌,
  arith, if◌then◌else◌, Bool-cases, Option-cases, ◌==◌,
}
use mercury_messaging.Order.{nat_ord, list_ord, same, eq_of_same}
use mercury_messaging.BTree
use mercury_messaging.BTree.{BTreeMap, IsSorted}
use mercury_messaging.BTree.Lookup.{get-upsert}
use mercury_messaging.BTree.Sorted.{insert-IsSorted, IsSorted-ext}
use mercury_messaging.HashMap.{Eq, HashMap}
use mercury_messaging.HashMap.Sum.{sum_by, sum_by-Same}
use mercury_messaging.Mergeable.{Elem, here, there, Elem-cons}
use mercury_messaging.Orset.Defs
use mercury_messaging.Orset.Defs.{any_dots, live_keys, elements}
use mercury_messaging.Orset.Dots.{Dots}
use mercury_messaging.Orset.Laws.{IsWellFormed, SameSet}
use mercury_messaging.Orset.Views.{elements_iff}
use mercury_messaging.ReactionMap.{
  Emoji, ReactionMap, reaction_eq, count_all, counts, emojis_of, user_reactions,
}

-- `n` more of an emoji that was counted `count` times; an emoji without reactions has no entry.
abbrev pub counted : Option ℕ → ℕ → Option ℕ
counted none n = if n == 0 then none else some n
counted (some c) n = some (c + n)

module _ {ℓ} {U : Type ℓ} where
  -- The number of pairs with this emoji.
  abbrev pub tally : Emoji → List (U × Emoji) → ℕ
  tally emoji [] = 0
  tally emoji ((user, e) ∷ rest) =
      let others = tally emoji rest in if same emoji e then others + 1 else others

  get-count_all :
      (emoji : Emoji) (xs : List (U × Emoji)) (m : BTreeMap Emoji ℕ)
      → BTree.get emoji (count_all m xs) ≡ counted (BTree.get emoji m) (tally emoji xs)
  unfolding count_all
  get-count_all emoji [] m = elim (Option-cases (BTree.get emoji m)) [
    | inl absent ↦ ground arith
    | inr (c, found) ↦ ground arith
  ]
  get-count_all emoji ((user, e) ∷ xs) m = elim (Bool-cases (same emoji e)) [
    | inl equal ↦ ground (
      arith,
      get-count_all emoji xs (BTree.upsert e 0 (λ n. n + 1) m),
      get-upsert emoji e 0 (λ n. n + 1) m,
      eq_of_same emoji e equal,
    )
    | inr other ↦ ground (
      arith,
      get-count_all emoji xs (BTree.upsert e 0 (λ n. n + 1) m),
      get-upsert emoji e 0 (λ n. n + 1) m,
    )
  ]

  count_all-IsSorted :
      (xs : List (U × Emoji)) (m : BTreeMap Emoji ℕ) → IsSorted m → IsSorted (count_all m xs)
  unfolding count_all BTree.upsert
  count_all-IsSorted [] m s = s
  count_all-IsSorted ((user, e) ∷ xs) m s = count_all-IsSorted xs _ (insert-IsSorted e _ m s)

  abbrev weight : Emoji → U × Emoji → Dots → ℕ
  weight emoji p dots = if any_dots dots && same emoji p.1 then 1 else 0

module _ {ℓ} {U : Type ℓ} ⦃u : Eq U⦄ where
  tally_live :
      (emoji : Emoji) (m : HashMap (U × Emoji) Dots)
      → tally emoji (live_keys m) ≡ sum_by (weight emoji) m
  unfolding live_keys sum_by
  tally_live emoji [] = refl
  tally_live emoji (((user, e), dots) ∷ m) = ground (arith, tally_live emoji m)

  -- The counts of a reaction map give for each emoji the number of its pairs among the
  -- elements, and no entry if there is none.
  pub get-counts :
      (m : ReactionMap U) (emoji : Emoji)
      → BTree.get emoji (counts m) ≡ counted none (tally emoji (elements m.reactions))
  unfolding counts BTree.get
  get-counts m emoji = get-count_all emoji (elements m.reactions) []

  tally-Same :
      (a b : ReactionMap U) (emoji : Emoji)
      → IsWellFormed a.reactions
      → IsWellFormed b.reactions
      → SameSet a.reactions b.reactions
      → tally emoji (elements a.reactions) ≡ tally emoji (elements b.reactions)
  unfolding elements
  tally-Same a b emoji v w s =
      tally_live emoji a.reactions.entries
      ∙ sum_by-Same (weight emoji) _ _ v.distinct w.distinct s.same_entries
      ∙ sym (tally_live emoji b.reactions.entries)

  -- Two well-formed reaction maps that are equal as hash maps have equal counts, whatever
  -- the order of their entries.
  pub counts-Same :
      (a b : ReactionMap U)
      → IsWellFormed a.reactions
      → IsWellFormed b.reactions
      → SameSet a.reactions b.reactions
      → counts a ≡ counts b
  unfolding counts
  counts-Same a b v w s =
      IsSorted-ext (counts a) (counts b) (count_all-IsSorted _ [] tt) (count_all-IsSorted _ [] tt)
        (λ q. get-counts a q ∙ ap (counted none) (tally-Same a b q v w s) ∙ sym (get-counts b q))

  emojis_of-Elem :
      (user : U) (emoji : Emoji) (xs : List (U × Emoji))
      → Elem emoji (emojis_of user xs)
      → Elem (user, emoji) xs
  unfolding emojis_of
  emojis_of-Elem user emoji [] h = elim h [ ]
  emojis_of-Elem user emoji ((v, e) ∷ xs) h = elim (Bool-cases (u.beq v user)) [
    | inl own ↦ elim (Elem-cons {x = emoji} {y = e} {ys = emojis_of user xs} (rw own at h)) [
      | inl found ↦ rw ((u.beq_iff v user).0 own, found) here
      | inr rest ↦ there (emojis_of-Elem user emoji xs rest)
    ]
    | inr other ↦ there (emojis_of-Elem user emoji xs (rw other at h))
  ]

  Elem-emojis_of :
      (user : U) (emoji : Emoji) (xs : List (U × Emoji))
      → Elem (user, emoji) xs
      → Elem emoji (emojis_of user xs)
  unfolding emojis_of
  Elem-emojis_of user emoji [] h = elim h [ ]
  Elem-emojis_of user emoji ((v, e) ∷ xs) h =
      elim (Elem-cons {x = (user, emoji)} {y = (v, e)} {ys = xs} h) [
        | inl found ↦
            let own : u.beq v user ≡ true = (u.beq_iff v user).1 (sym (ap (λ p. p.0) found)) in
            rw (own, ap (λ p. p.1) found) here
        | inr rest ↦ elim (Bool-cases (u.beq v user)) [
          | inl own ↦ rw own (there (Elem-emojis_of user emoji xs rest))
          | inr other ↦ rw other (Elem-emojis_of user emoji xs rest)
        ]
      ]

  -- In a well-formed reaction map, the reactions of a user list exactly the emojis whose
  -- pair with that user the set contains.
  pub user_reactions_iff :
      (user : U) (emoji : Emoji) (m : ReactionMap U)
      → IsWellFormed m.reactions
      → Elem emoji (user_reactions user m) ↔ (Defs.contains (user, emoji) m.reactions ≡ true)
  unfolding user_reactions
  user_reactions_iff user emoji m v = (
    λ h. (elements_iff m.reactions (user, emoji) v).0 (emojis_of-Elem user emoji _ h),
    λ h. Elem-emojis_of user emoji _ ((elements_iff m.reactions (user, emoji) v).1 h),
  )

-- ===== src/ReactionMap/Laws.antt =====
-- crates/mercury-crdt/src/reaction_map.rs: `merge`.
use mercury_messaging.HashMap.{Eq}
use mercury_messaging.Mergeable.{Mergeable, IsLawful}
use mercury_messaging.Orset.Laws.{IsWellFormed, SameSet, orset-IsLawful}
use mercury_messaging.ReactionMap.{Emoji, ReactionMap, reaction_eq, merge}

module _ {ℓ} {U : Type ℓ} ⦃u : Eq U⦄ where
  abbrev pub reaction_mergeable : Mergeable {ℓ, ℓ, ℓ} (ReactionMap U)
  reaction_mergeable = record {
    merge = merge;
    Valid = λ m. IsWellFormed m.reactions;
    Same = λ m n. SameSet m.reactions n.reactions;
  }

  -- `merge` is commutative, associative and idempotent.
  pub reaction_map-IsLawful : IsLawful reaction_mergeable
  unfolding merge
  reaction_map-IsLawful =
      let orset = orset-IsLawful {T = U × Emoji} in
      record {
        same_refl = λ a. orset.same_refl a.reactions;
        same_sym = λ a b. orset.same_sym a.reactions b.reactions;
        same_trans = λ a b c. orset.same_trans a.reactions b.reactions c.reactions;
        congruent = λ a a' b b'. orset.congruent a.reactions a'.reactions b.reactions b'.reactions;
        closed = λ a b. orset.closed a.reactions b.reactions;
        commutative = λ a b. orset.commutative a.reactions b.reactions;
        associative = λ a b c. orset.associative a.reactions b.reactions c.reactions;
        idempotent = λ a. orset.idempotent a.reactions;
      }

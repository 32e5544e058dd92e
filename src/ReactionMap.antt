-- ===== src/ReactionMap.antt =====
-- crates/mercury-crdt/src/reaction_map.rs: the reactions to a message. `U` is `UserId`, of which
-- only `==` is used; an emoji is its UTF-8 bytes.
pub mod Counts
pub mod Laws
use mercury_messaging.Base.{
  ℕ, ◌+◌, ◌≡◌, ◌↔◌, List, [], ◌∷◌, Bool, true, ◌&&◌, arith, Outcome, done, ◌>>=◌, Build,
  if◌then◌else◌,
}
use mercury_messaging.Order.{nat_ord, list_ord}
use mercury_messaging.BTree
use mercury_messaging.BTree.{BTreeMap}
use mercury_messaging.HashMap.Bytes.{bytes_eq}
use mercury_messaging.HashMap.{Eq}
use mercury_messaging.Hlc.{Bytes16}
use mercury_messaging.Orset.Defs
use mercury_messaging.Orset.Defs.{OrSet}

-- `String`
abbrev pub Emoji : Type 0
Emoji = List ℕ

module _ {ℓ} {U : Type ℓ} ⦃u : Eq U⦄ where
  abbrev pub beq_reaction : U × Emoji → U × Emoji → Bool
  beq_reaction a b = u.beq a.0 b.0 && bytes_eq.beq a.1 b.1

  pub beq_reaction_iff : (a b : U × Emoji) → (beq_reaction a b ≡ true) ↔ (a ≡ b)
  beq_reaction_iff a b = ground (arith, u.beq_iff a.0 b.0, bytes_eq.beq_iff a.1 b.1)

  instance abbrev pub reaction_eq : Eq (U × Emoji)
  reaction_eq = record { beq = beq_reaction; beq_iff = beq_reaction_iff }

pub record ReactionMap {ℓ} (U : Type ℓ) : Type ℓ where
  pub reactions : OrSet (U × Emoji)

module _ {ℓ} {U : Type ℓ} where
  -- The loop of `counts`. The count of entries in memory does not overflow its `usize`.
  unfoldable pub count_all : BTreeMap Emoji ℕ → List (U × Emoji) → BTreeMap Emoji ℕ
  count_all map [] = map
  count_all map ((user, emoji) ∷ rest) = count_all (BTree.upsert emoji 0 (λ n. n + 1) map) rest

module _ {ℓ} {U : Type ℓ} ⦃u : Eq U⦄ where
  unfoldable pub new : ReactionMap U
  unfolding Defs.new
  new = record { reactions = Defs.new }

  unfoldable pub add_reaction :
      Build → U → Emoji → Bytes16 → ReactionMap U → Outcome (ReactionMap U)
  add_reaction build user emoji node_id m = do
    reactions ← Defs.add build (user, emoji) node_id m.reactions
    done (record { reactions = reactions })

  unfoldable pub remove_reaction : U → Emoji → ReactionMap U → ReactionMap U
  remove_reaction user emoji m = record { reactions = Defs.remove (user, emoji) m.reactions }

  unfoldable pub counts : ReactionMap U → BTreeMap Emoji ℕ
  counts m = count_all [] (Defs.elements m.reactions)

  -- `filter(|(u, _)| u == user).map(|(_, e)| e)`
  unfoldable pub emojis_of : U → List (U × Emoji) → List Emoji
  emojis_of user [] = []
  emojis_of user ((v, emoji) ∷ rest) =
      let others = emojis_of user rest in if u.beq v user then emoji ∷ others else others

  unfoldable pub user_reactions : U → ReactionMap U → List Emoji
  user_reactions user m = emojis_of user (Defs.elements m.reactions)

  unfoldable pub is_empty : ReactionMap U → Bool
  is_empty m = Defs.is_empty m.reactions

  unfoldable pub merge : ReactionMap U → ReactionMap U → ReactionMap U
  merge m other = record { reactions = Defs.merge m.reactions other.reactions }

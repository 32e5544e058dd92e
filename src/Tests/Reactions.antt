-- ===== src/Tests/Reactions.antt =====
-- Two replicas of the reactions to a message.
use mercury_messaging.Base.{ℕ, ◌≡◌, ◌↔◌, refl, List, [], ◌∷◌, true, done, release}
use mercury_messaging.Order.{nat_ord, list_ord}
use mercury_messaging.BTree
use mercury_messaging.HashMap
use mercury_messaging.HashMap.Bytes.{bytes_eq}
use mercury_messaging.Mergeable.{Elem}
use mercury_messaging.Orset.Dots.{dot_ord}
use mercury_messaging.Orset.Defs
use mercury_messaging.Orset.Defs.{OrSet, elements}
use mercury_messaging.Orset.Laws.{IsWellFormed}
use mercury_messaging.Orset.Invariant.{new-IsWellFormed, add-IsWellFormed}
use mercury_messaging.ReactionMap.{Emoji, ReactionMap, reaction_eq, user_reactions}
use mercury_messaging.ReactionMap.Counts.{user_reactions_iff}
use mercury_messaging.Tests.Clocks.{node_a, node_b}

abbrev thumb : Emoji
thumb = 240 ∷ 159 ∷ []

abbrev alice : List ℕ
alice = 1 ∷ []

abbrev bob : List ℕ
bob = 2 ∷ []

abbrev reacted : List ℕ → List ℕ → ReactionMap (List ℕ)
reacted user node = record {
  reactions = record {
    entries = ((user, thumb), (record { node_id = node; seq = 1 }, tt) ∷ []) ∷ [];
    next_seq = (node, 1) ∷ [];
  };
}

alice_run : Defs.add release (alice, thumb) node_a Defs.new ≡ done (reacted alice node_a).reactions
unfolding Defs.add Defs.new BTree.insert HashMap.get HashMap.upsert dot_ord
alice_run = refl

bob_run : Defs.add release (bob, thumb) node_b Defs.new ≡ done (reacted bob node_b).reactions
unfolding Defs.add Defs.new BTree.insert HashMap.get HashMap.upsert dot_ord
bob_run = refl

alice-IsWellFormed : IsWellFormed (reacted alice node_a).reactions
alice-IsWellFormed =
    add-IsWellFormed release (alice, thumb) node_a Defs.new _ new-IsWellFormed alice_run

bob-IsWellFormed : IsWellFormed (reacted bob node_b).reactions
bob-IsWellFormed = add-IsWellFormed release (bob, thumb) node_b Defs.new _ new-IsWellFormed bob_run

user_reactions_iff_example :
    Elem thumb (user_reactions alice (reacted alice node_a))
    ↔ (Defs.contains (alice, thumb) (reacted alice node_a).reactions ≡ true)
user_reactions_iff_example =
    user_reactions_iff alice thumb (reacted alice node_a) alice-IsWellFormed

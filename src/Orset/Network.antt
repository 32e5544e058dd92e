-- ===== src/Orset/Network.antt =====
-- crates/mercury-crdt/src/orset.rs: replicas of one set, each written to by the node that owns it,
-- which send each other copies of their state. A copy may arrive late, again, or never.
pub mod Sound
use mathlib.Core.Path.{subst}
use mercury_messaging.Base.{
  ℕ, ◌+◌, ◌≤◌, ◌<◌, ◌≡◌, refl, ◌⊎◌, inl, inr, List, [], ◌∷◌, some, max, arith, done, Build, u64_mod,
  true, false, if◌then◌else◌, All, All-imp, Bool-cases,
}
use mercury_messaging.Order.{nat_ord, list_ord, same, eq_of_same, same_self}
use mercury_messaging.BTree
use mercury_messaging.HashMap.{Eq, get}
use mercury_messaging.HashMap.Bytes.{bytes_eq}
use mercury_messaging.Hlc.{Bytes16}
use mercury_messaging.Orset.Dots.{Dot, dot_ord}
use mercury_messaging.Orset.Defs.{OrSet, new, add, remove, merge}
use mercury_messaging.Orset.Laws.{IsWellFormed, merge-IsWellFormed}
use mercury_messaging.Orset.Fresh.{
  seq_of, HasDot, IsTagged, HasDot-add, seq_of-add, add-IsTagged, remove-IsTagged, merge-IsTagged,
  seq_of-merge, add_fresh,
}
use mercury_messaging.Orset.Invariant.{new-IsWellFormed, add-IsWellFormed, remove-IsWellFormed}

-- The replica that a node owns, and the copies that were sent.
pub record Network {ℓ} (T : Type ℓ) : Type ℓ where
  pub replica : Bytes16 → OrSet T
  pub sent : List (OrSet T)

module _ {ℓ} {T : Type ℓ} where
  -- The replica of a node after it stored another state.
  abbrev pub store : Bytes16 → OrSet T → Network T → Network T
  store n s w = record w { replica = λ m. if same m n then s else w.replica m }

  -- Every replica is new and nothing was sent.
  abbrev pub start : Network T
  start = record { replica = λ n. new; sent = [] }

  -- One of the copies that were sent.
  pub data Sent (s : OrSet T) : List (OrSet T) → Type ℓ where
    first : {c : OrSet T} {cs : List (OrSet T)} → c ≡ s → Sent s (c ∷ cs)
    later : {c : OrSet T} {cs : List (OrSet T)} → Sent s cs → Sent s (c ∷ cs)

  pub All-Sent {κ} :
      (P : OrSet T → Type κ) {s : OrSet T} {cs : List (OrSet T)} → Sent s cs → All P cs → P s
  All-Sent P (first e) h = subst P e h.0
  All-Sent P (later m) h = All-Sent P m h.1

module _ {ℓ} {T : Type ℓ} ⦃e : Eq T⦄ (build : Build) where
  -- A node writes to its replica under its own identifier, or takes in a copy.
  pub data Step : Network T → Network T → Type ℓ where
    adds :
        (w : Network T) (n : Bytes16) (value : T) (s' : OrSet T)
        → add build value n (w.replica n) ≡ done s'
        → Step w (store n s' w)
    removes :
        (w : Network T) (n : Bytes16) (value : T) → Step w (store n (remove value (w.replica n)) w)
    sends : (w : Network T) (n : Bytes16) → Step w (record w { sent = w.replica n ∷ w.sent })
    receives :
        (w : Network T) (n : Bytes16) (s : OrSet T)
        → Sent s w.sent
        → Step w (store n (merge (w.replica n) s) w)

  pub data Reachable : Network T → Type ℓ where
    initial : Reachable start
    next : {w w' : Network T} → Reachable w → Step w w' → Reachable w'

  -- A step does not use up the counter of a node: in a release build the next add would wrap.
  unfoldable pub StepHasRoom : {w w' : Network T} → Step w w' → Type 0
  StepHasRoom (adds w n value s' added) = seq_of n (w.replica n) + 1 < u64_mod
  StepHasRoom (removes w n value) = Unit
  StepHasRoom (sends w n) = Unit
  StepHasRoom (receives w n s m) = Unit

  -- Every add on the way had a counter below its last value.
  unfoldable pub HasRoom : {w : Network T} → Reachable w → Type 0
  HasRoom initial = Unit
  HasRoom (next r step) = HasRoom r × StepHasRoom step

module _ {ℓ} {T : Type ℓ} ⦃e : Eq T⦄ where
  -- What the owners of the nodes know of a set: it is well-formed, its dots are below its own
  -- counters, and its counters are not above those of the replicas that own the nodes.
  pub record IsKnown (owner : Bytes16 → OrSet T) (s : OrSet T) : Type ℓ where
    pub formed : IsWellFormed s
    pub tagged : IsTagged s
    pub counted : (n : Bytes16) → seq_of n s ≤ seq_of n (owner n)

  pub record IsSound (w : Network T) : Type ℓ where
    pub replicas : (n : Bytes16) → IsKnown w.replica (w.replica n)
    pub copies : All (IsKnown w.replica) w.sent

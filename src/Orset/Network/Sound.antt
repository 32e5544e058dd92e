-- ===== src/Orset/Network/Sound.antt =====
-- crates/mercury-crdt/src/orset.rs: what holds in every state of the replicas.
use mercury_messaging.Base.{
  ◌+◌, ◌≤◌, ◌<◌, ◌≡◌, refl, inl, inr, arith, done, Build, u64_mod, false, All, All-imp, Bool-cases,
}
use mercury_messaging.Order.{nat_ord, list_ord, same, eq_of_same, same_self}
use mercury_messaging.BTree
use mercury_messaging.HashMap.{Eq, get}
use mercury_messaging.HashMap.Bytes.{bytes_eq}
use mercury_messaging.Hlc.{Bytes16}
use mercury_messaging.Orset.Dots.{Dot, dot_ord}
use mercury_messaging.Orset.Defs.{OrSet, new, add, remove, merge}
use mercury_messaging.Orset.Laws.{IsWellFormed, merge-IsWellFormed}
use mercury_messaging.Orset.Fresh.{
  seq_of, HasDot, IsTagged, seq_of-add, add-IsTagged, remove-IsTagged, merge-IsTagged, seq_of-merge,
  add_fresh,
}
use mercury_messaging.Orset.Invariant.{new-IsWellFormed, add-IsWellFormed, remove-IsWellFormed}
use mercury_messaging.Orset.Network.{
  Network, store, start, All-Sent, Step, adds, removes, sends, receives, Reachable, initial, next,
  StepHasRoom, HasRoom, IsKnown, IsSound,
}

module _ {ℓ} {T : Type ℓ} ⦃e : Eq T⦄ where
  -- What is known stays known when a replica's own counter does not fall.
  store-IsKnown :
      (n : Bytes16) (s' : OrSet T) (w : Network T)
      → seq_of n (w.replica n) ≤ seq_of n s'
      → (s : OrSet T) → IsKnown w.replica s
      → IsKnown (store n s' w).replica s
  store-IsKnown n s' w grows s k = record {
    formed = k.formed;
    tagged = k.tagged;
    counted = λ m. elim (Bool-cases (same m n)) [
      | inl own ↦ rw own (rw (eq_of_same m n own) (let c = k.counted n in omega arith))
      | inr other ↦ rw other (k.counted m)
    ];
  }

  store-IsSound :
      (n : Bytes16) (s' : OrSet T) (w : Network T)
      → seq_of n (w.replica n) ≤ seq_of n s'
      → IsKnown (store n s' w).replica s'
      → IsSound w
      → IsSound (store n s' w)
  store-IsSound n s' w grows k v = record {
    replicas = λ m. elim (Bool-cases (same m n)) [
      | inl own ↦ rw own k
      | inr other ↦ rw other (store-IsKnown n s' w grows (w.replica m) (v.replicas m))
    ];
    copies = All-imp (store-IsKnown n s' w grows) w.sent v.copies;
  }

  -- A stored state that is as known as what the nodes had before.
  stored-IsKnown :
      (n : Bytes16) (s' : OrSet T) (w : Network T)
      → IsWellFormed s'
      → IsTagged s'
      → ((m : Bytes16) → same m n ≡ false → seq_of m s' ≤ seq_of m (w.replica m))
      → IsKnown (store n s' w).replica s'
  stored-IsKnown n s' w formed tagged others = record {
    formed = formed;
    tagged = tagged;
    counted = λ m. elim (Bool-cases (same m n)) [
      | inl own ↦ rw own (omega arith)
      | inr other ↦ rw other (others m other)
    ];
  }

  start-IsSound : IsSound (start {T = T})
  unfolding new get BTree.get
  start-IsSound = record {
    replicas = λ n. record {
      formed = new-IsWellFormed;
      tagged = λ q dot h. cc;
      counted = λ m. omega arith;
    };
    copies = tt;
  }

  seq_of-remove : (value : T) (s : OrSet T) (m : Bytes16) → seq_of m (remove value s) ≡ seq_of m s
  unfolding remove
  seq_of-remove value s m = refl

  Step-IsSound :
      (build : Build) {w w' : Network T} (step : Step build w w')
      → StepHasRoom build step
      → IsSound w
      → IsSound w'
  unfolding StepHasRoom
  Step-IsSound build (adds w n value s' added) room v =
      let k = v.replicas n in
      let counts = seq_of-add build value n (w.replica n) s' room added in
      store-IsSound n s' w (ground (arith, counts n, same_self n))
        (stored-IsKnown n s' w (add-IsWellFormed build value n (w.replica n) s' k.formed added)
          (add-IsTagged build value n (w.replica n) s' room added k.tagged)
          (λ m other. let c = k.counted m in ground (arith, counts m)))
        v
  Step-IsSound build (removes w n value) room v =
      let k = v.replicas n in
      let counts = λ (m : Bytes16). seq_of-remove value (w.replica n) m in
      store-IsSound n (remove value (w.replica n)) w (ground (arith, counts n))
        (stored-IsKnown n (remove value (w.replica n)) w
          (remove-IsWellFormed value (w.replica n) k.formed)
          (remove-IsTagged value (w.replica n) k.formed k.tagged)
          (λ m other. let c = k.counted m in ground (arith, counts m)))
        v
  Step-IsSound build (sends w n) room v = record {
    replicas = v.replicas;
    copies = (v.replicas n, v.copies);
  }
  Step-IsSound build (receives w n s m) room v =
      let k = v.replicas n in
      let c = All-Sent (IsKnown w.replica) m v.copies in
      let counts = λ (m : Bytes16). seq_of-merge (w.replica n) s m c.formed in
      store-IsSound n (merge (w.replica n) s) w (ground (arith, counts n))
        (stored-IsKnown n (merge (w.replica n) s) w
          (merge-IsWellFormed (w.replica n) s k.formed c.formed)
          (merge-IsTagged (w.replica n) s c.formed k.tagged c.tagged)
          (λ m other. ground (arith, counts m, k.counted m, c.counted m)))
        v

  -- Let replicas of one set come to a state by adds and removes of the owners of the nodes,
  -- and by copies that arrive late, again or never, and let the counter of the node have
  -- been below its last value at every add. Then all replicas and copies are well-formed, no
  -- dot is above the counter of its node, and no counter of a node is above that of the
  -- replica of its owner.
  pub Reachable-IsSound :
      (build : Build) {w : Network T} (r : Reachable build w) → HasRoom build r → IsSound w
  unfolding HasRoom
  Reachable-IsSound build initial room = start-IsSound
  Reachable-IsSound build (next r step) room =
      Step-IsSound build step (room.1) (Reachable-IsSound build r (room.0))

  -- Let a state of the replicas be reached by adds, removes and copies, with the counter of
  -- the node below its last value at every add; let the counter of a node be below its last
  -- value now, and let an add at its owner return. Then the new dot is in the entry of the
  -- value, and it was in no entry of any replica and of any copy that was sent.
  pub add_fresh_everywhere :
      (build : Build) {w : Network T} (n : Bytes16) (value : T) (s' : OrSet T)
      → (r : Reachable build w) → HasRoom build r
      → seq_of n (w.replica n) + 1 < u64_mod
      → add build value n (w.replica n) ≡ done s'
      → let dot : Dot = record { node_id = n; seq = seq_of n (w.replica n) + 1 } in
        HasDot s' value dot
        × ((m : Bytes16) (other : T) → ¬ HasDot (w.replica m) other dot)
        × All (λ s. (other : T) → ¬ HasDot s other dot) w.sent
  add_fresh_everywhere build {w} n value s' r before room added =
      let v = Reachable-IsSound build r before in
      let dot : Dot = record { node_id = n; seq = seq_of n (w.replica n) + 1 } in
      let fresh = λ (s : OrSet T) (k : IsKnown w.replica s) (other : T) (h : HasDot s other dot).
        let low = k.tagged other dot h in let high = k.counted n in absurd {A = ⊥} (omega arith) in
      (
        (add_fresh build value n (w.replica n) s' room added (v.replicas n).tagged).1,
        λ m. fresh (w.replica m) (v.replicas m),
        All-imp fresh w.sent v.copies,
      )

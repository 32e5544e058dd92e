-- ===== src/Sync/Client/Pull.antt =====
-- sdks/mercury-sdk-js/src/sync.ts: the pull loop of `syncChannel`.
use Prim.Native.Nat.{zero, suc}
use mercury_messaging.Base.{
  ℕ, ◌+◌, ◌≤◌, ◌<◌, ◌≡◌, refl, arith, List, [], ◌∷◌, ◌++◌, Bool, true, false, inl, inr,
  if◌then◌else◌, All, All-append, Outcome, done, Outcome-cases,
}
use mercury_messaging.Sync.Client.{
  Delta, Answer, Pulled, finished, rejected, out_of_fuel, prepend, pull,
}

-- The deltas are after the time.
abbrev pub Later : ℕ → List Delta → Type 0
Later t = All (λ (d : Delta). t < d.hlc_wall)

-- An answer carries only deltas after the time that was asked from, and its own time is not
-- before that.
pub record Answers (since : ℕ) (a : Answer) : Type 0 where
  pub later : Later since a.deltas
  pub forward : since ≤ a.server_hlc

abbrev pub IsSound : (ℕ → ℕ → Outcome Answer) → Type 0
IsSound ask = (round since : ℕ) (a : Answer) → ask round since ≡ done a → Answers since a

-- All deltas that the loop collected, however it ended.
abbrev pub collected : Pulled → List Delta
collected (finished ds wall) = ds
collected (rejected ds) = ds
collected (out_of_fuel ds) = ds

collected-prepend : (ds : List Delta) (p : Pulled) → collected (prepend ds p) ≡ ds ++ collected p
collected-prepend ds (finished more wall) = refl
collected-prepend ds (rejected more) = refl
collected-prepend ds (out_of_fuel more) = refl

Later-weaken : (t u : ℕ) (ds : List Delta) → t ≤ u → Later u ds → Later t ds
Later-weaken t u [] h a = tt
Later-weaken t u (d ∷ ds) h a = (omega (arith, a.0), Later-weaken t u ds h a.1)

Later-if :
    (t wall : ℕ) (more : Bool) (p : Pulled)
    → Later t (collected p)
    → Later t (collected (if more then p else finished [] wall))
Later-if t wall true p h = h
Later-if t wall false p h = tt

module _ (ask : ℕ → ℕ → Outcome Answer) (sound : IsSound ask) where
  -- What the loop collects is after the time that it starts from.
  pull-Later : (fuel round wall : ℕ) → Later wall (collected (pull fuel ask round wall))
  unfolding pull
  pull-Later zero round wall = tt
  pull-Later (suc fuel) round wall = elim (Outcome-cases (ask round wall)) [
    | inr e ↦ rw e tt
    | inl (a, e) ↦
        let s = sound round wall a e in
        rw (e, collected-prepend)
          (All-append _ a.deltas _ s.later (
            Later-weaken wall a.server_hlc _ s.forward (
              Later-if a.server_hlc a.server_hlc a.has_more _
                (pull-Later fuel (round + 1) a.server_hlc))))
  ]

  -- Let every answer carry only what is after the time that was asked from, with a time that is
  -- not before it. Then the loop collects what the first answer carries, and from then on only
  -- what is after the time of the first answer: what is older and was not in that answer, since
  -- there was more than an answer may carry, is skipped.
  pub pull_skips :
      (fuel wall : ℕ) (a : Answer)
      → ask 0 wall ≡ done a
      → (rest : List Delta) × (collected (pull (suc fuel) ask 0 wall) ≡ a.deltas ++ rest)
        × Later a.server_hlc rest
  unfolding pull
  pull_skips fuel wall a e =
      let p = if a.has_more then pull fuel ask 1 a.server_hlc else finished [] a.server_hlc in
      (
        collected p,
        rw e (collected-prepend a.deltas p),
        Later-if a.server_hlc a.server_hlc a.has_more (pull fuel ask 1 a.server_hlc)
            (pull-Later fuel 1 a.server_hlc),
      )

-- ===== src/Sync/Session.antt =====
-- The pull loop of sdks/mercury-sdk-js/src/sync.ts against the handler of `sync:request` in
-- apps/gateway/lib/gateway/binary_socket.ex.
use Prim.Native.Nat.{suc}
use mercury_messaging.Base.{
  false, Bool-cases, get_or, inl, inr, refl, ℕ, ◌≤◌, ◌<◌, ◌≡◌, ◌∙◌, refl, ap, arith, map, List, [],
  ◌∷◌, ◌++◌, Outcome, done, ◌>>=◌, Result, ok, err, >>=-eq-done, done_injective, panic_not_done,
  length, All-Has, All,
}
use mercury_messaging.MessageLog.{Bytes}
use mercury_messaging.Nif.Validate.{Atom}
use mercury_messaging.Nif.Clock.{hlc_merge, hlc_merge_forward}
use mercury_messaging.Sync.Server.{Row, Deltas, max_deltas, min, get_deltas}
use mercury_messaging.Sync.Server.Answer.{
  get_deltas_some, get_deltas_none, get_deltas_sound, get_deltas_in_time,
}
use mercury_messaging.Sync.Client.{finished, Delta, Answer, pull}
use mercury_messaging.Sync.Client.Pull.{Later, Answers, IsSound, collected, pull_skips}
use mercury_messaging.Sync.Request.{
  Server, delta_of, merged_wall, request_wall, answer_of, sync_request,
}

min-le : (a b : ℕ) → min a b ≤ b
min-le a b = ground arith

Later-map :
    (t : ℕ) (rows : List Row)
    → All (λ (r : Row). t < r.created_at) rows
    → Later t (map delta_of rows)
unfolding delta_of
Later-map t [] h = tt
Later-map t (r ∷ rows) h = (h.0, Later-map t rows h.1)

length-map : (rows : List Row) → length (map delta_of rows) ≡ length rows
length-map [] = refl
length-map (r ∷ rows) = omega (arith, length-map rows)

merged_wall-eq-done :
    (m : Result (ℕ × ℕ) Atom) (wall : ℕ)
    → merged_wall m ≡ done wall
    → (counter : ℕ) × (m ≡ ok (wall, counter))
merged_wall-eq-done (ok (w, c)) wall h = (c, let e = done_injective h in cc e)
merged_wall-eq-done (err e) wall h = panic_not_done h

request_wall_forward :
    (s : Server) (node_id : Bytes) (since counter wall : ℕ)
    → request_wall s node_id since counter ≡ done wall
    → (s.later ≤ wall) × (since ≤ wall)
unfolding request_wall
request_wall_forward s node_id since counter wall h =
    let (m, merged, matched) =
      >>=-eq-done (hlc_merge s.build s.clock s.later 0 node_id since counter node_id) merged_wall
        h in
    let (c, e) = merged_wall-eq-done m wall matched in
    hlc_merge_forward s.build s.clock s.later 0 node_id since counter node_id wall c
      (merged ∙ ap done e)

module _ (s : Server) (node_id : Bytes) (since limit counter : ℕ) (a : Answer)
    (answered : sync_request s node_id since limit counter ≡ done a) where
  sync_request-eq-done :
      (d : Deltas) × (wall : ℕ) × (get_deltas s.select s.now since (min limit 100) ≡ done d)
      × (request_wall s node_id since counter ≡ done wall)
      × (answer_of d wall ≡ a)
  unfolding sync_request
  sync_request-eq-done =
      let (d, got, rest) =
        >>=-eq-done (get_deltas s.select s.now since (min limit 100))
          (λ d. request_wall s node_id since counter >>= λ wall. done (answer_of d wall))
          answered in
      let (wall, merged, last) =
        >>=-eq-done (request_wall s node_id since counter) (λ wall. done (answer_of d wall)) rest in
      (d, wall, got, merged, done_injective last)

  -- An answer of the gateway carries at most 100 deltas, all of them after the time that was
  -- asked from, and its own time is not before that nor before the clock of the server.
  pub sync_request-Answers :
      Answers since a × (length a.deltas ≤ max_deltas) × (s.later ≤ a.server_hlc)
  unfolding answer_of
  sync_request-Answers =
      let (d, wall, got, merged, e) = sync_request-eq-done in
      let (present, asked) = get_deltas_in_time s.select s.now since (min limit 100) d got in
      let (short, sorted, from) =
        get_deltas_sound s.select s.now since (min limit 100) present asked d got in
      let (past, forward) = request_wall_forward s node_id since counter wall merged in
      rw (← e) (
        record {
          later = Later-map since d.deltas (All-Has _ d.deltas (λ r m. (from r m).1));
          forward = forward;
        },
        omega (arith, short, length-map d.deltas, min-le (min limit 100) max_deltas),
        past,
      )

-- The gateway as the client's loop meets it, round by round.
abbrev pub gateway : (ℕ → Server) → Bytes → ℕ → ℕ → Outcome Answer
gateway servers node_id round since = sync_request (servers round) node_id since 100 0

gateway-IsSound : (servers : ℕ → Server) (node_id : Bytes) → IsSound (gateway servers node_id)
gateway-IsSound servers node_id round since a e =
    (sync_request-Answers (servers round) node_id since 100 0 a e).0

-- Whatever the table holds and however the clocks go: of the messages up to the time of the
-- first answer, which is not before the clock of the server, a sync pulls only the at most 100
-- that the first answer carries, however many rounds the loop makes.
pub pull_from_gateway :
    (servers : ℕ → Server) (node_id : Bytes) (fuel wall : ℕ) (a : Answer)
    → gateway servers node_id 0 wall ≡ done a
    → (rest : List Delta) × (collected (pull (suc fuel) (gateway servers node_id) 0 wall)
        ≡ a.deltas ++ rest)
      × Later a.server_hlc rest
      × (length a.deltas ≤ max_deltas)
      × ((servers 0).later ≤ a.server_hlc)
pull_from_gateway servers node_id fuel wall a e =
    let (rest, all, later) =
      pull_skips (gateway servers node_id) (gateway-IsSound servers node_id) fuel wall a e in
    let (answers, few, past) = sync_request-Answers (servers 0) node_id wall 100 0 a e in
    (rest, all, later, few, past)

++-[] : (ds : List Delta) → ds ++ [] ≡ ds
++-[] [] = refl
++-[] (d ∷ ds) = ap (λ rest. d ∷ rest) (++-[] ds)

module _ (s : Server) (node_id : Bytes) (since : ℕ) (a : Answer)
    (answered : sync_request s node_id since 100 0 ≡ done a) where
  -- A request from a time that no row of the table is after is answered with nothing, and with no
  -- more to come.
  sync_request_last :
      (top : ℕ)
      → ((b n : ℕ) → All (λ (r : Row). r.created_at ≤ top) (get_or (s.select b n) []))
      → top ≤ since
      → (a.deltas ≡ []) × (a.has_more ≡ false)
  unfolding answer_of
  sync_request_last top old passed =
      let (d, wall, got, merged, e) = sync_request-eq-done s node_id since 100 0 a answered in
      let (present, asked) = get_deltas_in_time s.select s.now since 100 d got in
      let empty = get_deltas_none s.select s.now since 100 present asked d got top old passed in
      elim (Bool-cases d.has_more) [
        | inl more ↦
            absurd (
              get_deltas_some s.select s.now since 100 present asked d got (omega arith) more empty)
        | inr last ↦ rw (← e) (ap (map delta_of) empty, last)
      ]

-- Let the gateway answer the first request of a pull, and a second one from the time of the
-- first answer, and let the table of the second hold no message after the clock of the server
-- at the first. Then the pull loop ends after at most two rounds, with what the first answer
-- carried and a time that is not before that of the first answer.
pub pull_from_gateway_ends :
    (servers : ℕ → Server) (node_id : Bytes) (fuel wall : ℕ) (a b : Answer)
    → gateway servers node_id 0 wall ≡ done a
    → gateway servers node_id 1 a.server_hlc ≡ done b
    → ((bucket n : ℕ)
        → All
            (λ (r : Row). r.created_at ≤ (servers 0).later)
            (get_or ((servers 1).select bucket n) []))
    → (last : ℕ) × (pull (suc (suc fuel)) (gateway servers node_id) 0 wall ≡ finished a.deltas last)
      × (a.server_hlc ≤ last)
unfolding pull
pull_from_gateway_ends servers node_id fuel wall a b first second old =
    let (answers, few, past) = sync_request-Answers (servers 0) node_id wall 100 0 a first in
    let (again, short, later) =
      sync_request-Answers (servers 1) node_id a.server_hlc 100 0 b second in
    let (empty, last) = sync_request_last (servers 1) node_id a.server_hlc b second _ old past in
    elim (Bool-cases a.has_more) [
      | inr over ↦ (
        a.server_hlc,
        rw (first, over) (ap (λ ds. finished ds a.server_hlc) (++-[] a.deltas)),
        omega arith,
      )
      | inl more ↦ (
        b.server_hlc,
        rw (first, more, second, last, empty)
            (ap (λ ds. finished ds b.server_hlc) (++-[] a.deltas)),
        again.forward,
      )
    ]

-- ===== src/Sync/Queue/Laws.antt =====
-- sdks/mercury-sdk-js/src/offline-queue.ts: the queue as a list from which a batch is taken at the
-- front.
use Prim.Native.Nat.{zero, suc}
use mercury_messaging.Base.{
  ℕ, ◌+◌, ◌≤◌, ◌<◌, ◌≡◌, refl, arith, List, [], ◌∷◌, ◌++◌, ltb, leb, false, Bool-cases, inl, inr,
  if◌then◌else◌, length, take, drop, length-append,
}
use mercury_messaging.MessageLog.{Bytes}
use mercury_messaging.Sync.Queue.{
  Queued, QueueStore, max_queue_size, queue_size, dequeue, above, clear_queue, last_id, add,
  evict_first, enqueue, ack,
}

module _ {ℓ} {P : Type ℓ} where
  -- The keys ascend from `low` on and stay below `next`.
  abbrev pub Ascending : ℕ → ℕ → List (Queued P) → Type 0
  Ascending low next [] = low ≤ next
  Ascending low next (m ∷ ms) = (low ≤ m.id) × Ascending (m.id + 1) next ms

  pub record IsOrdered (q : QueueStore P) : Type 0 where
    pub ascending : Ascending 0 q.next_id q.items
    pub bounded : length q.items ≤ max_queue_size

  Ascending-weaken :
      (low low' next : ℕ) (ms : List (Queued P))
      → low' ≤ low
      → Ascending low next ms
      → Ascending low' next ms
  Ascending-weaken low low' next [] h a = omega arith
  Ascending-weaken low low' next (m ∷ ms) h a = (omega arith, a.1)

  above-Ascending :
      (up_to low next : ℕ) (ms : List (Queued P))
      → Ascending low next ms
      → Ascending low next (above up_to ms)
  unfolding above
  above-Ascending up_to low next [] a = a
  above-Ascending up_to low next (m ∷ ms) a = elim (Bool-cases (ltb up_to m.id)) [
    | inl later ↦ rw later (a.0, above-Ascending up_to (m.id + 1) next ms a.1)
    | inr early ↦ rw early (
        Ascending-weaken (m.id + 1) low next (above up_to ms) (omega (arith, a.0))
          (above-Ascending up_to (m.id + 1) next ms a.1))
  ]

  length-above-le : (up_to : ℕ) (ms : List (Queued P)) → length (above up_to ms) ≤ length ms
  unfolding above
  length-above-le up_to [] = omega arith
  length-above-le up_to (m ∷ ms) = ground (arith, length-above-le up_to ms)

  above-all :
      (up_to low next : ℕ) (ms : List (Queued P))
      → up_to < low
      → Ascending low next ms
      → above up_to ms ≡ ms
  unfolding above
  above-all up_to low next [] h a = refl
  above-all up_to low next (m ∷ ms) h a = ground (arith, above-all up_to (m.id + 1) next ms)

  Ascending-snoc :
      (low next : ℕ) (m : Queued P) (ms : List (Queued P))
      → m.id ≡ next
      → Ascending low next ms
      → Ascending low (next + 1) (ms ++ (m ∷ []))
  Ascending-snoc low next m [] e a = (omega arith, omega arith)
  Ascending-snoc low next m (x ∷ ms) e a = (a.0, Ascending-snoc (x.id + 1) next m ms e a.1)

  last_id-ge :
      (n low next : ℕ) (ms : List (Queued P))
      → Ascending low next ms
      → 0 < length (take n ms)
      → low ≤ last_id (take n ms)
  unfolding take
  last_id-ge zero low next ms a h = absurd (omega arith)
  last_id-ge (suc n) low next [] a h = absurd (omega arith)
  last_id-ge (suc zero) low next (m ∷ ms) a h = a.0
  last_id-ge (suc (suc n)) low next (m ∷ []) a h = a.0
  last_id-ge (suc (suc n)) low next (m ∷ x ∷ ms) a h =
      omega (arith, a.0, last_id-ge (suc n) (m.id + 1) next (x ∷ ms) a.1 (omega arith))

  pub above-last_id :
      (n low next : ℕ) (ms : List (Queued P))
      → Ascending low next ms
      → 0 < length (take n ms)
      → above (last_id (take n ms)) ms ≡ drop n ms
  unfolding above take drop
  above-last_id zero low next ms a h = absurd (omega arith)
  above-last_id (suc n) low next [] a h = absurd (omega arith)
  above-last_id (suc zero) low next (m ∷ ms) a h = ground (arith, above-all m.id (m.id + 1) next ms)
  above-last_id (suc (suc n)) low next (m ∷ []) a h = ground arith
  above-last_id (suc (suc n)) low next (m ∷ x ∷ ms) a h =
      let past = last_id-ge (suc n) (m.id + 1) next (x ∷ ms) a.1 (omega arith) in
      let rest = above-last_id (suc n) (m.id + 1) next (x ∷ ms) a.1 (omega arith) in
      let first : ltb (last_id (take (suc n) (x ∷ ms))) m.id ≡ false = ground arith in rw first rest

  clear_queue-IsOrdered :
      (up_to : ℕ) (q : QueueStore P) → IsOrdered q → IsOrdered (clear_queue up_to q)
  unfolding clear_queue
  clear_queue-IsOrdered up_to q v = record {
    ascending = above-Ascending up_to 0 q.next_id q.items v.ascending;
    bounded = omega (arith, v.bounded, length-above-le up_to q.items);
  }

  -- Acknowledging the last key of a batch from the front removes exactly that batch.
  pub ack-last_id :
      (n : ℕ) (q : QueueStore P)
      → IsOrdered q
      → 0 < length (dequeue n q)
      → ack (last_id (dequeue n q)) q ≡ record q { items = drop n q.items }
  unfolding ack clear_queue dequeue
  ack-last_id n q v h = let e = above-last_id n 0 q.next_id q.items v.ascending h in cc e

  evict_first_lem :
      (q : QueueStore P)
      → IsOrdered q
      → evict_first (take 1 q.items) q ≡ record q { items = drop 1 q.items }
  unfolding evict_first clear_queue above take drop
  evict_first_lem q v = go q.items v.ascending refl
    where
      go :
          (ms : List (Queued P))
          → Ascending 0 q.next_id ms
          → q.items ≡ ms
          → evict_first (take 1 ms) q ≡ record q { items = drop 1 ms }
      go [] a e = cc e
      go (m ∷ ms) a e =
          let rest = above-all m.id (m.id + 1) q.next_id ms (omega arith) a.1 in ground arith

  -- The messages that stay when a new one comes.
  abbrev pub kept : List (Queued P) → List (Queued P)
  kept ms = if leb max_queue_size (length ms) then drop 1 ms else ms

  kept-Ascending :
      (next : ℕ) (ms : List (Queued P)) → Ascending 0 next ms → Ascending 0 next (kept ms)
  unfolding drop
  kept-Ascending next [] a = a
  kept-Ascending next (m ∷ ms) a = elim (Bool-cases (leb max_queue_size (length (m ∷ ms)))) [
    | inl full ↦ rw full (Ascending-weaken (m.id + 1) 0 next ms (omega arith) a.1)
    | inr room ↦ rw room a
  ]

  length-kept-lt :
      (ms : List (Queued P)) → length ms ≤ max_queue_size → length (kept ms) < max_queue_size
  unfolding drop
  length-kept-lt [] h = omega arith
  length-kept-lt (m ∷ ms) h = ground arith

  -- On an ordered queue - keys ascending below the next one, at most 10000 messages - an
  -- enqueue puts the message at the end under the next key, and removes the first message
  -- exactly if 10000 were there; the queue is ordered again.
  pub enqueue_lem :
      (channel_id event : Bytes) (payload : P) (now : ℕ) (q : QueueStore P)
      → IsOrdered q
      → (enqueue channel_id event payload now q ≡ record {
        items =
            kept q.items
            ++ (record {
              id = q.next_id;
              channel_id = channel_id;
              event = event;
              payload = payload;
              created_at = now;
            }
                ∷ []);
        next_id = q.next_id + 1;
      })
        × IsOrdered (enqueue channel_id event payload now q)
  unfolding enqueue add dequeue queue_size
  enqueue_lem channel_id event payload now q v =
      let m : Queued P = record {
        id = q.next_id;
        channel_id = channel_id;
        event = event;
        payload = payload;
        created_at = now;
      } in
      let e : enqueue channel_id event payload now q
          ≡ record { items = kept q.items ++ (m ∷ []); next_id = q.next_id + 1 } =
        elim (Bool-cases (leb max_queue_size (length q.items))) [
          | inl full ↦ rw full (rw (evict_first_lem q v) refl)
          | inr room ↦ rw room refl
        ] in
      (
        e,
        rw e (record {
          ascending =
              Ascending-snoc 0 q.next_id m (kept q.items) refl
                (kept-Ascending q.next_id q.items v.ascending);
          bounded =
              omega
                (arith, length-kept-lt q.items v.bounded, length-append (kept q.items) (m ∷ []));
        }),
      )

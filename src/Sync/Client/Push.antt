-- ===== src/Sync/Client/Push.antt =====
-- sdks/mercury-sdk-js/src/sync.ts: the push of `syncChannel`, and what stays in the queue.
use mercury_messaging.Base.{
  ℕ, ◌≤◌, ◌<◌, ◌≡◌, ◌≢◌, refl, sym, ap, ◌∙◌, arith, List, [], ◌∷◌, map, get_or, length, take, drop,
  Has, Outcome, done,
}
use mercury_messaging.Order.{nat_ord, list_ord, eq_of_same}
use mercury_messaging.HashMap.{get}
use mercury_messaging.HashMap.Bytes.{bytes_eq}
use mercury_messaging.MessageLog.{Bytes}
use mercury_messaging.Sync.Queue.{
  Queued, drain, dequeue, drain_batch_size, above, clear_queue, ack, last_id,
}
use mercury_messaging.Sync.Queue.Laws.{IsOrdered, ack-last_id}
use mercury_messaging.Sync.Client.{
  Offline, LocalStore, Delta, Answer, finished, pull, of_channel, envelope_of, Pushed, synced,
  push_pending, after_pull, sync_channel,
}

Has-above :
    (m : Queued Offline) (up_to : ℕ) (ms : List (Queued Offline))
    → Has m (above up_to ms)
    → up_to < m.id
unfolding above
Has-above m up_to [] h = absurd h
Has-above m up_to (x ∷ ms) h = ground (arith, Has-above m up_to ms)

Has-of_channel :
    (m : Queued Offline) (c : Bytes) (ms : List (Queued Offline))
    → Has m (of_channel c ms)
    → m.channel_id ≡ c
unfolding of_channel
Has-of_channel m c [] h = absurd h
Has-of_channel m c (x ∷ ms) h = ground (arith, Has-of_channel m c ms, eq_of_same x.channel_id c)

module _ (push : List Pushed → Outcome ℕ) (channel : Bytes) (fuel : ℕ)
    (ask : ℕ → ℕ → Outcome Answer) (s : LocalStore) (deltas : List Delta) (wall accepted : ℕ)
    (pulled : pull fuel ask 0 (get_or (get channel s.sync_state) 0) ≡ finished deltas wall)
    (first : Queued Offline) (others : List (Queued Offline))
    (mine : of_channel channel (drain s.queue) ≡ first ∷ others)
    (answered : push (map envelope_of (first ∷ others)) ≡ done accepted) where
  abbrev last : ℕ
  last = last_id (first ∷ others)

  sync_channel_pushed :
      let (s', result) = sync_channel push channel fuel ask s in
      (s'.queue ≡ ack last s.queue) × (result ≡ synced (length deltas) accepted)
  unfolding sync_channel after_pull push_pending
  sync_channel_pushed = rw pulled (rw mine (rw answered (refl, refl)))

  -- When the pull of a channel ends and the push of its queued messages is answered, every
  -- message of another channel whose key is at most that of the last pushed one is gone from
  -- the queue, and it was not among the pushed ones.
  pub sync_loses_others :
      (m : Queued Offline)
      → m.channel_id ≢ channel
      → m.id ≤ last
      → ¬ Has m (sync_channel push channel fuel ask s).0.queue.items × (¬ Has m (first ∷ others))
  unfolding ack clear_queue
  sync_loses_others m other low = (
    λ h.
        let kept : Has m (above last s.queue.items) = rw (sync_channel_pushed.0) at h in
        let high = Has-above m last s.queue.items kept in absurd {A = ⊥} (omega arith),
    λ h. other (Has-of_channel m channel (drain s.queue) (rw mine h)),
  )

  -- If the queue is ordered and the first 100 messages all are of the channel, then exactly
  -- these are pushed and leave the queue.
  pub sync_takes_batch :
      IsOrdered s.queue
      → of_channel channel (drain s.queue) ≡ drain s.queue
      → (first ∷ others ≡ take drain_batch_size s.queue.items)
        × ((sync_channel push channel fuel ask s).0.queue
            ≡ record s.queue { items = drop drain_batch_size s.queue.items })
        × ((sync_channel push channel fuel ask s).1 ≡ synced (length deltas) accepted)
  unfolding drain dequeue
  sync_takes_batch ordered alone =
      let batch : first ∷ others ≡ take drain_batch_size s.queue.items = sym mine ∙ alone in
      (
        batch,
        sync_channel_pushed.0
            ∙ ap (λ b. ack (last_id b) s.queue) batch
            ∙ ack-last_id drain_batch_size s.queue ordered (rw (← batch) (omega arith)),
        sync_channel_pushed.1,
      )

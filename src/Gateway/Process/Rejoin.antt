-- ===== src/Gateway/Process/Rejoin.antt =====
-- apps/gateway/lib/gateway/binary_socket.ex: a channel that is joined under two ids, and left under the
-- first of them.
use mercury_messaging.Base.{ℕ, ◌+◌, ◌<◌, ◌≡◌, refl, arith, [], none, some, done, ◌>>=◌}
use mercury_messaging.MessageLog.{Bytes}
use mercury_messaging.HashMap.{HashMap, IsDistinct, get, remove}
use mercury_messaging.HashMap.Bytes.{bytes_eq, nat_eq}
use mercury_messaging.HashMap.Lookup.{get-upsert, get-remove, upsert-IsDistinct}
use mercury_messaging.Gateway.Hex.{channel_id_to_bin}
use mercury_messaging.Gateway.Socket.{Socket, Output, Info, put, bind_topic, handle_leave, leave}
use mercury_messaging.Gateway.Socket.Invariant.{IsSound}
use mercury_messaging.Gateway.Join.{
  Persistence, is_member, strip_prefix, channel_prefix, pubsub_name, handle_join,
}
use mercury_messaging.Gateway.Join.Accepted.{accepted, handle_join-accepted}
use mercury_messaging.Gateway.Process.{handle_broadcast, broadcast_to}

held :
    (n : ℕ) (info : Info) (ids : HashMap ℕ Info)
    → get n (put (n + 1) info (put n info ids)) ≡ some info
held n info ids = ground (
  arith,
  get-upsert n (n + 1) info (λ _. info) (put n info ids),
  get-upsert n n info (λ _. info) ids,
)

still_held :
    (n : ℕ) (info : Info) (ids : HashMap ℕ Info)
    → IsDistinct ids
    → get (n + 1) (remove n (put (n + 1) info (put n info ids))) ≡ some info
still_held n info ids v = ground (
  arith,
  get-remove (n + 1) n (put (n + 1) info (put n info ids))
      (upsert-IsDistinct (n + 1) info (λ _. info) _ (upsert-IsDistinct n info (λ _. info) ids v)),
  get-upsert (n + 1) (n + 1) info (λ _. info) (put n info ids),
)

removed :
    (p : Bytes) (a b : ℕ) (names : HashMap Bytes ℕ)
    → IsDistinct names
    → get p (remove p (put p b (put p a names))) ≡ none
removed p a b names v = ground (
  arith,
  get-remove p p (put p b (put p a names))
      (upsert-IsDistinct p b (λ _. b) _ (upsert-IsDistinct p a (λ _. a) names v)),
  bytes_eq.beq_iff p p,
)

module _ (db : Persistence) (topic id bin : Bytes) where
  -- Let a member of a channel join it from a sound socket with two free ids, join it again,
  -- and leave the first id, with a cache that can be warmed. Then the second id is still
  -- joined to the channel, and a broadcast of the channel sends no frame.
  pub rejoin_drops_broadcasts :
      (ref again : ℕ) (s : Socket)
      → IsSound s
      → s.next_topic_id < 65535
      → strip_prefix channel_prefix topic ≡ some id
      → channel_id_to_bin id ≡ some bin
      → db.member s.tenant_id bin s.user_id ≡ is_member
      → db.warm_user_cache s.tenant_id s.user_id ≡ done tt
      → (out : Output) × ((handle_join db ref topic s >>= λ a.
            handle_join db again topic a.socket >>= λ b.
            done (handle_leave s.next_topic_id b.socket))
          ≡ done out)
        × (get (s.next_topic_id + 1) out.socket.topic_ids
            ≡ some (record {
              topic = topic;
              channel_id = some id;
              pubsub = some (pubsub_name s.tenant_id channel_prefix id);
            }))
        × ((event : ℕ) (payload : Bytes)
            → (handle_broadcast
                (pubsub_name s.tenant_id channel_prefix id)
                event
                payload
                out.socket).frames
              ≡ [])
  unfolding accepted bind_topic handle_leave leave handle_broadcast broadcast_to
  rejoin_drops_broadcasts ref again s v room named good known warm =
      let n = s.next_topic_id in
      let pubsub = pubsub_name s.tenant_id channel_prefix id in
      let info : Info = record { topic = topic; channel_id = some id; pubsub = some pubsub } in
      let ids = put (n + 1) info (put n info s.topic_ids) in
      let names = put pubsub (n + 1) (put pubsub n s.pubsub_topics) in
      let first : get n ids ≡ some info = held n info s.topic_ids in
      let second : get (n + 1) (remove n ids) ≡ some info =
        still_held n info s.topic_ids v.distinct_ids in
      let gone : get pubsub (remove pubsub names) ≡ none =
        removed pubsub n (n + 1) s.pubsub_topics v.distinct_pubsub in
      rw
        (
          handle_join-accepted db topic id bin ref s named good known warm (omega (arith, room)),
          handle_join-accepted db topic id bin again (accepted ref topic id s).socket named good
              known warm (omega (arith, room)),
          first,
        )
        (_, refl, second, λ event payload. rw gone refl)

-- ===== src/Gateway/Join/Accepted.antt =====
-- apps/gateway/lib/gateway/binary_socket.ex: the join of a channel by a member of it.
use mercury_messaging.Base.{ℕ, ◌+◌, ◌<◌, ◌≡◌, refl, arith, [], ◌∷◌, ltb, false, some, done}
use mercury_messaging.MessageLog.{Bytes}
use mercury_messaging.Gateway.Act.{subscribes, broadcasts_from, warms_user_cache}
use mercury_messaging.Gateway.Hex.{channel_id_to_bin}
use mercury_messaging.Gateway.Socket.{
  Socket, Output, bind_topic, allocate_topic_id, reply, status_ok, ev_presence_join,
}
use mercury_messaging.Gateway.Join.{
  Persistence, is_member, strip_prefix, channel_prefix, pubsub_name, do_join, handle_join,
  by_prefix, join_channel, admit_allocated, admit, answer_join,
}

-- What a member's join of a channel gives.
unfoldable pub accepted : ℕ → Bytes → Bytes → Socket → Output
accepted ref topic id s =
    let pubsub = pubsub_name s.tenant_id channel_prefix id in
    record {
      socket =
          bind_topic topic s.next_topic_id id pubsub
            (record s { next_topic_id = s.next_topic_id + 1 });
      calls =
          subscribes pubsub
          ∷ warms_user_cache s.tenant_id s.user_id
          ∷ broadcasts_from pubsub ev_presence_join s.user_id
          ∷ [];
      frames = reply ref s.next_topic_id status_ok [] ∷ [];
    }

module _ (db : Persistence) (topic id bin : Bytes) where
  pub handle_join-accepted :
      (ref : ℕ) (s : Socket)
      → strip_prefix channel_prefix topic ≡ some id
      → channel_id_to_bin id ≡ some bin
      → db.member s.tenant_id bin s.user_id ≡ is_member
      → db.warm_user_cache s.tenant_id s.user_id ≡ done tt
      → s.next_topic_id < 65536
      → handle_join db ref topic s ≡ done (accepted ref topic id s)
  unfolding handle_join do_join by_prefix join_channel admit_allocated admit answer_join
      allocate_topic_id accepted
  handle_join-accepted ref s named good known warm room =
      let allowed : ltb 65535 s.next_topic_id ≡ false = ground (arith, room) in
      rw (named, good, allowed, known, warm) refl

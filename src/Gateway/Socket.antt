-- ===== src/Gateway/Socket.antt =====
-- apps/gateway/lib/gateway/binary_socket.ex: the state of the process, `allocate_topic_id`, the maps of
-- the topics, and `handle_leave`.
pub mod Invariant
pub mod Left
use Prim.Native.Nat.{zero, suc}
use mercury_messaging.Base.{
  ℕ, ◌+◌, ◌^◌, List, [], ◌∷◌, ◌++◌, Bool, true, false, ltb, ◌==◌, if◌then◌else◌, Option, none, some,
  Outcome, done, panic, Result, ok, err,
}
use mercury_messaging.MessageLog.{Bytes}
use mercury_messaging.HashMap.{Eq, HashMap, get, upsert, remove}
use mercury_messaging.HashMap.Bytes.{bytes_eq, nat_eq}
use mercury_messaging.Frame.{Frame, encode_frame, frame_reply}
use mercury_messaging.Gateway.Hex.{encode16, channel_id_to_bin}
use mercury_messaging.Gateway.Act.{
  Call, subscribes, unsubscribes, broadcasts_from, warms_user_cache,
}

pub record Info : Type 0 where
  pub topic : Bytes
  pub channel_id : Option Bytes
  pub pubsub : Option Bytes

pub record Socket : Type 0 where
  pub tenant_id : Bytes
  pub user_id : Bytes
  pub device_id : Bytes
  pub topics : HashMap Bytes ℕ
  pub next_topic_id : ℕ
  pub topic_ids : HashMap ℕ Info
  pub pubsub_topics : HashMap Bytes ℕ
  pub missed_heartbeats : ℕ

-- `init`, but for its calls of the registry, the provisioning and the consumer.
unfoldable pub init : Bytes → Bytes → Bytes → Socket
init tenant user device = record {
  tenant_id = tenant;
  user_id = user;
  device_id = device;
  topics = [];
  next_topic_id = 1;
  topic_ids = [];
  pubsub_topics = [];
  missed_heartbeats = 0;
}

-- `Map.put`
abbrev pub put {ℓ κ} : {K : Type ℓ} {V : Type κ} ⦃e : Eq K⦄ → K → V → HashMap K V → HashMap K V
put k v m = upsert k v (λ _. v) m

-- What a handler leaves: the socket, its calls, and the frames that it sends.
pub record Output : Type 0 where
  pub socket : Socket
  pub calls : List Call
  pub frames : List Bytes

-- `<<@reply, ref::32-little, topic_id::16-little, status, data::binary>>`
unfoldable pub reply : ℕ → ℕ → ℕ → Bytes → Bytes
reply ref topic_id status payload =
    encode_frame
      (record { kind = frame_reply; ref = ref; topic_id = topic_id; payload = status ∷ payload })

abbrev pub status_ok : ℕ
status_ok = 0

abbrev pub status_error : ℕ
status_error = 1

abbrev pub ev_presence_join : ℕ
ev_presence_join = 15

-- Why a join does not succeed. `:invalid_channel_id` is an atom, `call_failed` no reason but a call that
-- raised or exited, the others are texts.
pub data Reason : Type 0 where
  invalid_channel_id call_failed not_a_member membership_check_failed too_many_topics
        unknown_topic :
      Reason

unfoldable pub allocate_topic_id : Socket → Result (ℕ × Socket) Reason
allocate_topic_id s =
    if ltb 65535 s.next_topic_id
    then err too_many_topics
    else ok (s.next_topic_id, record s { next_topic_id = s.next_topic_id + 1 })

-- The maps with the topic under its new id.
unfoldable pub bind_topic : Bytes → ℕ → Bytes → Bytes → Socket → Socket
bind_topic topic id channel_id pubsub s = record s {
  topics = put topic id s.topics;
  topic_ids =
      put id (record { topic = topic; channel_id = some channel_id; pubsub = some pubsub })
        s.topic_ids;
  pubsub_topics = put pubsub id s.pubsub_topics;
}

unfoldable pub bind_lobby : Bytes → ℕ → Socket → Socket
bind_lobby topic id s = record s {
  topics = put topic id s.topics;
  topic_ids = put id (record { topic = topic; channel_id = none; pubsub = none }) s.topic_ids;
}

-- `if(info[:pubsub], do: Map.delete(..), else: ..)`
abbrev pub forget : Option Bytes → HashMap Bytes ℕ → HashMap Bytes ℕ
forget none m = m
forget (some pubsub) m = remove pubsub m

abbrev pub unsubscribe : Option Bytes → List Call
unsubscribe none = []
unsubscribe (some pubsub) = unsubscribes pubsub ∷ []

unfoldable pub leave : ℕ → Option Info → Socket → Output
leave id none s = record { socket = s; calls = []; frames = [] }
leave id (some info) s = record {
  socket = record s {
    topics = remove info.topic s.topics;
    topic_ids = remove id s.topic_ids;
    pubsub_topics = forget info.pubsub s.pubsub_topics;
  };
  calls = unsubscribe info.pubsub;
  frames = [];
}

unfoldable pub handle_leave : ℕ → Socket → Output
unfolding leave
handle_leave id s = leave id (get id s.topic_ids) s

-- ===== src/Gateway/Messages.antt =====
-- apps/gateway/lib/gateway/binary_socket.ex: the clauses of `dispatch` for messages, typing and
-- read receipts.
use mercury_messaging.Base.{Result, ok, err, ℕ, ◌≡◌, List, [], ◌∷◌, if◌then◌else◌, none, codes}
use mercury_messaging.MessageLog.{Bytes}
use mercury_messaging.Frame.Words.{of_le32}
use mercury_messaging.Frame.{pack_envelopes}
use mercury_messaging.Sync.Server.{Row, min}
use mercury_messaging.Gateway.Hex.{channel_id_to_bin}
use mercury_messaging.Gateway.Act.{
  Act, broadcasts, broadcasts_from, persists, reads_up_to, give, lift, await, fetch_key, tell,
  ◌>>=◌, ◌>>◌, Gives, Gives-bind, Gives-then, Gives-if, Lasts, give-Lasts, lasts_rules,
}
use mercury_messaging.Gateway.Socket.{Socket, Info}
use mercury_messaging.Gateway.Reply.{
  Answer, replies, refuses, or_refuse, with_fields, with_channel, Replies, reply_rules, silent,
}
use mercury_messaging.Gateway.Services.{Services, Envelope, IsUp, safe_nif_call}

abbrev pub ev_msg_new : ℕ
ev_msg_new = 2

abbrev pub ev_msg_typing : ℕ
ev_msg_typing = 4

abbrev pub ev_msg_read : ℕ
ev_msg_read = 5

-- `Enum.map(msgs, fn m -> envelope_encode(..) end)`
unfoldable pub encode_rows : Services → Bytes → Bytes → List Row → Act (List Bytes)
encode_rows v tenant channel [] = give []
encode_rows v tenant channel (r ∷ rows) = do
  env ← lift (
      v.envelope_encode (record {
        tenant_id = tenant;
        channel_id = channel;
        sender_id = r.sender_id;
        message_id = r.message_id;
        timestamp = r.created_at;
        payload = r.encrypted_content;
      }))
  envs ← encode_rows v tenant channel rows
  give (env ∷ envs)

-- The first four bytes, or 50.
unfoldable pub history_limit : Bytes → ℕ
history_limit (a ∷ b ∷ c ∷ d ∷ rest) = min (of_le32 a b c d) 100
history_limit _ = 50

-- `{:ok, {_uid, mid}}`, which `{:ok, {:error, text}}` matches too.
unfoldable pub read_message : Result (Bytes × Bytes) Bytes → Bytes
read_message (ok (user, message)) = message
read_message (err text) = text

module _ (v : Services) (s : Socket) (ref topic_id : ℕ) (payload : Bytes) (info : Info) where
  -- The message of a decoded envelope, after its validation and the rate limit.
  store_and_broadcast : Bytes → Envelope → Answer
  store_and_broadcast channel e = do
    bucket ← lift (v.compute_time_bucket e.timestamp)
    tell v.does (
        persists channel bucket (record {
          message_id = e.message_id;
          sender_id = s.user_id;
          encrypted_content = e.payload;
          content_type = 0;
          created_at = e.timestamp;
        }))
    out ← lift (
        v.envelope_encode
          (record e { tenant_id = s.tenant_id; channel_id = channel; sender_id = s.user_id }))
    pubsub ← fetch_key info.pubsub
    tell v.does (broadcasts pubsub ev_msg_new out)
    replies ref topic_id e.message_id

  unfoldable pub msg_send : Answer
  unfolding store_and_broadcast
  msg_send = do
    channel_id ← fetch_key info.channel_id
    with_channel ref topic_id (channel_id_to_bin channel_id) (λ channel.
        with_fields ref topic_id (safe_nif_call (v.envelope_decode payload)) (λ e.
          lift (v.validate_message s.tenant_id channel s.user_id e.payload 0) >>= λ valid.
          or_refuse ref topic_id valid (λ _. await (v.allow s.tenant_id s.user_id) >>= λ allowed.
          if allowed
          then store_and_broadcast channel e
          else refuses ref topic_id (codes "rate_limited"))))

  unfoldable pub msg_history : Answer
  msg_history = do
    channel_id ← fetch_key info.channel_id
    with_channel ref topic_id (channel_id_to_bin channel_id) (λ channel.
        await (v.read_recent s.tenant_id channel (history_limit payload)) >>= λ rows.
        encode_rows v s.tenant_id channel rows >>= λ envelopes.
        replies ref topic_id (pack_envelopes envelopes))

  unfoldable pub msg_typing : Answer
  msg_typing = do
    bin ← lift (v.typing_encode s.user_id)
    pubsub ← fetch_key info.pubsub
    tell v.does (broadcasts_from pubsub ev_msg_typing bin)
    give none

  unfoldable pub msg_read : Answer
  msg_read = or_refuse ref topic_id (safe_nif_call (v.read_receipt_decode payload)) (λ receipt.
      fetch_key info.channel_id >>= λ channel_id.
      tell v.does (reads_up_to channel_id (read_message receipt))
      >> lift (v.read_receipt_encode s.user_id (read_message receipt))
      >>= λ out. fetch_key info.pubsub >>= λ pubsub.
          tell v.does (broadcasts_from pubsub ev_msg_read out) >> replies ref topic_id [])

  module _ (up : IsUp v) where
    store_and_broadcast-Replies :
        (channel : Bytes) (e : Envelope)
        → Gives (Replies ref topic_id) (store_and_broadcast channel e)
    unfolding store_and_broadcast
    store_and_broadcast-Replies channel e = search (reply_rules, up.does) depth 12

    encode_rows-Lasts :
        (tenant channel : Bytes) (rows : List Row) → Lasts (encode_rows v tenant channel rows)
    unfolding encode_rows
    encode_rows-Lasts tenant channel [] = give-Lasts []
    encode_rows-Lasts tenant channel (r ∷ rows) =
        search (lasts_rules, encode_rows-Lasts tenant channel rows) depth 12

    pub msg_send-Replies : Gives (Replies ref topic_id) msg_send
    unfolding msg_send
    msg_send-Replies =
        search (reply_rules, Gives-if, store_and_broadcast-Replies, up.allow) depth 16

    pub msg_history-Replies : Gives (Replies ref topic_id) msg_history
    unfolding msg_history
    msg_history-Replies = search (reply_rules, up.read_recent, encode_rows-Lasts) depth 12

    pub msg_read-Replies : Gives (Replies ref topic_id) msg_read
    unfolding msg_read
    msg_read-Replies = search (reply_rules, up.does) depth 16

    pub msg_typing_silent : Gives (λ frame. frame ≡ none) msg_typing
    unfolding msg_typing
    msg_typing_silent = search (lasts_rules, Gives-bind, Gives-then, silent, up.does) depth 12

-- ===== src/Gateway/Channels.antt =====
-- apps/gateway/lib/gateway/binary_socket.ex: the clauses of `dispatch` for sync, for the creation of a
-- channel, and for presence.
use mercury_messaging.Base.{
  ℕ, ◌≡◌, List, [], ◌∷◌, ◌++◌, leb, ◌&&◌, if◌then◌else◌, Option, none, some, Result, ok, err, codes,
  length, take,
}
use mercury_messaging.MessageLog.{Bytes}
use mercury_messaging.Frame.Words.{le32, le64, of_le16, of_le32}
use mercury_messaging.Frame.{read_envelopes}
use mercury_messaging.Sync.Client
use mercury_messaging.Sync.Server.Apply.{Delta, message_append, TooLarge, too_large}
use mercury_messaging.Sync.Wire.{decode_request, encode_reply, of_le64}
use mercury_messaging.Gateway.Hex.{channel_id_to_bin}
use mercury_messaging.Gateway.Act.{
  Act, adds_member, updates_cursor, applies, fans_out, tracks, updates_status, give, lift, await,
  asks, fetch_key, tell, ◌>>=◌, ◌>>◌, Gives, Gives-then, Lasts, give-Lasts, fetch_key-Lasts,
  lasts_rules,
}
use mercury_messaging.Gateway.Socket.{Socket, Info}
use mercury_messaging.Gateway.Reply.{
  Answer, replies, refuses, or_refuse, with_channel, Replies, reply_rules, silent,
}
use mercury_messaging.Gateway.Services.{Services, Envelope, IsUp, safe_nif_call, is_uuid}

-- The envelopes of an answer of `get_deltas`.
unfoldable pub encode_deltas : Services → Bytes → Bytes → List Client.Delta → Act (List Bytes)
encode_deltas v tenant channel [] = give []
encode_deltas v tenant channel (d ∷ ds) = do
  env ← lift (
      v.envelope_encode (record {
        tenant_id = tenant;
        channel_id = channel;
        sender_id = d.sender_id;
        message_id = d.message_id;
        timestamp = d.hlc_wall;
        payload = d.encrypted_content;
      }))
  envs ← encode_deltas v tenant channel ds
  give (env ∷ envs)

-- The delta of a pushed envelope, with the texts of its fields decoded.
unfoldable pub append_of : Envelope → Delta
append_of e = message_append (some e.message_id) (some e.sender_id) e.payload 0 (some e.timestamp)

-- The clauses `{:ok, {..}}` and `{:error, _}` of the loop. An error that the decoder returned matches
-- neither, and raises.
keep_decoded : Result (Result Envelope Bytes) Bytes → List Delta → Act (List Delta)
keep_decoded (ok (ok e)) ds = give (append_of e ∷ ds)
keep_decoded (ok (err text)) ds = fetch_key none
keep_decoded (err message) ds = give ds

unfoldable pub decode_deltas : Services → List Bytes → Act (List Delta)
unfolding keep_decoded
decode_deltas v [] = give []
decode_deltas v (env ∷ envs) = do
  deltas ← decode_deltas v envs
  keep_decoded (safe_nif_call (v.envelope_decode env)) deltas

-- The first 12 bytes, or zeros.
unfoldable pub decode_cursor : Bytes → ℕ × ℕ
decode_cursor (a ∷ b ∷ c ∷ d ∷ e ∷ f ∷ g ∷ h ∷ i ∷ j ∷ k ∷ l ∷ rest) =
    (of_le64 (of_le32 a b c d) (of_le32 e f g h), of_le32 i j k l)
decode_cursor _ = (0, 0)

abbrev pub first : Bytes → Option ℕ
first [] = none
first (b ∷ bytes) = some b

abbrev pub rest_of : Bytes → Bytes
rest_of [] = []
rest_of (b ∷ bytes) = bytes

-- `<<nlen::16-little, remainder::binary>>`, or no name.
unfoldable pub channel_name : Bytes → Option Bytes
channel_name (a ∷ b ∷ rest) =
    if leb (of_le16 a b) (length rest) then some (take (of_le16 a b) rest) else none
channel_name _ = none

encode_deltas-Lasts :
    (v : Services) (tenant channel : Bytes) (ds : List Client.Delta)
    → Lasts (encode_deltas v tenant channel ds)
unfolding encode_deltas
encode_deltas-Lasts v tenant channel [] = give-Lasts []
encode_deltas-Lasts v tenant channel (d ∷ ds) =
    search (lasts_rules, encode_deltas-Lasts v tenant channel ds) depth 12

keep_decoded-Lasts :
    (r : Result (Result Envelope Bytes) Bytes) (ds : List Delta) → Lasts (keep_decoded r ds)
unfolding keep_decoded
keep_decoded-Lasts (ok (ok e)) ds = give-Lasts _
keep_decoded-Lasts (ok (err text)) ds = fetch_key-Lasts none
keep_decoded-Lasts (err message) ds = give-Lasts ds

decode_deltas-Lasts : (v : Services) (envs : List Bytes) → Lasts (decode_deltas v envs)
unfolding decode_deltas
decode_deltas-Lasts v [] = give-Lasts []
decode_deltas-Lasts v (env ∷ envs) =
    search (lasts_rules, keep_decoded-Lasts, decode_deltas-Lasts v envs) depth 8

module _ (v : Services) (s : Socket) (ref topic_id : ℕ) (payload : Bytes) (info : Info) where
  unfoldable pub sync_request : Answer
  sync_request = do
    channel_id ← fetch_key info.channel_id
    with_channel ref topic_id (channel_id_to_bin channel_id) (λ channel.
        let r = decode_request payload in
        await (v.sync_request channel s.user_id r.since_wall r.limit r.last_counter) >>= λ a.
        encode_deltas v s.tenant_id channel a.deltas >>= λ envelopes. replies ref topic_id (
          encode_reply
            (record { server_hlc = a.server_hlc; has_more = a.has_more; deltas = envelopes })))

  push_result : List Delta → Result ℕ TooLarge → Answer
  push_result deltas (err too_large) = refuses ref topic_id (codes "batch_too_large")
  push_result deltas (ok count) =
      tell v.does (fans_out deltas)
      >> (lift (v.hlc_tick_wall s.user_id) >>= λ wall.
          replies ref topic_id (le32 count ++ le64 wall))

  unfoldable pub sync_push : Answer
  unfolding push_result
  sync_push = do
    channel_id ← fetch_key info.channel_id
    with_channel ref topic_id (channel_id_to_bin channel_id) (λ channel.
        decode_deltas v (read_envelopes payload) >>= λ deltas.
        asks (applies channel deltas) (v.apply_deltas s.tenant_id channel deltas) >>= λ r.
        push_result deltas r)

  cursor_of : Option Bytes → Act (Unit {0})
  cursor_of none = give tt
  cursor_of (some channel) =
      if is_uuid s.tenant_id && is_uuid s.user_id && is_uuid s.device_id
      then tell v.does (updates_cursor channel (decode_cursor payload).0 (decode_cursor payload).1)
      else give tt

  cursor_in : Option Bytes → Act (Unit {0})
  unfolding cursor_of
  cursor_in none = give tt
  cursor_in (some channel_id) = cursor_of (channel_id_to_bin channel_id)

  unfoldable pub sync_cursor : Answer
  unfolding cursor_in
  sync_cursor = cursor_in info.channel_id >> give none

  -- `<<ct::8, rest::binary>> = payload` raises for an empty payload.
  unfoldable pub ch_create : Answer
  ch_create = fetch_key (first payload) >>= λ ct.
      lift (v.validate_channel s.tenant_id ct (channel_name (rest_of payload))) >>= λ valid.
      or_refuse ref topic_id valid (λ _.
        tell v.does (adds_member v.generate_channel_id s.user_id)
        >> replies ref topic_id v.generate_channel_id)

  track_in : Option Bytes → Act (Unit {0})
  track_in none = give tt
  track_in (some channel_id) = fetch_key info.pubsub >>= λ pubsub. tell v.does (tracks pubsub)

  unfoldable pub presence_join : Answer
  unfolding track_in
  presence_join = track_in info.channel_id >> replies ref topic_id []

  status_in : Option Bytes → ℕ → Act (Unit {0})
  status_in none status = give tt
  status_in (some pubsub) status = tell v.does (updates_status pubsub status)

  -- For a payload of one byte.
  unfoldable pub status_update : ℕ → Answer
  unfolding status_in
  status_update status = status_in info.pubsub status >> replies ref topic_id []

  module _ (up : IsUp v) where
    pub sync_request-Replies : Gives (Replies ref topic_id) sync_request
    unfolding sync_request
    sync_request-Replies = search (reply_rules, encode_deltas-Lasts, up.sync_request) depth 12

    push_result-Replies :
        (deltas : List Delta) (r : Result ℕ TooLarge)
        → Gives (Replies ref topic_id) (push_result deltas r)
    unfolding push_result
    push_result-Replies deltas (err too_large) = search reply_rules depth 12
    push_result-Replies deltas (ok count) = search (reply_rules, up.does) depth 12

    pub sync_push-Replies : Gives (Replies ref topic_id) sync_push
    unfolding sync_push
    sync_push-Replies =
        search (reply_rules, push_result-Replies, decode_deltas-Lasts, up.apply_deltas) depth 12

    cursor_of-Lasts : (o : Option Bytes) → Lasts (cursor_of o)
    unfolding cursor_of
    cursor_of-Lasts none = give-Lasts tt
    cursor_of-Lasts (some channel) = search (lasts_rules, up.does) depth 12

    cursor_in-Lasts : (o : Option Bytes) → Lasts (cursor_in o)
    unfolding cursor_in
    cursor_in-Lasts none = give-Lasts tt
    cursor_in-Lasts (some channel_id) = cursor_of-Lasts _

    pub sync_cursor_silent : Gives (λ (frame : Option Bytes). frame ≡ none) sync_cursor
    unfolding sync_cursor
    sync_cursor_silent = search (Gives-then, silent, cursor_in-Lasts) depth 12

    pub ch_create-Replies : Gives (Replies ref topic_id) ch_create
    unfolding ch_create
    ch_create-Replies = search (reply_rules, up.does) depth 12

    track_in-Lasts : (o : Option Bytes) → Lasts (track_in o)
    unfolding track_in
    track_in-Lasts none = give-Lasts tt
    track_in-Lasts (some channel_id) = search (lasts_rules, up.does) depth 12

    pub presence_join-Replies : Gives (Replies ref topic_id) presence_join
    unfolding presence_join
    presence_join-Replies = search (reply_rules, track_in-Lasts) depth 12

    status_in-Lasts : (o : Option Bytes) (status : ℕ) → Lasts (status_in o status)
    unfolding status_in
    status_in-Lasts none status = give-Lasts tt
    status_in-Lasts (some pubsub) status = search (lasts_rules, up.does) depth 12

    pub status_update-Replies : (status : ℕ) → Gives (Replies ref topic_id) (status_update status)
    unfolding status_update
    status_update-Replies status = search (reply_rules, status_in-Lasts) depth 12

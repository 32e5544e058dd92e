-- ===== src/Gateway/Dispatch.antt =====
-- apps/gateway/lib/gateway/binary_socket.ex: `handle_push` and the clauses of `dispatch`.
pub mod Answers
use mercury_messaging.Base.{
  Outcome, ℕ, List, [], ◌∷◌, Bool, true, false, ◌==◌, ◌&&◌, ◌||◌, leb, if◌then◌else◌, Option, none,
  some, is_some, not, done, panic, codes, length,
}
use mercury_messaging.MessageLog.{Bytes}
use mercury_messaging.HashMap.{get}
use mercury_messaging.HashMap.Bytes.{nat_eq}
use mercury_messaging.Gateway.Act.{Act, acts, gives, raises, exits}
use mercury_messaging.Gateway.Socket.{Socket, Info, Output, reply, status_error}
use mercury_messaging.Gateway.Reply.{Answer, refuses}
use mercury_messaging.Gateway.Services.{Services}
use mercury_messaging.Gateway.Messages
use mercury_messaging.Gateway.Groups
use mercury_messaging.Gateway.Channels

-- The events that want a topic with a channel.
unfoldable pub needs_channel : ℕ → Bool
needs_channel event =
    (leb 1 event && leb event 5 && not (event == 2))
    || (leb 8 event && leb event 13)
    || (leb 18 event && leb event 20)

module _ (v : Services) (s : Socket) (ref topic_id : ℕ) where
  -- The last clause.
  abbrev unknown_event : Answer
  unknown_event = refuses ref topic_id (codes "unknown_event")

  -- `dispatch(.., @ev_mls_welcome, payload, ..) when byte_size(payload) > 2`
  welcome_or_unknown : Bytes → Info → Answer
  welcome_or_unknown (a ∷ b ∷ c ∷ rest) info =
      Groups.mls_welcome v s ref topic_id (a ∷ b ∷ c ∷ rest) info a b (c ∷ rest)
  welcome_or_unknown payload info = unknown_event

  -- `dispatch(.., @ev_status_update, <<status::8>>, ..)`
  status_or_unknown : Bytes → Info → Answer
  status_or_unknown (status ∷ []) info = Channels.status_update v s ref topic_id [] info status
  status_or_unknown payload info = unknown_event

  unfoldable pub dispatch : ℕ → Bytes → Info → Answer
  unfolding welcome_or_unknown status_or_unknown
  dispatch event payload info =
      if event == 1
      then Messages.msg_send v s ref topic_id payload info
      else if event == 3
      then Messages.msg_history v s ref topic_id payload info
      else if event == 4
      then Messages.msg_typing v s ref topic_id payload info
      else if event == 5
      then Messages.msg_read v s ref topic_id payload info
      else if event == 6
      then Groups.mls_key_package v s ref topic_id payload info
      else if event == 7
      then Groups.mls_fetch_key_packages v s ref topic_id payload info
      else if event == 8
      then Groups.mls_commit v s ref topic_id payload info
      else if event == 9
      then welcome_or_unknown payload info
      else if event == 10 && leb 16 (length payload)
      then Groups.mls_remove v s ref topic_id payload info
      else if event == 11
      then Channels.sync_request v s ref topic_id payload info
      else if event == 12
      then Channels.sync_push v s ref topic_id payload info
      else if event == 13
      then Channels.sync_cursor v s ref topic_id payload info
      else if event == 14
      then Channels.ch_create v s ref topic_id payload info
      else if event == 15
      then Channels.presence_join v s ref topic_id payload info
      else if event == 17
      then status_or_unknown payload info
      else if event == 18
      then Groups.mls_members v s ref topic_id payload info
      else if event == 19
      then Groups.mls_group_info v s ref topic_id payload info
      else if event == 20
      then Groups.mls_cek v s ref topic_id payload info
      else unknown_event

  -- What the topic of the push decides.
  push_to : Option Info → ℕ → Bytes → Answer
  push_to none event payload = refuses ref topic_id (codes "not_joined")
  push_to (some info) event payload =
      if needs_channel event && not (is_some info.channel_id)
      then refuses ref topic_id (codes "not_a_channel")
      else dispatch event payload info

  frames_of : Option Bytes → List Bytes
  frames_of none = []
  frames_of (some frame) = frame ∷ []

  -- `rescue`: the calls that were made before stay made. An exit is not caught: the process ends.
  rescued : Act (Option Bytes) → Outcome Output
  rescued (acts calls (gives frame)) =
      done (record { socket = s; calls = calls; frames = frames_of frame })
  rescued (acts calls raises) = done (record {
    socket = s;
    calls = calls;
    frames = reply ref topic_id status_error (codes "internal_error") ∷ [];
  })
  rescued (acts calls exits) = panic

  unfoldable pub handle_push : ℕ → Bytes → Outcome Output
  unfolding push_to rescued frames_of
  handle_push event payload = rescued (push_to (get topic_id s.topic_ids) event payload)

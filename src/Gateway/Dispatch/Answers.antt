-- ===== src/Gateway/Dispatch/Answers.antt =====
-- apps/gateway/lib/gateway/binary_socket.ex: which pushes are answered.
use mercury_messaging.Base.{
  done_injective, panic_not_done, ℕ, ◌≡◌, ◌≢◌, refl, ap, arith, [], ◌∷◌, true, ◌==◌, Option, none,
  some, done, codes,
}
use mercury_messaging.MessageLog.{Bytes}
use mercury_messaging.HashMap.{get}
use mercury_messaging.HashMap.Bytes.{nat_eq}
use mercury_messaging.Gateway.Act.{
  acts, gives, raises, exits, broadcasts_from, lift, tell, fetch_key, give, ◌>>=◌, ◌>>◌, Gives,
  Gives-if,
}
use mercury_messaging.Gateway.Socket.{Socket, Info, Output, reply, status_error}
use mercury_messaging.Gateway.Reply.{Answer, Replies, refuses-Replies}
use mercury_messaging.Gateway.Services.{Services, IsUp}
use mercury_messaging.Gateway.Messages.{
  msg_send-Replies, msg_history-Replies, msg_read-Replies, msg_typing, ev_msg_typing,
}
use mercury_messaging.Gateway.Groups.{
  mls_key_package-Replies, mls_fetch_key_packages-Replies, mls_commit-Replies, mls_welcome-Replies,
  mls_remove-Replies, mls_members-Replies, mls_group_info-Replies, mls_cek-Replies,
}
use mercury_messaging.Gateway.Channels.{
  sync_request-Replies, sync_push-Replies, ch_create-Replies, presence_join-Replies,
  status_update-Replies,
}
use mercury_messaging.Gateway.Dispatch.{
  dispatch, needs_channel, welcome_or_unknown, status_or_unknown, push_to, rescued, frames_of,
  handle_push,
}

ruleset handlers = (
  msg_send-Replies, msg_history-Replies, msg_read-Replies, mls_key_package-Replies,
  mls_fetch_key_packages-Replies, mls_commit-Replies, mls_remove-Replies, mls_members-Replies,
  mls_group_info-Replies, mls_cek-Replies, sync_request-Replies, sync_push-Replies,
  ch_create-Replies, presence_join-Replies, refuses-Replies,
)

module _ (v : Services) (s : Socket) (ref topic_id : ℕ) where
  module _ (up : IsUp v) where
    welcome_or_unknown-Replies :
        (payload : Bytes) (info : Info)
        → Gives (Replies ref topic_id) (welcome_or_unknown v s ref topic_id payload info)
    unfolding welcome_or_unknown
    welcome_or_unknown-Replies [] info = refuses-Replies ref topic_id _
    welcome_or_unknown-Replies (a ∷ []) info = refuses-Replies ref topic_id _
    welcome_or_unknown-Replies (a ∷ b ∷ []) info = refuses-Replies ref topic_id _
    welcome_or_unknown-Replies (a ∷ b ∷ c ∷ rest) info =
        mls_welcome-Replies v s ref topic_id _ info up a b (c ∷ rest)

    status_or_unknown-Replies :
        (payload : Bytes) (info : Info)
        → Gives (Replies ref topic_id) (status_or_unknown v s ref topic_id payload info)
    unfolding status_or_unknown
    status_or_unknown-Replies [] info = refuses-Replies ref topic_id _
    status_or_unknown-Replies (a ∷ []) info = status_update-Replies v s ref topic_id [] info up a
    status_or_unknown-Replies (a ∷ b ∷ rest) info = refuses-Replies ref topic_id _

    barred :
        (event k : ℕ) (m : Answer)
        → event ≢ k
        → (event == k) ≡ true
        → Gives (Replies ref topic_id) m
    barred event k m differs e = absurd (differs (ground arith))

    dispatch-Replies :
        (event : ℕ) (payload : Bytes) (info : Info)
        → event ≢ 4
        → event ≢ 13
        → Gives (Replies ref topic_id) (dispatch v s ref topic_id event payload info)
    unfolding dispatch
    dispatch-Replies event payload info not_typing not_cursor =
        search
          (handlers, up, Gives-if, welcome_or_unknown-Replies, status_or_unknown-Replies, barred)
          depth 60 fits 4000

    push_to-Replies :
        (o : Option Info) (event : ℕ) (payload : Bytes)
        → event ≢ 4
        → event ≢ 13
        → Gives (Replies ref topic_id) (push_to v s ref topic_id o event payload)
    unfolding push_to
    push_to-Replies none event payload not_typing not_cursor = refuses-Replies ref topic_id _
    push_to-Replies (some info) event payload not_typing not_cursor =
        search (Gives-if, refuses-Replies, dispatch-Replies)

  -- One frame is sent, a reply to the push, and the socket is as it was.
  abbrev pub IsAnswered : Output → Type 0
  IsAnswered out =
      (out.socket ≡ s)
      × ((status : ℕ) × (payload : Bytes) × (out.frames ≡ reply ref topic_id status payload ∷ []))

  rescued-IsAnswered :
      (m : Answer)
      → Gives (Replies ref topic_id) m
      → (out : Output) × (rescued v s ref topic_id m ≡ done out) × IsAnswered out
  unfolding rescued Gives frames_of
  rescued-IsAnswered (acts calls (gives frame)) (status, payload, e) =
      (_, refl, (refl, (status, payload, ap (frames_of v s ref topic_id) e)))
  rescued-IsAnswered (acts calls raises) h =
      (_, refl, (refl, (status_error, codes "internal_error", refl)))
  rescued-IsAnswered (acts calls exits) h = absurd h

  rescued_socket :
      (m : Answer) (out : Output) → rescued v s ref topic_id m ≡ done out → out.socket ≡ s
  unfolding rescued
  rescued_socket (acts calls (gives frame)) out h = rw (← (done_injective h)) refl
  rescued_socket (acts calls raises) out h = rw (← (done_injective h)) refl
  rescued_socket (acts calls exits) out h = panic_not_done h

  pub push_socket :
      (event : ℕ) (payload : Bytes) (out : Output)
      → handle_push v s ref topic_id event payload ≡ done out
      → out.socket ≡ s
  unfolding handle_push
  push_socket event payload out h = rescued_socket _ out h

  -- Let no process that the gateway calls be down, so that none of its calls exits. Then the
  -- handler of a push returns, with exactly one reply that has the number and the topic of
  -- the push, and leaves the socket as it was, whatever the event and the payload are and
  -- also where a handler raises; left out are only the events 4, typing, and 13, the cursor.
  pub push-IsAnswered :
      (event : ℕ) (payload : Bytes)
      → IsUp v
      → event ≢ 4
      → event ≢ 13
      → (out : Output) × (handle_push v s ref topic_id event payload ≡ done out) × IsAnswered out
  unfolding handle_push
  push-IsAnswered event payload up not_typing not_cursor =
      rescued-IsAnswered _
        (push_to-Replies up (get topic_id s.topic_ids) event payload not_typing not_cursor)

  -- A push of typing on a joined channel is not answered, if its encoding does not raise and the
  -- broadcast is made.
  pub typing_unanswered :
      (payload bin channel_id pubsub : Bytes) (info : Info)
      → get topic_id s.topic_ids ≡ some info
      → info.channel_id ≡ some channel_id
      → info.pubsub ≡ some pubsub
      → v.typing_encode s.user_id ≡ done bin
      → v.does (broadcasts_from pubsub ev_msg_typing bin) ≡ gives tt
      → (out : Output) × (handle_push v s ref topic_id 4 payload ≡ done out) × (out.frames ≡ [])
  unfolding handle_push push_to rescued dispatch msg_typing frames_of needs_channel ◌>>=◌ ◌>>◌ lift
      tell fetch_key give
  typing_unanswered payload bin channel_id pubsub info joined channel sub encoded sent =
      rw (joined, channel, sub, encoded, sent) (_, refl, refl)

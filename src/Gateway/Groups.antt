-- ===== src/Gateway/Groups.antt =====
-- apps/gateway/lib/gateway/binary_socket.ex: the clauses of `dispatch` for MLS groups.
use mercury_messaging.Base.{
  ℕ, List, [], ◌∷◌, ◌++◌, Bool, false, leb, ◌&&◌, ◌==◌, if◌then◌else◌, Option, none, some, codes,
  length, take, drop,
}
use mercury_messaging.Order.{same, nat_ord, list_ord}
use mercury_messaging.MessageLog.{Bytes}
use mercury_messaging.Frame.Words.{le16, of_le16}
use mercury_messaging.Gateway.Hex.{channel_id_to_bin}
use mercury_messaging.Gateway.Act.{
  Act, Call, Stays, broadcasts, broadcasts_from, uploads, removes_member, claims_creator, give,
  lift, await, asks, fetch_key, tell, ◌>>=◌, ◌>>◌, Gives, Gives-if, Lasts, give-Lasts, tell-Lasts,
  lasts_rules,
}
use mercury_messaging.Gateway.Socket.{Socket, Info}
use mercury_messaging.Gateway.Reply.{
  Answer, replies, refuses, or_refuse, with_channel, Replies, reply_rules,
}
use mercury_messaging.Gateway.Services.{Services, IsUp, safe_nif_call, is_uuid}

abbrev pub ev_mls_key_package : ℕ
ev_mls_key_package = 6

abbrev pub ev_mls_commit : ℕ
ev_mls_commit = 8

abbrev pub ev_mls_welcome : ℕ
ev_mls_welcome = 9

abbrev pub ev_mls_cek : ℕ
ev_mls_cek = 20

-- `if info[:pubsub] do broadcast_binary(..) end`
unfoldable pub broadcast_if : Services → Option Bytes → ℕ → Bytes → Act (Unit {0})
broadcast_if v none event payload = give tt
broadcast_if v (some pubsub) event payload = tell v.does (broadcasts pubsub event payload)

-- `<<uid::binary-size(16)>>` raises for another size.
unfoldable pub sixteen : Bytes → Act Bytes
sixteen uid = if length uid == 16 then give uid else fetch_key none

unfoldable pub uuids_of : List Bytes → Act Bytes
uuids_of [] = give []
uuids_of (u ∷ us) = sixteen u >>= λ uid. uuids_of us >>= λ rest. give (uid ++ rest)

-- `<<count::16-little>>` and 16 bytes for each of the first 1000 members.
unfoldable pub pack_members : List Bytes → Act Bytes
pack_members ids = uuids_of (take 1000 ids) >>= λ uids. give (le16 (length (take 1000 ids)) ++ uids)

sixteen-Lasts : (uid : Bytes) → Lasts (sixteen uid)
unfolding sixteen
sixteen-Lasts uid = search lasts_rules depth 6

uuids_of-Lasts : (us : List Bytes) → Lasts (uuids_of us)
unfolding uuids_of
uuids_of-Lasts [] = give-Lasts []
uuids_of-Lasts (u ∷ us) = search (lasts_rules, sixteen-Lasts, uuids_of-Lasts us) depth 8

pack_members-Lasts : (ids : List Bytes) → Lasts (pack_members ids)
unfolding pack_members
pack_members-Lasts ids = search (lasts_rules, uuids_of-Lasts) depth 8

broadcast_if-Lasts :
    (v : Services) (pubsub : Option Bytes) (event : ℕ) (payload : Bytes)
    → ((c : Call) → Stays (v.does c))
    → Lasts (broadcast_if v pubsub event payload)
unfolding broadcast_if
broadcast_if-Lasts v none event payload up = give-Lasts tt
broadcast_if-Lasts v (some pubsub) event payload up = tell-Lasts v.does _ up

module _ (v : Services) (s : Socket) (ref topic_id : ℕ) (payload : Bytes) (info : Info) where
  unfoldable pub mls_key_package : Answer
  mls_key_package =
      or_refuse ref topic_id (safe_nif_call (v.mls_key_package_capnp_decode payload)) (λ kp.
        if is_uuid s.tenant_id && is_uuid s.device_id
        then (asks (uploads kp) (v.upload s.tenant_id s.device_id kp) >>= λ stored.
            or_refuse ref topic_id stored (λ _.
              broadcast_if v info.pubsub ev_mls_key_package s.user_id >> replies ref topic_id []))
        else refuses ref topic_id (codes "invalid_id"))

  unfoldable pub mls_fetch_key_packages : Answer
  mls_fetch_key_packages = do
    packages ←
        if is_uuid s.tenant_id && is_uuid payload
        then await (v.fetch_key_packages s.tenant_id payload)
        else give []
    bin ← lift (v.mls_key_package_list_encode packages)
    replies ref topic_id bin

  -- `{:ok, _commit}` matches an error that the decoder returned too.
  unfoldable pub mls_commit : Answer
  mls_commit = or_refuse ref topic_id (safe_nif_call (v.mls_commit_capnp_decode payload)) (λ _.
      fetch_key info.pubsub >>= λ pubsub.
      tell v.does (broadcasts_from pubsub ev_mls_commit payload) >> replies ref topic_id [])

  -- `<<uid_len::16-little, rest::binary>>`, for a payload of three bytes or more.
  unfoldable pub mls_welcome : ℕ → ℕ → Bytes → Answer
  mls_welcome a b rest =
      if leb (of_le16 a b) (length rest)
      then (fetch_key info.pubsub >>= λ pubsub.
          tell v.does (broadcasts pubsub ev_mls_welcome payload) >> replies ref topic_id [])
      else refuses ref topic_id (codes "malformed_welcome")

  -- `{:ok, role} when role >= 1`
  unfoldable pub may_remove : Option ℕ → Bool
  may_remove none = false
  may_remove (some role) = leb 1 role

  -- `<<uid::binary-size(16), commit_capnp::binary>>`, for a payload of 16 bytes or more.
  unfoldable pub mls_remove : Answer
  mls_remove = do
    channel_id ← fetch_key info.channel_id
    with_channel ref topic_id (channel_id_to_bin channel_id) (λ channel.
        await (v.get_role s.tenant_id channel s.user_id) >>= λ role.
        if may_remove role
        then or_refuse ref topic_id (safe_nif_call (v.mls_commit_capnp_decode (drop 16 payload)))
            (λ _.
              tell v.does (removes_member channel (take 16 payload))
              >> (fetch_key info.pubsub >>= λ pubsub.
                  tell v.does (broadcasts_from pubsub ev_mls_commit (drop 16 payload))
                  >> replies ref topic_id []))
        else refuses ref topic_id (codes "unauthorized"))

  unfoldable pub mls_members : Answer
  mls_members = do
    channel_id ← fetch_key info.channel_id
    with_channel ref topic_id (channel_id_to_bin channel_id) (λ channel.
        await (v.list_members s.tenant_id channel) >>= λ ids.
        pack_members ids >>= λ packed. replies ref topic_id packed)

  -- The creator that is stored after the claim, if the cache has one.
  unfoldable pub group_info_reply : Option Bytes → Act Bytes
  group_info_reply none = give (1 ∷ [])
  group_info_reply (some creator) =
      if same creator s.user_id then give (1 ∷ []) else (sixteen creator >>= λ uid. give (0 ∷ uid))

  unfoldable pub mls_group_info : Answer
  mls_group_info = do
    channel_id ← fetch_key info.channel_id
    with_channel ref topic_id (channel_id_to_bin channel_id) (λ channel.
        tell v.does (claims_creator channel s.user_id)
        >> (await (v.mls_creator s.tenant_id channel) >>= λ creator.
            group_info_reply creator >>= λ answer. replies ref topic_id answer))

  unfoldable pub mls_cek : Answer
  mls_cek = do
    pubsub ← fetch_key info.pubsub
    tell v.does (broadcasts pubsub ev_mls_cek payload)
    replies ref topic_id []

  group_info_reply-Lasts : (o : Option Bytes) → Lasts (group_info_reply o)
  unfolding group_info_reply
  group_info_reply-Lasts none = give-Lasts _
  group_info_reply-Lasts (some creator) = search (lasts_rules, sixteen-Lasts) depth 12

  module _ (up : IsUp v) where
    pub mls_key_package-Replies : Gives (Replies ref topic_id) mls_key_package
    unfolding mls_key_package
    mls_key_package-Replies =
        search (reply_rules, broadcast_if-Lasts, Gives-if, up.does, up.upload) depth 16

    pub mls_fetch_key_packages-Replies : Gives (Replies ref topic_id) mls_fetch_key_packages
    unfolding mls_fetch_key_packages
    mls_fetch_key_packages-Replies = search (reply_rules, up.fetch_key_packages) depth 16

    pub mls_commit-Replies : Gives (Replies ref topic_id) mls_commit
    unfolding mls_commit
    mls_commit-Replies = search (reply_rules, up.does) depth 16

    pub mls_welcome-Replies :
        (a b : ℕ) (rest : Bytes) → Gives (Replies ref topic_id) (mls_welcome a b rest)
    unfolding mls_welcome
    mls_welcome-Replies a b rest = search (reply_rules, Gives-if, up.does) depth 16

    pub mls_remove-Replies : Gives (Replies ref topic_id) mls_remove
    unfolding mls_remove
    mls_remove-Replies = search (reply_rules, Gives-if, up.does, up.get_role) depth 16

    pub mls_members-Replies : Gives (Replies ref topic_id) mls_members
    unfolding mls_members
    mls_members-Replies = search (reply_rules, pack_members-Lasts, up.list_members) depth 16

    pub mls_group_info-Replies : Gives (Replies ref topic_id) mls_group_info
    unfolding mls_group_info
    mls_group_info-Replies =
        search (reply_rules, group_info_reply-Lasts, up.does, up.mls_creator) depth 16

    pub mls_cek-Replies : Gives (Replies ref topic_id) mls_cek
    unfolding mls_cek
    mls_cek-Replies = search (reply_rules, up.does) depth 16

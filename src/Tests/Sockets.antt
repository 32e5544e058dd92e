-- ===== src/Tests/Sockets.antt =====
-- A connection of a member: it joins a channel, pushes, and is checked for heartbeats.
use mercury_messaging.Base.{
  ℕ, ◌≡◌, ◌≢◌, ◌↔◌, refl, arith, List, [], ◌∷◌, none, some, true, done, panic, ok, codes, ◌>>=◌,
}
use mercury_messaging.MessageLog.{Bytes}
use mercury_messaging.HashMap.{get}
use mercury_messaging.HashMap.Bytes.{bytes_eq, nat_eq}
use mercury_messaging.Gateway.Hex.{channel_id_to_bin, decode16, hex_value}
use mercury_messaging.Gateway.Socket.{Socket, Output, init, handle_leave}
use mercury_messaging.Gateway.Socket.Invariant.{IsSound, init-IsSound}
use mercury_messaging.Gateway.Services.{Services, IsUp, returned, returned_error}
use mercury_messaging.Gateway.Act.{gives, raises, Stays}
use mercury_messaging.Gateway.Join.{
  Persistence, is_member, strip_prefix, channel_prefix, pubsub_name, handle_join,
}
use mercury_messaging.Gateway.Join.Laws.{Answered, handle_join_answers}
use mercury_messaging.Gateway.Join.Panic.{IsBad, handle_join-eq-panic}
use mercury_messaging.Gateway.Join.Accepted.{accepted, handle_join-accepted}
use mercury_messaging.Gateway.Dispatch.{handle_push}
use mercury_messaging.Gateway.Dispatch.Answers.{IsAnswered, push-IsAnswered}
use mercury_messaging.Gateway.Process.{
  Message, binary, text, heartbeat_check, handle_broadcast, run,
}
use mercury_messaging.Gateway.Process.Invariant.{After, run-init-IsSound}
use mercury_messaging.Gateway.Process.Heartbeat.{beat, check, neither}
use mercury_messaging.Gateway.Process.Heartbeat.Idle.{idle_stops}
use mercury_messaging.Gateway.Process.Heartbeat.Timely.{HasNoTimeout, run-HasNoTimeout}
use mercury_messaging.Gateway.Process.Rejoin.{rejoin_drops_broadcasts}
use mercury_messaging.Frame.{parse}
use mercury_messaging.Tests.Clocks.{node_a, node_b}
use mercury_messaging.Tests.Sets.{word}

abbrev everyone : Persistence
everyone = record {
  member = λ tenant channel user. is_member;
  warm_user_cache = λ tenant user. done tt;
}

-- The parts of a server that holds nothing.
abbrev services : Services
services = record {
  envelope_decode = λ bytes. returned_error word;
  envelope_encode = λ e. done e.payload;
  validate_message = λ tenant channel sender content kind. done (ok tt);
  validate_channel = λ tenant kind name. done (ok tt);
  compute_time_bucket = λ t. done 0;
  typing_encode = λ user. done user;
  read_receipt_decode = λ bytes. returned_error word;
  read_receipt_encode = λ user message. done message;
  mls_key_package_capnp_decode = λ bytes. returned bytes;
  mls_key_package_list_encode = λ packages. done [];
  mls_commit_capnp_decode = λ bytes. returned bytes;
  hlc_tick_wall = λ node. done 1000;
  generate_channel_id = node_a;
  does = λ call. gives tt;
  allow = λ tenant user. gives true;
  read_recent = λ tenant channel limit. gives [];
  upload = λ tenant user key. gives (ok tt);
  fetch_key_packages = λ tenant user. gives [];
  get_role = λ tenant channel user. gives none;
  list_members = λ tenant channel. gives [];
  mls_creator = λ tenant channel. gives none;
  sync_request = λ tenant channel since limit counter. raises;
  apply_deltas = λ tenant channel deltas. gives (ok 0);
}

services-IsUp : IsUp services
unfolding Stays
services-IsUp = record {
  does = λ c. tt;
  allow = λ a b. tt;
  read_recent = λ a b n. tt;
  upload = λ a b k. tt;
  fetch_key_packages = λ a b. tt;
  get_role = λ a b c. tt;
  list_members = λ a b. tt;
  mls_creator = λ a b. tt;
  sync_request = λ a b k l m. tt;
  apply_deltas = λ a b ds. tt;
}

abbrev socket : Socket
socket = init node_a node_b word

socket-IsSound : IsSound socket
socket-IsSound = init-IsSound node_a node_b word

abbrev channel_text : Bytes
channel_text = codes "01010101010101010101010101010101"

abbrev channel_topic : Bytes
channel_topic = codes "channel:01010101010101010101010101010101"

topic_run : strip_prefix channel_prefix channel_topic ≡ some channel_text
unfolding strip_prefix
topic_run = refl

channel_run : channel_id_to_bin channel_text ≡ some node_a
unfolding channel_id_to_bin decode16 hex_value
channel_run = refl

join_run :
    handle_join everyone 7 channel_topic socket
    ≡ done (accepted 7 channel_topic channel_text socket)
unfolding init
join_run =
    handle_join-accepted everyone channel_topic channel_text node_a 7 socket topic_run channel_run
      refl refl (omega arith)

handle_join_answers_example :
    Answered 7 channel_topic socket (accepted 7 channel_topic channel_text socket)
handle_join_answers_example =
    handle_join_answers everyone 7 channel_topic socket
      (accepted 7 channel_topic channel_text socket) socket-IsSound join_run

handle_join-eq-panic_example :
    (handle_join everyone 7 (codes "channel:general") socket ≡ panic)
    ↔ IsBad everyone socket (strip_prefix channel_prefix (codes "channel:general"))
handle_join-eq-panic_example = handle_join-eq-panic everyone 7 (codes "channel:general") socket

rejoin_drops_broadcasts_example :
    (out : Output) × ((handle_join everyone 7 channel_topic socket >>= λ a.
    handle_join everyone 8 channel_topic a.socket >>= λ b. done (handle_leave 1 b.socket))
      ≡ done out)
    × (get 2 out.socket.topic_ids
        ≡ some (record {
          topic = channel_topic;
          channel_id = some channel_text;
          pubsub = some (pubsub_name node_a channel_prefix channel_text);
        }))
    × ((event : ℕ) (payload : Bytes)
        → (handle_broadcast
            (pubsub_name node_a channel_prefix channel_text)
            event
            payload
            out.socket).frames
          ≡ [])
unfolding init
rejoin_drops_broadcasts_example =
    rejoin_drops_broadcasts everyone channel_topic channel_text node_a 7 8 socket socket-IsSound
      (omega arith) topic_run channel_run refl refl

-- A push on a topic that is not joined.
push-IsAnswered_example :
    (out : Output) × (handle_push services socket 9 1 1 word ≡ done out)
    × IsAnswered services socket 9 1 out
push-IsAnswered_example =
    push-IsAnswered services socket 9 1 1 word services-IsUp (λ e. omega (arith, e))
      (λ e. omega (arith, e))

-- A join, a push, and a check.
abbrev session : List Message
session =
    binary (1 ∷ 7 ∷ 0 ∷ 0 ∷ 0 ∷ 0 ∷ 0 ∷ channel_topic)
    ∷ binary (4 ∷ 8 ∷ 0 ∷ 0 ∷ 0 ∷ 1 ∷ 0 ∷ 3 ∷ [])
    ∷ heartbeat_check
    ∷ []

run-init-IsSound_example : After IsSound (run everyone services session socket)
run-init-IsSound_example = run-init-IsSound everyone services node_a node_b word session

checked : check ≢ beat
checked e = cc e

silent : neither ≢ beat
silent e = cc e

idle_stops_example :
    After
      (λ s. ⊥)
      (run everyone services
        (heartbeat_check ∷ text word ∷ heartbeat_check ∷ heartbeat_check ∷ [])
        socket)
unfolding init
idle_stops_example =
    idle_stops everyone services
      (heartbeat_check ∷ text word ∷ heartbeat_check ∷ heartbeat_check ∷ []) socket socket-IsSound
      (omega arith) (checked, (silent, (checked, (checked, tt)))) (omega arith)

-- Two checks, a heartbeat, and two checks.
abbrev in_time : List Message
in_time =
    heartbeat_check
    ∷ heartbeat_check
    ∷ binary (6 ∷ 0 ∷ 0 ∷ 0 ∷ 0 ∷ 0 ∷ 0 ∷ [])
    ∷ heartbeat_check
    ∷ heartbeat_check
    ∷ []

run-HasNoTimeout_example : HasNoTimeout (run everyone services in_time socket)
unfolding init parse
run-HasNoTimeout_example =
    run-HasNoTimeout everyone services in_time socket socket-IsSound (omega arith)
      (omega arith, (omega arith, (omega arith, (omega arith, (omega arith, tt)))))

-- ===== src/Tests/Offline.antt =====
-- Answers of the gateway, and a client that pulls them and pushes its queue.
use Prim.Native.Nat.{zero, suc}
use mercury_messaging.Base.{
  true, All-take, ℕ, ◌≤◌, ◌≡◌, inl, inr, refl, arith, List, [], ◌∷◌, ◌++◌, map, All, Has, false,
  ltb, ◌==◌, if◌then◌else◌, length, take, Option, none, some, Outcome, done, ok, err, release,
  Bool-cases,
}
use mercury_messaging.MessageLog.{Bytes}
use mercury_messaging.HashMap.{get}
use mercury_messaging.Core.TimeBucket.{from_timestamp_ms}
use mercury_messaging.Nif.Clock.{compute_time_bucket, hlc_merge}
use mercury_messaging.Sync.Server.{
  Row, after, sort_by_time, insert_by_time, range, upwards, fetch_messages_after, fetch_all,
  get_deltas,
}
use mercury_messaging.Sync.Server.Complete.{get_deltas_complete}
use mercury_messaging.Sync.Server.Apply
use mercury_messaging.Sync.Server.Apply.{
  Tables, failed, message_append, apply_deltas, apply_deltas_lem,
}
use mercury_messaging.Sync.Client.{
  Delta, Answer, Offline, LocalStore, Pushed, pull, finished, envelope_of, of_channel, sync_channel,
  queue_offline,
}
use mercury_messaging.Sync.Client.Pull.{Later, collected}
use mercury_messaging.Sync.Client.Push.{sync_loses_others}
use mercury_messaging.Sync.Client.Payload.{IsOffline, drain-IsOffline}
use mercury_messaging.Sync.Queue.{Queued, drain, dequeue}
use mercury_messaging.Sync.Request.{Server, delta_of, answer_of, request_wall, sync_request}
use mercury_messaging.Sync.Session.{gateway, pull_from_gateway, pull_from_gateway_ends}
use mercury_messaging.Nif.Validate.{parse_uuid_16}
use mercury_messaging.Hlc
use mercury_messaging.Hlc.{system_time_ms, merge_counter}
use mercury_messaging.Order.{nat_ord, list_ord}
use mercury_messaging.HashMap.Bytes.{bytes_eq}
use mercury_messaging.Tests.Clocks.{node_a}
use mercury_messaging.Tests.Sets.{word, other_word}

abbrev row : Row
row = record {
  message_id = word;
  sender_id = node_a;
  encrypted_content = word;
  content_type = 0;
  created_at = 800;
}

-- One message, in the first bucket.
abbrev stored_rows : ℕ → List Row
stored_rows b = if b == 0 then row ∷ [] else []

abbrev select : ℕ → ℕ → Option (List Row)
select b n = some (take n (stored_rows b))

get_deltas_run :
    get_deltas select 1000 500 50
    ≡ done (record { deltas = row ∷ []; server_hlc = 1000; has_more = false })
unfolding get_deltas compute_time_bucket range upwards fetch_all fetch_messages_after after
    sort_by_time insert_by_time take from_timestamp_ms
get_deltas_run = refl

get_deltas_complete_example : Has row (row ∷ [])
get_deltas_complete_example =
    get_deltas_complete select stored_rows (λ b n. refl) 1000 500 50 (omega arith) (omega arith)
      (record { deltas = row ∷ []; server_hlc = 1000; has_more = false }) get_deltas_run row 0 refl
      (omega arith) (omega arith) (omega arith) (inl refl) (omega arith)

-- All writes fail.
abbrev broken : Tables
broken = record {
  write = λ bucket r. failed word;
  update_read_position = λ user channel message. failed word;
  fresh_id = word;
  now = 1000;
}

apply_deltas_lem_example :
    apply_deltas broken (message_append none none word 0 none ∷ [])
    ≡ done (
        if ltb 1000 (length (message_append none none word 0 none ∷ []))
        then err Apply.too_large
        else ok (length (message_append none none word 0 none ∷ [])))
apply_deltas_lem_example =
    apply_deltas_lem broken (message_append none none word 0 none ∷ []) (omega arith, tt)

abbrev answering : ℕ → Server
answering round = record {
  build = release;
  select = select;
  now = 1000;
  later = 1001;
  clock = some 1002;
}

abbrev first_answer : Answer
first_answer = record { deltas = delta_of row ∷ []; server_hlc = 1002; has_more = false }

gateway_run : gateway answering node_a 0 500 ≡ done first_answer
unfolding sync_request request_wall answer_of hlc_merge Hlc.merge system_time_ms merge_counter
    get_deltas compute_time_bucket range upwards fetch_all fetch_messages_after after sort_by_time
    insert_by_time take from_timestamp_ms parse_uuid_16
gateway_run = refl

pull_from_gateway_example :
    (rest : List Delta) × (collected (pull (suc 3) (gateway answering node_a) 0 500)
      ≡ first_answer.deltas ++ rest)
    × Later 1002 rest
    × (length first_answer.deltas ≤ 100)
    × (1001 ≤ 1002)
pull_from_gateway_example = pull_from_gateway answering node_a 3 500 first_answer gateway_run

-- A table with one message more than an answer carries.
unfoldable many : ℕ → List Row
many zero = []
many (suc n) = row ∷ many n

abbrev crowded : ℕ → Server
crowded round = record {
  build = release;
  select = λ b n. some (take n (if b == 0 then many 101 else []));
  now = 1000;
  later = 1001;
  clock = some 1002;
}

abbrev full_answer : Answer
full_answer = record { deltas = map delta_of (many 100); server_hlc = 1002; has_more = true }

abbrev empty_answer : Answer
empty_answer = record { deltas = []; server_hlc = 1002; has_more = false }

crowded_run : gateway crowded node_a 0 500 ≡ done full_answer
unfolding many sync_request request_wall answer_of hlc_merge Hlc.merge system_time_ms merge_counter
    get_deltas compute_time_bucket range upwards fetch_all fetch_messages_after after sort_by_time
    insert_by_time take from_timestamp_ms parse_uuid_16
crowded_run = refl

empty_run : gateway crowded node_a 1 1002 ≡ done empty_answer
unfolding many sync_request request_wall answer_of hlc_merge Hlc.merge system_time_ms merge_counter
    get_deltas compute_time_bucket range upwards fetch_all fetch_messages_after after sort_by_time
    insert_by_time take from_timestamp_ms parse_uuid_16
empty_run = refl

many-le : (n : ℕ) → All (λ (r : Row). r.created_at ≤ 1001) (many n)
unfolding many
many-le zero = tt
many-le (suc n) = (omega arith, many-le n)

crowded_old :
    (b n : ℕ) → All (λ (r : Row). r.created_at ≤ 1001) (take n (if b == 0 then many 101 else []))
crowded_old b n = elim (Bool-cases (b == 0)) [
  | inl own ↦ rw own (All-take _ n (many 101) (many-le 101))
  | inr other ↦ rw other (All-take _ n [] tt)
]

pull_from_gateway_ends_example :
    (last : ℕ) × (pull (suc (suc 0)) (gateway crowded node_a) 0 500
      ≡ finished full_answer.deltas last)
    × (1002 ≤ last)
pull_from_gateway_ends_example =
    pull_from_gateway_ends crowded node_a 0 500 full_answer empty_answer crowded_run empty_run
      crowded_old

-- A message of the channel `b'x'` waits before one of the channel that is synced.
abbrev waiting : ℕ → Bytes → Queued Offline
waiting id channel = record {
  id = id;
  channel_id = channel;
  event = word;
  payload = record {
    content = word;
    content_type = 0;
    message_id = word;
    hlc_wall = 700;
    encrypted_content = none;
  };
  created_at = 700;
}

abbrev two_channels : LocalStore
two_channels = record {
  messages = [];
  sync_state = [];
  queue = record { items = waiting 0 other_word ∷ waiting 1 word ∷ []; next_id = 2 };
}

abbrev quiet_gateway : ℕ → ℕ → Outcome Answer
quiet_gateway round since = done (record { deltas = []; server_hlc = 1000; has_more = false })

abbrev accept_all : List Pushed → Outcome ℕ
accept_all envelopes = done 1

quiet_run : pull 1 quiet_gateway 0 0 ≡ finished [] 1000
unfolding pull
quiet_run = refl

mine_run : of_channel word (drain two_channels.queue) ≡ waiting 1 word ∷ []
unfolding of_channel drain dequeue take list_ord nat_ord
mine_run = refl

sync_loses_others_example :
    ¬ Has
      (waiting 0 other_word)
      (sync_channel accept_all word 1 quiet_gateway two_channels).0.queue.items
    × (¬ Has (waiting 0 other_word) (waiting 1 word ∷ []))
unfolding get
sync_loses_others_example =
    sync_loses_others accept_all word 1 quiet_gateway two_channels [] 1000 1 quiet_run
      (waiting 1 word) [] mine_run refl (waiting 0 other_word)
      (λ e. let differ : ⊥ = cc e in differ) (omega arith)

abbrev new_store : LocalStore
new_store = record { messages = []; sync_state = []; queue = record { items = []; next_id = 0 } }

abbrev queued_store : LocalStore
queued_store = queue_offline word word 0 other_word 700 new_store

new_store-IsOffline : IsOffline new_store
new_store-IsOffline = record {
  ordered = record { ascending = omega arith; bounded = omega arith };
  plain = tt;
}

drain-IsOffline_example :
    All
      (λ (p : Pushed). p.payload ≡ [])
      (map envelope_of (of_channel word (drain queued_store.queue)))
    × IsOffline (queue_offline word word 0 word 701 queued_store)
drain-IsOffline_example =
    drain-IsOffline word word 0 word 701 queued_store
      ((drain-IsOffline word word 0 other_word 700 new_store new_store-IsOffline).1)

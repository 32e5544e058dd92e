-- ===== src/Sync/Request.antt =====
-- apps/gateway/lib/gateway/binary_socket.ex: the clause of `dispatch` for `sync:request`.
use mercury_messaging.Base.{
  ℕ, map, List, Option, Outcome, done, panic, ◌>>=◌, Result, ok, err, Build,
}
use mercury_messaging.MessageLog.{Bytes}
use mercury_messaging.Hlc.{ClockReading}
use mercury_messaging.Nif.Validate.{Atom}
use mercury_messaging.Nif.Clock.{hlc_merge}
use mercury_messaging.Sync.Server.{Row, Deltas, min, get_deltas}
use mercury_messaging.Sync.Client.{Delta, Answer}

-- What a request meets at the server: the build of the native library, what the query of the table
-- gives, and the readings of the system clock by `get_deltas`, by the handler, and by `hlc_merge`.
pub record Server : Type 0 where
  pub build : Build
  pub select : ℕ → ℕ → Option (List Row)
  pub now : ℕ
  pub later : ℕ
  pub clock : ClockReading

unfoldable pub delta_of : Row → Delta
delta_of r = record {
  message_id = r.message_id;
  sender_id = r.sender_id;
  encrypted_content = r.encrypted_content;
  hlc_wall = r.created_at;
}

-- `{merged_wall, _merged_counter} = ..`, which an error matches too; writing `:error` as 64 bits then
-- raises.
abbrev pub merged_wall : Result (ℕ × ℕ) Atom → Outcome ℕ
merged_wall (ok (wall, counter)) = done wall
merged_wall (err e) = panic

unfoldable pub request_wall : Server → Bytes → ℕ → ℕ → Outcome ℕ
request_wall s node_id since_wall last_counter = do
  m ← hlc_merge s.build s.clock s.later 0 node_id since_wall last_counter node_id
  merged_wall m

unfoldable pub answer_of : Deltas → ℕ → Answer
answer_of d wall = record {
  deltas = map delta_of d.deltas;
  server_hlc = wall;
  has_more = d.has_more;
}

unfoldable pub sync_request : Server → Bytes → ℕ → ℕ → ℕ → Outcome Answer
unfolding request_wall answer_of
sync_request s node_id since_wall limit last_counter = do
  d ← get_deltas s.select s.now since_wall (min limit 100)
  wall ← request_wall s node_id since_wall last_counter
  done (answer_of d wall)

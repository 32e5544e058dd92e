-- ===== src/Gateway/Services.antt =====
-- What apps/gateway/lib/gateway/binary_socket.ex asks of the other parts of the server: the modules
-- under `Persistence`, the rate limiter, and the native functions. A native function that
-- raises is a `panic`; what calls other processes may also exit.
use mercury_messaging.Base.{ℕ, Bool, List, Option, Outcome, Result, ok, err, length, ◌==◌}
use mercury_messaging.MessageLog.{Bytes}
use mercury_messaging.Gateway.Act.{Call, Ended, Stays}
use mercury_messaging.Sync.Client.{Answer}
use mercury_messaging.Sync.Server.{Row}
use mercury_messaging.Sync.Server.Apply.{Delta, TooLarge}

-- The six fields that `envelope_decode` gives.
pub record Envelope : Type 0 where
  pub tenant_id : Bytes
  pub channel_id : Bytes
  pub sender_id : Bytes
  pub message_id : Bytes
  pub timestamp : ℕ
  pub payload : Bytes

-- What a native decoder does: it returns the value, or `{:error, text}` as a value too, or it raises.
pub data Decoded (A : Type 0) : Type 0 where
  returned : A → Decoded A
  returned_error : (text : Bytes) → Decoded A
  raised : (message : Bytes) → Decoded A

-- `safe_nif_call`: `{:ok, fun.()}`, whatever the function returns, and `{:error, message}` where it
-- raises.
unfoldable pub safe_nif_call : {A : Type 0} → Decoded A → Result (Result A Bytes) Bytes
safe_nif_call (returned a) = ok (ok a)
safe_nif_call (returned_error text) = ok (err text)
safe_nif_call (raised message) = err message

pub record Services : Type 0 where
  pub envelope_decode : Bytes → Decoded Envelope
  pub envelope_encode : Envelope → Outcome Bytes
  pub validate_message : Bytes → Bytes → Bytes → Bytes → ℕ → Outcome (Result (Unit {0}) Bytes)
  pub validate_channel : Bytes → ℕ → Option Bytes → Outcome (Result (Unit {0}) Bytes)
  pub compute_time_bucket : ℕ → Outcome ℕ
  pub typing_encode : Bytes → Outcome Bytes
  pub read_receipt_decode : Bytes → Decoded (Bytes × Bytes)
  pub read_receipt_encode : Bytes → Bytes → Outcome Bytes
  pub mls_key_package_capnp_decode : Bytes → Decoded Bytes
  pub mls_key_package_list_encode : List Bytes → Outcome Bytes
  pub mls_commit_capnp_decode : Bytes → Decoded Bytes
  pub hlc_tick_wall : Bytes → Outcome ℕ
  pub generate_channel_id : Bytes
  -- What comes of a call whose value is not looked at.
  pub does : Call → Ended (Unit {0})
  pub allow : Bytes → Bytes → Ended Bool
  pub read_recent : Bytes → Bytes → ℕ → Ended (List Row)
  -- A key package that did not decode is handed on as the error that it is.
  pub upload : Bytes → Bytes → Result Bytes Bytes → Ended (Result (Unit {0}) Bytes)
  pub fetch_key_packages : Bytes → Bytes → Ended (List Bytes)
  -- The role, or `none` for an error.
  pub get_role : Bytes → Bytes → Bytes → Ended (Option ℕ)
  pub list_members : Bytes → Bytes → Ended (List Bytes)
  pub mls_creator : Bytes → Bytes → Ended (Option Bytes)
  pub sync_request : Bytes → Bytes → ℕ → ℕ → ℕ → Ended Answer
  pub apply_deltas : Bytes → Bytes → List Delta → Ended (Result ℕ TooLarge)

-- No process that the gateway calls is down.
pub record IsUp (v : Services) : Type 0 where
  pub does : (c : Call) → Stays (v.does c)
  pub allow : (a b : Bytes) → Stays (v.allow a b)
  pub read_recent : (a b : Bytes) (n : ℕ) → Stays (v.read_recent a b n)
  pub upload : (a b : Bytes) (k : Result Bytes Bytes) → Stays (v.upload a b k)
  pub fetch_key_packages : (a b : Bytes) → Stays (v.fetch_key_packages a b)
  pub get_role : (a b c : Bytes) → Stays (v.get_role a b c)
  pub list_members : (a b : Bytes) → Stays (v.list_members a b)
  pub mls_creator : (a b : Bytes) → Stays (v.mls_creator a b)
  pub sync_request : (a b : Bytes) (k l m : ℕ) → Stays (v.sync_request a b k l m)
  pub apply_deltas : (a b : Bytes) (ds : List Delta) → Stays (v.apply_deltas a b ds)

-- `uuid_from_binary(bin)` is a text for 16 bytes and `nil` for others.
abbrev pub is_uuid : Bytes → Bool
is_uuid bin = length bin == 16

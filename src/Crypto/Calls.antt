-- ===== src/Crypto/Calls.antt =====
-- The calls that a manager answers, and runs of them one after the other.
use mercury_messaging.Base.{ℕ, List, [], ◌∷◌, Outcome, done, ◌>>=◌}
use mercury_messaging.MessageLog.{Bytes}
use mercury_messaging.Crypto.Crates.{MlsCrates}
use mercury_messaging.Crypto.Manager.{
  MlsGroupManager, generate_key_package, create_group, add_member, remove_member, encrypt, decrypt,
  process_commit, process_welcome,
}

pub data Call : Type 0 where
  generate : Call
  create : (id : Bytes) → Call
  add : (id kp : Bytes) → Call
  remove : (id : Bytes) (index : ℕ) → Call
  seal unseal commit : (id bytes : Bytes) → Call
  welcome : (bytes : Bytes) → Call

module _ (c : MlsCrates) where
  -- The manager after a call.
  unfoldable pub after : Call → MlsGroupManager c → Outcome (MlsGroupManager c)
  after generate m = done (generate_key_package c m).0
  after (create id) m = create_group c id m >>= λ r. done r.0
  after (add id kp) m = done (add_member c id kp m).0
  after (remove id index) m = done (remove_member c id index m).0
  after (seal id bytes) m = encrypt c id bytes m >>= λ r. done r.0
  after (unseal id bytes) m = done (decrypt c id bytes m).0
  after (commit id bytes) m = done (process_commit c id bytes m).0
  after (welcome bytes) m = done (process_welcome c bytes m).0

  unfoldable pub after_all : List Call → MlsGroupManager c → Outcome (MlsGroupManager c)
  after_all [] m = done m
  after_all (call ∷ calls) m = after call m >>= after_all calls

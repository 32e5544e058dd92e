-- ===== src/Crypto/Encryptor.antt =====
-- crates/mercury-crypto/src/encryptor.rs: the trait `Encryptor` and its two implementations.
use mercury_messaging.Base.{Outcome, done, Result, ok}
use mercury_messaging.MessageLog.{Bytes}
use mercury_messaging.Crypto.Crates.{MlsCrates}
use mercury_messaging.Crypto.Manager.{MlsGroupManager, MlsError, encrypt, decrypt}

pub record Encryptor (Self Error : Type 0) : Type 0 where
  pub encrypt : Bytes → Bytes → Self → Outcome (Self × Result Bytes Error)
  pub decrypt : Bytes → Bytes → Self → Outcome (Self × Result Bytes Error)

abbrev pub mls_encryptor : (c : MlsCrates) → Encryptor (MlsGroupManager c) (MlsError c)
mls_encryptor c = record {
  encrypt = encrypt c;
  decrypt = λ id ciphertext m. done (decrypt c id ciphertext m);
}

pub data NoopEncryptor : Type 0 where
  noop : NoopEncryptor

abbrev pub noop_encryptor : (Error : Type 0) → Encryptor NoopEncryptor Error
noop_encryptor Error = record {
  encrypt = λ id plaintext s. done (s, ok plaintext);
  decrypt = λ id ciphertext s. done (s, ok ciphertext);
}

-- ===== src/Crypto.antt =====
-- crates/mercury-crypto/src: the MLS group manager and the trait `Encryptor`.
pub mod Crates
pub mod Step
pub mod Manager
pub mod Calls
pub mod Isolation
pub mod KeepsId
pub mod Keyed
pub mod Limits
pub mod Encryptor

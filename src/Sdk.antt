-- ===== src/Sdk.antt =====
-- crates/mercury-sdk-core/src/lib.rs: the functions that the Web SDK calls.
pub mod Validate
pub mod Member
pub mod Manager

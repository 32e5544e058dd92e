-- ===== src/Nif.antt =====
-- crates/mercury-nif/src/lib.rs: the functions that Elixir calls. A binary is its bytes.
pub mod Validate
pub mod Clock
pub mod Mls
pub mod Wire

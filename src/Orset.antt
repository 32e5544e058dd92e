-- ===== src/Orset.antt =====
-- crates/mercury-crdt/src/orset.rs: the observed-remove set. `T` is the type of the values.
pub mod Dots
pub mod Defs
pub mod Laws
pub mod Members
pub mod Views
pub mod Fresh
pub mod Invariant
pub mod Network

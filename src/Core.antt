-- ===== src/Core.antt =====
-- crates/mercury-core: the domain types and their validation, and the wire format.
pub mod Ids
pub mod Error
pub mod Tenant
pub mod TimeBucket
pub mod Message
pub mod Channel
pub mod Capnp
pub mod Proto

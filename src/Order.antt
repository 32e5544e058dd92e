-- ===== src/Order.antt =====
-- Rust's `Ord`: the trait as an interface with the laws that its documentation asks of `cmp`, and
-- the orders of the standard library that the crates use, on integers, slices and tuples.
mod Defs
mod Instances
pub use Defs.*
unfoldable pub use Instances.*

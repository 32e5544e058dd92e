-- ===== src/Hlc/Order.antt =====
-- crates/mercury-crdt/src/hlc.rs: `impl Ord for Hlc`.
use mercury_messaging.Base.{◌≡◌, lt, eq, arith}
use mercury_messaging.Order.{
  Ord, reverse, nat_ord, compare_swap, cmp_list_self, eq_of_cmp_list, cmp_list_swap, cmp_list_trans,
}
use mercury_messaging.Hlc.{Hlc, cmp_hlc}

pub cmp_hlc_self : (a : Hlc) → cmp_hlc a a ≡ eq
unfolding cmp_hlc
cmp_hlc_self a = ground (arith, cmp_list_self a.node_id)

-- Two clocks compare as equal only if they are equal in all three fields.
pub eq_of_cmp_hlc : (a b : Hlc) → cmp_hlc a b ≡ eq → a ≡ b
unfolding cmp_hlc
eq_of_cmp_hlc a b h = ground (arith, eq_of_cmp_list a.node_id b.node_id)

pub cmp_hlc_swap : (a b : Hlc) → cmp_hlc b a ≡ reverse (cmp_hlc a b)
unfolding cmp_hlc
cmp_hlc_swap a b = ground (
  arith,
  compare_swap a.wall_clock_ms b.wall_clock_ms,
  compare_swap a.counter b.counter,
  cmp_list_swap a.node_id b.node_id,
)

pub cmp_hlc_trans : (a b c : Hlc) → cmp_hlc a b ≡ lt → cmp_hlc b c ≡ lt → cmp_hlc a c ≡ lt
unfolding cmp_hlc
cmp_hlc_trans a b c h k = ground (arith, cmp_list_trans a.node_id b.node_id c.node_id)

instance unfoldable pub hlc_ord : Ord Hlc
unfolding cmp_hlc
hlc_ord = record {
  cmp = cmp_hlc;
  cmp_self = cmp_hlc_self;
  eq_of_cmp = eq_of_cmp_hlc;
  cmp_swap = cmp_hlc_swap;
  lt_trans = cmp_hlc_trans;
}

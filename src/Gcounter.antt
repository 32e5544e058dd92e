-- ===== src/Gcounter.antt =====
-- crates/mercury-crdt/src/gcounter.rs: the grow-only counter, with one slot for each node.
use mercury_messaging.Base.{
  ℕ, ◌+◌, List, [], ◌∷◌, max, get_or, Outcome, done, ◌>>=◌, Build, add_word, u64_mod,
}
use mercury_messaging.Order.{nat_ord, list_ord}
use mercury_messaging.BTree.{BTreeMap, get, insert, absorb}
use mercury_messaging.Hlc.{Bytes16}
pub mod Laws
pub mod Value

pub record GCounter : Type 0 where
  pub counts : BTreeMap Bytes16 ℕ

unfoldable pub new : GCounter
new = record { counts = [] }

-- `*self.counts.entry(node_id).or_insert(0) += 1`, on `u64`.
unfoldable pub increment : Build → Bytes16 → GCounter → Outcome GCounter
increment build node_id c = do
  n ← add_word build u64_mod (get_or (get node_id c.counts) 0) 1
  done (record { counts = insert node_id n c.counts })

-- `values().sum()`, on `u64`: the fold of `+` from 0.
unfoldable pub sum_values : Build → ℕ → BTreeMap Bytes16 ℕ → Outcome ℕ
sum_values build acc [] = done acc
sum_values build acc ((node, count) ∷ counts) =
    add_word build u64_mod acc count >>= λ s. sum_values build s counts

unfoldable pub value : Build → GCounter → Outcome ℕ
unfolding sum_values
value build c = sum_values build 0 c.counts

-- The loop of `merge`: each slot becomes the greater of the two.
unfoldable pub merge : GCounter → GCounter → GCounter
merge c other = record { counts = absorb 0 max c.counts other.counts }

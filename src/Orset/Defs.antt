-- ===== src/Orset/Defs.antt =====
-- crates/mercury-crdt/src/orset.rs: `struct ORSet` and its methods.
use mercury_messaging.Base.{
  ℕ, ◌+◌, List, [], ◌∷◌, none, some, Bool, true, false, max, get_or, Outcome, done, ◌>>=◌, Build,
  add_word, u64_mod, ◌==◌, if◌then◌else◌,
}
use mercury_messaging.Order.{nat_ord, list_ord}
use mercury_messaging.BTree
use mercury_messaging.HashMap
use mercury_messaging.HashMap.Bytes.{bytes_eq}
use mercury_messaging.HashMap.{Eq, HashMap, get, upsert, absorb}
use mercury_messaging.Hlc.{Bytes16}
use mercury_messaging.Orset.Dots.{Dots, dot_ord, union}

pub record OrSet {ℓ} (T : Type ℓ) : Type ℓ where
  pub entries : HashMap T Dots
  pub next_seq : HashMap Bytes16 ℕ

-- `!dots.is_empty()`
abbrev pub any_dots : Dots → Bool
any_dots [] = false
any_dots (d ∷ dots) = true

module _ {ℓ} {T : Type ℓ} where
  unfoldable pub new : OrSet T
  new = record { entries = []; next_seq = [] }

  -- `iter().filter(|(_, dots)| !dots.is_empty()).map(|(k, _)| k)`
  unfoldable pub live_keys : HashMap T Dots → List T
  live_keys [] = []
  live_keys ((k, dots) ∷ m) = let rest = live_keys m in if any_dots dots then k ∷ rest else rest

  unfoldable pub elements : OrSet T → List T
  elements s = live_keys s.entries

  -- `values().filter(|dots| !dots.is_empty()).count()`
  unfoldable pub live_count : HashMap T Dots → ℕ
  live_count [] = 0
  live_count ((k, dots) ∷ m) = let rest = live_count m in if any_dots dots then rest + 1 else rest

  unfoldable pub len : OrSet T → ℕ
  len s = live_count s.entries

  unfoldable pub is_empty : OrSet T → Bool
  is_empty s = len s == 0

module _ {ℓ} {T : Type ℓ} ⦃e : Eq T⦄ where
  -- `*seq += 1` on `u64`, then the insertion of the new dot.
  unfoldable pub add : Build → T → Bytes16 → OrSet T → Outcome (OrSet T)
  add build value node_id s = do
    seq ← add_word build u64_mod (get_or (get node_id s.next_seq) 0) 1
    done (record {
      entries =
          upsert value [] (BTree.insert (record { node_id = node_id; seq = seq }) tt) s.entries;
      next_seq = upsert node_id 0 (λ _. seq) s.next_seq;
    })

  unfoldable pub remove : T → OrSet T → OrSet T
  remove value s = record s { entries = HashMap.remove value s.entries }

  unfoldable pub contains : T → OrSet T → Bool
  contains value s = elim (get value s.entries) [ none ↦ false | some dots ↦ any_dots dots ]

  -- The two loops of `merge`.
  unfoldable pub merge : OrSet T → OrSet T → OrSet T
  merge s other = record {
    entries = absorb [] union s.entries other.entries;
    next_seq = absorb 0 max s.next_seq other.next_seq;
  }

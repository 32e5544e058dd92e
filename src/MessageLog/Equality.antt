-- ===== src/MessageLog/Equality.antt =====
-- crates/mercury-crdt/src/message_log.rs: `impl PartialEq`.
use mercury_messaging.Base.{◌≡◌, ◌↔◌, refl, true, [], ◌∷◌, length, arith, ◌&&◌, ◌==◌}
use mercury_messaging.Order.{list_ord, nat_ord, eq_of_same, same_self}
use mercury_messaging.BTree.{BTreeMap}
use mercury_messaging.Hlc.{Hlc}
use mercury_messaging.Hlc.Order.{hlc_ord}
use mercury_messaging.MessageLog.{Bytes, MessageLog, all_equal, eq}

eq_of_all_equal :
    (m n : BTreeMap Hlc Bytes) → ((length m == length n) && all_equal m n) ≡ true → m ≡ n
unfolding all_equal
eq_of_all_equal [] [] h = refl
eq_of_all_equal [] (f ∷ n) h = ground arith
eq_of_all_equal (e ∷ m) [] h = ground arith
eq_of_all_equal ((k, v) ∷ m) ((j, w) ∷ n) h =
    ground (arith, eq_of_all_equal m n, eq_of_same k j, eq_of_same v w)

all_equal_self : (m : BTreeMap Hlc Bytes) → ((length m == length m) && all_equal m m) ≡ true
unfolding all_equal
all_equal_self [] = ground arith
all_equal_self ((k, v) ∷ m) = ground (arith, all_equal_self m, same_self k, same_self v)

-- Two logs compare as equal exactly if they are equal.
pub eq_iff : (a b : MessageLog) → (eq a b ≡ true) ↔ (a ≡ b)
unfolding eq
eq_iff a b = (
  λ h. let e = eq_of_all_equal a.entries b.entries h in cc e,
  λ e. rw e (all_equal_self b.entries),
)

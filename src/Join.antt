-- ===== src/Join.antt =====
-- How one key's values join when a replica's map is merged into another: the loop
-- `for (k, v) in other { let e = m.entry(k).or_insert(d); *e = f(*e, v) }` seen at one key.
use mercury_messaging.Base.{◌≡◌, refl, sym, ap, Option, none, some, get_or}

abbrev pub Holds {ℓ κ} : {V : Type ℓ} → (V → Type κ) → Option V → Type κ
Holds P none = Unit
Holds P (some v) = P v

pub Holds-of_all {ℓ κ} :
    {V : Type ℓ} (P : V → Type κ) → ((v : V) → P v) → (x : Option V) → Holds P x
Holds-of_all P h none = tt
Holds-of_all P h (some v) = h v

abbrev pub join {ℓ} : {V : Type ℓ} → V → (V → V → V) → Option V → Option V → Option V
join d f x none = x
join d f x (some v) = some (f (get_or x d) v)

-- `f` is a join with unit `d` on the values that satisfy `P`.
pub record IsJoin {ℓ κ} {V : Type ℓ} (P : V → Type κ) (d : V) (f : V → V → V) : Type (ℓ ⊔ κ) where
  pub unit : (v : V) → P v → f d v ≡ v
  pub comm : (a b : V) → P a → P b → f a b ≡ f b a
  pub assoc : (a b c : V) → P a → P b → P c → f (f a b) c ≡ f a (f b c)
  pub idem : (a : V) → P a → f a a ≡ a
  pub closed : (a b : V) → P a → P b → P (f a b)
  pub unit_holds : P d

module _ {ℓ κ} {V : Type ℓ} {P : V → Type κ} {d : V} {f : V → V → V} (l : IsJoin P d f) where
  pub join-none : (x : Option V) → Holds P x → join d f none x ≡ x
  join-none none p = refl
  join-none (some a) p = ap some (l.unit a p)

  pub join_comm : (x y : Option V) → Holds P x → Holds P y → join d f x y ≡ join d f y x
  join_comm none none p q = refl
  join_comm none (some b) p q = ap some (l.unit b q)
  join_comm (some a) none p q = ap some (sym (l.unit a p))
  join_comm (some a) (some b) p q = ap some (l.comm a b p q)

  pub join_assoc :
      (x y z : Option V)
      → Holds P x
      → Holds P y
      → Holds P z
      → join d f (join d f x y) z ≡ join d f x (join d f y z)
  join_assoc x y none p q r = refl
  join_assoc x none (some c) p q r = cc (l.unit c r)
  join_assoc none (some b) (some c) p q r = cc (l.unit b q, l.unit (f b c) (l.closed b c q r))
  join_assoc (some a) (some b) (some c) p q r = ap some (l.assoc a b c p q r)

  pub join_idem : (x : Option V) → Holds P x → join d f x x ≡ x
  join_idem none p = refl
  join_idem (some a) p = ap some (l.idem a p)

  pub join-Holds : (x y : Option V) → Holds P x → Holds P y → Holds P (join d f x y)
  join-Holds x none p q = p
  join-Holds none (some b) p q = l.closed d b l.unit_holds q
  join-Holds (some a) (some b) p q = l.closed a b p q

-- ===== src/Gateway/Act.antt =====
-- A handler of apps/gateway/lib/gateway/binary_socket.ex: it logs its calls to other parts of the
-- server, and gives a value, raises or exits.
use mercury_messaging.Base.{
  Result, ℕ, ◌≡◌, refl, List, [], ◌∷◌, ◌++◌, Bool, true, false, Option, none, some, Outcome, done,
  panic, if◌then◌else◌,
}
use mercury_messaging.MessageLog.{Bytes}
use mercury_messaging.Sync.Server.{Row}
use mercury_messaging.Sync.Server.Apply.{Delta}

pub data Call : Type 0 where
  subscribes : (topic : Bytes) → Call
  unsubscribes : (topic : Bytes) → Call
  broadcasts : (topic : Bytes) (event : ℕ) (payload : Bytes) → Call
  broadcasts_from : (topic : Bytes) (event : ℕ) (payload : Bytes) → Call
  warms_user_cache : (tenant user : Bytes) → Call
  persists : (channel : Bytes) (bucket : ℕ) (row : Row) → Call
  reads_up_to : (channel message : Bytes) → Call
  uploads : (key_package : Result Bytes Bytes) → Call
  adds_member : (channel user : Bytes) → Call
  removes_member : (channel user : Bytes) → Call
  claims_creator : (channel user : Bytes) → Call
  updates_cursor : (channel : Bytes) (wall counter : ℕ) → Call
  applies : (channel : Bytes) (deltas : List Delta) → Call
  fans_out : (deltas : List Delta) → Call
  tracks : (topic : Bytes) → Call
  updates_status : (topic : Bytes) (status : ℕ) → Call

-- How a handler ends: with a value, by an exception, which `rescue` catches, or by an exit, as of a
-- process that is called and is down, which it does not catch.
pub data Ended {ℓ} (A : Type ℓ) : Type ℓ where
  gives : A → Ended A
  raises : Ended A
  exits : Ended A

pub data Act {ℓ} (A : Type ℓ) : Type ℓ where
  acts : List Call → Ended A → Act A

module _ {ℓ} {A : Type ℓ} where
  abbrev pub prefix : List Call → Act A → Act A
  prefix calls (acts more r) = acts (calls ++ more) r

  unfoldable pub give : A → Act A
  give a = acts [] (gives a)

  abbrev pub ended : Outcome A → Ended A
  ended (done a) = gives a
  ended panic = raises

  -- A native function, which may raise.
  unfoldable pub lift : Outcome A → Act A
  lift r = acts [] (ended r)

  -- What a call of another process comes back with.
  unfoldable pub await : Ended A → Act A
  await r = acts [] r

  -- The same of a call that changes what is there.
  unfoldable pub asks : Call → Ended A → Act A
  asks c r = acts (c ∷ []) r

  -- `map.key`, which raises for a key that is not there.
  unfoldable pub fetch_key : Option A → Act A
  fetch_key none = acts [] raises
  fetch_key (some a) = acts [] (gives a)

-- A call whose value is not looked at: it is what the other parts of the server do about it.
unfoldable pub tell : (Call → Ended (Unit {0})) → Call → Act (Unit {0})
tell does c = acts (c ∷ []) (does c)

infixl 5 ◌>>=◌ ◌>>◌
unfoldable pub ◌>>=◌ {ℓ κ} : {A : Type ℓ} {B : Type κ} → Act A → (A → Act B) → Act B
acts calls (gives a) >>= f = prefix calls (f a)
acts calls raises >>= f = acts calls raises
acts calls exits >>= f = acts calls exits

unfoldable pub ◌>>◌ {ℓ} : {B : Type ℓ} → Act (Unit {0}) → Act B → Act B
unfolding ◌>>=◌
m >> k = m >>= λ _. k

-- What other processes come back with is no exit.
unfoldable pub Stays {ℓ} : {A : Type ℓ} → Ended A → Type 0
Stays (gives a) = Unit
Stays raises = Unit
Stays exits = ⊥

-- The handler does not end by an exit, and if it gives a value, the value has the property.
unfoldable pub Gives {ℓ} : {A : Type ℓ} → (A → Type 0) → Act A → Type 0
Gives P (acts calls (gives a)) = P a
Gives P (acts calls raises) = Unit
Gives P (acts calls exits) = ⊥

-- The handler does not end by an exit.
unfoldable pub Lasts {ℓ} : {A : Type ℓ} → Act A → Type 0
Lasts (acts calls (gives a)) = Unit
Lasts (acts calls raises) = Unit
Lasts (acts calls exits) = ⊥

module _ {ℓ} {A : Type ℓ} where
  pub give-Lasts : (a : A) → Lasts (give a)
  unfolding Lasts give
  give-Lasts a = tt

  pub lift-Lasts : (r : Outcome A) → Lasts (lift r)
  unfolding Lasts lift
  lift-Lasts (done a) = tt
  lift-Lasts panic = tt

  pub asks-Lasts : (c : Call) (r : Ended A) → Stays r → Lasts (asks c r)
  unfolding Lasts Stays asks
  asks-Lasts c (gives a) h = tt
  asks-Lasts c raises h = tt
  asks-Lasts c exits h = h

  pub await-Lasts : (r : Ended A) → Stays r → Lasts (await r)
  unfolding Lasts Stays await
  await-Lasts (gives a) h = tt
  await-Lasts raises h = tt
  await-Lasts exits h = h

  pub fetch_key-Lasts : (o : Option A) → Lasts (fetch_key o)
  unfolding Lasts fetch_key
  fetch_key-Lasts none = tt
  fetch_key-Lasts (some a) = tt

  pub prefix-Lasts : (calls : List Call) (m : Act A) → Lasts m → Lasts (prefix calls m)
  unfolding Lasts
  prefix-Lasts calls (acts more (gives a)) h = h
  prefix-Lasts calls (acts more raises) h = h
  prefix-Lasts calls (acts more exits) h = h

  pub bind-Lasts {μ} :
      {B : Type μ} (m : Act B) (f : B → Act A) → Lasts m → ((b : B) → Lasts (f b)) → Lasts (m >>= f)
  unfolding Lasts ◌>>=◌
  bind-Lasts (acts calls (gives b)) f h k = prefix-Lasts calls (f b) (k b)
  bind-Lasts (acts calls raises) f h k = tt
  bind-Lasts (acts calls exits) f h k = h

  pub then-Lasts : (m : Act (Unit {0})) (k : Act A) → Lasts m → Lasts k → Lasts (m >> k)
  unfolding ◌>>◌
  then-Lasts m k h l = bind-Lasts m (λ _. k) h (λ _. l)

  pub if-Lasts : (c : Bool) (m n : Act A) → Lasts m → Lasts n → Lasts (if c then m else n)
  if-Lasts true m n h k = h
  if-Lasts false m n h k = k

pub tell-Lasts :
    (does : Call → Ended (Unit {0})) (c : Call)
    → ((c : Call) → Stays (does c))
    → Lasts (tell does c)
unfolding tell asks
tell-Lasts does c h = asks-Lasts c (does c) (h c)

pub ruleset lasts_rules = (
  tell-Lasts, give-Lasts, lift-Lasts, asks-Lasts, await-Lasts, fetch_key-Lasts, bind-Lasts,
  then-Lasts, if-Lasts,
)

module _ {ℓ} {A : Type ℓ} (P : A → Type 0) where
  Gives-prefix : (calls : List Call) (m : Act A) → Gives P m → Gives P (prefix calls m)
  unfolding Gives
  Gives-prefix calls (acts more (gives a)) h = h
  Gives-prefix calls (acts more raises) h = h
  Gives-prefix calls (acts more exits) h = h

  pub Gives-bind {μ} :
      {B : Type μ} (m : Act B) (f : B → Act A)
      → Lasts m
      → ((b : B) → Gives P (f b))
      → Gives P (m >>= f)
  unfolding Gives Lasts ◌>>=◌
  Gives-bind (acts calls (gives b)) f l h = Gives-prefix calls (f b) (h b)
  Gives-bind (acts calls raises) f l h = tt
  Gives-bind (acts calls exits) f l h = l

  pub Gives-then : (m : Act (Unit {0})) (k : Act A) → Lasts m → Gives P k → Gives P (m >> k)
  unfolding ◌>>◌
  Gives-then m k l h = Gives-bind m (λ _. k) l (λ _. h)

  pub Gives-give : (a : A) → P a → Gives P (give a)
  unfolding Gives give
  Gives-give a h = h

  pub Gives-raise : Gives P (fetch_key none)
  unfolding Gives fetch_key
  Gives-raise = tt

  pub Gives-if :
      (c : Bool) (m n : Act A)
      → (c ≡ true → Gives P m)
      → (c ≡ false → Gives P n)
      → Gives P (if c then m else n)
  Gives-if true m n h k = h refl
  Gives-if false m n h k = k refl

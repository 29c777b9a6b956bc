-- ===== src/Prelude/Effect.antt =====
-- Contract code as state passing with two ways to fail. `ok` and `err` carry the state reached;
-- a trap (a panic, a failed authorization, a host call that fails) carries none.
use mathlib.Core.Path.{◌≡◌, refl, ap}
use mathlib.Core.Option.{Option, none, some}
use mathlib.Core.Bool.{Bool, true, false}

-- `contract e` is `panic_with_error!(env, e)`; `host` is any other trap.
pub data Trap (E : Type 0) : Type 0 where
  contract : E → Trap E
  host : Trap E

pub data Outcome (S E A : Type 0) : Type 0 where
  ok : A → S → Outcome S E A
  err : E → S → Outcome S E A
  trap : Trap E → Outcome S E A

abbrev pub Action : Type 0 → Type 0 → Type 0 → Type 0
Action S E A = S → Outcome S E A

module _ {S E : Type 0} where
  abbrev pub pure : {A : Type 0} → A → Action S E A
  pure a s = ok a s

  abbrev pub raise : {A : Type 0} → E → Action S E A
  raise e s = err e s

  abbrev pub panic : {A : Type 0} → Trap E → Action S E A
  panic t s = trap t

  abbrev pub gets : {A : Type 0} → (S → A) → Action S E A
  gets f s = ok (f s) s

  abbrev pub modify : (S → S) → Action S E (Unit {0})
  modify f s = ok tt (f s)

  -- `if c { return Err(e) }`
  abbrev pub raise_if : Bool → E → Action S E (Unit {0})
  raise_if true e s = err e s
  raise_if false e s = ok tt s

  -- `if c { panic_with_error!(env, e) }`
  abbrev pub panic_if : Bool → E → Action S E (Unit {0})
  panic_if true e s = trap (contract e)
  panic_if false e s = ok tt s

  -- `o.ok_or(e)?`
  abbrev pub ok_or : {A : Type 0} → Option A → E → Action S E A
  ok_or none e s = err e s
  ok_or (some a) e s = ok a s

  -- A host call that traps where it gives no value.
  abbrev pub or_trap : {A : Type 0} → Option A → Action S E A
  or_trap none s = trap host
  or_trap (some a) s = ok a s

  abbrev pub when : Bool → Action S E (Unit {0}) → Action S E (Unit {0})
  when true m s = m s
  when false m s = ok tt s

  -- `if c { m } else { n }`
  abbrev pub branch : {A : Type 0} → Bool → Action S E A → Action S E A → Action S E A
  branch true m n s = m s
  branch false m n s = n s

infixl 5 ◌>>=◌ ◌>>◌
abbrev pub ◌>>=◌ : {S E A B : Type 0} → Action S E A → (A → Action S E B) → Action S E B
◌>>=◌ m f s = elim (m s) [ ok a s' ↦ f a s' | err e s' ↦ err e s' | trap t ↦ trap t ]

abbrev pub ◌>>◌ : {S E A B : Type 0} → Action S E A → Action S E B → Action S E B
m >> k = m >>= λ _. k

-- A computation that reads nothing of the state and changes nothing of it.
abbrev pub Calc : Type 0 → Type 0 → Type 0
Calc E A = Action (Unit {0}) E A

abbrev pub calc : {S E A : Type 0} → Calc E A → Action S E A
calc m s = elim (m tt) [ ok a u ↦ ok a s | err e u ↦ err e s | trap t ↦ trap t ]

-- What a run that returns `Ok` has established.
abbrev pub Ensures : {S E A : Type 0} → (A → S → Type 0) → Outcome S E A → Type 0
Ensures P (ok a s) = P a s
Ensures P (err e s) = Unit
Ensures P (trap t) = Unit

-- The call that the host makes: what a failed call wrote is rolled back.
abbrev pub commit : {S E A : Type 0} → S → Outcome S E A → S
commit s (ok a s') = s'
commit s (err e s') = s
commit s (trap t) = s

-- Inversion of a successful bind.
pub >>=-eq-ok :
    {S E A B : Type 0} (m : Action S E A) (f : A → Action S E B) (s : S) {b : B} {t : S}
    → (m >>= f) s ≡ ok b t
    → (a : A) × (u : S) × (m s ≡ ok a u) × (f a u ≡ ok b t)
>>=-eq-ok {S} {E} {A} {B} m f s {b} {t} h = go (m s) refl h
  where
    go :
        (r : Outcome S E A)
        → m s ≡ r
        → elim r as (λ _. Outcome S E B) [
          | ok a s' ↦ f a s'
          | err e s' ↦ err e s'
          | trap u ↦ trap u
        ]
          ≡ ok b t
        → (a : A) × (u : S) × (m s ≡ ok a u) × (f a u ≡ ok b t)
    go (ok a u) e k = (a, u, e, k)
    go (err x u) e k = absurd (cc)
    go (trap x) e k = absurd (cc)

-- A bind whose first part succeeds goes on with the second.
pub >>=-ok :
    {S E A B : Type 0} (m : Action S E A) (f : A → Action S E B) (s : S) {a : A} {t : S}
    → m s ≡ ok a t
    → (m >>= f) s ≡ f a t
>>=-ok {S} {E} {A} {B} m f s h =
    ap
      (λ r. elim r as (λ _. Outcome S E B) [ ok b u ↦ f b u | err e u ↦ err e u | trap x ↦ trap x ])
      h

-- The value of a computation that returns one.
abbrev pub returned : {E A : Type 0} → Outcome (Unit {0}) E A → Option A
returned (ok a u) = some a
returned (err e u) = none
returned (trap t) = none

pub returned-some :
    {E A : Type 0} (o : Outcome (Unit {0}) E A) {a : A} → returned o ≡ some a → o ≡ ok a tt
returned-some (ok b u) h = cc h
returned-some (err e u) h = cc
returned-some (trap t) h = cc

abbrev pub is_ok : {S E A : Type 0} → Outcome S E A → Bool
is_ok (ok a s) = true
is_ok (err e s) = false
is_ok (trap t) = false

pub is_ok-ok :
    {S E : Type 0} (o : Outcome S E (Unit {0})) → is_ok o ≡ true → (s : S) × (o ≡ ok tt s)
is_ok-ok (ok a s) h = (s, refl)
is_ok-ok (err e s) h = absurd (cc)
is_ok-ok (trap t) h = absurd (cc)

-- ===== src/Contract.antt =====
-- What a call of a contract sees, for a contract with the storage `S`, the persistent keys `K` that
-- it renews, and the events `V`: the call's context, the storage, the token contracts, and its
-- requests to the host. contracts/stream has an environment of its own in Stream/Env.
use stream_fi_contracts.Prelude.{
  ℕ, Bool, true, false, Option, none, some, List, ◌∷◌, ◌==◌, if◌then◌else◌,
}
use stream_fi_contracts.Prelude.Int.{ℤ}
use stream_fi_contracts.Prelude.Effect.{Action, Outcome, trap, ok, ok_or, or_trap}
use stream_fi_contracts.Host.{Host, Address}
use stream_fi_contracts.Prelude.Effect

-- `extend_ttl` on the instance, or on one persistent entry: threshold and target, in ledgers.
pub data Renewal (K : Type 0) : Type 0 where
  instance_ttl : (threshold extend_to : ℕ) → Renewal K
  persistent_ttl : K → (threshold extend_to : ℕ) → Renewal K

-- `now` is the ledger's timestamp and `sequence` its number; `self` is the contract's own address;
-- `auth` says whose signature the call carries.
pub record Env (S K V T : Type 0) : Type 0 where
  pub now : ℕ
  pub sequence : ℕ
  pub self : Address
  pub auth : Address → Bool
  pub store : S
  pub tokens : T
  -- Newest first.
  pub published : List V
  pub renewals : List (Renewal K)
  -- The code that `update_current_contract_wasm` has put in place.
  pub wasm : Option ℕ

abbrev signed : Bool → Option (Unit {0})
signed true = some tt
signed false = none

abbrev pub unwrap_or : {A : Type 0} → Option A → A → A
unwrap_or none d = d
unwrap_or (some a) d = a

abbrev pub is_set : {A : Type 0} → Option A → Bool
is_set none = false
is_set (some a) = true

-- A map with one more entry.
unfoldable pub insert : {A : Type 0} → Address → A → (Address → Option A) → Address → Option A
insert key value entries key' = if key' == key then some value else entries key'

abbrev pub with_store : {S K V T : Type 0} → Env S K V T → S → Env S K V T
with_store env s = record env { store = s }

module _ {S K V T E : Type 0} where
  abbrev pub stored : {A : Type 0} → (S → A) → Action (Env S K V T) E A
  stored f env = ok (f env.store) env

  -- `get_...(env).ok_or(e)?`
  abbrev pub loaded : {A : Type 0} → (S → Option A) → E → Action (Env S K V T) E A
  loaded f e env = ok_or (f env.store) e env

  abbrev pub store : (S → S) → Action (Env S K V T) E (Unit {0})
  store f env = ok tt (with_store env (f env.store))

  abbrev pub timestamp : Action (Env S K V T) E ℕ
  timestamp env = ok env.now env

  abbrev pub current_contract_address : Action (Env S K V T) E Address
  current_contract_address env = ok env.self env

  -- `address.require_auth()`
  abbrev pub require_auth : Address → Action (Env S K V T) E (Unit {0})
  require_auth address env = or_trap (signed (env.auth address)) env

  abbrev pub renew : Renewal K → Action (Env S K V T) E (Unit {0})
  renew r env = ok tt (record env { renewals = r ∷ env.renewals })

  abbrev pub publish : V → Action (Env S K V T) E (Unit {0})
  publish event env = ok tt (record env { published = event ∷ env.published })

  abbrev pub update_current_contract_wasm : ℕ → Action (Env S K V T) E (Unit {0})
  update_current_contract_wasm hash env = ok tt (record env { wasm = some hash })

module _ {S K V E : Type 0} (host : Host) where
  -- `token.balance(holder)`
  abbrev pub balance : Address → Address → Action (Env S K V host.Tokens) E ℤ
  balance token holder env = or_trap (host.balance token holder env.tokens) env

  abbrev moved :
      Env S K V host.Tokens → Option host.Tokens → Outcome (Env S K V host.Tokens) E (Unit {0})
  moved env none = trap Effect.host
  moved env (some t) = ok tt (record env { tokens = t })

  -- `token.transfer(from, to, amount)`
  abbrev pub transfer :
      Address → Address → Address → ℤ → Action (Env S K V host.Tokens) E (Unit {0})
  transfer token from to amount env = moved env (host.transfer token from to amount env.tokens)

  abbrev tried : Env S K V host.Tokens → Option host.Tokens → Outcome (Env S K V host.Tokens) E Bool
  tried env none = ok false env
  tried env (some t) = ok true (record env { tokens = t })

  -- `token.try_transfer(from, to, amount).is_ok()`: a failed call is rolled back.
  abbrev pub try_transfer : Address → Address → Address → ℤ → Action (Env S K V host.Tokens) E Bool
  try_transfer token from to amount env = tried env (host.transfer token from to amount env.tokens)

-- ===== src/Governor/Roles.antt =====
-- contracts/governor/src/role.rs, and the entry points of contracts/governor/src/lib.rs on roles:
-- grants, revocations, the transfer of the authority, the pause, new code.
pub mod Admins
pub mod Keeping
pub mod Handover
pub mod Calls
use stream_fi_contracts.Prelude.{
  ℕ, Bool, true, false, not, ◌&&◌, ◌||◌, Option, none, some, List, [], ◌∷◌, leb, ◌==◌,
}
use stream_fi_contracts.Prelude.Int.{pos}
use stream_fi_contracts.Prelude.Effect.{
  Outcome, ok, err, trap, pure, raise_if, panic_if, when, ◌>>=◌, ◌>>◌,
}
use stream_fi_contracts.Prelude.Effect
use stream_fi_contracts.Host.{Host, Address}
use stream_fi_contracts.Common.Address.{is_zero_address}
use stream_fi_contracts.Common.Pause
use stream_fi_contracts.Common.Rbac.{Cells, Revocation, revoked, not_held}
use stream_fi_contracts.Common.Rbac
use stream_fi_contracts.Contract.{
  is_set, with_store, stored, store, loaded, timestamp, require_auth, update_current_contract_wasm,
}
use stream_fi_contracts.Governor.Types.{
  Error, not_authorized, invalid_param, already_initialized, last_admin, contract_paused,
  already_paused, not_paused, no_pending_authority, not_pending_authority, invalid_wasm_hash,
  admin_transfer_already_in_progress, Role, admin, fee_manager, rate_manager, pauser, executor,
  eqb_role, rbac_revoked, GovernorEnv, Act,
}
use stream_fi_contracts.Governor.Events
use stream_fi_contracts.Governor.Storage.{bump, cells, with_cells, at_role, at_members}

abbrev pub is_past : ℕ → Option ℕ → Bool
is_past now none = false
is_past now (some expires_at) = leb expires_at now

module _ {T : Type 0} where
  unfoldable pub is_paused : Act T Bool
  is_paused env =
      let (answer, cell) = Pause.is_paused env.now env.store.paused in
      ok answer (with_store env (record env.store { paused = cell }))

  unfoldable pub assert_not_paused : Act T (Unit {0})
  unfolding is_paused
  assert_not_paused = do halted ← is_paused; raise_if halted contract_paused

  abbrev set_result : GovernorEnv T → Pause.SetPaused → Outcome (GovernorEnv T) Error (Unit {0})
  set_result env (Pause.SetPaused.written p) =
      ok tt (with_store env (record env.store { paused = some (Pause.state p) }))
  set_result env Pause.SetPaused.in_cooldown = ok tt env
  set_result env Pause.SetPaused.undecodable = trap Effect.host

  -- `let _ = set_paused(..)`: a refusal is ignored.
  unfoldable pub set_paused : Bool → Act T (Unit {0})
  unfolding Pause.set_paused
  set_paused paused env = set_result env (Pause.set_paused env.now env.store.paused paused)

  unfoldable pub has_role : Role → Address → Act T Bool
  unfolding Rbac.has_role
  has_role role account env = ok (Rbac.has_role env.now (env.store.role role account)) env

  abbrev granted :
      Role → Address → GovernorEnv T → Option (Bool × Cells) → Outcome (GovernorEnv T) Error Bool
  granted role account env none = trap Effect.host
  granted role account env (some (new, c)) =
      ok new (with_store env (with_cells role account c env.store))

  unfoldable pub grant_with_expiration : Role → Address → Option ℕ → Act T Bool
  unfolding Rbac.grant_with_expiration at_role at_members
  grant_with_expiration role account expires_at env = granted role account env (
      Rbac.grant_with_expiration env.now (eqb_role role admin) account expires_at
        (cells role account env.store))

  unfoldable pub grant : Role → Address → Act T Bool
  unfolding Rbac.grant at_role at_members
  grant role account env =
      granted role account env
        (Rbac.grant env.now (eqb_role role admin) account (cells role account env.store))

  abbrev ended : Role → Address → GovernorEnv T → Revocation → Outcome (GovernorEnv T) Error Bool
  ended role account env Revocation.last_admin = err last_admin env
  ended role account env not_held = ok false env
  ended role account env (revoked c) = ok true (record env {
    store = with_cells role account c env.store;
    published = rbac_revoked account env.now ∷ env.published;
  })

  unfoldable pub revoke : Role → Address → Act T Bool
  unfolding Rbac.revoke at_role at_members
  revoke role account env =
      ended role account env
        (Rbac.revoke env.now (eqb_role role admin) account (cells role account env.store))

  unfoldable pub require_role : Address → Role → Act T (Unit {0})
  unfolding has_role bump
  require_role caller role = do
    require_auth caller
    held ← has_role role caller
    raise_if (not held) not_authorized
    bump

  unfoldable pub require_role_or_admin : Address → Role → Act T (Unit {0})
  unfolding has_role bump
  require_role_or_admin caller role = do
    require_auth caller
    is_admin ← has_role admin caller
    held ← has_role role caller
    raise_if (not (is_admin || held)) not_authorized
    bump

  unfoldable pub require_executor : Address → Act T (Unit {0})
  unfolding require_role
  require_executor caller = require_role caller executor

  unfoldable pub initialize : (authority fee_recipient factory_address : Address) → Act T (Unit {0})
  unfolding bump grant Events.initialized
  initialize authority fee_recipient factory_address = do
    known ← stored (λ s. is_set s.factory_address)
    panic_if known already_initialized
    bump
    store λ s. record s {
      fee_bps = some 30;
      fee_recipient = some fee_recipient;
      min_duration_seconds = some 3600;
      max_duration_seconds = some 315360000;
      max_rate_per_second = some (pos 1000000000000000);
      factory_address = some factory_address;
      force_cancel_pause_secs = some 2592000;
      min_quorum_bps = some 0;
      min_proposal_stake = some (pos 0);
    }
    a ← grant admin authority
    b ← grant fee_manager authority
    c ← grant rate_manager authority
    d ← grant pauser authority
    Events.initialized authority fee_recipient factory_address

  unfoldable pub governor_pause : Address → Act T (Unit {0})
  unfolding require_role_or_admin is_paused set_paused Events.paused
  governor_pause caller = do
    require_role_or_admin caller pauser
    halted ← is_paused
    raise_if halted already_paused
    set_paused true
    now ← timestamp
    Events.paused caller now

  unfoldable pub governor_unpause : Address → Act T (Unit {0})
  unfolding require_role_or_admin is_paused set_paused Events.unpaused
  governor_unpause caller = do
    require_role_or_admin caller pauser
    halted ← is_paused
    raise_if (not halted) not_paused
    set_paused false
    now ← timestamp
    Events.unpaused caller now

  unfoldable pub grant_role_with_expiration :
      (caller : Address) → Role → (account : Address) → Option ℕ → Act T (Unit {0})
  unfolding require_role grant_with_expiration Events.grant_role
  grant_role_with_expiration caller role account expires_at = do
    require_role caller admin
    now ← timestamp
    raise_if (eqb_role role admin && is_set expires_at || is_past now expires_at) invalid_param
    new ← grant_with_expiration role account expires_at
    when new (Events.grant_role caller role account)

  unfoldable pub grant_role : (caller : Address) → Role → (account : Address) → Act T (Unit {0})
  unfolding require_role grant Events.grant_role
  grant_role caller role account = do
    require_role caller admin
    new ← grant role account
    when new (Events.grant_role caller role account)

  unfoldable pub revoke_role : (caller : Address) → Role → (account : Address) → Act T (Unit {0})
  unfolding require_role revoke Events.revoke_role
  revoke_role caller role account = do
    require_role caller admin
    held ← revoke role account
    when held (Events.revoke_role caller role account)

  -- The loops of the two batches.
  unfoldable pub grant_all : (caller : Address) → Role → List Address → Act T (Unit {0})
  unfolding grant Events.grant_role
  grant_all caller role [] = pure tt
  grant_all caller role (account ∷ accounts) = do
    new ← grant role account
    when new (Events.grant_role caller role account)
    grant_all caller role accounts

  unfoldable pub revoke_all : (caller : Address) → Role → List Address → Act T (Unit {0})
  unfolding revoke Events.revoke_role
  revoke_all caller role [] = pure tt
  revoke_all caller role (account ∷ accounts) = do
    held ← revoke role account
    when held (Events.revoke_role caller role account)
    revoke_all caller role accounts

  unfoldable pub grant_role_batch : (caller : Address) → Role → List Address → Act T (Unit {0})
  unfolding require_role grant_all
  grant_role_batch caller role accounts = do
    require_role caller admin
    grant_all caller role accounts

  unfoldable pub revoke_role_batch : (caller : Address) → Role → List Address → Act T (Unit {0})
  unfolding require_role revoke_all
  revoke_role_batch caller role accounts = do
    require_role caller admin
    revoke_all caller role accounts

  unfoldable pub revoke_propose_authority : Address → Act T (Unit {0})
  unfolding require_role Events.revoke_propose_authority
  revoke_propose_authority caller = do
    require_role caller admin
    pending ← loaded (λ s. s.pending_authority) no_pending_authority
    store λ s. record s { pending_authority = none }
    store λ s. record s { pending_authority_proposer = none }
    Events.revoke_propose_authority caller pending

  unfoldable pub accept_authority : Address → Act T (Unit {0})
  unfolding bump grant revoke Events.accept_authority
  accept_authority caller = do
    pending ← loaded (λ s. s.pending_authority) no_pending_authority
    raise_if (not (caller == pending)) not_pending_authority
    require_auth caller
    bump
    proposer ← loaded (λ s. s.pending_authority_proposer) no_pending_authority
    new ← grant admin caller
    held ← revoke admin proposer
    store λ s. record s { pending_authority = none }
    store λ s. record s { pending_authority_proposer = none }
    Events.accept_authority caller proposer

  unfoldable pub upgrade : Address → ℕ → Act T (Unit {0})
  unfolding require_role assert_not_paused bump Events.upgraded
  upgrade caller new_wasm_hash = do
    require_role caller admin
    assert_not_paused
    raise_if (new_wasm_hash == 0) invalid_wasm_hash
    bump
    update_current_contract_wasm new_wasm_hash
    now ← timestamp
    Events.upgraded caller now

module _ (host : Host) where
  unfoldable pub transfer_authority : (caller new_authority : Address) → Act host.Tokens (Unit {0})
  unfolding is_zero_address has_role require_role grant revoke Events.transfer_authority
  transfer_authority caller new_authority = do
    known ← has_role admin new_authority
    raise_if (new_authority == caller || is_zero_address host new_authority || known) invalid_param
    require_role caller admin
    new ← grant admin new_authority
    held ← revoke admin caller
    Events.transfer_authority caller new_authority

  unfoldable pub propose_authority : (caller new_authority : Address) → Act host.Tokens (Unit {0})
  unfolding is_zero_address has_role require_role Events.propose_authority
  propose_authority caller new_authority = do
    known ← has_role admin new_authority
    raise_if (is_zero_address host new_authority || known) invalid_param
    require_role caller admin
    waiting ← stored (λ s. is_set s.pending_authority)
    raise_if waiting admin_transfer_already_in_progress
    store λ s. record s { pending_authority = some new_authority }
    store λ s. record s { pending_authority_proposer = some caller }
    Events.propose_authority caller new_authority

module _ {T : Type 0} where
  unfoldable pub propose_admin : (proposer new_admin : Address) → Act T (Unit {0})
  unfolding has_role require_role Events.propose_authority
  propose_admin proposer new_admin = do
    require_role proposer admin
    waiting ← stored (λ s. is_set s.pending_authority)
    raise_if waiting admin_transfer_already_in_progress
    known ← has_role admin new_admin
    raise_if known invalid_param
    store λ s. record s { pending_authority = some new_admin }
    store λ s. record s { pending_authority_proposer = some proposer }
    Events.propose_authority proposer new_admin

  -- role.rs writes the steps of the two entry points of lib.rs out once more.
  unfoldable pub claim_admin : Address → Act T (Unit {0})
  unfolding accept_authority
  claim_admin claimer = accept_authority claimer

  unfoldable pub revoke_propose_admin : Address → Act T (Unit {0})
  unfolding revoke_propose_authority
  revoke_propose_admin caller = revoke_propose_authority caller

-- ===== src/Vault/Owner.antt =====
-- contracts/token-vault/src/lib.rs: what the owner sets: limits, the operator, the hand-over of the
-- vault in two steps, the pause, and new code.
pub mod Handover
pub mod Limit
use stream_fi_contracts.Prelude.{ℕ, Bool, true, false, not, none, some, leb, ◌==◌}
use stream_fi_contracts.Prelude.Int.{ℤ, pos, leb_ℤ, ltb_ℤ, min_ℤ, checked_add_u64}
use stream_fi_contracts.Prelude.Effect.{pure, raise_if, ok_or, branch, trap, ok, ◌>>=◌, ◌>>◌}
use stream_fi_contracts.Prelude.Effect
use stream_fi_contracts.Host.{Host, Address}
use stream_fi_contracts.Common.Address.{is_zero_address}
use stream_fi_contracts.Common.Pause
use stream_fi_contracts.Contract.{
  with_store, stored, store, loaded, timestamp, require_auth, unwrap_or,
  update_current_contract_wasm,
}
use stream_fi_contracts.Vault.Types.{
  Error, invalid_amount, arithmetic_overflow, limit_exceeded, not_initialized, not_authorized,
  already_paused, not_paused, invalid_param, no_pending_owner, not_pending_owner,
  pending_owner_expired, invalid_wasm_hash, owner_proposal_ttl_seconds, VaultEnv, Act,
}
use stream_fi_contracts.Vault.Events
use stream_fi_contracts.Vault.Storage.{bump_instance}
use stream_fi_contracts.Vault.Access.{
  assert_not_paused, is_paused, withdraw_cap, require_owner_or_operator, vault_balance,
}

module _ {T : Type 0} where
  -- How most entry points of the owner begin.
  abbrev pub owner_only : Address → Act T (Unit {0})
  owner_only caller = do
    owner ← loaded (λ s. s.owner) not_initialized
    raise_if (not (caller == owner)) not_authorized
    require_auth caller

  unfoldable pub set_operator_withdraw_limit : Address → ℤ → Act T (Unit {0})
  unfolding assert_not_paused bump_instance Events.operator_withdraw_limit_set
  set_operator_withdraw_limit caller new_limit = do
    assert_not_paused
    owner_only caller
    raise_if (leb_ℤ new_limit (pos 0)) invalid_amount
    old_limit ← stored (λ s. unwrap_or s.operator_withdraw_limit (pos 0))
    bump_instance
    store (λ s. record s { operator_withdraw_limit = some new_limit })
    Events.operator_withdraw_limit_set caller old_limit new_limit

  unfoldable pub set_operator : (caller operator : Address) → Act T (Unit {0})
  unfolding bump_instance Events.operator_set
  set_operator caller operator = do
    owner_only caller
    bump_instance
    store (λ s. record s { operator = some operator })
    Events.operator_set caller operator

  unfoldable pub revoke_operator : Address → Act T (Unit {0})
  unfolding bump_instance Events.operator_revoked
  revoke_operator caller = do
    owner_only caller
    bump_instance
    store (λ s. record s { operator = none })
    Events.operator_revoked caller

  unfoldable pub accept_owner : Address → Act T (Unit {0})
  unfolding bump_instance Events.owner_accepted
  accept_owner caller = do
    pending ← loaded (λ s. s.pending_owner) no_pending_owner
    raise_if (not (caller == pending)) not_pending_owner
    require_auth caller
    proposed_at ← loaded (λ s. s.pending_owner_proposed_at) pending_owner_expired
    proposal_ttl ← stored (λ s. unwrap_or s.owner_proposal_ttl owner_proposal_ttl_seconds)
    expires_at ← ok_or (checked_add_u64 proposed_at proposal_ttl) arithmetic_overflow
    now ← timestamp
    raise_if (leb expires_at now) pending_owner_expired
    proposer ← loaded (λ s. s.pending_owner_proposer) no_pending_owner
    bump_instance
    store (λ s. record s { owner = some caller })
    store (λ s. record s { pending_owner = none })
    store (λ s. record s { pending_owner_proposer = none })
    store (λ s. record s { pending_owner_proposed_at = none })
    Events.owner_accepted caller proposer

  unfoldable pub set_owner_proposal_ttl : Address → ℕ → Act T (Unit {0})
  unfolding bump_instance Events.owner_proposal_ttl_set
  set_owner_proposal_ttl caller ttl_seconds = do
    owner_only caller
    raise_if (ttl_seconds == 0) invalid_amount
    old_ttl ← stored (λ s. unwrap_or s.owner_proposal_ttl owner_proposal_ttl_seconds)
    bump_instance
    store (λ s. record s { owner_proposal_ttl = some ttl_seconds })
    Events.owner_proposal_ttl_set caller old_ttl ttl_seconds

  abbrev set_result : VaultEnv T → Pause.SetPaused → Effect.Outcome (VaultEnv T) Error (Unit {0})
  set_result env (Pause.SetPaused.written p) =
      ok tt (with_store env (record env.store { paused = some (Pause.state p) }))
  set_result env Pause.SetPaused.in_cooldown = ok tt env
  set_result env Pause.SetPaused.undecodable = trap Effect.host

  -- `let _ = set_paused(..)`: a refusal is ignored.
  unfoldable pub set_paused : Bool → Act T (Unit {0})
  unfolding Pause.set_paused
  set_paused paused env = set_result env (Pause.set_paused env.now env.store.paused paused)

  unfoldable pub pause : Address → Act T (Unit {0})
  unfolding is_paused set_paused bump_instance Events.paused
  pause caller = do
    owner_only caller
    halted ← is_paused
    raise_if halted already_paused
    bump_instance
    set_paused true
    now ← timestamp
    Events.paused caller now

  unfoldable pub unpause : Address → Act T (Unit {0})
  unfolding is_paused set_paused bump_instance Events.unpaused
  unpause caller = do
    owner_only caller
    halted ← is_paused
    raise_if (not halted) not_paused
    bump_instance
    set_paused false
    now ← timestamp
    Events.unpaused caller now

  -- A hash of 32 bytes is a number; the array of zeros is 0.
  unfoldable pub upgrade : Address → ℕ → Act T (Unit {0})
  unfolding assert_not_paused bump_instance Events.upgraded
  upgrade caller new_wasm_hash = do
    owner_only caller
    assert_not_paused
    raise_if (new_wasm_hash == 0) invalid_wasm_hash
    bump_instance
    update_current_contract_wasm new_wasm_hash
    now ← timestamp
    Events.upgraded caller now

module _ (host : Host) where
  unfoldable pub set_limit : Address → ℤ → Act host.Tokens (Unit {0})
  unfolding assert_not_paused vault_balance require_owner_or_operator bump_instance Events.limit_set
  set_limit caller new_limit = do
    assert_not_paused
    owner ← loaded (λ s. s.owner) not_initialized
    raise_if (leb_ℤ new_limit (pos 0)) invalid_amount
    balance ← vault_balance host
    raise_if (ltb_ℤ new_limit balance) limit_exceeded
    old_limit ← loaded (λ s. s.max_limit) arithmetic_overflow
    branch (ltb_ℤ old_limit new_limit)
        (do raise_if (not (caller == owner)) not_authorized; require_auth caller)
        (require_owner_or_operator caller owner)
    bump_instance
    store (λ s. record s { max_limit = some new_limit })
    Events.limit_set caller old_limit new_limit

  unfoldable pub propose_owner : (caller new_owner : Address) → Act host.Tokens (Unit {0})
  unfolding is_zero_address bump_instance Events.owner_proposed
  propose_owner caller new_owner = do
    owner_only caller
    raise_if (is_zero_address host new_owner) invalid_param
    bump_instance
    store (λ s. record s { pending_owner = some new_owner })
    store (λ s. record s { pending_owner_proposer = some caller })
    now ← timestamp
    store (λ s. record s { pending_owner_proposed_at = some now })
    Events.owner_proposed caller new_owner

  unfoldable pub effective_withdraw_limit : Address → Act host.Tokens ℤ
  unfolding assert_not_paused withdraw_cap vault_balance
  effective_withdraw_limit caller = do
    assert_not_paused
    owner ← loaded (λ s. s.owner) not_initialized
    cap ← withdraw_cap caller owner
    balance ← vault_balance host
    pure (min_ℤ balance cap)

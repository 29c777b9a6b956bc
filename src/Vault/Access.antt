-- ===== src/Vault/Access.antt =====
-- contracts/token-vault/src/lib.rs: the helpers before the entry points: the re-entrancy guard, the
-- token checks, who may act, and the pause gate.
pub mod Guard
use stream_fi_contracts.Prelude.{
  Bool, true, false, ◌||◌, Option, none, some, ◌==◌, if◌then◌else◌, ◌^◌, ◌-◌,
}
use stream_fi_contracts.Prelude.Int.{ℤ, pos, i128_half}
use stream_fi_contracts.Prelude.Effect.{
  Outcome, ok, err, trap, pure, raise, raise_if, ok_or, branch, ◌>>=◌, ◌>>◌,
}
use stream_fi_contracts.Host.{Host, Address}
use stream_fi_contracts.Common.Address.{is_zero_address}
use stream_fi_contracts.Common.Pause
use stream_fi_contracts.Contract.{
  with_store, stored, loaded, store, current_contract_address, require_auth, unwrap_or, balance,
}
use stream_fi_contracts.Vault.Types.{
  Error, not_initialized, not_authorized, limit_exceeded, contract_paused, invalid_token,
  reentrancy_detected, Store, VaultEnv, Act,
}

-- Whether an optional address is set and is this one.
abbrev pub is_same : Option Address → Address → Bool
is_same none address = false
is_same (some set) address = address == set

module _ {T : Type 0} where
  abbrev pub with_lock : Option Bool → VaultEnv T → VaultEnv T
  with_lock lock env = with_store env (record env.store { reentrancy_lock = lock })

  abbrev release : {A : Type 0} → Outcome (VaultEnv T) Error A → Outcome (VaultEnv T) Error A
  release (ok a env) = ok a (with_lock none env)
  release (err e env) = err e (with_lock none env)
  release (trap t) = trap t

  -- `non_reentrant!`: the lock is removed whether the block gives a value or an error.
  unfoldable pub non_reentrant : {A : Type 0} → Act T A → Act T A
  non_reentrant body = do
    locked ← stored (λ s. unwrap_or s.reentrancy_lock false)
    raise_if locked reentrancy_detected
    λ env. release (body (with_lock (some true) env))

  -- The read may rewrite the cell.
  unfoldable pub is_paused : Act T Bool
  is_paused env =
      let (answer, cell) = Pause.is_paused env.now env.store.paused in
      ok answer (with_store env (record env.store { paused = cell }))

  unfoldable pub assert_not_paused : Act T (Unit {0})
  unfolding is_paused
  assert_not_paused = do halted ← is_paused; raise_if halted contract_paused

  unfoldable pub withdraw_cap : (caller owner : Address) → Act T ℤ
  withdraw_cap caller owner = branch (caller == owner) (pure (pos (i128_half - 1))) do
    operator ← stored (λ s. s.operator)
    branch (is_same operator caller) (loaded (λ s. s.operator_withdraw_limit) limit_exceeded)
        (raise not_authorized)

  unfoldable pub require_owner_or_operator : (caller owner : Address) → Act T (Unit {0})
  require_owner_or_operator caller owner = do
    operator ← stored (λ s. s.operator)
    branch (caller == owner || is_same operator caller) (require_auth caller) (raise not_authorized)

module _ (host : Host) where
  unfoldable pub validate_sep41_token : Address → Act host.Tokens (Unit {0})
  unfolding is_zero_address
  validate_sep41_token token = do
    raise_if (is_zero_address host token) invalid_token
    self ← current_contract_address
    probe ← balance host token self
    pure tt

  unfoldable pub token_client : Act host.Tokens Address
  token_client = loaded (λ s. s.token) not_initialized

  unfoldable pub vault_balance : Act host.Tokens ℤ
  unfolding token_client
  vault_balance = do token ← token_client; self ← current_contract_address; balance host token self

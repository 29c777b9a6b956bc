-- ===== src/Vault/Events.antt =====
-- contracts/token-vault/src/events.rs: what each function publishes.
use stream_fi_contracts.Prelude.{ℕ, Bool}
use stream_fi_contracts.Prelude.Int.{ℤ}
use stream_fi_contracts.Host.{Address}
use stream_fi_contracts.Contract.{publish}
use stream_fi_contracts.Vault.Types.{Act, Event}

module _ {T : Type 0} where
  unfoldable pub initialized : (owner token : Address) → ℤ → Act T (Unit {0})
  initialized owner token max_limit = publish (Event.initialized owner token max_limit)

  unfoldable pub deposited : (from : Address) → (amount new_balance : ℤ) → Act T (Unit {0})
  deposited from amount new_balance = publish (Event.deposited from amount new_balance)

  unfoldable pub token_deposited :
      (from : Address) → (gross_amount fee_amount net_amount : ℤ) → Act T (Unit {0})
  token_deposited from gross_amount fee_amount net_amount =
      publish (Event.token_deposited from gross_amount fee_amount net_amount)

  unfoldable pub withdrawn :
      (caller to : Address) → (amount new_balance : ℤ) → Bool → Act T (Unit {0})
  withdrawn caller to amount new_balance by_operator =
      publish (Event.withdrawn caller to amount new_balance by_operator)

  unfoldable pub limit_set : (caller : Address) → (old_limit new_limit : ℤ) → Act T (Unit {0})
  limit_set caller old_limit new_limit = publish (Event.limit_set caller old_limit new_limit)

  unfoldable pub operator_withdraw_limit_set :
      (caller : Address) → (old_limit new_limit : ℤ) → Act T (Unit {0})
  operator_withdraw_limit_set caller old_limit new_limit =
      publish (Event.operator_withdraw_limit_set caller old_limit new_limit)

  unfoldable pub operator_set : (caller operator : Address) → Act T (Unit {0})
  operator_set caller operator = publish (Event.operator_set caller operator)

  unfoldable pub operator_revoked : (caller : Address) → Act T (Unit {0})
  operator_revoked caller = publish (Event.operator_revoked caller)

  unfoldable pub paused : (caller : Address) → ℕ → Act T (Unit {0})
  paused caller paused_at = publish (Event.paused caller paused_at)

  unfoldable pub unpaused : (caller : Address) → ℕ → Act T (Unit {0})
  unpaused caller resumed_at = publish (Event.unpaused caller resumed_at)

  unfoldable pub upgraded : (caller : Address) → ℕ → Act T (Unit {0})
  upgraded caller upgraded_at = publish (Event.upgraded caller upgraded_at)

  unfoldable pub owner_proposed : (caller new_owner : Address) → Act T (Unit {0})
  owner_proposed caller new_owner = publish (Event.owner_proposed caller new_owner)

  unfoldable pub owner_accepted : (caller old_owner : Address) → Act T (Unit {0})
  owner_accepted caller old_owner = publish (Event.owner_accepted caller old_owner)

  unfoldable pub owner_proposal_ttl_set :
      (caller : Address) → (old_ttl new_ttl : ℕ) → Act T (Unit {0})
  owner_proposal_ttl_set caller old_ttl new_ttl =
      publish (Event.owner_proposal_ttl_set caller old_ttl new_ttl)

  unfoldable pub emergency_migration_initiated :
      (caller destination : Address) → ℕ → Act T (Unit {0})
  emergency_migration_initiated caller destination executable_at =
      publish (Event.emergency_migration_initiated caller destination executable_at)

  unfoldable pub emergency_migration_executed :
      (caller destination : Address) → ℤ → Act T (Unit {0})
  emergency_migration_executed caller destination amount =
      publish (Event.emergency_migration_executed caller destination amount)

  unfoldable pub emergency_migration_cancelled : (caller : Address) → Act T (Unit {0})
  emergency_migration_cancelled caller = publish (Event.emergency_migration_cancelled caller)

  unfoldable pub kept_alive : ℕ → Act T (Unit {0})
  kept_alive new_ttl = publish (Event.kept_alive new_ttl)

  -- 1 is the code for a transfer that the token rejected.
  unfoldable pub vault_deposit_failed : (from token : Address) → ℤ → Act T (Unit {0})
  vault_deposit_failed from token amount = publish (Event.vault_deposit_failed from token amount 1)

  unfoldable pub token_approval_changed : (token : Address) → Bool → Act T (Unit {0})
  token_approval_changed token approved = publish (Event.token_approval_changed token approved)

  unfoldable pub vault_keys_refreshed : ℕ → Act T (Unit {0})
  vault_keys_refreshed count = publish (Event.vault_keys_refreshed count)

-- ===== src/Vault/Migration.antt =====
-- contracts/token-vault/src/lib.rs: the emergency migration to cold storage.
pub mod Timelock
use stream_fi_contracts.Prelude.{none, some, ltb}
use stream_fi_contracts.Prelude.Int.{ℤ, pos, ltb_ℤ, checked_add_u64}
use stream_fi_contracts.Prelude.Effect.{pure, raise_if, ok_or, when, ◌>>=◌, ◌>>◌}
use stream_fi_contracts.Host.{Host, Address}
use stream_fi_contracts.Common.Address.{is_zero_address}
use stream_fi_contracts.Contract.{
  store, loaded, timestamp, current_contract_address, balance, transfer,
}
use stream_fi_contracts.Vault.Types.{
  arithmetic_overflow, invalid_param, timelock_not_expired, no_migration_proposed,
  emergency_migration_timelock_seconds, Act,
}
use stream_fi_contracts.Vault.Events
use stream_fi_contracts.Vault.Storage.{bump_instance}
use stream_fi_contracts.Vault.Access.{non_reentrant, token_client}
use stream_fi_contracts.Vault.Owner.{owner_only}

module _ (host : Host) where
  unfoldable pub initiate_emergency_migration :
      (caller destination : Address) → Act host.Tokens (Unit {0})
  unfolding is_zero_address bump_instance Events.emergency_migration_initiated
  initiate_emergency_migration caller destination = do
    owner_only caller
    raise_if (is_zero_address host destination) invalid_param
    now ← timestamp
    executable_at ←
        ok_or (checked_add_u64 now emergency_migration_timelock_seconds) arithmetic_overflow
    bump_instance
    store (λ s. record s {
      emergency_migration =
          some (record {
            destination = destination;
            proposed_at = now;
            executable_at = executable_at;
          });
    })
    Events.emergency_migration_initiated caller destination executable_at

  unfoldable pub execute_emergency_migration_body : Address → Act host.Tokens ℤ
  unfolding token_client bump_instance Events.emergency_migration_executed
  execute_emergency_migration_body caller = do
    owner_only caller
    migration ← loaded (λ s. s.emergency_migration) no_migration_proposed
    now ← timestamp
    raise_if (ltb now migration.executable_at) timelock_not_expired
    tk ← token_client host
    self ← current_contract_address
    held ← balance host tk self
    when (ltb_ℤ (pos 0) held) (transfer host tk self migration.destination held)
    store (λ s. record s { emergency_migration = none })
    bump_instance
    Events.emergency_migration_executed caller migration.destination held
    pure held

  unfoldable pub execute_emergency_migration : Address → Act host.Tokens ℤ
  unfolding non_reentrant execute_emergency_migration_body
  execute_emergency_migration caller = non_reentrant (execute_emergency_migration_body caller)

module _ {T : Type 0} where
  unfoldable pub cancel_emergency_migration : Address → Act T (Unit {0})
  unfolding bump_instance Events.emergency_migration_cancelled
  cancel_emergency_migration caller = do
    owner_only caller
    migration ← loaded (λ s. s.emergency_migration) no_migration_proposed
    store (λ s. record s { emergency_migration = none })
    bump_instance
    Events.emergency_migration_cancelled caller

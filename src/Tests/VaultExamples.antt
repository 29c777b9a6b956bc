-- ===== src/Tests/VaultExamples.antt =====
-- The vault's theorems at sample vaults.
use mathlib.Core.List.{Mem, []}
use stream_fi_contracts.Prelude.{ℕ, ◌<◌, ◌≡◌, ◌≢◌, refl, ◌⊎◌, true, false, none, some, arith}
use stream_fi_contracts.Prelude.Int.{ℤ, pos, ◌+ℤ◌, ◌≤ℤ◌, ◌<ℤ◌, eqb_ℤ, checked_add_u64, u32_mod}
use stream_fi_contracts.Prelude.Effect.{ok, err}
use stream_fi_contracts.Host.{Address}
use stream_fi_contracts.Contract.{instance_ttl, unwrap_or}
use stream_fi_contracts.Prelude.Lists.{length}
use stream_fi_contracts.Vault.Types.{VaultKey, VaultEnv, timelock_not_expired}
use stream_fi_contracts.Vault.Storage.{has, check_vault_balance, record_vault_balance, agrees}
use stream_fi_contracts.Vault.Storage.Snapshot.{later, record_vault_balance-check}
use stream_fi_contracts.Vault.Access.Guard.{halted}
use stream_fi_contracts.Vault.Withdraw.Payment.{Reports}
use stream_fi_contracts.Vault.Withdraw.Conservation
use stream_fi_contracts.Vault.Deposit.Receipt
use stream_fi_contracts.Vault.Deposit.Batch
use stream_fi_contracts.Vault.Deposit.Report.{rejected, deposit_with_failure_report-rejected}
use stream_fi_contracts.Vault.Tokens.{keep_alive}
use stream_fi_contracts.Vault.Tokens.Accounts
use stream_fi_contracts.Vault.Tokens.Renewal.{renewed, keep_alive_renews}
use stream_fi_contracts.Vault.Owner.Limit.{set_limit_bounds}
use stream_fi_contracts.Vault.Migration.{execute_emergency_migration, initiate_emergency_migration}
use stream_fi_contracts.Vault.Migration.Timelock.{
  Migrates, initiate_emergency_migration_waits, execute_emergency_migration-Migrates,
}
use stream_fi_contracts.Vault.Ledger.{
  Ledger, Represents, apply_all, run_all-apply_all, run_all-within,
}
use stream_fi_contracts.Tests.{Balances, test_host, test_token}
use stream_fi_contracts.Tests.VaultSamples as Samples
use stream_fi_contracts.Tests.VaultSamples.{owner, operator, payee, self, token}
use stream_fi_contracts.Tests.VaultRuns.{
  withdraw_payouts_runs, deposit_runs, batch_deposit_runs, deposit_with_failure_report_runs,
  withdraw_token_runs, set_limit_runs, initiate_emergency_migration_runs,
  execute_emergency_migration_runs, run_all_runs,
}

withdraw_payouts-PaysOut_example :
    Conservation.PaysOut test_host operator owner token Samples.payouts
      (pos 300)
      Samples.env
      Samples.paid
withdraw_payouts-PaysOut_example =
    Conservation.withdraw_payouts-PaysOut test_host operator owner token Samples.payouts (pos 300)
      Samples.env Samples.paid refl (refl, refl) withdraw_payouts_runs

deposit-Receives_example :
    Receipt.Receives test_host owner owner token
      (pos 200)
      (pos 300)
      (pos 2000)
      Samples.env
      Samples.received
deposit-Receives_example =
    Receipt.deposit-Receives test_host owner owner token (pos 200) (pos 300) (pos 2000) Samples.env
      Samples.received refl refl (refl, refl) deposit_runs

batch_deposit-Receives_example :
    Batch.Receives test_host token Samples.specs (pos 300) (pos 2000) Samples.env Samples.batched
batch_deposit-Receives_example =
    Batch.batch_deposit-Receives test_host token Samples.specs (pos 300) (pos 2000) Samples.env
      Samples.batched refl (refl, refl) batch_deposit_runs

deposit_with_failure_report-rejected_example :
    (test_host.transfer token operator self (pos 500) Samples.balances ≡ none)
    × (pos 300 +ℤ pos 500 ≤ℤ pos 2000)
    × (Samples.reported ≡ rejected test_host operator token (pos 500) Samples.env)
deposit_with_failure_report-rejected_example =
    deposit_with_failure_report-rejected test_host operator token (pos 500) (pos 300) (pos 2000)
      Samples.env Samples.reported refl (refl, refl) deposit_with_failure_report_runs

withdraw_token-PaysOut_example :
    Accounts.PaysOut test_host operator owner token (pos 40) (pos 300) Samples.env Samples.taken
withdraw_token-PaysOut_example =
    Accounts.withdraw_token-PaysOut test_host operator owner token payee (pos 40) (pos 300)
      Samples.env Samples.taken refl refl withdraw_token_runs

set_limit_bounds_example :
    (Samples.env.auth operator ≡ true)
    × ((operator ≡ owner) ⊎ (Samples.blank.operator ≡ some operator))
    × (halted Samples.env ≡ false)
    × (pos 0 <ℤ pos 500)
    × (pos 300 ≤ℤ pos 500)
    × (pos 2000 <ℤ pos 500 → operator ≡ owner)
    × (Samples.lowered.store.max_limit ≡ some (pos 500))
    × Reports test_host token (pos 300) Samples.lowered
    × (Samples.lowered.store.operator_withdraw_limit ≡ Samples.blank.operator_withdraw_limit)
    × (Samples.lowered.store.owner ≡ Samples.blank.owner)
set_limit_bounds_example =
    set_limit_bounds test_host operator owner token (pos 500) (pos 2000) (pos 300) Samples.env
      Samples.lowered refl refl (refl, refl) set_limit_runs

initiate_emergency_migration_waits_example :
    execute_emergency_migration test_host owner Samples.hasty
    ≡ err timelock_not_expired Samples.hasty
unfolding initiate_emergency_migration checked_add_u64
initiate_emergency_migration_waits_example =
    initiate_emergency_migration_waits test_host owner 9 Samples.env Samples.initiated Samples.hasty
      initiate_emergency_migration_runs refl refl refl (omega arith)

execute_emergency_migration-Migrates_example :
    Migrates test_host owner token Samples.migration
      (pos 300)
      (test_token token)
      Samples.due
      Samples.migrated
unfolding initiate_emergency_migration checked_add_u64
execute_emergency_migration-Migrates_example =
    execute_emergency_migration-Migrates test_host owner token Samples.migration (pos 300)
      (test_token token) Samples.due Samples.migrated refl refl (λ e. omega arith)
      execute_emergency_migration_runs

few_keys : length (unwrap_or Samples.credited.store.tracked_vault_keys []) < u32_mod
unfolding length
few_keys = omega arith

keep_alive_renews_example :
    (env' : VaultEnv Balances) × (keep_alive Samples.credited ≡ ok tt env')
    × (env'.store ≡ Samples.credited.store)
    × (env'.tokens ≡ Samples.credited.tokens)
    × Mem (instance_ttl 100000 200000) env'.renewals
    × ((key : VaultKey) → has Samples.credited.store key ≡ true → Mem (renewed key) env'.renewals)
keep_alive_renews_example = keep_alive_renews Samples.credited Samples.credited-IsIndexed few_keys

record_vault_balance-check_example :
    ((seen : ℤ)
      → check_vault_balance token seen Samples.noted ≡ ok (eqb_ℤ (pos 300) seen) Samples.noted)
    × ((seen : ℤ) (sequence : ℕ)
        → sequence ≢ 12
        → check_vault_balance token seen (later sequence Samples.noted)
          ≡ ok true (later sequence Samples.noted))
    × ((token' : Address) (seen : ℤ)
        → token' ≢ token
        → agrees Samples.noted.sequence (Samples.noted.store.balance_snapshot token') seen
          ≡ agrees 12 none seen)
unfolding record_vault_balance
record_vault_balance-check_example =
    record_vault_balance-check token (pos 300) Samples.env Samples.noted refl

represented :
    Represents test_host owner token Samples.env (record { balance = pos 300; limit = pos 2000 })
represented = record { owned = refl; limited = refl; holds = (refl, refl) }

run_all-apply_all_example :
    (l' : Ledger) × (apply_all Samples.calls (record { balance = pos 300; limit = pos 2000 })
      ≡ some l')
    × Represents test_host owner token Samples.settled l'
run_all-apply_all_example =
    run_all-apply_all test_host owner token Samples.calls
      (record { balance = pos 300; limit = pos 2000 }) Samples.env Samples.settled represented
      run_all_runs

run_all-within_example :
    (l' : Ledger) × Represents test_host owner token Samples.settled l' × (l'.balance ≤ℤ l'.limit)
run_all-within_example =
    run_all-within test_host owner token Samples.calls
      (record { balance = pos 300; limit = pos 2000 }) Samples.env Samples.settled represented
      (omega arith) run_all_runs

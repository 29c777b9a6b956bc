-- ===== src/Tests/VaultRuns.antt =====
-- Runs of the contract on the sample vault.
use stream_fi_contracts.Prelude.{◌≡◌, refl, false}
use stream_fi_contracts.Prelude.Int.{
  pos, ltb_ℤ, leb_ℤ, eqb_ℤ, min_ℤ, max_ℤ, ◌+ℤ◌, ◌-ℤ◌, checked_add, checked_sub, checked_add_u64,
}
use stream_fi_contracts.Prelude.Effect.{ok}
use stream_fi_contracts.Common.Pause.{is_paused}
use stream_fi_contracts.Contract.{insert}
use stream_fi_contracts.Vault.Storage.{insert_at}
use stream_fi_contracts.Vault.Withdraw.{withdraw_payouts, withdraw_payouts_body}
use stream_fi_contracts.Vault.Deposit.{
  deposit, deposit_body, batch_deposit, batch_deposit_body, deposit_with_failure_report,
  deposit_with_failure_report_body,
}
use stream_fi_contracts.Vault.Tokens.{withdraw_token, withdraw_token_body}
use stream_fi_contracts.Vault.Owner.{propose_owner, set_limit}
use stream_fi_contracts.Vault.Migration.{
  initiate_emergency_migration, execute_emergency_migration, execute_emergency_migration_body,
}
use stream_fi_contracts.Vault.Calls.{run_all}
use stream_fi_contracts.Tests.{test_host, change, test_transfer}
use stream_fi_contracts.Tests.VaultSamples as Samples
use stream_fi_contracts.Tests.VaultSamples.{owner, operator, payee, token}

pub withdraw_payouts_runs :
    withdraw_payouts test_host operator Samples.payouts Samples.env ≡ ok tt Samples.paid
unfolding withdraw_payouts withdraw_payouts_body is_paused checked_add_u64 ltb_ℤ leb_ℤ eqb_ℤ min_ℤ
    max_ℤ ◌+ℤ◌ ◌-ℤ◌ checked_add checked_sub test_transfer change insert insert_at
withdraw_payouts_runs = refl

pub deposit_runs : deposit test_host owner (pos 200) Samples.env ≡ ok tt Samples.received
unfolding deposit deposit_body is_paused checked_add_u64 ltb_ℤ leb_ℤ eqb_ℤ min_ℤ max_ℤ ◌+ℤ◌ ◌-ℤ◌
    checked_add checked_sub test_transfer change insert insert_at
deposit_runs = refl

pub batch_deposit_runs : batch_deposit test_host Samples.specs Samples.env ≡ ok tt Samples.batched
unfolding batch_deposit batch_deposit_body is_paused checked_add_u64 ltb_ℤ leb_ℤ eqb_ℤ min_ℤ max_ℤ
    ◌+ℤ◌ ◌-ℤ◌ checked_add checked_sub test_transfer change insert insert_at
batch_deposit_runs = refl

pub deposit_with_failure_report_runs :
    deposit_with_failure_report test_host operator (pos 500) Samples.env ≡ ok false Samples.reported
unfolding deposit_with_failure_report deposit_with_failure_report_body is_paused checked_add_u64
    ltb_ℤ leb_ℤ eqb_ℤ min_ℤ max_ℤ ◌+ℤ◌ ◌-ℤ◌ checked_add checked_sub test_transfer change insert
    insert_at
deposit_with_failure_report_runs = refl

pub withdraw_token_runs :
    withdraw_token test_host operator token payee (pos 40) Samples.env ≡ ok tt Samples.taken
unfolding withdraw_token withdraw_token_body is_paused checked_add_u64 ltb_ℤ leb_ℤ eqb_ℤ min_ℤ max_ℤ
    ◌+ℤ◌ ◌-ℤ◌ checked_add checked_sub test_transfer change insert insert_at
withdraw_token_runs = refl

pub set_limit_runs : set_limit test_host operator (pos 500) Samples.env ≡ ok tt Samples.lowered
unfolding set_limit is_paused checked_add_u64 ltb_ℤ leb_ℤ eqb_ℤ min_ℤ max_ℤ ◌+ℤ◌ ◌-ℤ◌ checked_add
    checked_sub test_transfer change insert insert_at
set_limit_runs = refl

pub propose_owner_runs : propose_owner test_host owner payee Samples.env ≡ ok tt Samples.proposed
unfolding propose_owner is_paused checked_add_u64 ltb_ℤ leb_ℤ eqb_ℤ min_ℤ max_ℤ ◌+ℤ◌ ◌-ℤ◌
    checked_add checked_sub test_transfer change insert insert_at
propose_owner_runs = refl

pub initiate_emergency_migration_runs :
    initiate_emergency_migration test_host owner 9 Samples.env ≡ ok tt Samples.initiated
unfolding initiate_emergency_migration is_paused checked_add_u64 ltb_ℤ leb_ℤ eqb_ℤ min_ℤ max_ℤ ◌+ℤ◌
    ◌-ℤ◌ checked_add checked_sub test_transfer change insert insert_at
initiate_emergency_migration_runs = refl

pub execute_emergency_migration_runs :
    execute_emergency_migration test_host owner Samples.due ≡ ok (pos 300) Samples.migrated
unfolding execute_emergency_migration execute_emergency_migration_body initiate_emergency_migration
    is_paused checked_add_u64 ltb_ℤ leb_ℤ eqb_ℤ min_ℤ max_ℤ ◌+ℤ◌ ◌-ℤ◌ checked_add checked_sub
    test_transfer change insert insert_at
execute_emergency_migration_runs = refl

pub run_all_runs : run_all test_host Samples.calls Samples.env ≡ ok tt Samples.settled
unfolding run_all is_paused checked_add_u64 ltb_ℤ leb_ℤ eqb_ℤ min_ℤ max_ℤ ◌+ℤ◌ ◌-ℤ◌ checked_add
    checked_sub test_transfer change insert insert_at
run_all_runs = refl

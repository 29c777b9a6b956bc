-- ===== src/Tests/VaultSamples.antt =====
-- A sample vault and runs of the contract on it.
use stream_fi_contracts.Prelude.{true, none, some, [], ◌∷◌, List, arith, ◌==◌, ◌||◌, if◌then◌else◌}
use stream_fi_contracts.Prelude.Int.{pos}
use stream_fi_contracts.Prelude.Effect.{commit}
use stream_fi_contracts.Host.{Address}
use stream_fi_contracts.Vault.Types.{
  Store, VaultEnv, DepositSpec, EmergencyMigration, account_balance, eqb_key,
}
use stream_fi_contracts.Vault.Types
use stream_fi_contracts.Contract.{insert}
use stream_fi_contracts.Vault.Storage.{record_vault_balance, insert_at, has, contains}
use stream_fi_contracts.Vault.Storage.Index.{IsIndexed}
use stream_fi_contracts.Vault.Withdraw.{Payouts, withdraw_payouts}
use stream_fi_contracts.Vault.Deposit.{deposit, batch_deposit, deposit_with_failure_report}
use stream_fi_contracts.Vault.Tokens.{withdraw_token}
use stream_fi_contracts.Vault.Owner.{propose_owner, set_limit}
use stream_fi_contracts.Vault.Migration.{initiate_emergency_migration, execute_emergency_migration}
use stream_fi_contracts.Vault.Calls.{Call, Context, run_all}
use stream_fi_contracts.Vault.Calls
use stream_fi_contracts.Tests.{Balances, test_host}

abbrev pub owner : Address
owner = 1

abbrev pub operator : Address
operator = 2

abbrev pub payee : Address
payee = 3

abbrev pub self : Address
self = 5

abbrev pub token : Address
token = 7

abbrev pub balances : Balances
balances = λ t holder.
    if holder == owner
    then 1000
    else if holder == operator
    then 100
    else if holder == self
    then 300
    else 0

abbrev pub migration : EmergencyMigration
migration = record { destination = 9; proposed_at = 1000; executable_at = 173800 }

abbrev pub blank : Store
blank = record {
  owner = some owner;
  token = some token;
  max_limit = some (pos 2000);
  operator = some operator;
  operator_withdraw_limit = some (pos 100);
  paused = none;
  pending_owner = none;
  pending_owner_proposer = none;
  pending_owner_proposed_at = none;
  owner_proposal_ttl = some 604800;
  token_account_balance = λ t a. if a == operator then some (pos 40) else none;
  token_max_limit = λ t. none;
  emergency_migration = none;
  reentrancy_lock = none;
  approved_token = λ t. some true;
  balance_snapshot = λ t. none;
  tracked_vault_keys = none;
}

abbrev pub env : VaultEnv Balances
env = record {
  now = 1000;
  sequence = 12;
  self = self;
  auth = λ a. a == owner || a == operator;
  store = blank;
  tokens = balances;
  published = [];
  renewals = [];
  wasm = none;
}

abbrev pub payouts : Payouts
payouts = (payee, pos 30) ∷ (4, pos 50) ∷ []

abbrev pub paid : VaultEnv Balances
paid = commit env (withdraw_payouts test_host operator payouts env)

abbrev pub received : VaultEnv Balances
received = commit env (deposit test_host owner (pos 200) env)

abbrev pub specs : List DepositSpec
specs = record { from = owner; amount = pos 200 } ∷ record { from = operator; amount = pos 10 } ∷ []

abbrev pub batched : VaultEnv Balances
batched = commit env (batch_deposit test_host specs env)

abbrev pub reported : VaultEnv Balances
reported = commit env (deposit_with_failure_report test_host operator (pos 500) env)

abbrev pub taken : VaultEnv Balances
taken = commit env (withdraw_token test_host operator token payee (pos 40) env)

abbrev pub lowered : VaultEnv Balances
lowered = commit env (set_limit test_host operator (pos 500) env)

abbrev pub proposed : VaultEnv Balances
proposed = commit env (propose_owner test_host owner payee env)

abbrev pub later : VaultEnv Balances
later = let p = proposed in record p { now = 2000; auth = λ a. true }

abbrev pub initiated : VaultEnv Balances
initiated = commit env (initiate_emergency_migration test_host owner 9 env)

abbrev pub hasty : VaultEnv Balances
hasty = let p = initiated in record p { now = 173799 }

abbrev pub due : VaultEnv Balances
due = let p = initiated in record p { now = 173800 }

abbrev pub migrated : VaultEnv Balances
migrated = commit due (execute_emergency_migration test_host owner due)

abbrev pub context : Context
context = record { now = 3000; sequence = 40; auth = λ a. a == owner || a == operator }

abbrev pub calls : List (Context × Call)
calls =
    (context, Calls.deposit owner (pos 200))
    ∷ (context, Calls.withdraw operator payee (pos 60))
    ∷ (context, Calls.set_limit owner (pos 3000))
    ∷ []

abbrev pub settled : VaultEnv Balances
settled = commit env (run_all test_host calls env)

-- After a deposit, the depositor's account is indexed.
abbrev pub indexed : Store
indexed =
    let s = blank in
    record s {
      token_account_balance = insert_at token owner (pos 200) (λ t a. none);
      tracked_vault_keys = some (account_balance token owner ∷ []);
    }

abbrev pub credited : VaultEnv Balances
credited = let e = env in record e { store = indexed }

abbrev pub noted : VaultEnv Balances
noted = commit env (record_vault_balance token (pos 300) env)

pub credited-IsIndexed : IsIndexed indexed
unfolding has contains eqb_key insert_at insert
credited-IsIndexed (account_balance t a) h = ground arith
credited-IsIndexed (Types.VaultKey.max_limit t) h = absurd (cc h)

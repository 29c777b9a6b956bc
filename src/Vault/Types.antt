-- ===== src/Vault/Types.antt =====
-- contracts/token-vault/src/errors.rs and storage.rs, and the records of lib.rs: error codes, the
-- records under the storage keys, and the storage key by key. The key Balance, which no entry
-- point reads or writes, has no field.
use stream_fi_contracts.Prelude.{ℕ, ◌*◌, ◌^◌, Bool, false, ◌&&◌, Option, List, ◌==◌}
use stream_fi_contracts.Prelude.Int.{ℤ, pos}
use stream_fi_contracts.Prelude.Effect.{Action}
use stream_fi_contracts.Host.{Address}
use stream_fi_contracts.Common.Pause.{PauseCell}
use stream_fi_contracts.Contract.{Env}

-- The last two are used in lib.rs but not declared in errors.rs.
pub data Error : Type 0 where
  invalid_amount arithmetic_overflow limit_exceeded not_authorized contract_paused : Error
  already_paused not_paused not_initialized already_initialized invalid_param : Error
  no_pending_owner not_pending_owner deposit_transfer_failed withdraw_transfer_failed : Error
  invalid_wasm_hash pending_owner_expired invalid_token timelock_not_expired : Error
  no_migration_proposed reentrancy_detected deposit_exceeds_max invalid_stream_batch : Error
  stream_call_failed token_not_approved vault_balance_changed : Error

abbrev pub owner_proposal_ttl_seconds : ℕ
owner_proposal_ttl_seconds = 7 * 24 * 60 * 60

abbrev pub emergency_migration_timelock_seconds : ℕ
emergency_migration_timelock_seconds = 48 * 60 * 60

abbrev pub max_vault_deposit : ℤ
max_vault_deposit = pos (10 ^ 30)

abbrev pub max_stream_batch_withdrawals : ℕ
max_stream_batch_withdrawals = 10

pub record VaultBalanceSnapshot : Type 0 where
  pub ledger : ℕ
  pub expected_balance : ℤ

pub record EmergencyMigration : Type 0 where
  pub destination : Address
  pub proposed_at : ℕ
  pub executable_at : ℕ

pub record DepositSpec : Type 0 where
  pub from : Address
  pub amount : ℤ

-- The keys of persistent entries, which the vault keeps an index of.
pub data VaultKey : Type 0 where
  account_balance : (token account : Address) → VaultKey
  max_limit : (token : Address) → VaultKey

unfoldable pub eqb_key : VaultKey → VaultKey → Bool
eqb_key (account_balance token account) (account_balance token' account') =
    token == token' && account == account'
eqb_key (VaultKey.max_limit token) (VaultKey.max_limit token') = token == token'
eqb_key (account_balance token account) (VaultKey.max_limit token') = false
eqb_key (VaultKey.max_limit token) (account_balance token' account') = false

-- `none` under a key that is not set; a key with arguments is a function of them.
pub record Store : Type 0 where
  pub owner : Option Address
  pub token : Option Address
  pub max_limit : Option ℤ
  pub operator : Option Address
  pub operator_withdraw_limit : Option ℤ
  pub paused : Option PauseCell
  pub pending_owner : Option Address
  pub pending_owner_proposer : Option Address
  pub pending_owner_proposed_at : Option ℕ
  pub owner_proposal_ttl : Option ℕ
  pub token_account_balance : Address → Address → Option ℤ
  pub token_max_limit : Address → Option ℤ
  pub emergency_migration : Option EmergencyMigration
  pub reentrancy_lock : Option Bool
  pub approved_token : Address → Option Bool
  pub balance_snapshot : Address → Option VaultBalanceSnapshot
  pub tracked_vault_keys : Option (List VaultKey)

-- The events of events.rs, each with its topics and its data.
pub data Event : Type 0 where
  initialized : (owner token : Address) → ℤ → Event
  deposited : (from : Address) → (amount new_balance : ℤ) → Event
  token_deposited : (from : Address) → (gross_amount fee_amount net_amount : ℤ) → Event
  withdrawn : (caller to : Address) → (amount new_balance : ℤ) → Bool → Event
  limit_set : (caller : Address) → (old_limit new_limit : ℤ) → Event
  operator_withdraw_limit_set : (caller : Address) → (old_limit new_limit : ℤ) → Event
  operator_set : (caller operator : Address) → Event
  operator_revoked : (caller : Address) → Event
  paused : (caller : Address) → ℕ → Event
  unpaused : (caller : Address) → ℕ → Event
  upgraded : (caller : Address) → ℕ → Event
  owner_proposed : (caller new_owner : Address) → Event
  owner_accepted : (caller old_owner : Address) → Event
  owner_proposal_ttl_set : (caller : Address) → (old_ttl new_ttl : ℕ) → Event
  emergency_migration_initiated : (caller destination : Address) → ℕ → Event
  emergency_migration_executed : (caller destination : Address) → ℤ → Event
  emergency_migration_cancelled : (caller : Address) → Event
  kept_alive : ℕ → Event
  vault_deposit_failed : (from token : Address) → ℤ → (reason_code : ℕ) → Event
  token_approval_changed : (token : Address) → Bool → Event
  vault_keys_refreshed : ℕ → Event

abbrev pub VaultEnv : Type 0 → Type 0
VaultEnv T = Env Store VaultKey Event T

abbrev pub Act : Type 0 → Type 0 → Type 0
Act T A = Action (VaultEnv T) Error A

-- ===== src/Vault/Deposit.antt =====
-- contracts/token-vault/src/lib.rs: initialize, and the deposits of the default token: deposit,
-- deposit_with_fee, batch_deposit and deposit_with_failure_report.
pub mod Receipt
pub mod Fee
pub mod Report
pub mod Batch
use stream_fi_contracts.Prelude.{Bool, true, false, not, ◌||◌, Option, none, some, List, [], ◌∷◌}
use stream_fi_contracts.Prelude.Int.{ℤ, pos, leb_ℤ, ltb_ℤ, eqb_ℤ, checked_add, checked_sub}
use stream_fi_contracts.Prelude.Effect.{ok, pure, raise_if, ok_or, branch, ◌>>=◌, ◌>>◌}
use stream_fi_contracts.Host.{Host, Address}
use stream_fi_contracts.Contract.{
  is_set, stored, store, loaded, current_contract_address, require_auth, balance, transfer,
  try_transfer,
}
use stream_fi_contracts.Vault.Types.{
  invalid_amount, arithmetic_overflow, limit_exceeded, not_initialized, already_initialized,
  deposit_transfer_failed, deposit_exceeds_max, token_not_approved, vault_balance_changed,
  max_vault_deposit, owner_proposal_ttl_seconds, DepositSpec, Act,
}
use stream_fi_contracts.Vault.Events
use stream_fi_contracts.Vault.Storage.{
  bump_instance, is_token_approved, set_token_approved, check_vault_balance, record_vault_balance,
  get_token_account_balance, set_token_account_balance,
}
use stream_fi_contracts.Vault.Access.{
  non_reentrant, assert_not_paused, require_owner_or_operator, validate_sep41_token, token_client,
  vault_balance,
}
use stream_fi_contracts.Vault.Withdraw.{is_empty}

-- What the checks of a deposit have found.
pub record Room : Type 0 where
  pub token : Address
  pub max : ℤ
  pub expected_balance : ℤ

module _ (host : Host) where
  unfoldable pub initialize : (owner token : Address) → ℤ → Act host.Tokens (Unit {0})
  unfolding validate_sep41_token bump_instance set_token_approved Events.initialized
  initialize owner token max_limit = do
    require_auth owner
    raise_if (leb_ℤ max_limit (pos 0)) invalid_amount
    validate_sep41_token host token
    known ← stored (λ s. is_set s.owner)
    raise_if known already_initialized
    bump_instance
    store (λ s. record s { owner = some owner })
    store (λ s. record s { token = some token })
    set_token_approved token true
    store (λ s. record s { max_limit = some max_limit })
    store (λ s. record s { owner_proposal_ttl = some owner_proposal_ttl_seconds })
    Events.initialized owner token max_limit

  -- An amount that a deposit takes.
  unfoldable pub check_deposit_amount : ℤ → Act host.Tokens (Unit {0})
  check_deposit_amount amount = do
    raise_if (leb_ℤ amount (pos 0)) invalid_amount
    raise_if (ltb_ℤ max_vault_deposit amount) deposit_exceeds_max

  -- `deposit` and `batch_deposit`: the balance that is expected, within the limit, from a balance
  -- that agrees with the snapshot.
  unfoldable pub check_room : Address → (max amount balance : ℤ) → Act host.Tokens Room
  unfolding check_vault_balance
  check_room token max amount balance = do
    expected_balance ← ok_or (checked_add balance amount) arithmetic_overflow
    raise_if (ltb_ℤ max expected_balance) limit_exceeded
    agrees ← check_vault_balance token balance
    raise_if (not agrees) vault_balance_changed
    pure (record { token = token; max = max; expected_balance = expected_balance })

  unfoldable pub admit_deposit : Address → ℤ → Act host.Tokens Room
  unfolding assert_not_paused require_owner_or_operator vault_balance is_token_approved
      check_deposit_amount check_room
  admit_deposit from amount = do
    assert_not_paused
    owner ← loaded (λ s. s.owner) not_initialized
    require_owner_or_operator from owner
    check_deposit_amount amount
    owner_again ← loaded (λ s. s.owner) not_initialized
    balance ← vault_balance host
    default_token ← loaded (λ s. s.token) not_initialized
    approved ← is_token_approved default_token
    raise_if (not approved) token_not_approved
    max ← loaded (λ s. s.max_limit) not_initialized
    check_room default_token max amount balance

  -- The transfer, and the balance after it.
  unfoldable pub receive : Address → ℤ → Room → Act host.Tokens ℤ
  unfolding token_client
  receive from amount r = do
    tk ← token_client host
    self ← current_contract_address
    transfer host tk from self amount
    new_balance ← balance host tk self
    raise_if (ltb_ℤ r.max new_balance) limit_exceeded
    raise_if (not (eqb_ℤ new_balance r.expected_balance)) deposit_transfer_failed
    pure new_balance

  abbrev credit_with : Option ℤ → Address → Address → Act host.Tokens (Unit {0})
  credit_with none token from env = ok tt env
  credit_with (some new_acc_bal) token from env =
      set_token_account_balance token from new_acc_bal env

  -- The depositor's own balance; an overflow leaves it as it was.
  unfoldable pub credit : Address → Address → ℤ → Act host.Tokens (Unit {0})
  unfolding get_token_account_balance set_token_account_balance
  credit token from amount = do
    cur_acc_bal ← get_token_account_balance token from
    credit_with (checked_add cur_acc_bal amount) token from

  -- What follows the transfer.
  unfoldable pub book_deposit : Address → ℤ → ℤ → Act host.Tokens (Unit {0})
  unfolding credit record_vault_balance bump_instance Events.deposited
  book_deposit from amount new_balance = do
    default_token ← loaded (λ s. s.token) not_initialized
    credit default_token from amount
    record_vault_balance default_token new_balance
    bump_instance
    Events.deposited from amount new_balance

  unfoldable pub deposit_body : Address → ℤ → Act host.Tokens (Unit {0})
  unfolding admit_deposit receive book_deposit
  deposit_body from amount = do
    r ← admit_deposit from amount
    new_balance ← receive from amount r
    book_deposit from amount new_balance

  unfoldable pub deposit : Address → ℤ → Act host.Tokens (Unit {0})
  unfolding non_reentrant deposit_body
  deposit from amount = non_reentrant (deposit_body from amount)

  unfoldable pub deposit_with_fee : Address → (gross fee : ℤ) → Act host.Tokens (Unit {0})
  unfolding deposit Events.token_deposited
  deposit_with_fee from gross_amount fee_amount = do
    raise_if
        (ltb_ℤ fee_amount (pos 0) || leb_ℤ gross_amount (pos 0) || leb_ℤ gross_amount fee_amount)
        invalid_amount
    raise_if (ltb_ℤ max_vault_deposit gross_amount) deposit_exceeds_max
    net_amount ← ok_or (checked_sub gross_amount fee_amount) arithmetic_overflow
    deposit from net_amount
    Events.token_deposited from gross_amount fee_amount net_amount

  -- The first loop of `batch_deposit`, from a total on.
  unfoldable pub sum_deposits : List DepositSpec → ℤ → Act host.Tokens ℤ
  unfolding check_deposit_amount
  sum_deposits [] total = pure total
  sum_deposits (deposit ∷ deposits) total = do
    check_deposit_amount deposit.amount
    require_auth deposit.from
    total' ← ok_or (checked_add total deposit.amount) arithmetic_overflow
    sum_deposits deposits total'

  -- The second loop.
  unfoldable pub receive_all : Address → List DepositSpec → Act host.Tokens (Unit {0})
  unfolding Events.deposited
  receive_all tk [] = pure tt
  receive_all tk (deposit ∷ deposits) = do
    self ← current_contract_address
    transfer host tk deposit.from self deposit.amount
    current_balance ← balance host tk self
    Events.deposited deposit.from deposit.amount current_balance
    receive_all tk deposits

  unfoldable pub admit_batch_deposit : List DepositSpec → Act host.Tokens Room
  unfolding assert_not_paused sum_deposits vault_balance is_token_approved check_room
  admit_batch_deposit deposits = do
    assert_not_paused
    raise_if (is_empty deposits) invalid_amount
    owner ← loaded (λ s. s.owner) not_initialized
    max ← loaded (λ s. s.max_limit) not_initialized
    total_deposit ← sum_deposits deposits (pos 0)
    balance ← vault_balance host
    default_token ← loaded (λ s. s.token) not_initialized
    approved ← is_token_approved default_token
    raise_if (not approved) token_not_approved
    check_room default_token max total_deposit balance

  -- The end of `batch_deposit`.
  unfoldable pub check_received : Address → Room → Act host.Tokens (Unit {0})
  unfolding record_vault_balance bump_instance
  check_received tk r = do
    self ← current_contract_address
    final_balance ← balance host tk self
    raise_if (ltb_ℤ r.max final_balance) limit_exceeded
    raise_if (not (eqb_ℤ final_balance r.expected_balance)) deposit_transfer_failed
    record_vault_balance r.token final_balance
    bump_instance

  unfoldable pub batch_deposit_body : List DepositSpec → Act host.Tokens (Unit {0})
  unfolding admit_batch_deposit receive_all check_received token_client
  batch_deposit_body deposits = do
    r ← admit_batch_deposit deposits
    tk ← token_client host
    receive_all tk deposits
    check_received tk r

  unfoldable pub batch_deposit : List DepositSpec → Act host.Tokens (Unit {0})
  unfolding non_reentrant batch_deposit_body
  batch_deposit deposits = non_reentrant (batch_deposit_body deposits)

  unfoldable pub admit_reported_deposit : Address → ℤ → Act host.Tokens Room
  unfolding assert_not_paused require_owner_or_operator is_token_approved check_deposit_amount
      check_room
  admit_reported_deposit from amount = do
    assert_not_paused
    owner ← loaded (λ s. s.owner) not_initialized
    require_owner_or_operator from owner
    check_deposit_amount amount
    token ← loaded (λ s. s.token) not_initialized
    approved ← is_token_approved token
    raise_if (not approved) token_not_approved
    self ← current_contract_address
    before ← balance host token self
    max ← loaded (λ s. s.max_limit) not_initialized
    check_room token max amount before

  -- What follows a transfer that the token has taken.
  unfoldable pub settle_reported : Address → ℤ → Room → Act host.Tokens Bool
  unfolding get_token_account_balance set_token_account_balance record_vault_balance bump_instance
      Events.deposited
  settle_reported from amount r = do
    self ← current_contract_address
    after ← balance host r.token self
    raise_if (not (eqb_ℤ after r.expected_balance)) deposit_transfer_failed
    previous ← get_token_account_balance r.token from
    credited ← ok_or (checked_add previous amount) arithmetic_overflow
    set_token_account_balance r.token from credited
    record_vault_balance r.token after
    bump_instance
    Events.deposited from amount after
    pure true

  -- A rejected transfer is an event, and no error.
  unfoldable pub attempt : Address → ℤ → Room → Act host.Tokens Bool
  unfolding settle_reported Events.vault_deposit_failed
  attempt from amount r = do
    self ← current_contract_address
    moved ← try_transfer host r.token from self amount
    branch moved (settle_reported from amount r)
        do Events.vault_deposit_failed from r.token amount; pure false

  unfoldable pub deposit_with_failure_report_body : Address → ℤ → Act host.Tokens Bool
  unfolding admit_reported_deposit attempt
  deposit_with_failure_report_body from amount = do
    r ← admit_reported_deposit from amount
    attempt from amount r

  unfoldable pub deposit_with_failure_report : Address → ℤ → Act host.Tokens Bool
  unfolding non_reentrant deposit_with_failure_report_body
  deposit_with_failure_report from amount =
      non_reentrant (deposit_with_failure_report_body from amount)

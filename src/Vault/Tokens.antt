-- ===== src/Vault/Tokens.antt =====
-- contracts/token-vault/src/lib.rs: tokens other than the default one, the per-token limits, the
-- list of approved tokens, and the renewal of the persistent entries.
pub mod Accounts
pub mod Credit
pub mod Renewal
use stream_fi_contracts.Prelude.{ℕ, Bool, not, ◌&&◌, Option, none, some, ◌==◌}
use stream_fi_contracts.Prelude.Int.{ℤ, pos, leb_ℤ, ltb_ℤ, eqb_ℤ, checked_add, checked_sub, ◌-ℤ◌}
use stream_fi_contracts.Prelude.Effect.{pure, raise_if, ok_or, when, ◌>>=◌, ◌>>◌}
use stream_fi_contracts.Host.{Host, Address}
use stream_fi_contracts.Common.Ttl.{extend_ttl_ledgers}
use stream_fi_contracts.Contract.{
  stored, loaded, current_contract_address, require_auth, balance, transfer,
}
use stream_fi_contracts.Vault.Types.{
  invalid_amount, arithmetic_overflow, limit_exceeded, not_initialized, not_authorized,
  deposit_transfer_failed, withdraw_transfer_failed, token_not_approved, vault_balance_changed, Act,
}
use stream_fi_contracts.Vault.Events
use stream_fi_contracts.Vault.Storage.{
  bump_instance, is_token_approved, set_token_approved, check_vault_balance, record_vault_balance,
  get_token_account_balance, set_token_account_balance, bump_tracked_keys,
}
use stream_fi_contracts.Vault.Storage
use stream_fi_contracts.Vault.Access.{
  non_reentrant, assert_not_paused, withdraw_cap, require_owner_or_operator, validate_sep41_token,
}
use stream_fi_contracts.Vault.Deposit.{check_deposit_amount}

-- What the checks of a withdrawal have found.
pub record Held : Type 0 where
  pub owner : Address
  pub vault_bal : ℤ
  pub current_acc_balance : ℤ

module _ (host : Host) where
  -- The limit of a token, if it has one.
  unfoldable pub check_token_limit : Address → ℤ → Option ℤ → Act host.Tokens (Unit {0})
  check_token_limit token amount none = pure tt
  check_token_limit token amount (some max) = do
    self ← current_contract_address
    current_vault_balance ← balance host token self
    expected_balance ← ok_or (checked_add current_vault_balance amount) arithmetic_overflow
    raise_if (ltb_ℤ max expected_balance) limit_exceeded

  -- The checks, which give the balance before the deposit.
  unfoldable pub admit_token_deposit : (from token : Address) → ℤ → Act host.Tokens ℤ
  unfolding assert_not_paused require_owner_or_operator check_deposit_amount is_token_approved
      check_vault_balance check_token_limit
  admit_token_deposit from token amount = do
    assert_not_paused
    owner ← loaded (λ s. s.owner) not_initialized
    require_owner_or_operator from owner
    check_deposit_amount host amount
    approved ← is_token_approved token
    raise_if (not approved) token_not_approved
    self ← current_contract_address
    before ← balance host token self
    agrees ← check_vault_balance token before
    raise_if (not agrees) vault_balance_changed
    limit ← stored (λ s. s.token_max_limit token)
    check_token_limit token amount limit
    pure before

  unfoldable pub settle_token_deposit :
      (from token : Address) → (amount before : ℤ) → Act host.Tokens (Unit {0})
  unfolding record_vault_balance get_token_account_balance set_token_account_balance bump_instance
      Events.deposited
  settle_token_deposit from token amount before = do
    self ← current_contract_address
    transfer host token from self amount
    after ← balance host token self
    expected ← ok_or (checked_add before amount) arithmetic_overflow
    raise_if (not (eqb_ℤ after expected)) deposit_transfer_failed
    record_vault_balance token after
    current_acc_balance ← get_token_account_balance token from
    new_acc_balance ← ok_or (checked_add current_acc_balance amount) arithmetic_overflow
    set_token_account_balance token from new_acc_balance
    bump_instance
    new_balance ← balance host token self
    Events.deposited from amount new_balance

  unfoldable pub deposit_token_body : (from token : Address) → ℤ → Act host.Tokens (Unit {0})
  unfolding admit_token_deposit settle_token_deposit
  deposit_token_body from token amount = do
    before ← admit_token_deposit from token amount
    settle_token_deposit from token amount before

  unfoldable pub deposit_token : (from token : Address) → ℤ → Act host.Tokens (Unit {0})
  unfolding non_reentrant deposit_token_body
  deposit_token from token amount = non_reentrant (deposit_token_body from token amount)

  unfoldable pub admit_token_withdrawal : (caller token : Address) → ℤ → Act host.Tokens Held
  unfolding assert_not_paused require_owner_or_operator withdraw_cap get_token_account_balance
  admit_token_withdrawal caller token amount = do
    assert_not_paused
    owner ← loaded (λ s. s.owner) not_initialized
    require_owner_or_operator caller owner
    raise_if (leb_ℤ amount (pos 0)) invalid_amount
    cap ← withdraw_cap caller owner
    raise_if (ltb_ℤ cap amount) limit_exceeded
    self ← current_contract_address
    vault_bal ← balance host token self
    raise_if (ltb_ℤ vault_bal amount) limit_exceeded
    current_acc_balance ← get_token_account_balance token caller
    raise_if (not (caller == owner) && ltb_ℤ current_acc_balance amount) limit_exceeded
    pure
        (record { owner = owner; vault_bal = vault_bal; current_acc_balance = current_acc_balance })

  unfoldable pub settle_token_withdrawal :
      (caller token to : Address) → ℤ → Held → Act host.Tokens (Unit {0})
  unfolding set_token_account_balance record_vault_balance Events.withdrawn bump_instance
  settle_token_withdrawal caller token to amount h = do
    self ← current_contract_address
    transfer host token self to amount
    when (leb_ℤ amount h.current_acc_balance)
        (set_token_account_balance token caller (h.current_acc_balance -ℤ amount))
    new_vault_bal ← balance host token self
    expected ← ok_or (checked_sub h.vault_bal amount) arithmetic_overflow
    raise_if (not (eqb_ℤ new_vault_bal expected)) withdraw_transfer_failed
    record_vault_balance token new_vault_bal
    Events.withdrawn caller to amount new_vault_bal (not (caller == h.owner))
    bump_instance

  unfoldable pub withdraw_token_body : (caller token to : Address) → ℤ → Act host.Tokens (Unit {0})
  unfolding admit_token_withdrawal settle_token_withdrawal
  withdraw_token_body caller token to amount = do
    h ← admit_token_withdrawal caller token amount
    settle_token_withdrawal caller token to amount h

  unfoldable pub withdraw_token : (caller token to : Address) → ℤ → Act host.Tokens (Unit {0})
  unfolding non_reentrant withdraw_token_body
  withdraw_token caller token to amount = non_reentrant (withdraw_token_body caller token to amount)

  unfoldable pub set_token_max_limit : (caller token : Address) → ℤ → Act host.Tokens (Unit {0})
  unfolding assert_not_paused require_owner_or_operator Storage.set_token_max_limit bump_instance
  set_token_max_limit caller token limit = do
    assert_not_paused
    owner ← loaded (λ s. s.owner) not_initialized
    require_owner_or_operator caller owner
    raise_if (leb_ℤ limit (pos 0)) invalid_amount
    Storage.set_token_max_limit token limit
    bump_instance

  unfoldable pub approve_token : (caller token : Address) → Bool → Act host.Tokens (Unit {0})
  unfolding validate_sep41_token set_token_approved bump_instance Events.token_approval_changed
  approve_token caller token approved = do
    owner ← loaded (λ s. s.owner) not_initialized
    raise_if (not (caller == owner)) not_authorized
    require_auth caller
    when approved (validate_sep41_token host token)
    set_token_approved token approved
    bump_instance
    Events.token_approval_changed token approved

module _ {T : Type 0} where
  unfoldable pub bump_all_vault_keys : Act T ℕ
  unfolding bump_instance bump_tracked_keys Events.vault_keys_refreshed
  bump_all_vault_keys = do
    owner ← loaded (λ s. s.owner) not_initialized
    bump_instance
    count ← bump_tracked_keys
    Events.vault_keys_refreshed count
    pure count

  unfoldable pub keep_alive : Act T (Unit {0})
  unfolding bump_instance bump_tracked_keys Events.kept_alive
  keep_alive = do bump_instance; count ← bump_tracked_keys; Events.kept_alive extend_ttl_ledgers

-- ===== src/Vault/Withdraw.antt =====
-- contracts/token-vault/src/lib.rs: withdraw_payouts, withdraw and withdraw_batch.
pub mod Payment
pub mod Conservation
use stream_fi_contracts.Prelude.{Bool, true, false, not, List, [], ◌∷◌, ◌==◌}
use stream_fi_contracts.Prelude.Int.{ℤ, pos, leb_ℤ, ltb_ℤ, eqb_ℤ, checked_add, checked_sub}
use stream_fi_contracts.Prelude.Effect.{pure, raise_if, ok_or, ◌>>=◌, ◌>>◌}
use stream_fi_contracts.Host.{Host, Address}
use stream_fi_contracts.Contract.{loaded, current_contract_address, transfer}
use stream_fi_contracts.Vault.Types.{
  invalid_amount, arithmetic_overflow, limit_exceeded, withdraw_transfer_failed, not_initialized,
  Act,
}
use stream_fi_contracts.Vault.Events
use stream_fi_contracts.Vault.Storage.{bump_instance, record_vault_balance}
use stream_fi_contracts.Vault.Access.{
  non_reentrant, assert_not_paused, withdraw_cap, require_owner_or_operator, validate_sep41_token,
  token_client, vault_balance,
}

abbrev pub Payouts : Type 0
Payouts = List (Address × ℤ)

abbrev pub is_empty : {A : Type 0} → List A → Bool
is_empty [] = true
is_empty (x ∷ xs) = false

-- The first loop, from a total on.
unfoldable pub sum_payouts : {T : Type 0} → Payouts → ℤ → Act T ℤ
sum_payouts [] total = pure total
sum_payouts ((to, amount) ∷ payouts) total = do
  raise_if (leb_ℤ amount (pos 0)) invalid_amount
  total' ← ok_or (checked_add total amount) arithmetic_overflow
  sum_payouts payouts total'

-- What the checks have found.
pub record Admitted : Type 0 where
  pub token : Address
  pub balance : ℤ
  pub by_operator : Bool

module _ (host : Host) where
  -- One round of the second loop: it gives the balance that the next one expects.
  unfoldable pub pay : (token caller : Address) → Bool → Address × ℤ → ℤ → Act host.Tokens ℤ
  unfolding vault_balance record_vault_balance Events.withdrawn
  pay token caller by_operator (to, amount) balance = do
    expected_balance ← ok_or (checked_sub balance amount) arithmetic_overflow
    self ← current_contract_address
    transfer host token self to amount
    new_balance ← vault_balance host
    raise_if (not (eqb_ℤ new_balance expected_balance)) withdraw_transfer_failed
    record_vault_balance token new_balance
    Events.withdrawn caller to amount new_balance by_operator
    pure expected_balance

  unfoldable pub pay_all : (token caller : Address) → Bool → Payouts → ℤ → Act host.Tokens ℤ
  unfolding pay
  pay_all token caller by_operator [] balance = pure balance
  pay_all token caller by_operator (payout ∷ payouts) balance = do
    balance' ← pay token caller by_operator payout balance
    pay_all token caller by_operator payouts balance'

  -- All that comes before the second loop.
  unfoldable pub admit_payouts : Address → Payouts → Act host.Tokens Admitted
  unfolding assert_not_paused require_owner_or_operator validate_sep41_token sum_payouts
      withdraw_cap vault_balance token_client
  admit_payouts caller payouts = do
    assert_not_paused
    owner ← loaded (λ s. s.owner) not_initialized
    require_owner_or_operator caller owner
    raise_if (is_empty payouts) invalid_amount
    token ← loaded (λ s. s.token) not_initialized
    validate_sep41_token host token
    total ← sum_payouts payouts (pos 0)
    cap ← withdraw_cap caller owner
    raise_if (ltb_ℤ cap total) limit_exceeded
    balance ← vault_balance host
    raise_if (ltb_ℤ balance total) limit_exceeded
    client ← token_client host
    pure (record { token = client; balance = balance; by_operator = not (caller == owner) })

  unfoldable pub withdraw_payouts_body : Address → Payouts → Act host.Tokens (Unit {0})
  unfolding admit_payouts pay_all bump_instance
  withdraw_payouts_body caller payouts = do
    a ← admit_payouts caller payouts
    left ← pay_all a.token caller a.by_operator payouts a.balance
    bump_instance

  unfoldable pub withdraw_payouts : Address → Payouts → Act host.Tokens (Unit {0})
  unfolding non_reentrant withdraw_payouts_body
  withdraw_payouts caller payouts = non_reentrant (withdraw_payouts_body caller payouts)

  unfoldable pub withdraw : (caller to : Address) → ℤ → Act host.Tokens (Unit {0})
  unfolding withdraw_payouts
  withdraw caller to amount = withdraw_payouts caller ((to, amount) ∷ [])

  unfoldable pub withdraw_batch : Address → Payouts → Act host.Tokens (Unit {0})
  unfolding withdraw_payouts
  withdraw_batch caller payouts = withdraw_payouts caller payouts

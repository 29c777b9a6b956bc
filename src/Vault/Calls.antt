-- ===== src/Vault/Calls.antt =====
-- contracts/token-vault/src/lib.rs: the three deposits and two withdrawals that only the vault's default
-- token has, and set_limit, as one type, and a sequence of such calls, each in its own ledger and with
-- its own signatures.
use stream_fi_contracts.Prelude.{ℕ, Bool, List, [], ◌∷◌}
use stream_fi_contracts.Prelude.Int.{ℤ}
use stream_fi_contracts.Prelude.Effect.{pure, ◌>>=◌, ◌>>◌}
use stream_fi_contracts.Prelude.Effect
use stream_fi_contracts.Host.{Host, Address}
use stream_fi_contracts.Vault.Types.{DepositSpec, VaultEnv, Act}
use stream_fi_contracts.Vault.Withdraw.{Payouts}
use stream_fi_contracts.Vault.Withdraw
use stream_fi_contracts.Vault.Deposit
use stream_fi_contracts.Vault.Owner

pub data Call : Type 0 where
  deposit : (from : Address) → ℤ → Call
  deposit_with_fee : (from : Address) → (gross fee : ℤ) → Call
  batch_deposit : List DepositSpec → Call
  withdraw : (caller to : Address) → ℤ → Call
  withdraw_batch : (caller : Address) → Payouts → Call
  set_limit : (caller : Address) → ℤ → Call

-- When a call runs, and who has signed it.
pub record Context : Type 0 where
  pub now : ℕ
  pub sequence : ℕ
  pub auth : Address → Bool

module _ (host : Host) where
  unfoldable pub run : Call → Act host.Tokens (Unit {0})
  unfolding Deposit.deposit Deposit.deposit_with_fee Deposit.batch_deposit Withdraw.withdraw
      Withdraw.withdraw_batch Owner.set_limit
  run (deposit from amount) = Deposit.deposit host from amount
  run (deposit_with_fee from gross fee) = Deposit.deposit_with_fee host from gross fee
  run (batch_deposit deposits) = Deposit.batch_deposit host deposits
  run (withdraw caller to amount) = Withdraw.withdraw host caller to amount
  run (withdraw_batch caller payouts) = Withdraw.withdraw_batch host caller payouts
  run (set_limit caller new_limit) = Owner.set_limit host caller new_limit

  abbrev pub entering : Context → VaultEnv host.Tokens → VaultEnv host.Tokens
  entering c env = record env { now = c.now; sequence = c.sequence; auth = c.auth }

  unfoldable pub run_all : List (Context × Call) → Act host.Tokens (Unit {0})
  unfolding run
  run_all [] = pure tt
  run_all ((context, call) ∷ calls) = do Effect.modify (entering context); run call; run_all calls

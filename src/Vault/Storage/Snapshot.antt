-- ===== src/Vault/Storage/Snapshot.antt =====
-- The snapshot of a token's balance, written and read back.
use stream_fi_contracts.Prelude.{ℕ, ◌≡◌, ◌≢◌, sym, ap, ◌∙◌, arith, true, some}
use stream_fi_contracts.Prelude.Int.{ℤ, eqb_ℤ}
use stream_fi_contracts.Prelude.Effect.{ok}
use stream_fi_contracts.Host.{Address}
use stream_fi_contracts.Vault.Types.{VaultBalanceSnapshot, VaultEnv}
use stream_fi_contracts.Contract.{insert}
use stream_fi_contracts.Vault.Storage.{agrees, check_vault_balance, record_vault_balance}
use stream_fi_contracts.Vault.Storage.Entries.{==_same, ==_different, insert-same, insert-other}

module _ {T : Type 0} where
  abbrev pub later : ℕ → VaultEnv T → VaultEnv T
  later sequence env = record env { sequence = sequence }

  -- A balance that `record_vault_balance` has recorded is what `check_vault_balance` then asks for:
  -- within the same ledger, another balance of the same token fails the check, the recorded one passes
  -- it, and in any other ledger every balance passes. The check of another token answers as before.
  pub record_vault_balance-check :
      (token : Address) (balance : ℤ) (env env' : VaultEnv T)
      → record_vault_balance token balance env ≡ ok tt env'
      → ((seen : ℤ) → check_vault_balance token seen env' ≡ ok (eqb_ℤ balance seen) env')
        × ((seen : ℤ) (sequence : ℕ)
            → sequence ≢ env.sequence
            → check_vault_balance token seen (later sequence env') ≡ ok true (later sequence env'))
        × ((token' : Address) (seen : ℤ)
            → token' ≢ token
            → agrees env'.sequence (env'.store.balance_snapshot token') seen
              ≡ agrees env.sequence (env.store.balance_snapshot token') seen)
  unfolding record_vault_balance check_vault_balance
  record_vault_balance-check token balance env env' h =
      let new : VaultBalanceSnapshot = record {
        ledger = env.sequence;
        expected_balance = balance;
      } in
      let set : env'.store.balance_snapshot ≡ insert token new env.store.balance_snapshot =
        ground arith in
      let same : env'.sequence ≡ env.sequence = ground arith in
      let here : env'.store.balance_snapshot token ≡ some new =
        ap (λ f. f token) set ∙ insert-same token new env.store.balance_snapshot in
      (
        λ seen. ap (λ b. ok b env') (rw (here, same, ==_same env.sequence)),
        λ seen sequence other.
            ap (λ b. ok b (later sequence env'))
              (rw (here, ==_different env.sequence sequence (λ e. other (sym e)))),
        λ token' seen other. rw same (
            ap (λ s. agrees env.sequence s seen)
              (ap (λ f. f token') set
                ∙ insert-other token token' new env.store.balance_snapshot other)),
      )

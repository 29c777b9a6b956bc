-- ===== src/Vault/Deposit/Fee.antt =====
-- What deposit_with_fee leaves in the vault.
use stream_fi_contracts.Prelude.{◌≡◌, sym, inl, inr, some, ◌∷◌, arith, Option-cases}
use stream_fi_contracts.Prelude.Int.{
  ℤ, pos, ◌-ℤ◌, ◌≤ℤ◌, ◌<ℤ◌, ltb_ℤ, leb_ℤ, checked_sub, checked_sub-some,
}
use stream_fi_contracts.Prelude.Effect.{ok, >>=-eq-ok, ◌>>◌}
use stream_fi_contracts.Host.{Host, Address}
use stream_fi_contracts.Vault.Types.{VaultEnv, token_deposited, max_vault_deposit}
use stream_fi_contracts.Vault.Events
use stream_fi_contracts.Vault.Withdraw.Payment.{Reports}
use stream_fi_contracts.Vault.Deposit.{deposit, deposit_with_fee}
use stream_fi_contracts.Vault.Deposit.Receipt.{Receives, deposit-Receives}

module _ (host : Host) where
  -- The event of such a deposit.
  abbrev announced : Address → (gross fee : ℤ) → VaultEnv host.Tokens → VaultEnv host.Tokens
  announced from gross fee env = record env {
    published = token_deposited from gross fee (gross -ℤ fee) ∷ env.published;
  }

  -- On any token contract: a successful `deposit_with_fee` has a fee that is not negative and below
  -- the gross amount, which is at most 10^30. It is a `deposit` of the difference, with one more
  -- event that gives all three amounts.
  pub deposit_with_fee-Receives :
      (from owner token : Address) (gross fee before max : ℤ) (env env' : VaultEnv host.Tokens)
      → env.store.owner ≡ some owner
      → env.store.max_limit ≡ some max
      → Reports host token before env
      → deposit_with_fee host from gross fee env ≡ ok tt env'
      → (mid : VaultEnv host.Tokens) × (pos 0 ≤ℤ fee)
        × (fee <ℤ gross)
        × (gross ≤ℤ max_vault_deposit)
        × Receives host from owner token (gross -ℤ fee) before max env mid
        × (env' ≡ announced from gross fee mid)
  unfolding deposit_with_fee ltb_ℤ leb_ℤ Events.token_deposited
  deposit_with_fee-Receives from owner token gross fee before max env env' o m b h =
      elim (Option-cases (checked_sub gross fee)) [
        | inl overflow ↦ absurd (ground (arith, overflow))
        | inr (net, less) ↦
            let is = checked_sub-some gross fee net less in
            let run : (deposit host from net >> Events.token_deposited from gross fee net) env
                ≡ ok tt env' =
              ground (arith, less) in
            let (u, mid, first, last) =
              >>=-eq-ok (deposit host from net) (λ u. Events.token_deposited from gross fee net) env
                run in
            let receives =
              deposit-Receives host from owner token net before max env mid o m b first in
            (
              mid,
              ground (arith, less),
              ground (arith, less),
              ground (arith, less),
              rw (sym is) receives,
              ground (arith, last, is),
            )
      ]

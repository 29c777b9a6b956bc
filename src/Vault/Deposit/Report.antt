-- ===== src/Vault/Deposit/Report.antt =====
-- The deposit that reports a transfer which the token rejects.
use stream_fi_contracts.Prelude.{◌≡◌, inl, inr, false, none, some, ◌∷◌, arith, Option-cases}
use stream_fi_contracts.Prelude.Int.{ℤ, ltb_ℤ, leb_ℤ, ◌+ℤ◌, ◌≤ℤ◌, checked_add, checked_add-some}
use stream_fi_contracts.Prelude.Effect.{ok, >>=-eq-ok}
use stream_fi_contracts.Host.{Host, Address}
use stream_fi_contracts.Vault.Types.{VaultEnv, vault_deposit_failed}
use stream_fi_contracts.Vault.Events
use stream_fi_contracts.Vault.Access.Guard.{refreshed, entered, non_reentrant-ok}
use stream_fi_contracts.Vault.Withdraw.Payment.{Reports}
use stream_fi_contracts.Vault.Deposit.{
  Room, admit_reported_deposit, settle_reported, attempt, deposit_with_failure_report_body,
  deposit_with_failure_report,
}

module _ (host : Host) where
  -- The state after a rejected transfer: the pause cell as the reading leaves it, a free lock, and
  -- one more event.
  abbrev pub rejected : (from token : Address) → ℤ → VaultEnv host.Tokens → VaultEnv host.Tokens
  rejected from token amount env =
      let mid = refreshed env in
      record mid {
        store = record mid.store { reentrancy_lock = none };
        published = vault_deposit_failed from token amount 1 ∷ env.published;
      }

  settle_reported-true :
      (from : Address) (amount : ℤ) (r : Room) (env env' : VaultEnv host.Tokens)
      → settle_reported host from amount r env ≡ ok false env'
      → ⊥
  unfolding settle_reported
  settle_reported-true from amount r env env' h = ground arith

  attempt-rejected :
      (from : Address) (amount : ℤ) (r : Room) (env env' : VaultEnv host.Tokens)
      → attempt host from amount r env ≡ ok false env'
      → (host.transfer r.token from env.self amount env.tokens ≡ none)
        × (env'
            ≡ record env { published = vault_deposit_failed from r.token amount 1 ∷ env.published })
  unfolding attempt Events.vault_deposit_failed
  attempt-rejected from amount r env env' h =
      elim (Option-cases (host.transfer r.token from env.self amount env.tokens)) [
        | inl failed ↦ ground (arith, failed)
        | inr (t, moved) ↦
            let ran : settle_reported host from amount r (record env { tokens = t })
                ≡ ok false env' =
              ground (arith, moved) in
            absurd (settle_reported-true from amount r (record env { tokens = t }) env' ran)
      ]

  admit_reported_deposit-room :
      (from token : Address) (amount before max : ℤ) (r : Room) (env env' : VaultEnv host.Tokens)
      → env.store.max_limit ≡ some max
      → Reports host token before env
      → admit_reported_deposit host from amount env ≡ ok r env'
      → (env' ≡ refreshed env) × (r.token ≡ token) × (before +ℤ amount ≤ℤ max)
  unfolding admit_reported_deposit ltb_ℤ leb_ℤ
  admit_reported_deposit-room from token amount before max r env env' m b h =
      elim (Option-cases (checked_add before amount)) [
        | inl overflow ↦ absurd (ground (arith, overflow))
        | inr (sum, adds) ↦
            let is = checked_add-some before amount sum adds in ground (arith, rw is at adds)
      ]

  -- On a vault with a limit, whose token reports a balance: `deposit_with_failure_report` returns
  -- `Ok(false)` only where the amount fits the limit and the token rejects the transfer of exactly
  -- this amount from the caller to the vault; the event of the failure is then all that is left of
  -- the call, with the pause cell as its reading leaves it and a free lock.
  pub deposit_with_failure_report-rejected :
      (from token : Address) (amount before max : ℤ) (env env' : VaultEnv host.Tokens)
      → env.store.max_limit ≡ some max
      → Reports host token before env
      → deposit_with_failure_report host from amount env ≡ ok false env'
      → (host.transfer token from env.self amount env.tokens ≡ none)
        × (before +ℤ amount ≤ℤ max)
        × (env' ≡ rejected from token amount env)
  unfolding deposit_with_failure_report deposit_with_failure_report_body
  deposit_with_failure_report-rejected from token amount before max env env' m b h =
      let (mid, free, ran, left) =
        non_reentrant-ok (deposit_with_failure_report_body host from amount) false env env' h in
      let (r, env1, first, rest) =
        >>=-eq-ok (admit_reported_deposit host from amount) (λ r. attempt host from amount r)
          (entered env) ran in
      let (at, t, fits) =
        admit_reported_deposit-room from token amount before max r (entered env) env1 m b first in
      let (failed, same) = attempt-rejected from amount r env1 mid rest in
      (rw (at, t) at failed, fits, rw (left, same, at, t))

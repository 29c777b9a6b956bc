-- ===== src/Vault/Withdraw/Conservation.antt =====
-- What a successful withdrawal from the vault was allowed to do, and what it moved, on any token.
use stream_fi_contracts.Prelude.{◌≡◌, ◌≢◌, ◌∙◌, refl, true, false, Option, none, some, [], arith}
use stream_fi_contracts.Prelude.Int.{ℤ, pos, ltb_ℤ, ◌-ℤ◌, ◌≤ℤ◌, zero-+ℤ}
use stream_fi_contracts.Prelude.Effect.{Outcome, ok, err, trap, >>=-eq-ok, ◌>>=◌}
use stream_fi_contracts.Host.{Host, Address}
use stream_fi_contracts.Contract.{unwrap_or}
use stream_fi_contracts.Vault.Storage.{bump_instance}
use stream_fi_contracts.Vault.Types.{Error, VaultEnv}
use stream_fi_contracts.Vault.Access.Guard.{halted, refreshed, entered, non_reentrant-ok}
use stream_fi_contracts.Vault.Withdraw.{
  Payouts, Admitted, sum_payouts, admit_payouts, pay_all, withdraw_payouts_body, withdraw_payouts,
}
use stream_fi_contracts.Vault.Withdraw.Payment.{
  total, AllPositive, Reports, sum_payouts-total, pay_all-Reports,
}

-- An optional cap that is set and is not exceeded.
abbrev pub Allows : Option ℤ → ℤ → Type 0
Allows none amount = ⊥
Allows (some cap) amount = amount ≤ℤ cap

module _ (host : Host) where
  -- What the checks have established.
  pub record Permits (caller owner : Address) (payouts : Payouts) (before : ℤ)
      (env : VaultEnv host.Tokens) : Type 0 where
    pub signed : env.auth caller ≡ true
    pub running : halted env ≡ false
    pub not_empty : payouts ≢ []
    pub positive : AllPositive payouts
    pub covered : total payouts ≤ℤ before
    pub by_operator :
        caller ≢ owner
        → (env.store.operator ≡ some caller)
          × Allows env.store.operator_withdraw_limit (total payouts)

  admit_payouts-sum :
      (caller owner token : Address) (payouts : Payouts) (before : ℤ) (a : Admitted)
      (env env' : VaultEnv host.Tokens)
      → env.store.owner ≡ some owner
      → Reports host token before env
      → admit_payouts host caller payouts env ≡ ok a env'
      → AllPositive payouts
        × (sum_payouts payouts (pos 0) (refreshed env) ≡ ok (total payouts) (refreshed env))
  unfolding admit_payouts
  admit_payouts-sum caller owner token payouts before a env env' o r h =
      go (sum_payouts payouts (pos 0) (refreshed env)) refl
    where
      go :
          (r : Outcome (VaultEnv host.Tokens) Error ℤ)
          → sum_payouts payouts (pos 0) (refreshed env) ≡ r
          → AllPositive payouts
            × (sum_payouts payouts (pos 0) (refreshed env) ≡ ok (total payouts) (refreshed env))
      go (ok sum mid) e =
          let (same, is, all) = sum_payouts-total payouts (pos 0) sum (refreshed env) mid e in
          (all, e ∙ rw (same, is, zero-+ℤ (total payouts)))
      go (err x mid) e = absurd (ground (arith, e))
      go (trap t) e = absurd (ground (arith, e))

  admit_payouts-Permits :
      (caller owner token : Address) (payouts : Payouts) (before : ℤ) (a : Admitted)
      (env env' : VaultEnv host.Tokens)
      → env.store.owner ≡ some owner
      → Reports host token before env
      → admit_payouts host caller payouts env ≡ ok a env'
      → Permits caller owner payouts before env
        × (env' ≡ refreshed env)
        × (a.token ≡ token)
        × (a.balance ≡ before)
  unfolding admit_payouts ltb_ℤ
  admit_payouts-Permits caller owner token payouts before a env env' o r h =
      let (all, e) = admit_payouts-sum caller owner token payouts before a env env' o r h in
      ground (arith, e, o, r, all)

  -- What a successful withdrawal has done.
  pub record PaysOut (caller owner token : Address) (payouts : Payouts) (before : ℤ)
      (env env' : VaultEnv host.Tokens) : Type 0 where
    pub permits : Permits caller owner payouts before env
    pub unlocked : unwrap_or env.store.reentrancy_lock false ≡ false
    pub lock_free : env'.store.reentrancy_lock ≡ none
    pub reports : Reports host token (before -ℤ total payouts) env'
    pub same_limit : env'.store.max_limit ≡ env.store.max_limit
    pub same_accounts : env'.store.token_account_balance ≡ env.store.token_account_balance
    pub same_owner : env'.store.owner ≡ env.store.owner
    pub same_self : env'.self ≡ env.self

  -- On any token contract: a successful `withdraw_payouts` on a vault with this owner whose token
  -- reports the balance `before` was signed by its caller, on a vault that is neither paused nor
  -- locked. Each payout is positive and their total is at most `before`; where the caller is not the
  -- owner, it is the operator, and the total is within the operator's cap. The token then reports
  -- exactly `before` less the total, the lock is free, and the owner, the limit and the accounts'
  -- balances are as they were.
  pub withdraw_payouts-PaysOut :
      (caller owner token : Address) (payouts : Payouts) (before : ℤ)
      (env env' : VaultEnv host.Tokens)
      → env.store.owner ≡ some owner
      → Reports host token before env
      → withdraw_payouts host caller payouts env ≡ ok tt env'
      → PaysOut caller owner token payouts before env env'
  unfolding withdraw_payouts bump_instance withdraw_payouts_body
  withdraw_payouts-PaysOut caller owner token payouts before env env' o r h =
      let (mid, free, ran, left) =
        non_reentrant-ok (withdraw_payouts_body host caller payouts) tt env env' h in
      let (a, env1, first, rest) =
        >>=-eq-ok (admit_payouts host caller payouts)
          (λ a. pay_all host a.token caller a.by_operator payouts a.balance >>= λ b. bump_instance)
          (entered env) ran in
      let (permits, at, t, b) =
        admit_payouts-Permits caller owner token payouts before a (entered env) env1 o r first in
      let (b', env2, second, last) =
        >>=-eq-ok (pay_all host a.token caller a.by_operator payouts a.balance) (λ b. bump_instance)
          env1 rest in
      let (gives, after, same) =
        pay_all-Reports host token caller a.by_operator payouts before b' env1 env2 (rw at r)
          (rw (t, b) at second) in
      ground (arith, free, left, at, gives, after, same, last, permits.signed)

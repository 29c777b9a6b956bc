-- ===== src/Vault/Tokens/Accounts.antt =====
-- What a successful withdrawal or deposit of a given token does to the vault and to the accounts, on
-- any token.
use stream_fi_contracts.Prelude.{
  ◌≡◌, ◌≢◌, sym, ◌∙◌, inl, inr, true, false, none, some, arith, Option-cases, Bool-cases,
  if◌then◌else◌,
}
use stream_fi_contracts.Prelude.Int.{
  ℤ, pos, ltb_ℤ, leb_ℤ, eqb_ℤ, ◌-ℤ◌, ◌≤ℤ◌, ◌<ℤ◌, checked_sub, checked_sub-some, eqb_ℤ-true,
}
use stream_fi_contracts.Prelude.Effect.{ok, >>=-eq-ok}
use stream_fi_contracts.Host.{Host, Address}
use stream_fi_contracts.Contract.{unwrap_or}
use stream_fi_contracts.Vault.Types.{VaultEnv}
use stream_fi_contracts.Vault.Storage.{insert_at}
use stream_fi_contracts.Vault.Storage.Entries.{account, Sets, kept-Sets, insert_at-Sets}
use stream_fi_contracts.Vault.Access.Guard.{halted, refreshed, entered, non_reentrant-ok}
use stream_fi_contracts.Vault.Withdraw.Conservation.{Allows}
use stream_fi_contracts.Vault.Tokens.{
  Held, admit_token_withdrawal, settle_token_withdrawal, withdraw_token_body, withdraw_token,
}

module _ (host : Host) where
  -- What the checks of a withdrawal have established.
  pub record Permits (caller owner token : Address) (amount before : ℤ) (env : VaultEnv host.Tokens)
      : Type 0 where
    pub signed : env.auth caller ≡ true
    pub running : halted env ≡ false
    pub positive : pos 0 <ℤ amount
    pub covered : amount ≤ℤ before
    pub by_operator :
        caller ≢ owner
        → (env.store.operator ≡ some caller)
          × Allows env.store.operator_withdraw_limit amount
          × (amount ≤ℤ account env.store token caller)

  admit_token_withdrawal-Permits :
      (caller owner token : Address) (amount before : ℤ) (a : Held)
      (env env' : VaultEnv host.Tokens)
      → env.store.owner ≡ some owner
      → host.balance token env.self env.tokens ≡ some before
      → admit_token_withdrawal host caller token amount env ≡ ok a env'
      → Permits caller owner token amount before env
        × (env' ≡ refreshed env)
        × (a.owner ≡ owner)
        × (a.vault_bal ≡ before)
        × (a.current_acc_balance ≡ account env.store token caller)
  unfolding admit_token_withdrawal ltb_ℤ leb_ℤ
  admit_token_withdrawal-Permits caller owner token amount before a env env' o b h = ground arith

  -- What is left of an account that pays as far as it can.
  abbrev pub lowered : VaultEnv host.Tokens → (token caller : Address) → ℤ → ℤ
  lowered env token caller amount =
      if leb_ℤ amount (account env.store token caller)
      then account env.store token caller -ℤ amount
      else account env.store token caller

  settle_token_withdrawal-Sets :
      (caller token to : Address) (amount : ℤ) (a : Held) (env env' : VaultEnv host.Tokens)
      → a.current_acc_balance ≡ account env.store token caller
      → settle_token_withdrawal host caller token to amount a env ≡ ok tt env'
      → Sets token caller (lowered env token caller amount) env.store env'.store
        × (host.balance token env'.self env'.tokens ≡ some (a.vault_bal -ℤ amount))
        × (env'.self ≡ env.self)
        × (env'.store.token ≡ env.store.token)
        × (env'.store.max_limit ≡ env.store.max_limit)
        × (env'.store.owner ≡ env.store.owner)
  unfolding settle_token_withdrawal
  settle_token_withdrawal-Sets caller token to amount a env env' c h =
      elim (Option-cases (checked_sub a.vault_bal amount)) [
        | inl overflow ↦ absurd (ground (arith, overflow))
        | inr (left, less) ↦
            let is = checked_sub-some a.vault_bal amount left less in
            elim (Option-cases (host.balance token env.self env'.tokens)) [
              | inl failed ↦ absurd (ground (arith, less, failed))
              | inr (held, reads) ↦
                  let agree : eqb_ℤ held left ≡ true = ground (arith, less, reads) in
                  let here = eqb_ℤ-true held left agree in
                  let reports : host.balance token env'.self env'.tokens
                      ≡ some (a.vault_bal -ℤ amount) =
                    ground (arith, less, reads, here, is) in
                  (
                    sets left held less reads,
                    reports,
                    ground (arith, less, reads),
                    ground (arith, less, reads),
                    ground (arith, less, reads),
                    ground (arith, less, reads),
                  )
            ]
      ]
    where
      sets :
          (left held : ℤ)
          → checked_sub a.vault_bal amount ≡ some left
          → host.balance token env.self env'.tokens ≡ some held
          → Sets token caller (lowered env token caller amount) env.store env'.store
      sets left held less reads = elim (Bool-cases (leb_ℤ amount a.current_acc_balance)) [
        | inl covered ↦
            let value = a.current_acc_balance -ℤ amount in
            let set : env'.store.token_account_balance
                ≡ insert_at token caller value env.store.token_account_balance =
              ground (arith, less, reads, covered) in
            rw (sym c, covered) (insert_at-Sets token caller value env.store env'.store set)
        | inr short ↦
            let kept : env'.store.token_account_balance ≡ env.store.token_account_balance =
              ground (arith, less, reads, short) in
            rw (sym c, short, c) (kept-Sets token caller env.store env'.store kept)
      ]

  -- What a successful withdrawal has done.
  pub record PaysOut (caller owner token : Address) (amount before : ℤ)
      (env env' : VaultEnv host.Tokens) : Type 0 where
    pub permits : Permits caller owner token amount before env
    pub unlocked : unwrap_or env.store.reentrancy_lock false ≡ false
    pub lock_free : env'.store.reentrancy_lock ≡ none
    pub reports : host.balance token env'.self env'.tokens ≡ some (before -ℤ amount)
    pub accounts : Sets token caller (lowered env token caller amount) env.store env'.store
    pub same_limit : env'.store.max_limit ≡ env.store.max_limit
    pub same_owner : env'.store.owner ≡ env.store.owner
    pub same_self : env'.self ≡ env.self

  -- On any token contract that reports the balance `before` for a vault with this owner: a successful
  -- `withdraw_token` was signed by its caller, on a vault that is neither paused nor locked. The
  -- amount is positive and at most `before`; where the caller is not the owner, it is the operator,
  -- and the amount is within the operator's cap and within its own account. The token then reports
  -- exactly `before` less the amount; the caller's account is lowered by the amount if it holds as
  -- much, and no other account changes.
  pub withdraw_token-PaysOut :
      (caller owner token to : Address) (amount before : ℤ) (env env' : VaultEnv host.Tokens)
      → env.store.owner ≡ some owner
      → host.balance token env.self env.tokens ≡ some before
      → withdraw_token host caller token to amount env ≡ ok tt env'
      → PaysOut caller owner token amount before env env'
  unfolding withdraw_token withdraw_token_body
  withdraw_token-PaysOut caller owner token to amount before env env' o b h =
      let (mid, free, ran, left) =
        non_reentrant-ok (withdraw_token_body host caller token to amount) tt env env' h in
      let (a, env1, first, rest) =
        >>=-eq-ok (admit_token_withdrawal host caller token amount)
          (λ a. settle_token_withdrawal host caller token to amount a) (entered env) ran in
      let (permits, at, own, held, acc) =
        admit_token_withdrawal-Permits caller owner token amount before a (entered env) env1 o b
          first in
      let (sets, reports, self, tok, limit, kept_owner) =
        settle_token_withdrawal-Sets caller token to amount a env1 mid (acc ∙ rw at) rest in
      record {
        permits = record {
          signed = permits.signed;
          running = permits.running;
          positive = permits.positive;
          covered = permits.covered;
          by_operator = permits.by_operator;
        };
        unlocked = free;
        lock_free = rw left;
        reports = rw left (reports ∙ rw held);
        accounts = record {
          here = rw left (sets.here ∙ rw at);
          elsewhere = λ token' account' d. rw left (sets.elsewhere token' account' d ∙ rw at);
        };
        same_limit = rw left (limit ∙ rw at);
        same_owner = rw left (kept_owner ∙ rw at);
        same_self = rw left (self ∙ rw at);
      }

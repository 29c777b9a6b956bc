-- ===== src/Vault/Tokens/Credit.antt =====
-- What a successful deposit of a given token does to the vault and to the accounts, on any token.
use stream_fi_contracts.Prelude.{
  ◌≡◌, sym, ◌∙◌, inl, inr, ◌⊎◌, true, false, none, some, arith, Option-cases,
}
use stream_fi_contracts.Prelude.Int.{
  ℤ, pos, ltb_ℤ, leb_ℤ, eqb_ℤ, ◌+ℤ◌, ◌≤ℤ◌, ◌<ℤ◌, checked_add, checked_add-some, eqb_ℤ-true,
}
use stream_fi_contracts.Prelude.Effect.{ok, >>=-eq-ok}
use stream_fi_contracts.Host.{Host, Address}
use stream_fi_contracts.Contract.{unwrap_or}
use stream_fi_contracts.Vault.Types.{VaultEnv, max_vault_deposit}
use stream_fi_contracts.Vault.Storage.{agrees, insert_at}
use stream_fi_contracts.Vault.Storage.Entries.{account, Sets, insert_at-Sets}
use stream_fi_contracts.Vault.Access.Guard.{halted, refreshed, entered, non_reentrant-ok}
use stream_fi_contracts.Vault.Tokens.{
  admit_token_deposit, settle_token_deposit, deposit_token_body, deposit_token,
}

module _ (host : Host) where
  -- What the checks of a deposit have established.
  pub record Accepts (from owner token : Address) (amount before : ℤ) (env : VaultEnv host.Tokens)
      : Type 0 where
    pub signed : env.auth from ≡ true
    pub role : (from ≡ owner) ⊎ (env.store.operator ≡ some from)
    pub running : halted env ≡ false
    pub positive : pos 0 <ℤ amount
    pub bounded : amount ≤ℤ max_vault_deposit
    pub approved : env.store.approved_token token ≡ some true
    pub undisturbed : agrees env.sequence (env.store.balance_snapshot token) before ≡ true
    pub fits : (max : ℤ) → env.store.token_max_limit token ≡ some max → before +ℤ amount ≤ℤ max

  admit_token_deposit-Accepts :
      (from owner token : Address) (amount before n : ℤ) (env env' : VaultEnv host.Tokens)
      → env.store.owner ≡ some owner
      → host.balance token env.self env.tokens ≡ some before
      → admit_token_deposit host from token amount env ≡ ok n env'
      → Accepts from owner token amount before env × (env' ≡ refreshed env) × (n ≡ before)
  unfolding admit_token_deposit ltb_ℤ leb_ℤ
  admit_token_deposit-Accepts from owner token amount before n env env' o b h =
      elim (Option-cases (checked_add before amount)) [
        | inl overflow ↦ ground (arith, overflow)
        | inr (sum, adds) ↦
            let is = checked_add-some before amount sum adds in ground (arith, rw is at adds)
      ]

  settle_token_deposit-Sets :
      (from token : Address) (amount before : ℤ) (env env' : VaultEnv host.Tokens)
      → settle_token_deposit host from token amount before env ≡ ok tt env'
      → Sets token from (account env.store token from +ℤ amount) env.store env'.store
        × (host.balance token env'.self env'.tokens ≡ some (before +ℤ amount))
        × (env'.self ≡ env.self)
        × (env'.store.max_limit ≡ env.store.max_limit)
        × (env'.store.owner ≡ env.store.owner)
  unfolding settle_token_deposit
  settle_token_deposit-Sets from token amount before env env' h =
      elim (Option-cases (checked_add before amount)) [
        | inl overflow ↦ absurd (ground (arith, overflow))
        | inr (sum, adds) ↦
            elim (Option-cases (checked_add (account env.store token from) amount)) [
              | inl overflow ↦ absurd (ground (arith, adds, overflow))
              | inr (raised, adds') ↦
                  elim (Option-cases (host.balance token env.self env'.tokens)) [
                    | inl failed ↦ absurd (ground (arith, adds, adds', failed))
                    | inr (held, reads) ↦
                        let is = checked_add-some before amount sum adds in
                        let is' =
                          checked_add-some (account env.store token from) amount raised adds' in
                        let agree : eqb_ℤ held sum ≡ true = ground (arith, adds, adds', reads) in
                        let here = eqb_ℤ-true held sum agree in
                        let set : env'.store.token_account_balance
                            ≡ insert_at token from raised env.store.token_account_balance =
                          ground (arith, adds, adds', reads) in
                        let self : env'.self ≡ env.self = ground (arith, adds, adds', reads) in
                        (
                          rw (sym is') (insert_at-Sets token from raised env.store env'.store set),
                          rw (self, reads, here, is),
                          self,
                          ground (arith, adds, adds', reads),
                          ground (arith, adds, adds', reads),
                        )
                  ]
            ]
      ]

  -- What a successful deposit has done.
  pub record Receives (from owner token : Address) (amount before : ℤ)
      (env env' : VaultEnv host.Tokens) : Type 0 where
    pub accepts : Accepts from owner token amount before env
    pub unlocked : unwrap_or env.store.reentrancy_lock false ≡ false
    pub lock_free : env'.store.reentrancy_lock ≡ none
    pub reports : host.balance token env'.self env'.tokens ≡ some (before +ℤ amount)
    pub accounts : Sets token from (account env.store token from +ℤ amount) env.store env'.store
    pub same_limit : env'.store.max_limit ≡ env.store.max_limit
    pub same_owner : env'.store.owner ≡ env.store.owner
    pub same_self : env'.self ≡ env.self

  -- On any token contract that reports the balance `before` for a vault with this owner: a successful
  -- `deposit_token` was signed by its caller, the owner or the operator, and the token is approved.
  -- The amount is positive and at most 10^30, and within the token's limit if it has one; `before`
  -- agrees with the balance recorded in this ledger, if any. The token then reports exactly `before`
  -- and the amount; the caller's account is raised by the amount, and no other account changes.
  pub deposit_token-Receives :
      (from owner token : Address) (amount before : ℤ) (env env' : VaultEnv host.Tokens)
      → env.store.owner ≡ some owner
      → host.balance token env.self env.tokens ≡ some before
      → deposit_token host from token amount env ≡ ok tt env'
      → Receives from owner token amount before env env'
  unfolding deposit_token deposit_token_body
  deposit_token-Receives from owner token amount before env env' o b h =
      let (mid, free, ran, left) =
        non_reentrant-ok (deposit_token_body host from token amount) tt env env' h in
      let (n, env1, first, rest) =
        >>=-eq-ok (admit_token_deposit host from token amount)
          (λ n. settle_token_deposit host from token amount n) (entered env) ran in
      let (accepts, at, is) =
        admit_token_deposit-Accepts from owner token amount before n (entered env) env1 o b first in
      let (sets, reports, self, limit, kept_owner) =
        settle_token_deposit-Sets from token amount n env1 mid rest in
      record {
        accepts = record {
          signed = accepts.signed;
          role = accepts.role;
          running = accepts.running;
          positive = accepts.positive;
          bounded = accepts.bounded;
          approved = accepts.approved;
          undisturbed = accepts.undisturbed;
          fits = accepts.fits;
        };
        unlocked = free;
        lock_free = rw left;
        reports = rw left (reports ∙ rw is);
        accounts = record {
          here = rw left (sets.here ∙ rw at);
          elsewhere = λ token' account' d. rw left (sets.elsewhere token' account' d ∙ rw at);
        };
        same_limit = rw left (limit ∙ rw at);
        same_owner = rw left (kept_owner ∙ rw at);
        same_self = rw left (self ∙ rw at);
      }

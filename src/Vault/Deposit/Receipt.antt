-- ===== src/Vault/Deposit/Receipt.antt =====
-- What a successful deposit has received and credited, on any token.
use stream_fi_contracts.Prelude.{
  ◌≡◌, ◌∙◌, inl, inr, ◌⊎◌, refl, true, false, none, some, arith, Option-cases,
}
use stream_fi_contracts.Prelude.Int.{
  ℤ, pos, ltb_ℤ, leb_ℤ, eqb_ℤ, ◌+ℤ◌, ◌≤ℤ◌, ◌<ℤ◌, checked_add, checked_add-some, eqb_ℤ-true,
}
use stream_fi_contracts.Prelude.Effect.{ok, >>=-eq-ok, ◌>>=◌, ◌>>◌}
use stream_fi_contracts.Host.{Host, Address}
use stream_fi_contracts.Contract.{unwrap_or}
use stream_fi_contracts.Vault.Types.{VaultEnv, max_vault_deposit}
use stream_fi_contracts.Vault.Storage.{bump_instance, record_vault_balance, agrees, insert_at}
use stream_fi_contracts.Vault.Storage.Entries.{account, Sets, kept-Sets, insert_at-Sets}
use stream_fi_contracts.Vault.Access.Guard.{halted, refreshed, entered, non_reentrant-ok}
use stream_fi_contracts.Vault.Events
use stream_fi_contracts.Vault.Withdraw.Payment.{Reports}
use stream_fi_contracts.Vault.Deposit.{
  Room, admit_deposit, receive, credit, book_deposit, deposit_body, deposit,
}

module _ (host : Host) where
  -- An account's balance with an amount on top, where that is an i128.
  abbrev pub raised : VaultEnv host.Tokens → (token from : Address) → ℤ → ℤ
  raised env token from amount =
      unwrap_or (checked_add (account env.store token from) amount) (account env.store token from)

  abbrev SameButAccounts : VaultEnv host.Tokens → VaultEnv host.Tokens → Type 0
  SameButAccounts env env' = env' ≡ record env {
    store = record env.store {
      token_account_balance = env'.store.token_account_balance;
      tracked_vault_keys = env'.store.tracked_vault_keys;
    };
    renewals = env'.renewals;
  }

  -- What the checks have established.
  pub record Accepts (from owner token : Address) (amount before max : ℤ)
      (env : VaultEnv host.Tokens) : Type 0 where
    pub signed : env.auth from ≡ true
    pub role : (from ≡ owner) ⊎ (env.store.operator ≡ some from)
    pub running : halted env ≡ false
    pub positive : pos 0 <ℤ amount
    pub bounded : amount ≤ℤ max_vault_deposit
    pub approved : env.store.approved_token token ≡ some true
    pub undisturbed : agrees env.sequence (env.store.balance_snapshot token) before ≡ true
    pub fits : before +ℤ amount ≤ℤ max

  admit_deposit-Accepts :
      (from owner token : Address) (amount before max : ℤ) (r : Room)
      (env env' : VaultEnv host.Tokens)
      → env.store.owner ≡ some owner
      → env.store.max_limit ≡ some max
      → Reports host token before env
      → admit_deposit host from amount env ≡ ok r env'
      → Accepts from owner token amount before max env
        × (env' ≡ refreshed env)
        × (r.expected_balance ≡ before +ℤ amount)
  unfolding admit_deposit ltb_ℤ leb_ℤ
  admit_deposit-Accepts from owner token amount before max r env env' o m b h =
      elim (Option-cases (checked_add before amount)) [
        | inl overflow ↦ absurd (ground (arith, overflow))
        | inr (sum, adds) ↦
            let is = checked_add-some before amount sum adds in ground (arith, rw is at adds)
      ]

  -- The transfer of a deposit.
  receive-Reports :
      (from token : Address) (amount new_balance : ℤ) (r : Room) (env env' : VaultEnv host.Tokens)
      → env.store.token ≡ some token
      → receive host from amount r env ≡ ok new_balance env'
      → Reports host token r.expected_balance env'
        × (new_balance ≡ r.expected_balance)
        × (env' ≡ record env { tokens = env'.tokens })
  unfolding receive
  receive-Reports from token amount new_balance r env env' t h =
      elim (Option-cases (host.balance token env.self env'.tokens)) [
        | inl failed ↦ absurd (ground (arith, failed))
        | inr (b, reads) ↦
            let agree : eqb_ℤ b r.expected_balance ≡ true = ground (arith, reads) in
            let is = eqb_ℤ-true b r.expected_balance agree in ground (arith, reads, is)
      ]

  credit-Sets :
      (token from : Address) (amount : ℤ) (env env' : VaultEnv host.Tokens)
      → credit host token from amount env ≡ ok tt env'
      → Sets token from (raised env token from amount) env.store env'.store
        × SameButAccounts env env'
  unfolding credit
  credit-Sets token from amount env env' h =
      elim (Option-cases (checked_add (account env.store token from) amount)) [
        | inl overflow ↦
            let same : env' ≡ env = ground (arith, overflow) in
            (rw (overflow, same) (kept-Sets token from env.store env.store refl), rw same)
        | inr (sum, adds) ↦
            let set : env'.store.token_account_balance
                ≡ insert_at token from sum env.store.token_account_balance =
              ground (arith, adds) in
            (rw adds (insert_at-Sets token from sum env.store env'.store set), ground (arith, adds))
      ]

  book_deposit-Sets :
      (token from : Address) (amount new_balance : ℤ) (env env' : VaultEnv host.Tokens)
      → env.store.token ≡ some token
      → book_deposit host from amount new_balance env ≡ ok tt env'
      → Sets token from (raised env token from amount) env.store env'.store
        × (env'.tokens ≡ env.tokens)
        × (env'.self ≡ env.self)
        × (env'.store.token ≡ env.store.token)
        × (env'.store.max_limit ≡ env.store.max_limit)
        × (env'.store.owner ≡ env.store.owner)
  unfolding book_deposit record_vault_balance bump_instance Events.deposited
  book_deposit-Sets token from amount new_balance env env' t h =
      let rest : (credit host token from amount >>= λ u.
      record_vault_balance token new_balance
      >> (bump_instance >> Events.deposited from amount new_balance))
            env
          ≡ ok tt env' =
        ground (arith, t) in
      let (u, mid, first, last) =
        >>=-eq-ok (credit host token from amount)
          (λ u.
            record_vault_balance token new_balance
            >> (bump_instance >> Events.deposited from amount new_balance))
          env rest in
      let (sets, same) = credit-Sets token from amount env mid first in
      (
        record {
          here = ground (arith, last, sets.here);
          elsewhere = λ token' account' d. ground (arith, last, sets.elsewhere token' account' d);
        },
        ground (arith, last, same),
        ground (arith, last, same),
        ground (arith, last, same),
        ground (arith, last, same),
        ground (arith, last, same),
      )

  -- What a successful deposit has done.
  pub record Receives (from owner token : Address) (amount before max : ℤ)
      (env env' : VaultEnv host.Tokens) : Type 0 where
    pub accepts : Accepts from owner token amount before max env
    pub unlocked : unwrap_or env.store.reentrancy_lock false ≡ false
    pub lock_free : env'.store.reentrancy_lock ≡ none
    pub reports : Reports host token (before +ℤ amount) env'
    pub accounts : Sets token from (raised env token from amount) env.store env'.store
    pub same_limit : env'.store.max_limit ≡ env.store.max_limit
    pub same_owner : env'.store.owner ≡ env.store.owner
    pub same_self : env'.self ≡ env.self

  -- On any token contract: a successful `deposit` into a vault with this owner and limit, whose token
  -- reports the balance `before`, was signed by its caller, the owner or the operator. The vault is
  -- neither paused nor locked, its token is approved, and `before` agrees with the last balance it
  -- recorded in this ledger, if any. The amount is positive and at most 10^30, and `before` with the
  -- amount is within the limit. The token then reports exactly that sum; the caller's account is
  -- raised by the amount, where the result is an i128, and no other account changes.
  pub deposit-Receives :
      (from owner token : Address) (amount before max : ℤ) (env env' : VaultEnv host.Tokens)
      → env.store.owner ≡ some owner
      → env.store.max_limit ≡ some max
      → Reports host token before env
      → deposit host from amount env ≡ ok tt env'
      → Receives from owner token amount before max env env'
  unfolding deposit deposit_body
  deposit-Receives from owner token amount before max env env' o m b h =
      let (mid, free, ran, left) = non_reentrant-ok (deposit_body host from amount) tt env env' h in
      let (r, env1, first, rest) =
        >>=-eq-ok (admit_deposit host from amount)
          (λ r. receive host from amount r >>= λ n. book_deposit host from amount n) (entered env)
          ran in
      let (accepts, at, expected) =
        admit_deposit-Accepts from owner token amount before max r (entered env) env1 o m b first in
      let (held, env2, second, last) =
        >>=-eq-ok (receive host from amount r) (λ n. book_deposit host from amount n) env1 rest in
      let (reports, is, same) =
        receive-Reports from token amount held r env1 env2 (rw at b.0) second in
      let (sets, k0, k1, k2, k3, k4) =
        book_deposit-Sets token from amount held env2 mid reports.0 last in
      let start : env2.store ≡ (refreshed (entered env)).store = rw (same, at) in
      record {
        accepts = record {
          signed = accepts.signed;
          role = accepts.role;
          running = accepts.running;
          positive = accepts.positive;
          bounded = accepts.bounded;
          approved = accepts.approved;
          undisturbed = accepts.undisturbed;
          fits = accepts.fits;
        };
        unlocked = free;
        lock_free = rw left;
        reports = rw left (k2 ∙ reports.0, rw (k1, k0) (reports.1 ∙ rw expected));
        accounts = record {
          here = rw left (sets.here ∙ rw start);
          elsewhere = λ token' account' d. rw left (sets.elsewhere token' account' d ∙ rw start);
        };
        same_limit = rw left (k3 ∙ rw start);
        same_owner = rw left (k4 ∙ rw start);
        same_self = rw left (k1 ∙ rw same (rw at));
      }

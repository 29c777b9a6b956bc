-- ===== src/Vault/Deposit/Batch.antt =====
-- What a successful batch of deposits has received, on any token.
use stream_fi_contracts.Prelude.{
  ◌≡◌, ◌≢◌, sym, ◌∙◌, inl, inr, refl, Bool, true, false, none, some, List, [], ◌∷◌, arith,
  Option-cases,
}
use stream_fi_contracts.Prelude.Int.{
  ℤ, pos, ltb_ℤ, leb_ℤ, eqb_ℤ, ◌+ℤ◌, ◌≤ℤ◌, ◌<ℤ◌, checked_add, checked_add-some, eqb_ℤ-true, +ℤ-zero,
  +ℤ-assoc, zero-+ℤ, leb_ℤ-false, ltb_ℤ-false,
}
use stream_fi_contracts.Prelude.Effect.{Outcome, ok, err, trap, >>=-eq-ok, ◌>>=◌, ◌>>◌}
use stream_fi_contracts.Host.{Host, Address}
use stream_fi_contracts.Contract.{unwrap_or}
use stream_fi_contracts.Vault.Types.{Error, VaultEnv, DepositSpec, deposited, max_vault_deposit}
use stream_fi_contracts.Vault.Access.{token_client}
use stream_fi_contracts.Vault.Access.Guard.{halted, refreshed, entered, non_reentrant-ok}
use stream_fi_contracts.Vault.Events
use stream_fi_contracts.Vault.Withdraw.Payment.{Reports}
use stream_fi_contracts.Vault.Deposit.{
  Room, sum_deposits, receive_all, admit_batch_deposit, check_received, batch_deposit_body,
  batch_deposit,
}

abbrev pub total : List DepositSpec → ℤ
total [] = pos 0
total (d ∷ deposits) = d.amount +ℤ total deposits

-- Every deposit is positive, within the bound of a single deposit, and signed by its depositor.
abbrev pub AllSigned : (Address → Bool) → List DepositSpec → Type 0
AllSigned auth [] = Unit
AllSigned auth (d ∷ deposits) =
    (auth d.from ≡ true)
    × (pos 0 <ℤ d.amount)
    × (d.amount ≤ℤ max_vault_deposit)
    × AllSigned auth deposits

module _ (host : Host) where
  sum_deposits-total :
      (deposits : List DepositSpec) (sum sum' : ℤ) (env env' : VaultEnv host.Tokens)
      → sum_deposits host deposits sum env ≡ ok sum' env'
      → (env' ≡ env) × (sum' ≡ sum +ℤ total deposits) × AllSigned env.auth deposits
  unfolding sum_deposits
  sum_deposits-total [] sum sum' env env' h =
      (cc, (let e : sum ≡ sum' = cc in sym e ∙ sym (+ℤ-zero sum)), tt)
  sum_deposits-total (d ∷ deposits) sum sum' env env' h =
      elim (Option-cases (checked_add sum d.amount)) [
        | inl overflow ↦ absurd (ground (arith, overflow))
        | inr (sum1, added) ↦
            let rest : sum_deposits host deposits sum1 env ≡ ok sum' env' = ground (arith, added) in
            let signed : env.auth d.from ≡ true = ground (arith, added) in
            let positive : leb_ℤ d.amount (pos 0) ≡ false = ground (arith, added) in
            let bounded : ltb_ℤ max_vault_deposit d.amount ≡ false = ground (arith, added) in
            let (same, is, all) = sum_deposits-total deposits sum1 sum' env env' rest in
            let first = checked_add-some sum d.amount sum1 added in
            (
              same,
              rw (is, first) (+ℤ-assoc sum d.amount (total deposits)),
              (
                signed,
                leb_ℤ-false d.amount (pos 0) positive,
                ltb_ℤ-false max_vault_deposit d.amount bounded,
                all,
              ),
            )
      ]

  receive_all_frame :
      (tk : Address) (deposits : List DepositSpec) (env env' : VaultEnv host.Tokens)
      → receive_all host tk deposits env ≡ ok tt env'
      → env' ≡ record env { tokens = env'.tokens; published = env'.published }
  unfolding receive_all Events.deposited
  receive_all_frame tk [] env env' h = ground arith
  receive_all_frame tk (d ∷ deposits) env env' h =
      elim (Option-cases (host.transfer tk d.from env.self d.amount env.tokens)) [
        | inl failed ↦ absurd (ground (arith, failed))
        | inr (t, moved) ↦ elim (Option-cases (host.balance tk env.self t)) [
          | inl failed ↦ absurd (ground (arith, moved, failed))
          | inr (b, reads) ↦
              let mid : VaultEnv host.Tokens = record env {
                tokens = t;
                published = deposited d.from d.amount b ∷ env.published;
              } in
              let rest : receive_all host tk deposits mid ≡ ok tt env' =
                ground (arith, moved, reads) in
              receive_all_frame tk deposits mid env' rest
        ]
      ]

  -- What the checks have established.
  pub record Accepts (deposits : List DepositSpec) (before max : ℤ) (env : VaultEnv host.Tokens)
      : Type 0 where
    pub running : halted env ≡ false
    pub not_empty : deposits ≢ []
    pub each : AllSigned env.auth deposits
    pub fits : before +ℤ total deposits ≤ℤ max

  admit_batch_deposit-sum :
      (deposits : List DepositSpec) (r : Room) (env env' : VaultEnv host.Tokens)
      → admit_batch_deposit host deposits env ≡ ok r env'
      → AllSigned env.auth deposits
        × (sum_deposits host deposits (pos 0) (refreshed env) ≡ ok (total deposits) (refreshed env))
  unfolding admit_batch_deposit
  admit_batch_deposit-sum deposits r env env' h =
      go (sum_deposits host deposits (pos 0) (refreshed env)) refl
    where
      go :
          (o : Outcome (VaultEnv host.Tokens) Error ℤ)
          → sum_deposits host deposits (pos 0) (refreshed env) ≡ o
          → AllSigned env.auth deposits
            × (sum_deposits host deposits (pos 0) (refreshed env)
                ≡ ok (total deposits) (refreshed env))
      go (ok sum mid) e =
          let (same, is, all) = sum_deposits-total deposits (pos 0) sum (refreshed env) mid e in
          (all, e ∙ rw (same, is, zero-+ℤ (total deposits)))
      go (err x mid) e = absurd (ground (arith, e))
      go (trap t) e = absurd (ground (arith, e))

  admit_batch_deposit-Accepts :
      (token : Address) (deposits : List DepositSpec) (before max : ℤ) (r : Room)
      (env env' : VaultEnv host.Tokens)
      → env.store.max_limit ≡ some max
      → Reports host token before env
      → admit_batch_deposit host deposits env ≡ ok r env'
      → Accepts deposits before max env
        × (env' ≡ refreshed env)
        × (r.expected_balance ≡ before +ℤ total deposits)
  unfolding admit_batch_deposit ltb_ℤ
  admit_batch_deposit-Accepts token deposits before max r env env' m b h =
      let (each, sums) = admit_batch_deposit-sum deposits r env env' h in
      elim (Option-cases (checked_add before (total deposits))) [
        | inl overflow ↦ absurd (ground (arith, sums, overflow))
        | inr (sum, adds) ↦
            let is = checked_add-some before (total deposits) sum adds in
            ground (arith, sums, each, rw is at adds)
      ]

  check_received-Reports :
      (tk : Address) (r : Room) (env env' : VaultEnv host.Tokens)
      → check_received host tk r env ≡ ok tt env'
      → (host.balance tk env'.self env'.tokens ≡ some r.expected_balance)
        × (env'.self ≡ env.self)
        × (env'.store ≡ record env.store { balance_snapshot = env'.store.balance_snapshot })
  unfolding check_received
  check_received-Reports tk r env env' h =
      elim (Option-cases (host.balance tk env.self env.tokens)) [
        | inl failed ↦ absurd (ground (arith, failed))
        | inr (b, reads) ↦
            let agree : eqb_ℤ b r.expected_balance ≡ true = ground (arith, reads) in
            let is = eqb_ℤ-true b r.expected_balance agree in ground (arith, reads, is)
      ]

  token_client-token :
      (tk token : Address) (env env' : VaultEnv host.Tokens)
      → env.store.token ≡ some token
      → token_client host env ≡ ok tk env'
      → (tk ≡ token) × (env' ≡ env)
  unfolding token_client
  token_client-token tk token env env' t h = ground arith

  -- What a successful batch has done.
  pub record Receives (token : Address) (deposits : List DepositSpec) (before max : ℤ)
      (env env' : VaultEnv host.Tokens) : Type 0 where
    pub accepts : Accepts deposits before max env
    pub unlocked : unwrap_or env.store.reentrancy_lock false ≡ false
    pub lock_free : env'.store.reentrancy_lock ≡ none
    pub reports : Reports host token (before +ℤ total deposits) env'
    pub same_limit : env'.store.max_limit ≡ env.store.max_limit
    pub same_owner : env'.store.owner ≡ env.store.owner
    pub same_accounts : env'.store.token_account_balance ≡ env.store.token_account_balance

  -- On any token contract: a successful `batch_deposit` into a vault with this limit, whose token
  -- reports the balance `before`, is not empty and finds the vault neither paused nor locked. Each
  -- deposit is signed by its depositor, positive and at most 10^30, and `before` with the total is
  -- within the limit. The token then reports exactly that sum. No account's balance changes.
  pub batch_deposit-Receives :
      (token : Address) (deposits : List DepositSpec) (before max : ℤ)
      (env env' : VaultEnv host.Tokens)
      → env.store.max_limit ≡ some max
      → Reports host token before env
      → batch_deposit host deposits env ≡ ok tt env'
      → Receives token deposits before max env env'
  unfolding batch_deposit batch_deposit_body
  batch_deposit-Receives token deposits before max env env' m b h =
      let (mid, free, ran, left) =
        non_reentrant-ok (batch_deposit_body host deposits) tt env env' h in
      let (r, env1, first, rest) =
        >>=-eq-ok (admit_batch_deposit host deposits)
          (λ r.
            token_client host >>= λ tk. receive_all host tk deposits >> check_received host tk r)
          (entered env) ran in
      let (accepts, at, expected) =
        admit_batch_deposit-Accepts token deposits before max r (entered env) env1 m b first in
      let (tk, env2, second, rest') =
        >>=-eq-ok (token_client host)
          (λ tk. receive_all host tk deposits >> check_received host tk r) env1 rest in
      let (is, same) = token_client-token tk token env1 env2 (rw at b.0) second in
      let (u, env3, third, last) =
        >>=-eq-ok (receive_all host tk deposits) (λ u. check_received host tk r) env2 rest' in
      let frame = receive_all_frame tk deposits env2 env3 third in
      let (reports, self, store) = check_received-Reports tk r env3 mid last in
      let known : mid.store ≡ record (refreshed (entered env)).store {
        balance_snapshot = mid.store.balance_snapshot;
      } =
        store ∙ rw (frame, same, at) in
      record {
        accepts = record {
          running = accepts.running;
          not_empty = accepts.not_empty;
          each = accepts.each;
          fits = accepts.fits;
        };
        unlocked = free;
        lock_free = rw left;
        reports = rw left (rw known b.0, rw (sym is) (reports ∙ rw expected));
        same_limit = rw left (rw known);
        same_owner = rw left (rw known);
        same_accounts = rw left (rw known);
      }

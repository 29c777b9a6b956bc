-- ===== src/Vault/Withdraw/Payment.antt =====
-- The two loops of withdraw_payouts: the sum of the payouts, and the payments.
use stream_fi_contracts.Prelude.{
  ◌≡◌, sym, ◌∙◌, inl, inr, ap, Bool, true, false, Option-cases, some, [], ◌∷◌, arith,
}
use stream_fi_contracts.Prelude.Int.{
  ℤ, pos, leb_ℤ, eqb_ℤ, checked_add, checked_sub, ◌+ℤ◌, ◌-ℤ◌, ◌<ℤ◌, ◌≤ℤ◌, +ℤ_parts, leb_ℤ-false,
  eqb_ℤ-true, checked_add-some, +ℤ-zero, -ℤ-zero, +ℤ-assoc, -ℤ--ℤ, checked_sub-some,
}
use stream_fi_contracts.Prelude.Effect.{ok, >>=-eq-ok}
use stream_fi_contracts.Host.{Host, Address}
use stream_fi_contracts.Vault.Types.{VaultEnv}
use stream_fi_contracts.Vault.Withdraw.{Payouts, sum_payouts, pay, pay_all}

abbrev pub total : Payouts → ℤ
total [] = pos 0
total ((to, amount) ∷ payouts) = amount +ℤ total payouts

abbrev pub AllPositive : Payouts → Type 0
AllPositive [] = Unit
AllPositive ((to, amount) ∷ payouts) = (pos 0 <ℤ amount) × AllPositive payouts

pub total_nonneg : (payouts : Payouts) → AllPositive payouts → pos 0 ≤ℤ total payouts
total_nonneg [] p = omega arith
total_nonneg ((to, amount) ∷ payouts) (here, rest) =
    let rest' = total_nonneg payouts rest in
    let parts = +ℤ_parts amount (total payouts) in omega (arith, rest', parts)

pub sum_payouts-total :
    {T : Type 0} (payouts : Payouts) (sum sum' : ℤ) (env env' : VaultEnv T)
    → sum_payouts payouts sum env ≡ ok sum' env'
    → (env' ≡ env) × (sum' ≡ sum +ℤ total payouts) × AllPositive payouts
unfolding sum_payouts
sum_payouts-total [] sum sum' env env' h =
    (cc, (let e : sum ≡ sum' = cc in sym e ∙ sym (+ℤ-zero sum)), tt)
sum_payouts-total ((to, amount) ∷ payouts) sum sum' env env' h =
    elim (Option-cases (checked_add sum amount)) [
      | inl overflow ↦ absurd (ground (arith, overflow))
      | inr (sum1, added) ↦
          let rest : sum_payouts payouts sum1 env ≡ ok sum' env' = ground (arith, added) in
          let positive : leb_ℤ amount (pos 0) ≡ false = ground (arith, added) in
          let (same, is, all) = sum_payouts-total payouts sum1 sum' env env' rest in
          let first = checked_add-some sum amount sum1 added in
          (
            same,
            rw (is, first) (+ℤ-assoc sum amount (total payouts)),
            (leb_ℤ-false amount (pos 0) positive, all),
          )
    ]

module _ (host : Host) where
  -- The vault's default token and the balance that it reports.
  abbrev pub Reports : Address → ℤ → VaultEnv host.Tokens → Type 0
  Reports token held env =
      (env.store.token ≡ some token) × (host.balance token env.self env.tokens ≡ some held)

  -- What the payments leave as it was.
  abbrev pub SameBut : VaultEnv host.Tokens → VaultEnv host.Tokens → Type 0
  SameBut env env' = env' ≡ record env {
    store = record env.store { balance_snapshot = env'.store.balance_snapshot };
    tokens = env'.tokens;
    published = env'.published;
  }

  pub pay-Reports :
      (token caller : Address) (by_operator : Bool) (payout : Address × ℤ) (held held' : ℤ)
      (env env' : VaultEnv host.Tokens)
      → env.store.token ≡ some token
      → pay host token caller by_operator payout held env ≡ ok held' env'
      → (held' ≡ held -ℤ payout.1) × Reports token held' env' × SameBut env env'
  unfolding pay
  pay-Reports token caller by_operator (to, amount) held held' env env' e h =
      elim (Option-cases (checked_sub held amount)) [
        | inl overflow ↦ absurd (ground (arith, overflow))
        | inr (expected, less) ↦ elim (Option-cases (host.balance token env.self env'.tokens)) [
          | inl failed ↦ absurd (ground (arith, less, failed))
          | inr (b, reads) ↦
              let agrees : eqb_ℤ b expected ≡ true = ground (arith, less, reads) in
              let is : held' ≡ expected = ground (arith, less) in
              let same : SameBut env env' = ground (arith, less) in
              let kept : env'.self ≡ env.self = rw same in
              let token_kept : env'.store.token ≡ some token = rw same e in
              (
                is ∙ checked_sub-some held amount expected less,
                (token_kept, rw kept (reads ∙ ap some (eqb_ℤ-true b expected agrees ∙ sym is))),
                same,
              )
        ]
      ]

  pub pay_all-Reports :
      (token caller : Address) (by_operator : Bool) (payouts : Payouts) (held held' : ℤ)
      (env env' : VaultEnv host.Tokens)
      → Reports token held env
      → pay_all host token caller by_operator payouts held env ≡ ok held' env'
      → (held' ≡ held -ℤ total payouts) × Reports token held' env' × SameBut env env'
  unfolding pay_all
  pay_all-Reports token caller by_operator [] held held' env env' r h =
      let e : env ≡ env' = cc in
      let is : held ≡ held' = cc in (sym is ∙ sym (-ℤ-zero held), rw (sym e, sym is) r, rw (sym e))
  pay_all-Reports token caller by_operator (payout ∷ payouts) held held' env env' r h =
      let (mid_held, mid, first, rest) =
        >>=-eq-ok (pay host token caller by_operator payout held)
          (λ balance'. pay_all host token caller by_operator payouts balance') env h in
      let (is, reports, same) =
        pay-Reports token caller by_operator payout held mid_held env mid r.0 first in
      let (is', reports', same') =
        pay_all-Reports token caller by_operator payouts mid_held held' mid env' reports rest in
      (rw (is', is) (-ℤ--ℤ held payout.1 (total payouts)), reports', ground arith)

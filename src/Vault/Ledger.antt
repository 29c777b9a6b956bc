-- ===== src/Vault/Ledger.antt =====
-- The vault as a ledger of two numbers, its balance and its limit, and that the contract implements
-- it on any token.
use stream_fi_contracts.Prelude.{
  ◌≡◌, sym, refl, ◌∙◌, inl, inr, Option-cases, true, Option, none, some, List, [], ◌∷◌, arith,
  if◌then◌else◌, ◌&&◌,
}
use stream_fi_contracts.Prelude.Int.{ℤ, pos, leb_ℤ, ◌+ℤ◌, ◌-ℤ◌, ◌≤ℤ◌, +ℤ-zero, -ℤ_parts}
use stream_fi_contracts.Prelude.Effect.{ok, >>=-eq-ok}
use stream_fi_contracts.Host.{Host, Address}
use stream_fi_contracts.Vault.Types.{VaultEnv}
use stream_fi_contracts.Vault.Calls.{
  Call, deposit, deposit_with_fee, batch_deposit, withdraw, withdraw_batch, set_limit, Context, run,
  run_all, entering,
}
use stream_fi_contracts.Vault.Withdraw.Payment.{Reports, total_nonneg}
use stream_fi_contracts.Vault.Withdraw.Payment
use stream_fi_contracts.Vault.Withdraw.Conservation.{withdraw_payouts-PaysOut}
use stream_fi_contracts.Vault.Withdraw.{Payouts, withdraw_payouts}
use stream_fi_contracts.Vault.Withdraw
use stream_fi_contracts.Vault.Deposit.Receipt.{deposit-Receives}
use stream_fi_contracts.Vault.Deposit.Fee.{deposit_with_fee-Receives}
use stream_fi_contracts.Vault.Deposit.Batch.{batch_deposit-Receives}
use stream_fi_contracts.Vault.Deposit.Batch
use stream_fi_contracts.Vault.Owner.Limit.{set_limit_bounds}

pub record Ledger : Type 0 where
  pub balance : ℤ
  pub limit : ℤ

-- Putting an amount in, within the limit, and taking one out, within the balance.
abbrev pub put : ℤ → Ledger → Option Ledger
put amount l =
    if leb_ℤ (l.balance +ℤ amount) l.limit
    then some (record l { balance = l.balance +ℤ amount })
    else none

abbrev pub take : ℤ → Ledger → Option Ledger
take amount l =
    if leb_ℤ (pos 0) amount && leb_ℤ amount l.balance
    then some (record l { balance = l.balance -ℤ amount })
    else none

abbrev pub rebound : ℤ → Ledger → Option Ledger
rebound limit l = if leb_ℤ l.balance limit then some (record l { limit = limit }) else none

-- What a call asks of the ledger.
abbrev pub apply : Call → Ledger → Option Ledger
apply (deposit from amount) = put amount
apply (deposit_with_fee from gross fee) = put (gross -ℤ fee)
apply (batch_deposit deposits) = put (Batch.total deposits)
apply (withdraw caller to amount) = take amount
apply (withdraw_batch caller payouts) = take (Payment.total payouts)
apply (set_limit caller limit) = rebound limit

abbrev and_then : Option Ledger → (Ledger → Option Ledger) → Option Ledger
and_then none f = none
and_then (some l) f = f l

abbrev pub apply_all : List (Context × Call) → Ledger → Option Ledger
apply_all [] l = some l
apply_all ((context, call) ∷ calls) l = and_then (apply call l) (apply_all calls)

le_leb : (a b : ℤ) → a ≤ℤ b → leb_ℤ a b ≡ true
unfolding leb_ℤ
le_leb a b h = ground arith

put-some :
    (amount : ℤ) (l : Ledger)
    → l.balance +ℤ amount ≤ℤ l.limit
    → put amount l ≡ some (record l { balance = l.balance +ℤ amount })
put-some amount l h = rw (le_leb (l.balance +ℤ amount) l.limit h)

take-some :
    (amount : ℤ) (l : Ledger)
    → pos 0 ≤ℤ amount
    → amount ≤ℤ l.balance
    → take amount l ≡ some (record l { balance = l.balance -ℤ amount })
take-some amount l p h = rw (le_leb (pos 0) amount p, le_leb amount l.balance h)

module _ (host : Host) where
  -- The ledger that a vault with this owner and token stands for.
  pub record Represents (owner token : Address) (env : VaultEnv host.Tokens) (l : Ledger)
      : Type 0 where
    pub owned : env.store.owner ≡ some owner
    pub limited : env.store.max_limit ≡ some l.limit
    pub holds : Reports host token l.balance env

  pays :
      (owner token caller : Address) (payouts : Payouts) (amount : ℤ) (l : Ledger)
      (env env' : VaultEnv host.Tokens)
      → Payment.total payouts ≡ amount
      → Represents owner token env l
      → withdraw_payouts host caller payouts env ≡ ok tt env'
      → (l' : Ledger) × (take amount l ≡ some l') × Represents owner token env' l'
  pays owner token caller payouts amount l env env' e r h =
      let p =
        withdraw_payouts-PaysOut host caller owner token payouts l.balance env env' r.owned r.holds
          h in
      (
        record l { balance = l.balance -ℤ amount },
        take-some amount l (rw (sym e) (total_nonneg payouts p.permits.positive))
            (rw (sym e) p.permits.covered),
        record {
          owned = p.same_owner ∙ r.owned;
          limited = p.same_limit ∙ r.limited;
          holds = rw (sym e) p.reports;
        },
      )

  -- One call.
  run-apply :
      (owner token : Address) (call : Call) (l : Ledger) (env env' : VaultEnv host.Tokens)
      → Represents owner token env l
      → run host call env ≡ ok tt env'
      → (l' : Ledger) × (apply call l ≡ some l') × Represents owner token env' l'
  unfolding run Withdraw.withdraw Withdraw.withdraw_batch
  run-apply owner token (deposit from amount) l env env' r h =
      let d =
        deposit-Receives host from owner token amount l.balance l.limit env env' r.owned r.limited
          r.holds h in
      (
        record l { balance = l.balance +ℤ amount },
        put-some amount l d.accepts.fits,
        record {
          owned = d.same_owner ∙ r.owned;
          limited = d.same_limit ∙ r.limited;
          holds = d.reports;
        },
      )
  run-apply owner token (deposit_with_fee from gross fee) l env env' r h =
      let (mid, a, b, c, d, same) =
        deposit_with_fee-Receives host from owner token gross fee l.balance l.limit env env' r.owned
          r.limited r.holds h in
      (
        record l { balance = l.balance +ℤ (gross -ℤ fee) },
        put-some (gross -ℤ fee) l d.accepts.fits,
        record {
          owned = rw same (d.same_owner ∙ r.owned);
          limited = rw same (d.same_limit ∙ r.limited);
          holds = rw same d.reports;
        },
      )
  run-apply owner token (batch_deposit deposits) l env env' r h =
      let d =
        batch_deposit-Receives host token deposits l.balance l.limit env env' r.limited r.holds h in
      (
        record l { balance = l.balance +ℤ Batch.total deposits },
        put-some (Batch.total deposits) l d.accepts.fits,
        record {
          owned = d.same_owner ∙ r.owned;
          limited = d.same_limit ∙ r.limited;
          holds = d.reports;
        },
      )
  run-apply owner token (withdraw caller to amount) l env env' r h =
      pays owner token caller ((to, amount) ∷ []) amount l env env' (+ℤ-zero amount) r h
  run-apply owner token (withdraw_batch caller payouts) l env env' r h =
      pays owner token caller payouts (Payment.total payouts) l env env' refl r h
  run-apply owner token (set_limit caller limit) l env env' r h =
      let (a, b, c, d, within, f, new, holds, g, kept) =
        set_limit_bounds host caller owner token limit l.limit l.balance env env' r.owned r.limited
          r.holds h in
      (
        record l { limit = limit },
        rw (le_leb l.balance limit within),
        record { owned = kept ∙ r.owned; limited = new; holds = holds },
      )

  -- On any token contract: where a sequence of calls of deposit, deposit_with_fee, batch_deposit,
  -- withdraw, withdraw_batch and set_limit, each with its own time and signatures, all
  -- succeed on a vault that stands for a ledger, the ledger takes the same calls, and the vault then
  -- stands for the ledger that results.
  pub run_all-apply_all :
      (owner token : Address) (calls : List (Context × Call)) (l : Ledger)
      (env env' : VaultEnv host.Tokens)
      → Represents owner token env l
      → run_all host calls env ≡ ok tt env'
      → (l' : Ledger) × (apply_all calls l ≡ some l') × Represents owner token env' l'
  unfolding run_all
  run_all-apply_all owner token [] l env env' r h =
      (l, refl, (let e : env ≡ env' = cc in rw (sym e) r))
  run_all-apply_all owner token ((context, call) ∷ calls) l env env' r h =
      let start = entering host context env in
      let (u, mid, first, rest) = >>=-eq-ok (run host call) (λ u. run_all host calls) start h in
      let (l1, applied, r1) =
        run-apply owner token call l start mid
          (record { owned = r.owned; limited = r.limited; holds = r.holds }) first in
      let (l2, applied', r2) = run_all-apply_all owner token calls l1 mid env' r1 rest in
      (l2, rw applied applied', r2)

rebound-within : (limit : ℤ) (l l' : Ledger) → rebound limit l ≡ some l' → l'.balance ≤ℤ l'.limit
unfolding leb_ℤ
rebound-within limit l l' h = ground arith

put-within : (amount : ℤ) (l l' : Ledger) → put amount l ≡ some l' → l'.balance ≤ℤ l'.limit
unfolding leb_ℤ
put-within amount l l' h = ground arith

take-within :
    (amount : ℤ) (l l' : Ledger)
    → l.balance ≤ℤ l.limit
    → take amount l ≡ some l'
    → l'.balance ≤ℤ l'.limit
unfolding leb_ℤ
take-within amount l l' w h = let parts = -ℤ_parts l.balance amount in ground (arith, parts)

apply-within :
    (call : Call) (l l' : Ledger)
    → l.balance ≤ℤ l.limit
    → apply call l ≡ some l'
    → l'.balance ≤ℤ l'.limit
apply-within (deposit from amount) l l' w h = put-within amount l l' h
apply-within (deposit_with_fee from gross fee) l l' w h = put-within (gross -ℤ fee) l l' h
apply-within (batch_deposit deposits) l l' w h = put-within (Batch.total deposits) l l' h
apply-within (withdraw caller to amount) l l' w h = take-within amount l l' w h
apply-within (withdraw_batch caller payouts) l l' w h = take-within (Payment.total payouts) l l' w h
apply-within (set_limit caller limit) l l' w h = rebound-within limit l l' h

apply_all-within :
    (calls : List (Context × Call)) (l l' : Ledger)
    → l.balance ≤ℤ l.limit
    → apply_all calls l ≡ some l'
    → l'.balance ≤ℤ l'.limit
apply_all-within [] l l' w h = let e : l ≡ l' = cc in rw (sym e) w
apply_all-within ((context, call) ∷ calls) l l' w h = elim (Option-cases (apply call l)) [
  | inl refused ↦ absurd (cc (rw refused at h))
  | inr (l1, applied) ↦
      apply_all-within calls l1 l' (apply-within call l l1 w applied) (rw applied at h)
]

module _ (host : Host) where
  -- On any token contract: a vault whose reported balance is within its limit is so again after every
  -- sequence of successful calls of deposit, deposit_with_fee, batch_deposit, withdraw,
  -- withdraw_batch and set_limit. It says nothing of other calls, such as deposit_token.
  pub run_all-within :
      (owner token : Address) (calls : List (Context × Call)) (l : Ledger)
      (env env' : VaultEnv host.Tokens)
      → Represents host owner token env l
      → l.balance ≤ℤ l.limit
      → run_all host calls env ≡ ok tt env'
      → (l' : Ledger) × Represents host owner token env' l' × (l'.balance ≤ℤ l'.limit)
  run_all-within owner token calls l env env' r w h =
      let (l', applied, r') = run_all-apply_all host owner token calls l env env' r h in
      (l', r', apply_all-within calls l l' w applied)

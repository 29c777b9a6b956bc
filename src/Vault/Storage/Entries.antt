-- ===== src/Vault/Storage/Entries.antt =====
-- What the keyed entries hold after a write, and what the accounts' writes leave as it was.
use stream_fi_contracts.Prelude.{◌≡◌, ◌≢◌, ◌⊎◌, Option, some, arith, ◌==◌, true, false}
use stream_fi_contracts.Prelude.Int.{ℤ, pos}
use stream_fi_contracts.Host.{Address}
use stream_fi_contracts.Contract.{insert, unwrap_or}
use stream_fi_contracts.Vault.Types.{Store}
use stream_fi_contracts.Vault.Storage.{insert_at}

pub ==_same : (a : Address) → (a == a) ≡ true
==_same a = ground arith

pub ==_different : (a b : Address) → a ≢ b → (a == b) ≡ false
==_different a b h = ground arith

pub insert-same :
    {A : Type 0} (key : Address) (value : A) (entries : Address → Option A)
    → insert key value entries key ≡ some value
unfolding insert
insert-same key value entries = rw (==_same key)

pub insert-other :
    {A : Type 0} (key key' : Address) (value : A) (entries : Address → Option A)
    → key' ≢ key
    → insert key value entries key' ≡ entries key'
unfolding insert
insert-other key key' value entries h = rw (==_different key' key h)

pub insert_at-same :
    (token account : Address) (value : ℤ) (entries : Address → Address → Option ℤ)
    → insert_at token account value entries token account ≡ some value
unfolding insert_at
insert_at-same token account value entries =
    rw (==_same token) (insert-same account value (entries token))

pub insert_at-other :
    (token account token' account' : Address) (value : ℤ) (entries : Address → Address → Option ℤ)
    → (token' ≢ token) ⊎ (account' ≢ account)
    → insert_at token account value entries token' account' ≡ entries token' account'
unfolding insert_at insert
insert_at-other token account token' account' value entries h = ground arith

-- What an account holds of a token.
abbrev pub account : Store → (token holder : Address) → ℤ
account s token holder = unwrap_or (s.token_account_balance token holder) (pos 0)

-- One account's balance is set, and no other's.
pub record Sets (token from : Address) (value : ℤ) (s s' : Store) : Type 0 where
  pub here : account s' token from ≡ value
  pub elsewhere :
      (token' account' : Address)
      → (token' ≢ token) ⊎ (account' ≢ from)
      → s'.token_account_balance token' account' ≡ s.token_account_balance token' account'

pub kept-Sets :
    (token from : Address) (s s' : Store)
    → s'.token_account_balance ≡ s.token_account_balance
    → Sets token from (account s token from) s s'
kept-Sets token from s s' e = record { here = rw e; elsewhere = λ token' account' h. rw e }

pub insert_at-Sets :
    (token from : Address) (value : ℤ) (s s' : Store)
    → s'.token_account_balance ≡ insert_at token from value s.token_account_balance
    → Sets token from value s s'
insert_at-Sets token from value s s' e = record {
  here = rw (e, insert_at-same token from value s.token_account_balance);
  elsewhere = λ token' account' h.
      rw e (insert_at-other token from token' account' value s.token_account_balance h);
}

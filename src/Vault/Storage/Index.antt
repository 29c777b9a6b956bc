-- ===== src/Vault/Storage/Index.antt =====
-- The index of persistent keys: that it misses none, through every write of such a key.
use stream_fi_contracts.Prelude.{
  ◌≡◌, ◌≢◌, ◌⊎◌, sym, ◌∙◌, ap, inl, inr, true, false, Option, List, [], ◌∷◌, ◌++◌, arith,
  Bool-cases,
}
use stream_fi_contracts.Prelude.Int.{ℤ}
use stream_fi_contracts.Prelude.Effect.{ok}
use stream_fi_contracts.Host.{Address}
use stream_fi_contracts.Contract.{insert, unwrap_or, is_set}
use stream_fi_contracts.Vault.Types.{VaultKey, account_balance, eqb_key, Store, VaultEnv}
use stream_fi_contracts.Vault.Storage.{
  contains, tracked, has, insert_at, set_token_account_balance, set_token_max_limit,
}
use stream_fi_contracts.Vault.Storage.Entries.{==_same, insert-other, insert_at-other}

-- Every key that has an entry is in the index.
abbrev pub IsIndexed : Store → Type 0
IsIndexed s =
    (key : VaultKey) → has s key ≡ true → contains key (unwrap_or s.tracked_vault_keys []) ≡ true

eqb_key_same : (key : VaultKey) → eqb_key key key ≡ true
unfolding eqb_key
eqb_key_same (account_balance token account) = rw (==_same token, ==_same account)
eqb_key_same (VaultKey.max_limit token) = ==_same token

pub eqb_key-true : (key key' : VaultKey) → eqb_key key key' ≡ true → key ≡ key'
unfolding eqb_key
eqb_key-true (account_balance token account) (account_balance token' account') h = ground arith
eqb_key-true (VaultKey.max_limit token) (VaultKey.max_limit token') h = ground arith
eqb_key-true (account_balance token account) (VaultKey.max_limit token') h = absurd cc
eqb_key-true (VaultKey.max_limit token) (account_balance token' account') h = absurd cc

contains-last : (key : VaultKey) (keys : List VaultKey) → contains key (keys ++ (key ∷ [])) ≡ true
unfolding contains
contains-last key [] = rw (eqb_key_same key)
contains-last key (k ∷ keys) = let rest = contains-last key keys in ground (arith, rest)

contains-longer :
    (key new : VaultKey) (keys : List VaultKey)
    → contains key keys ≡ true
    → contains key (keys ++ (new ∷ [])) ≡ true
unfolding contains
contains-longer key new [] h = absurd cc
contains-longer key new (k ∷ keys) h = elim (Bool-cases (eqb_key key k)) [
  | inl same ↦ ground (arith, same)
  | inr other ↦
      let here : contains key keys ≡ true = ground (arith, other) in
      let rest = contains-longer key new keys here in ground (arith, rest)
]

contains-tracked :
    (key : VaultKey) (keys : Option (List VaultKey))
    → contains key (unwrap_or (tracked key keys) []) ≡ true
unfolding tracked
contains-tracked key keys = elim (Bool-cases (contains key (unwrap_or keys []))) [
  | inl known ↦ rw known known
  | inr new ↦ rw new (contains-last key (unwrap_or keys []))
]

tracked_keeps :
    (key new : VaultKey) (keys : Option (List VaultKey))
    → contains key (unwrap_or keys []) ≡ true
    → contains key (unwrap_or (tracked new keys) []) ≡ true
unfolding tracked
tracked_keeps key new keys h = elim (Bool-cases (contains new (unwrap_or keys []))) [
  | inl known ↦ rw known h
  | inr fresh ↦ rw fresh (contains-longer key new (unwrap_or keys []) h)
]

-- A store with one more entry, whose key is tracked.
adding-IsIndexed :
    (new : VaultKey) (s s' : Store)
    → IsIndexed s
    → s'.tracked_vault_keys ≡ tracked new s.tracked_vault_keys
    → ((key : VaultKey) → eqb_key key new ≡ false → has s' key ≡ has s key)
    → IsIndexed s'
adding-IsIndexed new s s' i t other key h = elim (Bool-cases (eqb_key key new)) [
  | inl same ↦
      let is = eqb_key-true key new same in rw (t, is) (contains-tracked new s.tracked_vault_keys)
  | inr different ↦
      rw t (tracked_keeps key new s.tracked_vault_keys (i key (sym (other key different) ∙ h)))
]

has_account :
    (token account : Address) (balance : ℤ) (s s' : Store)
    → s'.token_account_balance ≡ insert_at token account balance s.token_account_balance
    → s'.token_max_limit ≡ s.token_max_limit
    → (key : VaultKey) → eqb_key key (account_balance token account) ≡ false
    → has s' key ≡ has s key
unfolding has eqb_key
has_account token account balance s s' e m (account_balance token' account') d =
    let apart : (token' ≢ token) ⊎ (account' ≢ account) = ground arith in
    ap is_set (
      ap (λ f. f token' account') e
      ∙ insert_at-other token account token' account' balance s.token_account_balance apart)
has_account token account balance s s' e m (VaultKey.max_limit token') d =
    ap is_set (ap (λ f. f token') m)

has_limit :
    (token : Address) (limit : ℤ) (s s' : Store)
    → s'.token_max_limit ≡ insert token limit s.token_max_limit
    → s'.token_account_balance ≡ s.token_account_balance
    → (key : VaultKey) → eqb_key key (VaultKey.max_limit token) ≡ false
    → has s' key ≡ has s key
unfolding has eqb_key
has_limit token limit s s' e m (account_balance token' account') d =
    ap is_set (ap (λ f. f token' account') m)
has_limit token limit s s' e m (VaultKey.max_limit token') d =
    let apart : token' ≢ token = ground arith in
    ap is_set (ap (λ f. f token') e ∙ insert-other token token' limit s.token_max_limit apart)

module _ {T : Type 0} where
  -- Writing an account's balance keeps the index complete.
  pub set_token_account_balance-IsIndexed :
      (token account : Address) (balance : ℤ) (env env' : VaultEnv T)
      → IsIndexed env.store
      → set_token_account_balance token account balance env ≡ ok tt env'
      → IsIndexed env'.store
  unfolding set_token_account_balance
  set_token_account_balance-IsIndexed token account balance env env' i h =
      adding-IsIndexed (account_balance token account) env.store env'.store i (ground arith)
        (has_account token account balance env.store env'.store (ground arith) (ground arith))

  -- Writing a token's limit keeps the index complete.
  pub set_token_max_limit-IsIndexed :
      (token : Address) (limit : ℤ) (env env' : VaultEnv T)
      → IsIndexed env.store
      → set_token_max_limit token limit env ≡ ok tt env'
      → IsIndexed env'.store
  unfolding set_token_max_limit
  set_token_max_limit-IsIndexed token limit env env' i h =
      adding-IsIndexed (VaultKey.max_limit token) env.store env'.store i (ground arith)
        (has_limit token limit env.store env'.store (ground arith) (ground arith))

-- ===== src/Vault/Storage.antt =====
-- contracts/token-vault/src/storage.rs and ttl.rs: the keyed entries, the index of persistent keys,
-- the snapshot of the balance, and the renewals.
pub mod Entries
pub mod Index
pub mod Snapshot
use stream_fi_contracts.Prelude.{
  ℕ, Bool, true, false, ◌||◌, Option, none, some, List, [], ◌∷◌, ◌++◌, ◌==◌, if◌then◌else◌,
}
use stream_fi_contracts.Prelude.Int.{ℤ, pos, eqb_ℤ, checked_add_u32}
use stream_fi_contracts.Prelude.Effect.{ok, pure, when, or_trap, ◌>>=◌, ◌>>◌}
use stream_fi_contracts.Host.{Address}
use stream_fi_contracts.Common.Ttl.{min_ttl_ledgers, extend_ttl_ledgers}
use stream_fi_contracts.Contract.{
  insert, instance_ttl, persistent_ttl, with_store, stored, store, renew, unwrap_or, is_set,
}
use stream_fi_contracts.Vault.Types.{
  VaultKey, account_balance, eqb_key, VaultBalanceSnapshot, Store, Act,
}

unfoldable pub insert_at :
    Address → Address → ℤ → (Address → Address → Option ℤ) → Address → Address → Option ℤ
unfolding insert
insert_at token account value entries token' =
    if token' == token then insert account value (entries token') else entries token'

unfoldable pub contains : VaultKey → List VaultKey → Bool
unfolding eqb_key
contains key [] = false
contains key (k ∷ keys) = eqb_key key k || contains key keys

-- The index after `track_vault_key`.
unfoldable pub tracked : VaultKey → Option (List VaultKey) → Option (List VaultKey)
unfolding contains
tracked key keys =
    if contains key (unwrap_or keys []) then keys else some (unwrap_or keys [] ++ (key ∷ []))

unfoldable pub has : Store → VaultKey → Bool
has s (account_balance token account) = is_set (s.token_account_balance token account)
has s (VaultKey.max_limit token) = is_set (s.token_max_limit token)

-- A snapshot of an earlier ledger says nothing.
abbrev pub agrees : ℕ → Option VaultBalanceSnapshot → ℤ → Bool
agrees sequence none balance = true
agrees sequence (some snapshot) balance =
    if snapshot.ledger == sequence then eqb_ℤ snapshot.expected_balance balance else true

module _ {T : Type 0} where
  unfoldable pub bump_instance : Act T (Unit {0})
  bump_instance = renew (instance_ttl min_ttl_ledgers extend_ttl_ledgers)

  unfoldable pub bump_persistent : VaultKey → Act T (Unit {0})
  bump_persistent key = renew (persistent_ttl key min_ttl_ledgers extend_ttl_ledgers)

  unfoldable pub track_vault_key : VaultKey → Act T (Unit {0})
  unfolding tracked
  track_vault_key key =
      store (λ s. record s { tracked_vault_keys = tracked key s.tracked_vault_keys })

  unfoldable pub get_token_account_balance : Address → Address → Act T ℤ
  get_token_account_balance token account =
      stored λ s. unwrap_or (s.token_account_balance token account) (pos 0)

  unfoldable pub set_token_account_balance : Address → Address → ℤ → Act T (Unit {0})
  unfolding insert_at bump_persistent track_vault_key
  set_token_account_balance token account balance = do
    store λ s. record s {
      token_account_balance = insert_at token account balance s.token_account_balance;
    }
    bump_persistent (account_balance token account)
    track_vault_key (account_balance token account)

  unfoldable pub set_token_max_limit : Address → ℤ → Act T (Unit {0})
  unfolding insert bump_persistent track_vault_key
  set_token_max_limit token limit = do
    store λ s. record s { token_max_limit = insert token limit s.token_max_limit }
    bump_persistent (VaultKey.max_limit token)
    track_vault_key (VaultKey.max_limit token)

  unfoldable pub is_token_approved : Address → Act T Bool
  is_token_approved token = stored λ s. unwrap_or (s.approved_token token) false

  unfoldable pub set_token_approved : Address → Bool → Act T (Unit {0})
  unfolding insert
  set_token_approved token allowed =
      store λ s. record s { approved_token = insert token allowed s.approved_token }

  unfoldable pub check_vault_balance : Address → ℤ → Act T Bool
  check_vault_balance token balance env =
      ok (agrees env.sequence (env.store.balance_snapshot token) balance) env

  unfoldable pub record_vault_balance : Address → ℤ → Act T (Unit {0})
  unfolding insert
  record_vault_balance token balance env = ok tt (
      with_store env (record env.store {
        balance_snapshot =
            insert token (record { ledger = env.sequence; expected_balance = balance })
              env.store.balance_snapshot;
      }))

  -- `refreshed += 1` on a u32 for a live key, which traps on overflow.
  unfoldable pub counted : Bool → ℕ → Act T ℕ
  unfolding checked_add_u32
  counted true refreshed = or_trap (checked_add_u32 refreshed 1)
  counted false refreshed = pure refreshed

  -- The loop of `bump_all_vault_keys` from `refreshed` on.
  unfoldable pub bump_keys : List VaultKey → ℕ → Act T ℕ
  unfolding has bump_persistent counted
  bump_keys [] refreshed = pure refreshed
  bump_keys (key ∷ keys) refreshed = do
    live ← stored (λ s. has s key)
    when live (bump_persistent key)
    count ← counted live refreshed
    bump_keys keys count

  unfoldable pub bump_tracked_keys : Act T ℕ
  unfolding bump_keys
  bump_tracked_keys = do keys ← stored (λ s. unwrap_or s.tracked_vault_keys []); bump_keys keys 0

-- ===== src/Vault/Access/Guard.antt =====
-- What a caller of the guard, the pause gate and the role checks of the vault may rely on.
use stream_fi_contracts.Prelude.{◌≡◌, refl, ◌⊎◌, Bool, true, false, Option, some, arith}
use stream_fi_contracts.Prelude.Int.{ℤ}
use stream_fi_contracts.Prelude.Effect.{Outcome, ok, err, trap}
use stream_fi_contracts.Host.{Address}
use stream_fi_contracts.Common.Pause
use stream_fi_contracts.Contract.{with_store, unwrap_or}
use stream_fi_contracts.Vault.Types.{Error, reentrancy_detected, VaultEnv, Act}
use stream_fi_contracts.Vault.Access.{
  with_lock, non_reentrant, assert_not_paused, withdraw_cap, require_owner_or_operator,
}

-- Whether the vault is paused, and the state as the reading leaves it.
abbrev pub halted : {T : Type 0} → VaultEnv T → Bool
halted env = (Pause.is_paused env.now env.store.paused).0

abbrev pub refreshed : {T : Type 0} → VaultEnv T → VaultEnv T
refreshed env =
    with_store env (record env.store { paused = (Pause.is_paused env.now env.store.paused).1 })

-- The state in which a guarded body starts.
abbrev pub entered : {T : Type 0} → VaultEnv T → VaultEnv T
entered env = with_lock (some true) env

module _ {T A : Type 0} where
  -- A guarded call that succeeds ran its body once, with the lock taken, and left the lock free.
  pub non_reentrant-ok :
      (body : Act T A) (a : A) (env env' : VaultEnv T)
      → non_reentrant body env ≡ ok a env'
      → (mid : VaultEnv T) × (unwrap_or env.store.reentrancy_lock false ≡ false)
        × (body (entered env) ≡ ok a mid)
        × (env' ≡ with_lock Option.none mid)
  unfolding non_reentrant
  non_reentrant-ok body a env env' h = go (body (entered env)) refl
    where
      go :
          (r : Outcome (VaultEnv T) Error A)
          → body (entered env) ≡ r
          → (mid : VaultEnv T) × (unwrap_or env.store.reentrancy_lock false ≡ false)
            × (body (entered env) ≡ ok a mid)
            × (env' ≡ with_lock Option.none mid)
      go (ok b mid) e = (mid, ground arith, ground arith, ground arith)
      go (err x mid) e = absurd (ground arith)
      go (trap t) e = absurd (ground arith)

  pub non_reentrant-nested :
      (body : Act T A) (env : VaultEnv T)
      → env.store.reentrancy_lock ≡ some true
      → non_reentrant body env ≡ err reentrancy_detected env
  unfolding non_reentrant
  non_reentrant-nested body env h = ground arith

module _ {T : Type 0} where
  pub assert_not_paused-ok :
      (env env' : VaultEnv T)
      → assert_not_paused env ≡ ok tt env'
      → (halted env ≡ false) × (env' ≡ refreshed env)
  unfolding assert_not_paused
  assert_not_paused-ok env env' h = ground arith

  -- A caller with its cap: the owner without one but that of the type, the operator with its own.
  pub withdraw_cap-ok :
      (caller owner : Address) (cap : ℤ) (env env' : VaultEnv T)
      → withdraw_cap caller owner env ≡ ok cap env'
      → (env' ≡ env)
        × ((caller ≡ owner)
            ⊎ ((env.store.operator ≡ some caller) × (env.store.operator_withdraw_limit ≡ some cap)))
  unfolding withdraw_cap
  withdraw_cap-ok caller owner cap env env' h = ground arith

  pub require_owner_or_operator-ok :
      (caller owner : Address) (env env' : VaultEnv T)
      → require_owner_or_operator caller owner env ≡ ok tt env'
      → (env' ≡ env)
        × (env.auth caller ≡ true)
        × ((caller ≡ owner) ⊎ (env.store.operator ≡ some caller))
  unfolding require_owner_or_operator
  require_owner_or_operator-ok caller owner env env' h = ground arith

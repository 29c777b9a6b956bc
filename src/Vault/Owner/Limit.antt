-- ===== src/Vault/Owner/Limit.antt =====
-- Who may move the vault's limit, and where to.
use stream_fi_contracts.Prelude.{◌≡◌, ◌⊎◌, some, true, false, arith}
use stream_fi_contracts.Prelude.Int.{ℤ, pos, ltb_ℤ, leb_ℤ, ◌≤ℤ◌, ◌<ℤ◌}
use stream_fi_contracts.Prelude.Effect.{ok}
use stream_fi_contracts.Host.{Host, Address}
use stream_fi_contracts.Vault.Types.{VaultEnv}
use stream_fi_contracts.Vault.Events
use stream_fi_contracts.Vault.Storage.{bump_instance}
use stream_fi_contracts.Vault.Access.Guard.{halted}
use stream_fi_contracts.Vault.Withdraw.Payment.{Reports}
use stream_fi_contracts.Vault.Owner.{set_limit}

module _ (host : Host) where
  -- A successful `set_limit`, on a vault with this owner and limit whose token reports the balance
  -- `held`, was signed by its caller, the owner or the operator, while the vault was not paused. The
  -- new limit is positive and not below the balance; only the owner can have raised it. The balance,
  -- the operator's own cap and the owner are as before.
  pub set_limit_bounds :
      (caller owner token : Address) (new_limit old_limit held : ℤ)
      (env env' : VaultEnv host.Tokens)
      → env.store.owner ≡ some owner
      → env.store.max_limit ≡ some old_limit
      → Reports host token held env
      → set_limit host caller new_limit env ≡ ok tt env'
      → (env.auth caller ≡ true)
        × ((caller ≡ owner) ⊎ (env.store.operator ≡ some caller))
        × (halted env ≡ false)
        × (pos 0 <ℤ new_limit)
        × (held ≤ℤ new_limit)
        × (old_limit <ℤ new_limit → caller ≡ owner)
        × (env'.store.max_limit ≡ some new_limit)
        × Reports host token held env'
        × (env'.store.operator_withdraw_limit ≡ env.store.operator_withdraw_limit)
        × (env'.store.owner ≡ env.store.owner)
  unfolding set_limit ltb_ℤ leb_ℤ bump_instance Events.limit_set
  set_limit_bounds caller owner token new_limit old_limit held env env' o m b h = ground arith

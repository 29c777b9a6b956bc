-- ===== src/Vault/Owner/Handover.antt =====
-- The hand-over of the vault in two steps.
use stream_fi_contracts.Prelude.{ℕ, ◌≡◌, none, some, ◌∷◌, true, false}
use stream_fi_contracts.Host.{Host, Address}
use stream_fi_contracts.Common.Address.{is_zero_address}
use stream_fi_contracts.Common.Ttl.{min_ttl_ledgers, extend_ttl_ledgers}
use stream_fi_contracts.Contract.{instance_ttl, unwrap_or}
use stream_fi_contracts.Vault.Types.{VaultEnv, owner_accepted, owner_proposal_ttl_seconds}
use stream_fi_contracts.Vault.Events

-- How long a proposal is open.
abbrev pub proposal_ttl : {T : Type 0} → VaultEnv T → ℕ
proposal_ttl env = unwrap_or env.store.owner_proposal_ttl owner_proposal_ttl_seconds

-- The state after an acceptance.
abbrev pub handed : {T : Type 0} → (caller proposer : Address) → VaultEnv T → VaultEnv T
handed caller proposer env = record env {
  store = record env.store {
    owner = some caller;
    pending_owner = none;
    pending_owner_proposer = none;
    pending_owner_proposed_at = none;
  };
  renewals = instance_ttl min_ttl_ledgers extend_ttl_ledgers ∷ env.renewals;
  published = owner_accepted caller proposer ∷ env.published;
}

module _ (host : Host) where
  pub record Proposes (caller new_owner : Address) (env env' : VaultEnv host.Tokens) : Type 0 where
    pub by_owner : env.store.owner ≡ some caller
    pub signed : env.auth caller ≡ true
    pub not_zero : is_zero_address host new_owner ≡ false
    pub pending : env'.store.pending_owner ≡ some new_owner
    pub proposer : env'.store.pending_owner_proposer ≡ some caller
    pub at : env'.store.pending_owner_proposed_at ≡ some env.now
    pub same_ttl : env'.store.owner_proposal_ttl ≡ env.store.owner_proposal_ttl
    pub owner_still : env'.store.owner ≡ some caller

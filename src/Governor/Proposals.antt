-- ===== src/Governor/Proposals.antt =====
-- contracts/governor/src/lib.rs: proposals with a stake, their execution after a delay, and their
-- cancellation.
pub mod Execution
pub mod Cancellation
use stream_fi_contracts.Prelude.{
  ℕ, ◌+◌, ◌-◌, ◌*◌, ◌/◌, ◌%◌, Bool, true, false, not, ◌&&◌, ◌||◌, Option, none, some, ltb, ◌==◌,
  if◌then◌else◌,
}
use stream_fi_contracts.Prelude.Int.{ℤ, pos, ltb_ℤ, u64_mod, checked_add_u64, saturating_add_u64}
use stream_fi_contracts.Prelude.Effect.{ok, pure, raise_if, ok_or, or_trap, when, ◌>>=◌, ◌>>◌}
use stream_fi_contracts.Host.{Host, Address}
use stream_fi_contracts.Contract.{
  insert, stored, store, loaded, timestamp, current_contract_address, unwrap_or, transfer,
}
use stream_fi_contracts.Governor.Types.{
  not_authorized, invalid_param, proposal_not_found, proposal_expired, proposal_not_pending,
  timelock_not_met, quorum_not_met, proposal_stake_not_configured, ProposalStatus, pending,
  executed, cancelled, active, eqb_status, Proposal, VoteTallySnapshot, Store, GovernorEnv, Act,
  admin,
}
use stream_fi_contracts.Governor.Events
use stream_fi_contracts.Governor.Storage.{
  bump, add_proposal_to_status_index, set_proposal_status, get_abstain_votes, archive_vote_record,
  record_checkpoint,
}
use stream_fi_contracts.Governor.Roles.{require_role, require_role_or_admin, require_executor}
use stream_fi_contracts.Governor.Params.{load}

abbrev pub min_execution_delay : ℕ
min_execution_delay = 604800

-- Neither executed nor cancelled.
unfoldable pub is_open : Proposal → Bool
is_open p = eqb_status p.status pending || eqb_status p.status active

-- The token of the stake, where a positive stake is configured.
abbrev stake_token : Option Address → ℤ → Option Address
stake_token none min_stake = none
stake_token (some token) min_stake = if ltb_ℤ (pos 0) min_stake then some token else none

-- `(total_supply as u128 * min_quorum_bps as u128 / 10_000) as u64`
unfoldable pub quorum_threshold : ℕ → ℕ → ℕ
quorum_threshold total_supply min_quorum_bps = (total_supply * min_quorum_bps / 10000) % u64_mod

abbrev supply_of : Option VoteTallySnapshot → ℕ → ℕ
supply_of none supply = supply
supply_of (some s) supply = s.total_supply

abbrev remove : {A : Type 0} → ℕ → (ℕ → Option A) → ℕ → Option A
remove key entries key' = if key' == key then none else entries key'

module _ {T : Type 0} where
  unfoldable pub governance_supply : Act T ℕ
  governance_supply = stored λ s. unwrap_or s.governance_supply (unwrap_or s.admin_count 1)

  unfoldable pub checkpoint_balance : (caller voter : Address) → ℕ → Act T (Unit {0})
  unfolding require_role_or_admin bump record_checkpoint
  checkpoint_balance caller voter weight = do
    require_role_or_admin caller admin
    bump
    record_checkpoint voter weight

  unfoldable pub find_proposal : ℕ → Act T Proposal
  find_proposal proposal_id = loaded (λ s. s.proposal proposal_id) proposal_not_found

  -- The votes, against the threshold of the snapshot.
  unfoldable pub check_quorum : ℕ → Proposal → ℕ → Act T (Unit {0})
  unfolding governance_supply get_abstain_votes saturating_add_u64 quorum_threshold
  check_quorum proposal_id proposal min_quorum_bps = do
    supply ← governance_supply
    total_supply ← stored (λ s. supply_of (s.proposal_vote_snapshot proposal_id) supply)
    abstain ← get_abstain_votes proposal_id
    raise_if
        (ltb
          (saturating_add_u64 (saturating_add_u64 proposal.for_votes proposal.against_votes)
            abstain)
          (quorum_threshold total_supply min_quorum_bps))
        quorum_not_met

  -- No signature is asked for.
  unfoldable pub cancel_proposal : (caller : Address) → ℕ → Act T (Unit {0})
  unfolding bump find_proposal is_open archive_vote_record set_proposal_status
  cancel_proposal caller proposal_id = do
    bump
    proposal ← find_proposal proposal_id
    raise_if (not (caller == proposal.author)) not_authorized
    raise_if (not (is_open proposal)) proposal_not_pending
    archive_vote_record proposal_id proposal
    moved ← set_proposal_status proposal_id cancelled
    pure tt

  unfoldable pub cancel_proposal_by_admin :
      (caller : Address) → (proposal_id reason_hash : ℕ) → Act T (Unit {0})
  unfolding require_role bump find_proposal is_open archive_vote_record set_proposal_status
      Events.proposal_cancelled_by_admin
  cancel_proposal_by_admin caller proposal_id reason_hash = do
    require_role caller admin
    bump
    proposal ← find_proposal proposal_id
    raise_if (not (is_open proposal)) proposal_not_pending
    archive_vote_record proposal_id proposal
    moved ← set_proposal_status proposal_id cancelled
    Events.proposal_cancelled_by_admin caller proposal_id reason_hash

module _ (host : Host) where
  abbrev refund_of : Option ℤ → ℕ → Address → Act host.Tokens (Unit {0})
  refund_of none proposal_id author = pure tt
  refund_of (some amount) proposal_id author = do
    token ←
        loaded (λ s. s.proposal_stake_token_by_proposal proposal_id) proposal_stake_not_configured
    self ← current_contract_address
    transfer host token self author amount
    store λ s. record s { proposal_stake = remove proposal_id s.proposal_stake }
    store λ s. record s {
      proposal_stake_token_by_proposal = remove proposal_id s.proposal_stake_token_by_proposal;
    }

  unfoldable pub refund_proposal_stake : ℕ → Address → Act host.Tokens (Unit {0})
  refund_proposal_stake proposal_id author = do
    stake ← stored (λ s. s.proposal_stake proposal_id)
    refund_of stake proposal_id author

  -- The writes of `propose`, after the stake is in escrow.
  unfoldable pub open_proposal : Address → ℕ → Address → ℤ → Act host.Tokens ℕ
  unfolding governance_supply add_proposal_to_status_index insert
  open_proposal caller execution_window_secs token stake = do
    counter ← stored (λ s. unwrap_or s.proposal_counter 0)
    proposal_id ← or_trap (checked_add_u64 counter 1)
    total_supply ← governance_supply
    snapshot_ledger ← λ env. ok env.sequence env
    now ← timestamp
    store λ s. record s {
      proposal =
          insert proposal_id
            (record {
              author = caller;
              created_at = now;
              snapshot_ledger = snapshot_ledger;
              execution_window_secs = execution_window_secs;
              status = pending;
              for_votes = 0;
              against_votes = 0;
            })
            s.proposal;
      proposal_abstain_votes = insert proposal_id 0 s.proposal_abstain_votes;
      proposal_counter = some proposal_id;
      proposal_stake = insert proposal_id stake s.proposal_stake;
      proposal_stake_token_by_proposal =
          insert proposal_id token s.proposal_stake_token_by_proposal;
    }
    add_proposal_to_status_index proposal_id pending
    store λ s. record s {
      proposal_snapshot_ledger = insert proposal_id snapshot_ledger s.proposal_snapshot_ledger;
      proposal_vote_snapshot =
          insert proposal_id
            (record {
              proposal_id = proposal_id;
              snapshot_ledger = snapshot_ledger;
              for_votes = 0;
              against_votes = 0;
              total_supply = total_supply;
            })
            s.proposal_vote_snapshot;
    }
    pure proposal_id

  unfoldable pub propose : Address → ℕ → Act host.Tokens ℕ
  unfolding require_role load bump open_proposal
  propose caller execution_window_secs = do
    require_role caller admin
    raise_if (execution_window_secs == 0) invalid_param
    stake_config ← load
    token ←
        ok_or (stake_token stake_config.proposal_stake_token stake_config.min_proposal_stake)
          proposal_stake_not_configured
    self ← current_contract_address
    transfer host token caller self stake_config.min_proposal_stake
    bump
    open_proposal caller execution_window_secs token stake_config.min_proposal_stake

  -- The checks of `execute_proposal`, which give the proposal.
  unfoldable pub admit_execution : Address → ℕ → Act host.Tokens Proposal
  unfolding require_executor bump find_proposal is_open load saturating_add_u64 check_quorum
  admit_execution caller proposal_id = do
    require_executor caller
    bump
    proposal ← find_proposal proposal_id
    raise_if (not (is_open proposal)) proposal_not_pending
    now ← timestamp
    raise_if (ltb (now - proposal.created_at) min_execution_delay) timelock_not_met
    raise_if
        (ltb (saturating_add_u64 proposal.execution_window_secs min_execution_delay)
          (now - proposal.created_at))
        proposal_expired
    config ← load
    when (ltb 0 config.min_quorum_bps) (check_quorum proposal_id proposal config.min_quorum_bps)
    pure proposal

  unfoldable pub execute_proposal : (executor : Address) → ℕ → Act host.Tokens (Unit {0})
  unfolding admit_execution refund_proposal_stake set_proposal_status
  execute_proposal executor proposal_id = do
    proposal ← admit_execution executor proposal_id
    refund_proposal_stake proposal_id proposal.author
    moved ← set_proposal_status proposal_id executed
    pure tt

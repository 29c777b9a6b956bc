-- ===== src/Governor/Types.antt =====
-- contracts/governor/src/errors.rs and storage.rs: error codes, the records under the storage keys,
-- and the storage key by key. ProposalExecutionBytecodeHash, which nothing reads or writes, has no
-- field.
use stream_fi_contracts.Prelude.{ℕ, Bool, Option, List, ◌==◌}
use stream_fi_contracts.Prelude.Int.{ℤ}
use stream_fi_contracts.Prelude.Effect.{Action}
use stream_fi_contracts.Host.{Address}
use stream_fi_contracts.Common.Pause.{PauseCell}
use stream_fi_contracts.Common.Rbac.{RoleAssignment}
use stream_fi_contracts.Contract.{Env}

pub data Error : Type 0 where
  not_authorized invalid_param already_initialized last_admin not_initialized : Error
  contract_paused already_paused not_paused factory_call_failed no_pending_authority : Error
  not_pending_authority invalid_wasm_hash proposal_not_found proposal_expired : Error
  proposal_not_pending timelock_not_met quorum_not_met already_voted : Error
  insufficient_voting_weight admin_transfer_already_in_progress : Error
  proposal_stake_not_configured : Error

pub data ProposalStatus : Type 0 where
  pending executed cancelled active defeated : ProposalStatus

pub data Role : Type 0 where
  admin fee_manager rate_manager pauser executor : Role

abbrev status_code : ProposalStatus → ℕ
status_code pending = 0
status_code executed = 1
status_code cancelled = 2
status_code active = 3
status_code defeated = 4

abbrev pub eqb_status : ProposalStatus → ProposalStatus → Bool
eqb_status a b = status_code a == status_code b

abbrev role_code : Role → ℕ
role_code admin = 0
role_code fee_manager = 1
role_code rate_manager = 2
role_code pauser = 3
role_code executor = 4

abbrev pub eqb_role : Role → Role → Bool
eqb_role a b = role_code a == role_code b

pub record BalanceCheckpoint : Type 0 where
  pub ledger : ℕ
  pub weight : ℕ

pub record VoteTallySnapshot : Type 0 where
  pub proposal_id : ℕ
  pub snapshot_ledger : ℕ
  pub for_votes : ℕ
  pub against_votes : ℕ
  pub total_supply : ℕ

pub record VoteRecord : Type 0 where
  pub for_votes : ℕ
  pub against_votes : ℕ
  pub abstain_votes : ℕ

pub record Proposal : Type 0 where
  pub author : Address
  pub created_at : ℕ
  pub snapshot_ledger : ℕ
  pub execution_window_secs : ℕ
  pub status : ProposalStatus
  pub for_votes : ℕ
  pub against_votes : ℕ

-- The keys of persistent entries.
pub data Key : Type 0 where
  vote_checkpoints : (account : Address) → Key
  vote_record : (proposal_id : ℕ) → Key

-- `none` under a key that is not set; a key with arguments is a function of them.
pub record Store : Type 0 where
  pub fee_bps : Option ℕ
  pub fee_recipient : Option Address
  pub min_duration_seconds : Option ℕ
  pub max_rate_per_second : Option ℤ
  pub max_duration_seconds : Option ℕ
  pub factory_address : Option Address
  pub force_cancel_pause_secs : Option ℕ
  pub role : Role → Address → Option RoleAssignment
  pub admin_count : Option ℕ
  pub paused : Option PauseCell
  pub role_members : Role → Option (List Address)
  pub pending_authority : Option Address
  pub pending_authority_proposer : Option Address
  pub proposal : ℕ → Option Proposal
  pub proposal_counter : Option ℕ
  pub min_quorum_bps : Option ℕ
  pub proposal_stake_token : Option Address
  pub min_proposal_stake : Option ℤ
  pub proposal_stake : ℕ → Option ℤ
  pub proposal_stake_token_by_proposal : ℕ → Option Address
  pub governance_supply : Option ℕ
  pub vote_checkpoints : Address → Option (List BalanceCheckpoint)
  pub checkpointing_enabled : Option Bool
  pub proposal_snapshot_ledger : ℕ → Option ℕ
  pub proposal_vote_snapshot : ℕ → Option VoteTallySnapshot
  pub voter_receipt : ℕ → Address → Option ℕ
  pub voting_period_ledgers : Option ℕ
  pub proposals_by_status : ProposalStatus → Option (List ℕ)
  pub vote_record : ℕ → Option VoteRecord
  pub proposal_abstain_votes : ℕ → Option ℕ

-- The events of events.rs, and the one that the role mechanics publish.
pub data Event : Type 0 where
  initialized : (authority fee_recipient factory_address : Address) → Event
  grant_role : (caller : Address) → Role → (account : Address) → Event
  revoke_role : (caller : Address) → Role → (account : Address) → Event
  rbac_revoked : (account : Address) → (revoked_at : ℕ) → Event
  transfer_authority : (caller new_authority : Address) → Event
  propose_authority : (caller new_authority : Address) → Event
  revoke_propose_authority : (caller pending_authority : Address) → Event
  accept_authority : (caller old_authority : Address) → Event
  set_fee_bps : (caller : Address) → (old_fee_bps new_fee_bps : ℕ) → Event
  set_fee_recipient : (caller old_recipient new_recipient : Address) → Event
  set_min_duration : (caller : Address) → (old_seconds new_seconds : ℕ) → Event
  set_max_rate : (caller : Address) → (old_max_rate new_max_rate : ℤ) → Event
  set_max_duration : (caller : Address) → (old_seconds new_seconds : ℕ) → Event
  set_force_cancel_pause_threshold : (caller : Address) → ℕ → Event
  paused : (caller : Address) → ℕ → Event
  unpaused : (caller : Address) → ℕ → Event
  upgraded : (caller : Address) → ℕ → Event
  set_min_quorum_bps : (caller : Address) → (old_min_quorum_bps new_min_quorum_bps : ℕ) → Event
  set_proposal_stake_config : (caller token : Address) → ℤ → Event
  proposal_cancelled_by_admin : (caller : Address) → (proposal_id reason_hash : ℕ) → Event

abbrev pub GovernorEnv : Type 0 → Type 0
GovernorEnv T = Env Store Key Event T

abbrev pub Act : Type 0 → Type 0 → Type 0
Act T A = Action (GovernorEnv T) Error A

-- ===== src/Tests/GovernorSamples.antt =====
-- A sample governor with one open proposal, and runs of the contract on it.
use stream_fi_contracts.Prelude.{true, false, none, some, [], ◌∷◌, List, ◌==◌, if◌then◌else◌, ◌||◌}
use stream_fi_contracts.Prelude.Int.{pos}
use stream_fi_contracts.Prelude.Effect.{commit}
use stream_fi_contracts.Host.{Address}
use stream_fi_contracts.Governor.Types.{
  Store, GovernorEnv, Proposal, BalanceCheckpoint, pending, eqb_status, eqb_role, admin,
}
use stream_fi_contracts.Governor.Types
use stream_fi_contracts.Governor.Roles.Calls.{run_role, grant_one}
use stream_fi_contracts.Governor.Params.Bounds.{set_param}
use stream_fi_contracts.Governor.Params.Bounds
use stream_fi_contracts.Governor.Storage.{record_checkpoint}
use stream_fi_contracts.Governor.Proposals.{execute_proposal, cancel_proposal}
use stream_fi_contracts.Tests.{Balances, test_host}

abbrev pub author : Address
author = 1

abbrev pub executor : Address
executor = 2

abbrev pub voter : Address
voter = 3

abbrev pub balances : Balances
balances = λ t holder. if holder == 5 then 300 else 0

abbrev pub proposal : Proposal
proposal = record {
  author = author;
  created_at = 1000;
  snapshot_ledger = 8;
  execution_window_secs = 86400;
  status = pending;
  for_votes = 4;
  against_votes = 0;
}

abbrev pub checkpoints : List BalanceCheckpoint
checkpoints = record { ledger = 4; weight = 6 } ∷ record { ledger = 9; weight = 2 } ∷ []

abbrev pub blank : Store
blank = record {
  fee_bps = some 30;
  fee_recipient = some 8;
  min_duration_seconds = none;
  max_rate_per_second = none;
  max_duration_seconds = none;
  factory_address = some 9;
  force_cancel_pause_secs = none;
  role = λ r a.
      if eqb_role r Types.executor
      then (if a == executor then some (record { expires_at = none }) else none)
      else if eqb_role r admin
      then (if a == author then some (record { expires_at = none }) else none)
      else none;
  admin_count = some 1;
  paused = none;
  role_members = λ r. if eqb_role r admin then some (author ∷ []) else none;
  pending_authority = none;
  pending_authority_proposer = none;
  proposal = λ id. if id == 1 then some proposal else none;
  proposal_counter = some 1;
  min_quorum_bps = some 5000;
  proposal_stake_token = some 7;
  min_proposal_stake = some (pos 50);
  proposal_stake = λ id. if id == 1 then some (pos 50) else none;
  proposal_stake_token_by_proposal = λ id. if id == 1 then some 7 else none;
  governance_supply = some 10;
  vote_checkpoints = λ a. if a == voter then some checkpoints else none;
  checkpointing_enabled = some true;
  proposal_snapshot_ledger = λ id. if id == 1 then some 8 else none;
  proposal_vote_snapshot = λ id. none;
  voter_receipt = λ id a. none;
  voting_period_ledgers = none;
  proposals_by_status = λ s. if eqb_status s pending then some (1 ∷ []) else none;
  vote_record = λ id. none;
  proposal_abstain_votes = λ id. if id == 1 then some 1 else none;
}

abbrev pub env : GovernorEnv Balances
env = record {
  now = 605800;
  sequence = 12;
  self = 5;
  auth = λ a. a == executor || a == author;
  store = blank;
  tokens = balances;
  published = [];
  renewals = [];
  wasm = none;
}

-- The same call without any signature.
abbrev pub unsigned : GovernorEnv Balances
unsigned = record env { auth = λ a. false }

abbrev pub done : GovernorEnv Balances
done = commit env (execute_proposal test_host executor 1 env)

abbrev pub dropped : GovernorEnv Balances
dropped = commit unsigned (cancel_proposal author 1 unsigned)

abbrev pub weighed : GovernorEnv Balances
weighed = commit env (record_checkpoint voter 11 env)

abbrev pub fee : GovernorEnv Balances
fee = commit env (set_param author (Bounds.min_duration 7200) env)

abbrev pub joined : GovernorEnv Balances
joined = commit env (run_role test_host author (grant_one admin voter) env)

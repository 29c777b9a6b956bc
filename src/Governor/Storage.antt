-- ===== src/Governor/Storage.antt =====
-- contracts/governor/src/storage.rs: the index of proposals by status, the archive of votes, the
-- checkpoints of voting weight; and how a role's three cells lie in the storage.
pub mod Checkpoints
use stream_fi_contracts.Prelude.{
  ℕ, Bool, true, false, not, ◌&&◌, Option, none, some, List, [], ◌∷◌, ◌++◌, ◌==◌, leb,
  if◌then◌else◌,
}
use stream_fi_contracts.Prelude.Int.{saturating_add_u64}
use stream_fi_contracts.Prelude.Effect.{ok, pure, when, ◌>>=◌, ◌>>◌}
use stream_fi_contracts.Prelude.Lists.{member, without}
use stream_fi_contracts.Host.{Address}
use stream_fi_contracts.Common.Ttl.{min_ttl_ledgers, extend_ttl_ledgers}
use stream_fi_contracts.Common.Rbac.{RoleAssignment, Cells}
use stream_fi_contracts.Contract.{
  insert, is_set, unwrap_or, with_store, stored, store, renew, instance_ttl, persistent_ttl,
}
use stream_fi_contracts.Governor.Types.{
  Key, vote_record, Role, ProposalStatus, eqb_role, eqb_status, Proposal, BalanceCheckpoint,
  VoteRecord, Store, GovernorEnv, Act,
}
use stream_fi_contracts.Governor.Types

-- Maps keyed by a role and an account, a role, and a status.
unfoldable pub at_role :
    Role
    → Address
    → Option RoleAssignment
    → (Role → Address → Option RoleAssignment)
    → Role
    → Address
    → Option RoleAssignment
at_role role account value entries role' account' =
    if eqb_role role' role && account' == account then value else entries role' account'

unfoldable pub at_members :
    Role → Option (List Address) → (Role → Option (List Address)) → Role → Option (List Address)
at_members role value entries role' = if eqb_role role' role then value else entries role'

unfoldable pub at_status :
    ProposalStatus → List ℕ → (ProposalStatus → Option (List ℕ)) → ProposalStatus → Option (List ℕ)
at_status status value entries status' =
    if eqb_status status' status then some value else entries status'

-- The cells of a role that a call on one account works on.
abbrev pub cells : Role → Address → Store → Cells
cells role account s = record {
  assignment = s.role role account;
  admin_count = s.admin_count;
  members = s.role_members role;
}

abbrev pub with_cells : Role → Address → Cells → Store → Store
with_cells role account c s = record s {
  role = at_role role account c.assignment s.role;
  admin_count = c.admin_count;
  role_members = at_members role c.members s.role_members;
}

abbrev indexed : Store → ProposalStatus → List ℕ
indexed s status = unwrap_or (s.proposals_by_status status) []

-- The last checkpoint is replaced where it is of this ledger or a later one.
unfoldable pub recorded : BalanceCheckpoint → List BalanceCheckpoint → List BalanceCheckpoint
recorded new [] = new ∷ []
recorded new (last ∷ []) = if leb new.ledger last.ledger then new ∷ [] else last ∷ new ∷ []
recorded new (c ∷ d ∷ rest) = c ∷ recorded new (d ∷ rest)

-- The loop of `get_checkpoint_weight`: the weight of the last checkpoint before the first one that is
-- later than the snapshot.
unfoldable pub matched_weight : ℕ → ℕ → List BalanceCheckpoint → ℕ
matched_weight snapshot matched [] = matched
matched_weight snapshot matched (c ∷ cps) =
    let rest = matched_weight snapshot c.weight cps in
    if leb c.ledger snapshot then rest else matched

unfoldable pub get_checkpoint_weight : Store → Address → (snapshot_ledger : ℕ) → Option ℕ
unfolding matched_weight
get_checkpoint_weight s account snapshot_ledger = elim (s.vote_checkpoints account) [
  | some cps ↦ some (matched_weight snapshot_ledger 0 cps)
  | none ↦ if unwrap_or s.checkpointing_enabled false then some 0 else none
]

module _ {T : Type 0} where
  unfoldable pub bump : Act T (Unit {0})
  bump = renew (instance_ttl min_ttl_ledgers extend_ttl_ledgers)

  unfoldable pub bump_persistent : Key → Act T (Unit {0})
  bump_persistent key = renew (persistent_ttl key min_ttl_ledgers extend_ttl_ledgers)

  unfoldable pub add_proposal_to_status_index : ℕ → ProposalStatus → Act T (Unit {0})
  unfolding member at_status
  add_proposal_to_status_index proposal_id status = store λ s.
      if member proposal_id (indexed s status) then s else record s {
        proposals_by_status =
            at_status status (indexed s status ++ (proposal_id ∷ [])) s.proposals_by_status;
      }

  unfoldable pub remove_proposal_from_status_index : ℕ → ProposalStatus → Act T (Unit {0})
  unfolding without at_status
  remove_proposal_from_status_index proposal_id status = store λ s. record s {
    proposals_by_status =
        at_status status (without proposal_id (indexed s status)) s.proposals_by_status;
  }

  abbrev move_to : ℕ → ProposalStatus → Proposal → Act T (Unit {0})
  move_to proposal_id new_status p = do
    remove_proposal_from_status_index proposal_id p.status
    store λ s. record s {
      proposal = insert proposal_id (record p { status = new_status }) s.proposal;
    }
    add_proposal_to_status_index proposal_id new_status

  abbrev set_status_of : Option Proposal → ℕ → ProposalStatus → Act T Bool
  set_status_of none proposal_id new_status env = ok false env
  set_status_of (some p) proposal_id new_status env =
      (do when (not (eqb_status p.status new_status)) (move_to proposal_id new_status p); pure true)
        env

  unfoldable pub set_proposal_status : ℕ → ProposalStatus → Act T Bool
  unfolding remove_proposal_from_status_index add_proposal_to_status_index insert
  set_proposal_status proposal_id new_status = do
    p ← stored (λ s. s.proposal proposal_id)
    set_status_of p proposal_id new_status

  unfoldable pub get_abstain_votes : ℕ → Act T ℕ
  get_abstain_votes proposal_id = stored λ s. unwrap_or (s.proposal_abstain_votes proposal_id) 0

  unfoldable pub add_abstain_votes : ℕ → ℕ → Act T ℕ
  unfolding insert saturating_add_u64
  add_abstain_votes proposal_id weight = do
    before ← stored (λ s. unwrap_or (s.proposal_abstain_votes proposal_id) 0)
    store λ s. record s {
      proposal_abstain_votes =
          insert proposal_id (saturating_add_u64 before weight) s.proposal_abstain_votes;
    }
    pure (saturating_add_u64 before weight)

  abbrev archive : ℕ → Proposal → Act T (Unit {0})
  archive proposal_id proposal = do
    abstain_votes ← get_abstain_votes proposal_id
    store λ s. record s {
      vote_record =
          insert proposal_id
            (record {
              for_votes = proposal.for_votes;
              against_votes = proposal.against_votes;
              abstain_votes = abstain_votes;
            })
            s.vote_record;
    }
    bump_persistent (vote_record proposal_id)

  unfoldable pub archive_vote_record : ℕ → Proposal → Act T (Unit {0})
  unfolding get_abstain_votes bump_persistent insert
  archive_vote_record proposal_id proposal = do
    known ← stored (λ s. is_set (s.vote_record proposal_id))
    when (not known) (archive proposal_id proposal)

  unfoldable pub record_checkpoint_at : Address → (ledger weight : ℕ) → Act T (Unit {0})
  unfolding recorded bump_persistent insert
  record_checkpoint_at account ledger weight = do
    store λ s. record s { checkpointing_enabled = some true }
    store λ s. record s {
      vote_checkpoints =
          insert account
            (recorded (record { ledger = ledger; weight = weight })
              (unwrap_or (s.vote_checkpoints account) []))
            s.vote_checkpoints;
    }
    bump_persistent (Key.vote_checkpoints account)

  unfoldable pub record_checkpoint : Address → ℕ → Act T (Unit {0})
  unfolding record_checkpoint_at
  record_checkpoint account weight env = record_checkpoint_at account env.sequence weight env

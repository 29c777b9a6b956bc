-- ===== src/Governor/Proposals/Execution.antt =====
-- When a proposal can be executed, and that it is executed once.
use stream_fi_contracts.Prelude.{
  ℕ, ◌≡◌, ◌≢◌, ◌+◌, ◌≤◌, ◌<◌, some, true, false, arith, Bool, refl, sym, ◌∙◌,
}
use stream_fi_contracts.Prelude.Int.{saturating_add_u64}
use stream_fi_contracts.Prelude.Effect.{ok, >>=-eq-ok}
use stream_fi_contracts.Host.{Host, Address}
use stream_fi_contracts.Common.Rbac
use stream_fi_contracts.Contract.{insert, unwrap_or}
use stream_fi_contracts.Vault.Storage.Entries.{insert-same}
use stream_fi_contracts.Governor.Types.{
  Proposal, executed, executor, GovernorEnv, ProposalStatus, eqb_status,
}
use stream_fi_contracts.Governor.Storage.{
  set_proposal_status, remove_proposal_from_status_index, add_proposal_to_status_index, bump,
  get_abstain_votes,
}
use stream_fi_contracts.Governor.Roles.{require_executor}
use stream_fi_contracts.Governor.Params.{load}
use stream_fi_contracts.Governor.Proposals.{
  execute_proposal, admit_execution, check_quorum, quorum_threshold, supply_of, governance_supply,
  find_proposal, is_open, min_execution_delay, refund_proposal_stake,
}

module _ (host : Host) where
  abbrev votes : ℕ → Proposal → GovernorEnv host.Tokens → ℕ
  votes id p env =
      saturating_add_u64 (saturating_add_u64 p.for_votes p.against_votes)
        (unwrap_or (env.store.proposal_abstain_votes id) 0)

  -- The supply that the votes are measured against.
  abbrev supply : ℕ → GovernorEnv host.Tokens → ℕ
  supply id env =
      supply_of (env.store.proposal_vote_snapshot id)
        (unwrap_or env.store.governance_supply (unwrap_or env.store.admin_count 1))

  -- What the checks have established.
  pub record Permits (caller : Address) (id : ℕ) (p : Proposal) (env : GovernorEnv host.Tokens)
      : Type 0 where
    pub signed : env.auth caller ≡ true
    pub holds_role : Rbac.has_role env.now (env.store.role executor caller) ≡ true
    pub not_closed : is_open p ≡ true
    pub delayed : p.created_at + min_execution_delay ≤ env.now
    pub in_time :
        env.now ≤ p.created_at + saturating_add_u64 p.execution_window_secs min_execution_delay
    pub quorum :
        0 < unwrap_or env.store.min_quorum_bps 0
        → quorum_threshold (supply id env) (unwrap_or env.store.min_quorum_bps 0) ≤ votes id p env

  admit_execution-Permits :
      (caller : Address) (id : ℕ) (p q : Proposal) (env env' : GovernorEnv host.Tokens)
      → env.store.proposal id ≡ some p
      → admit_execution host caller id env ≡ ok q env'
      → Permits caller id p env × (q ≡ p) × (env'.store ≡ env.store)
  unfolding admit_execution require_executor bump find_proposal load check_quorum get_abstain_votes
      governance_supply
  admit_execution-Permits caller id p q env env' e h = ground arith

  refund_frame :
      (id : ℕ) (author : Address) (env env' : GovernorEnv host.Tokens)
      → refund_proposal_stake host id author env ≡ ok tt env'
      → env'.store.proposal ≡ env.store.proposal
  unfolding refund_proposal_stake
  refund_frame id author env env' h = ground arith

  pub set_proposal_status-Sets :
      (id : ℕ) (p : Proposal) (status : ProposalStatus) (b : Bool)
      (env env' : GovernorEnv host.Tokens)
      → env.store.proposal id ≡ some p
      → eqb_status p.status status ≡ false
      → set_proposal_status id status env ≡ ok b env'
      → env'.store.proposal ≡ insert id (record p { status = status }) env.store.proposal
  unfolding set_proposal_status remove_proposal_from_status_index add_proposal_to_status_index
  set_proposal_status-Sets id p status b env env' e d h = ground arith

  -- What an execution does: its checks have passed, the proposal is executed, and while it stays
  -- stored like that it cannot be executed again.
  pub record Executes (caller : Address) (id : ℕ) (p : Proposal)
      (env env' : GovernorEnv host.Tokens) : Type 0 where
    pub permitted : Permits caller id p env
    pub now_executed : env'.store.proposal id ≡ some (record p { status = executed })
    pub once :
        (caller2 : Address) (later later' : GovernorEnv host.Tokens)
        → later.store.proposal id ≡ env'.store.proposal id
        → execute_proposal host caller2 id later ≢ ok tt later'

  pub open-unexecuted : (p : Proposal) → is_open p ≡ true → eqb_status p.status executed ≡ false
  unfolding is_open
  open-unexecuted p h = ground arith

  admit_execution-open :
      (caller : Address) (id : ℕ) (p q : Proposal) (env env' : GovernorEnv host.Tokens)
      → env.store.proposal id ≡ some p
      → admit_execution host caller id env ≡ ok q env'
      → is_open p ≡ true
  admit_execution-open caller id p q env env' e h =
      (admit_execution-Permits caller id p q env env' e h).0.not_closed

  execute_proposal-refused :
      (caller : Address) (id : ℕ) (p : Proposal) (env env' : GovernorEnv host.Tokens)
      → env.store.proposal id ≡ some p
      → is_open p ≡ false
      → execute_proposal host caller id env ≢ ok tt env'
  unfolding execute_proposal
  execute_proposal-refused caller id p env env' e c h =
      let (q, env1, admitted, _) = >>=-eq-ok (admit_execution host caller id) _ env h in
      let o = admit_execution-open caller id p q env env1 e admitted in ground arith

  executed-closed : (p : Proposal) → is_open (record p { status = executed }) ≡ false
  unfolding is_open
  executed-closed p = refl

  -- A successful execution of the proposal stored under the identifier: the caller has signed and
  -- holds the executor role; the proposal was open, at least 7 days old and within its window, and
  -- its votes met the quorum where one is set. It is then executed, and in any state that stores it
  -- like that, no execution of it succeeds.
  pub execute_proposal-Executes :
      (caller : Address) (id : ℕ) (p : Proposal) (env env' : GovernorEnv host.Tokens)
      → env.store.proposal id ≡ some p
      → execute_proposal host caller id env ≡ ok tt env'
      → Executes caller id p env env'
  unfolding execute_proposal
  execute_proposal-Executes caller id p env env' e h =
      let (q, env1, admitted, h1) = >>=-eq-ok (admit_execution host caller id) _ env h in
      let (permitted, same, kept) = admit_execution-Permits caller id p q env env1 e admitted in
      let (u, env2, refunded, h2) = >>=-eq-ok (refund_proposal_stake host id q.author) _ env1 h1 in
      let frame = refund_frame id q.author env1 env2 refunded in
      let (b, env3, moved, h3) = >>=-eq-ok (set_proposal_status id executed) _ env2 h2 in
      let at : env2.store.proposal id ≡ some p = rw (frame, kept) e in
      let sets : env3.store.proposal
          ≡ insert id (record p { status = executed }) env2.store.proposal =
        set_proposal_status-Sets id p executed b env2 env3 at
          (open-unexecuted p permitted.not_closed) moved in
      let last : env3 ≡ env' = ground arith in
      let done : env'.store.proposal id ≡ some (record p { status = executed }) =
        rw (sym last)
          (rw sets (insert-same id (record p { status = executed }) env2.store.proposal)) in
      record {
        permitted = permitted;
        now_executed = done;
        once = λ caller2 later later' eq.
            execute_proposal-refused caller2 id (record p { status = executed }) later later'
              (eq ∙ done) (executed-closed p);
      }

-- ===== src/Governor/Proposals/Cancellation.antt =====
-- What the author's cancellation does.
use stream_fi_contracts.Prelude.{
  ℕ, ◌≡◌, some, true, false, arith, not, ◌==◌, sym, Bool, ap, ◌∙◌, ◌∷◌,
}
use stream_fi_contracts.Prelude.Effect.{ok, >>=-eq-ok, raise_if}
use stream_fi_contracts.Host.{Address, Host}
use stream_fi_contracts.Contract.{instance_ttl}
use stream_fi_contracts.Common.Ttl.{min_ttl_ledgers, extend_ttl_ledgers}
use stream_fi_contracts.Vault.Storage.Entries.{insert-same}
use stream_fi_contracts.Governor.Types.{
  Proposal, ProposalStatus, cancelled, GovernorEnv, not_authorized, proposal_not_pending,
  eqb_status,
}
use stream_fi_contracts.Governor.Storage.{
  bump, archive_vote_record, set_proposal_status, remove_proposal_from_status_index,
  add_proposal_to_status_index, bump_persistent, get_abstain_votes,
}
use stream_fi_contracts.Governor.Proposals.{cancel_proposal, is_open, find_proposal}
use stream_fi_contracts.Governor.Proposals.Execution.{set_proposal_status-Sets}

-- The author of an open proposal has cancelled it; the stake stays with the contract.
pub record Cancels {T : Type 0} (caller : Address) (id : ℕ) (p : Proposal)
    (env env' : GovernorEnv T) : Type 0 where
  pub by_author : caller ≡ p.author
  pub was_open : is_open p ≡ true
  pub now_cancelled : env'.store.proposal id ≡ some (record p { status = cancelled })
  pub stake_kept : env'.store.proposal_stake ≡ env.store.proposal_stake
  pub same_tokens : env'.tokens ≡ env.tokens

open-uncancelled : (p : Proposal) → is_open p ≡ true → eqb_status p.status cancelled ≡ false
unfolding is_open
open-uncancelled p h = ground arith

module _ {T : Type 0} where
  found :
      (id : ℕ) (p q : Proposal) (env env' : GovernorEnv T)
      → env.store.proposal id ≡ some p
      → find_proposal id env ≡ ok q env'
      → (q ≡ p) × (env' ≡ env)
  unfolding find_proposal
  found id p q env env' e h = ground arith

  archive_frame :
      (id : ℕ) (p : Proposal) (env env' : GovernorEnv T)
      → archive_vote_record id p env ≡ ok tt env'
      → (env'.store.proposal ≡ env.store.proposal)
        × (env'.store.proposal_stake ≡ env.store.proposal_stake)
        × (env'.tokens ≡ env.tokens)
  unfolding archive_vote_record bump_persistent get_abstain_votes
  archive_frame id p env env' h = ground arith

  set_proposal_status_frame :
      (id : ℕ) (p : Proposal) (status : ProposalStatus) (b : Bool) (env env' : GovernorEnv T)
      → env.store.proposal id ≡ some p
      → eqb_status p.status status ≡ false
      → set_proposal_status id status env ≡ ok b env'
      → (env'.store.proposal_stake ≡ env.store.proposal_stake) × (env'.tokens ≡ env.tokens)
  unfolding set_proposal_status remove_proposal_from_status_index add_proposal_to_status_index
  set_proposal_status_frame id p status b env env' e d h = ground arith

  admit_cancel :
      (caller : Address) (p : Proposal) (env env' : GovernorEnv T)
      → raise_if (not (caller == p.author)) not_authorized env ≡ ok tt env'
      → (caller ≡ p.author) × (env' ≡ env)
  admit_cancel caller p env env' h = ground arith

  admit_open :
      (p : Proposal) (env env' : GovernorEnv T)
      → raise_if (not (is_open p)) proposal_not_pending env ≡ ok tt env'
      → (is_open p ≡ true) × (env' ≡ env)
  admit_open p env env' h = ground arith

module _ (host : Host) where
  -- A successful cancel_proposal of the proposal stored under the identifier: the caller named is
  -- its author, it was open and is now cancelled; the recorded stakes and the tokens stay as they
  -- were.
  pub cancel_proposal-Cancels :
      (caller : Address) (id : ℕ) (p : Proposal) (env env' : GovernorEnv host.Tokens)
      → env.store.proposal id ≡ some p
      → cancel_proposal caller id env ≡ ok tt env'
      → Cancels caller id p env env'
  unfolding cancel_proposal bump
  cancel_proposal-Cancels caller id p env env' e h =
      let e1 : GovernorEnv host.Tokens = record env {
        renewals = instance_ttl min_ttl_ledgers extend_ttl_ledgers ∷ env.renewals;
      } in
      let (q, e2, finds, h2) = >>=-eq-ok (find_proposal id) _ e1 h in
      let (qp, s2) = found id p q e1 e2 e finds in
      let (_, e3, author, h3) =
        >>=-eq-ok (raise_if (not (caller == q.author)) not_authorized) _ e2 h2 in
      let (who, s3) = admit_cancel caller q e2 e3 author in
      let (_, e4, opened, h4) =
        >>=-eq-ok (raise_if (not (is_open q)) proposal_not_pending) _ e3 h3 in
      let (open_, s4) = admit_open q e3 e4 opened in
      let (_, e5, archived, h5) = >>=-eq-ok (archive_vote_record id q) _ e4 h4 in
      let (b, e6, moved, h6) = >>=-eq-ok (set_proposal_status id cancelled) _ e5 h5 in
      let (p5, k5, t5) = archive_frame id q e4 e5 archived in
      let back : e4 ≡ e1 = s4 ∙ s3 ∙ s2 in
      let open_p : is_open p ≡ true = ap is_open (sym qp) ∙ open_ in
      let at : e5.store.proposal id ≡ some p =
        ap (λ f. f id) p5 ∙ ap (λ v. v.store.proposal id) back ∙ e in
      let new = open-uncancelled p open_p in
      let sets = set_proposal_status-Sets host id p cancelled b e5 e6 at new moved in
      let (k6, t6) = set_proposal_status_frame id p cancelled b e5 e6 at new moved in
      let last : e6 ≡ env' = ground arith in
      record {
        by_author = who ∙ ap (λ r. r.author) qp;
        was_open = open_p;
        now_cancelled =
            ap (λ v. v.store.proposal id) (sym last)
            ∙ ap (λ f. f id) sets
            ∙ insert-same id (record p { status = cancelled }) e5.store.proposal;
        stake_kept =
            ap (λ v. v.store.proposal_stake) (sym last)
            ∙ k6
            ∙ k5
            ∙ ap (λ v. v.store.proposal_stake) back;
        same_tokens = ap (λ v. v.tokens) (sym last) ∙ t6 ∙ t5 ∙ ap (λ v. v.tokens) back;
      }

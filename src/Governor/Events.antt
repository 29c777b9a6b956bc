-- ===== src/Governor/Events.antt =====
-- contracts/governor/src/events.rs: what each function publishes.
use stream_fi_contracts.Prelude.{ℕ}
use stream_fi_contracts.Prelude.Int.{ℤ}
use stream_fi_contracts.Host.{Address}
use stream_fi_contracts.Contract.{publish}
use stream_fi_contracts.Governor.Types.{Act, Event, Role}

module _ {T : Type 0} where
  unfoldable pub initialized :
      (authority fee_recipient factory_address : Address) → Act T (Unit {0})
  initialized authority fee_recipient factory_address =
      publish (Event.initialized authority fee_recipient factory_address)

  unfoldable pub grant_role : (caller : Address) → Role → (account : Address) → Act T (Unit {0})
  grant_role caller role account = publish (Event.grant_role caller role account)

  unfoldable pub revoke_role : (caller : Address) → Role → (account : Address) → Act T (Unit {0})
  revoke_role caller role account = publish (Event.revoke_role caller role account)

  unfoldable pub transfer_authority : (caller new_authority : Address) → Act T (Unit {0})
  transfer_authority caller new_authority = publish (Event.transfer_authority caller new_authority)

  unfoldable pub propose_authority : (caller new_authority : Address) → Act T (Unit {0})
  propose_authority caller new_authority = publish (Event.propose_authority caller new_authority)

  unfoldable pub revoke_propose_authority : (caller pending_authority : Address) → Act T (Unit {0})
  revoke_propose_authority caller pending_authority =
      publish (Event.revoke_propose_authority caller pending_authority)

  unfoldable pub accept_authority : (caller old_authority : Address) → Act T (Unit {0})
  accept_authority caller old_authority = publish (Event.accept_authority caller old_authority)

  unfoldable pub set_fee_bps : (caller : Address) → (old_fee_bps new_fee_bps : ℕ) → Act T (Unit {0})
  set_fee_bps caller old_fee_bps new_fee_bps =
      publish (Event.set_fee_bps caller old_fee_bps new_fee_bps)

  unfoldable pub set_fee_recipient :
      (caller old_recipient new_recipient : Address) → Act T (Unit {0})
  set_fee_recipient caller old_recipient new_recipient =
      publish (Event.set_fee_recipient caller old_recipient new_recipient)

  unfoldable pub set_min_duration :
      (caller : Address) → (old_seconds new_seconds : ℕ) → Act T (Unit {0})
  set_min_duration caller old_seconds new_seconds =
      publish (Event.set_min_duration caller old_seconds new_seconds)

  unfoldable pub set_max_rate :
      (caller : Address) → (old_max_rate new_max_rate : ℤ) → Act T (Unit {0})
  set_max_rate caller old_max_rate new_max_rate =
      publish (Event.set_max_rate caller old_max_rate new_max_rate)

  unfoldable pub set_max_duration :
      (caller : Address) → (old_seconds new_seconds : ℕ) → Act T (Unit {0})
  set_max_duration caller old_seconds new_seconds =
      publish (Event.set_max_duration caller old_seconds new_seconds)

  unfoldable pub set_force_cancel_pause_threshold : (caller : Address) → ℕ → Act T (Unit {0})
  set_force_cancel_pause_threshold caller seconds =
      publish (Event.set_force_cancel_pause_threshold caller seconds)

  unfoldable pub paused : (caller : Address) → ℕ → Act T (Unit {0})
  paused caller paused_at = publish (Event.paused caller paused_at)

  unfoldable pub unpaused : (caller : Address) → ℕ → Act T (Unit {0})
  unpaused caller resumed_at = publish (Event.unpaused caller resumed_at)

  unfoldable pub upgraded : (caller : Address) → ℕ → Act T (Unit {0})
  upgraded caller upgraded_at = publish (Event.upgraded caller upgraded_at)

  unfoldable pub set_min_quorum_bps :
      (caller : Address) → (old_min_quorum_bps new_min_quorum_bps : ℕ) → Act T (Unit {0})
  set_min_quorum_bps caller old_min_quorum_bps new_min_quorum_bps =
      publish (Event.set_min_quorum_bps caller old_min_quorum_bps new_min_quorum_bps)

  unfoldable pub set_proposal_stake_config : (caller token : Address) → ℤ → Act T (Unit {0})
  set_proposal_stake_config caller token min_stake =
      publish (Event.set_proposal_stake_config caller token min_stake)

  unfoldable pub proposal_cancelled_by_admin :
      (caller : Address) → (proposal_id reason_hash : ℕ) → Act T (Unit {0})
  proposal_cancelled_by_admin caller proposal_id reason_hash =
      publish (Event.proposal_cancelled_by_admin caller proposal_id reason_hash)

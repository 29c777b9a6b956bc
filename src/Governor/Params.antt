-- ===== src/Governor/Params.antt =====
-- contracts/governor/src/config.rs, and the entry points of contracts/governor/src/lib.rs that set
-- the protocol's parameters.
pub mod Bounds
use stream_fi_contracts.Prelude.{ℕ, ◌||◌, Option, none, some, ltb, leb, ◌==◌}
use stream_fi_contracts.Prelude.Int.{ℤ, pos, leb_ℤ, checked_mul}
use stream_fi_contracts.Prelude.Effect.{pure, raise_if, ok_or, ◌>>=◌, ◌>>◌}
use stream_fi_contracts.Host.{Host, Address}
use stream_fi_contracts.Common.Address.{is_zero_address}
use stream_fi_contracts.Contract.{stored, store, loaded, unwrap_or}
use stream_fi_contracts.Governor.Types.{
  invalid_param, not_initialized, admin, fee_manager, rate_manager, Act,
}
use stream_fi_contracts.Governor.Events
use stream_fi_contracts.Governor.Roles.{assert_not_paused, require_role, require_role_or_admin}

abbrev pub min_voting_period_ledgers : ℕ
min_voting_period_ledgers = 17280

pub record GovernorConfig : Type 0 where
  pub fee_bps : ℕ
  pub fee_recipient : Address
  pub min_duration_seconds : ℕ
  pub max_duration_seconds : ℕ
  pub max_rate_per_second : ℤ
  pub factory_address : Address
  pub force_cancel_pause_secs : ℕ
  pub min_quorum_bps : ℕ
  pub voting_period_ledgers : ℕ
  pub proposal_stake_token : Option Address
  pub min_proposal_stake : ℤ

abbrev pub default_rate : ℤ
default_rate = pos 1000000000000000

module _ {T : Type 0} where
  unfoldable pub load : Act T GovernorConfig
  load = do
    fee_recipient ← loaded (λ s. s.fee_recipient) not_initialized
    factory_address ← loaded (λ s. s.factory_address) not_initialized
    stored λ s. record {
      fee_bps = unwrap_or s.fee_bps 30;
      fee_recipient = fee_recipient;
      min_duration_seconds = unwrap_or s.min_duration_seconds 3600;
      max_duration_seconds = unwrap_or s.max_duration_seconds 315360000;
      max_rate_per_second = unwrap_or s.max_rate_per_second default_rate;
      factory_address = factory_address;
      force_cancel_pause_secs = unwrap_or s.force_cancel_pause_secs 2592000;
      min_quorum_bps = unwrap_or s.min_quorum_bps 0;
      voting_period_ledgers = unwrap_or s.voting_period_ledgers min_voting_period_ledgers;
      proposal_stake_token = s.proposal_stake_token;
      min_proposal_stake = unwrap_or s.min_proposal_stake (pos 0);
    }

  unfoldable pub set_voting_period : ℕ → Act T (Unit {0})
  set_voting_period voting_period_ledgers = do
    raise_if (ltb voting_period_ledgers min_voting_period_ledgers) invalid_param
    store λ s. record s { voting_period_ledgers = some voting_period_ledgers }

  unfoldable pub set_fee_bps : Address → ℕ → Act T (Unit {0})
  unfolding assert_not_paused require_role_or_admin Events.set_fee_bps
  set_fee_bps caller fee_bps = do
    raise_if (ltb 10000 fee_bps) invalid_param
    assert_not_paused
    require_role_or_admin caller fee_manager
    old_fee_bps ← stored (λ s. unwrap_or s.fee_bps 30)
    store λ s. record s { fee_bps = some fee_bps }
    Events.set_fee_bps caller old_fee_bps fee_bps

  unfoldable pub set_min_duration : Address → ℕ → Act T (Unit {0})
  unfolding assert_not_paused require_role_or_admin Events.set_min_duration
  set_min_duration caller seconds = do
    raise_if (seconds == 0) invalid_param
    assert_not_paused
    require_role_or_admin caller rate_manager
    old_min_duration ← stored (λ s. unwrap_or s.min_duration_seconds 3600)
    max_duration ← stored (λ s. unwrap_or s.max_duration_seconds 315360000)
    raise_if (ltb max_duration seconds) invalid_param
    max_rate ← stored (λ s. unwrap_or s.max_rate_per_second default_rate)
    product ← ok_or (checked_mul max_rate (pos seconds)) invalid_param
    store λ s. record s { min_duration_seconds = some seconds }
    Events.set_min_duration caller old_min_duration seconds

  unfoldable pub set_max_rate : Address → ℤ → Act T (Unit {0})
  unfolding assert_not_paused require_role_or_admin Events.set_max_rate
  set_max_rate caller max_rate = do
    raise_if (leb_ℤ max_rate (pos 0)) invalid_param
    assert_not_paused
    require_role_or_admin caller rate_manager
    old_max_rate ← stored (λ s. unwrap_or s.max_rate_per_second default_rate)
    min_duration ← stored (λ s. unwrap_or s.min_duration_seconds 3600)
    product ← ok_or (checked_mul max_rate (pos min_duration)) invalid_param
    store λ s. record s { max_rate_per_second = some max_rate }
    Events.set_max_rate caller old_max_rate max_rate

  unfoldable pub set_max_duration : Address → ℕ → Act T (Unit {0})
  unfolding assert_not_paused require_role_or_admin Events.set_max_duration
  set_max_duration caller seconds = do
    raise_if (seconds == 0) invalid_param
    assert_not_paused
    require_role_or_admin caller rate_manager
    old_max_duration ← stored (λ s. unwrap_or s.max_duration_seconds 315360000)
    min_duration ← stored (λ s. unwrap_or s.min_duration_seconds 3600)
    raise_if (ltb seconds min_duration) invalid_param
    store λ s. record s { max_duration_seconds = some seconds }
    Events.set_max_duration caller old_max_duration seconds

  unfoldable pub set_force_cancel_pause_threshold : Address → ℕ → Act T (Unit {0})
  unfolding assert_not_paused require_role_or_admin Events.set_force_cancel_pause_threshold
  set_force_cancel_pause_threshold caller seconds = do
    raise_if (seconds == 0) invalid_param
    assert_not_paused
    require_role_or_admin caller rate_manager
    store λ s. record s { force_cancel_pause_secs = some seconds }
    Events.set_force_cancel_pause_threshold caller seconds

  unfoldable pub set_min_quorum_bps : Address → ℕ → Act T (Unit {0})
  unfolding assert_not_paused require_role_or_admin Events.set_min_quorum_bps
  set_min_quorum_bps caller min_quorum_bps = do
    raise_if (ltb 10000 min_quorum_bps) invalid_param
    assert_not_paused
    require_role_or_admin caller admin
    old_min_quorum_bps ← stored (λ s. unwrap_or s.min_quorum_bps 0)
    store λ s. record s { min_quorum_bps = some min_quorum_bps }
    Events.set_min_quorum_bps caller old_min_quorum_bps min_quorum_bps

  unfoldable pub set_governance_supply : Address → ℕ → Act T (Unit {0})
  unfolding assert_not_paused require_role_or_admin
  set_governance_supply caller supply = do
    raise_if (supply == 0) invalid_param
    assert_not_paused
    require_role_or_admin caller admin
    store λ s. record s { governance_supply = some supply }

module _ (host : Host) where
  unfoldable pub set_fee_recipient : (caller recipient : Address) → Act host.Tokens (Unit {0})
  unfolding is_zero_address assert_not_paused require_role_or_admin Events.set_fee_recipient
  set_fee_recipient caller recipient = do
    raise_if (is_zero_address host recipient) invalid_param
    assert_not_paused
    require_role_or_admin caller fee_manager
    old_recipient ← loaded (λ s. s.fee_recipient) not_initialized
    store λ s. record s { fee_recipient = some recipient }
    Events.set_fee_recipient caller old_recipient recipient

  unfoldable pub set_proposal_stake_config :
      (caller token : Address) → ℤ → Act host.Tokens (Unit {0})
  unfolding is_zero_address assert_not_paused require_role Events.set_proposal_stake_config
  set_proposal_stake_config caller token min_stake = do
    assert_not_paused
    require_role caller admin
    raise_if (leb_ℤ min_stake (pos 0) || is_zero_address host token) invalid_param
    store λ s. record s { proposal_stake_token = some token }
    store λ s. record s { min_proposal_stake = some min_stake }
    Events.set_proposal_stake_config caller token min_stake

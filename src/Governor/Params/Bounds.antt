-- ===== src/Governor/Params/Bounds.antt =====
-- The bounds that the protocol's parameters keep.
use stream_fi_contracts.Prelude.{ℕ, ◌≡◌, ◌≤◌, ◌<◌, true, arith}
use stream_fi_contracts.Prelude.Int.{ℤ, pos, ltb_ℤ, checked_mul, leb_ℤ}
use stream_fi_contracts.Prelude.Effect.{ok}
use stream_fi_contracts.Host.{Address}
use stream_fi_contracts.Contract.{unwrap_or, is_set}
use stream_fi_contracts.Governor.Types.{Store, GovernorEnv, Act}
use stream_fi_contracts.Governor.Roles.{assert_not_paused, require_role_or_admin}
use stream_fi_contracts.Governor.Params.{
  default_rate, set_fee_bps, set_min_duration, set_max_rate, set_max_duration, set_min_quorum_bps,
  set_force_cancel_pause_threshold, set_governance_supply,
}

-- What the entry points promise of the parameters, where a missing one has its default.
pub record InBounds (s : Store) : Type 0 where
  pub fee : unwrap_or s.fee_bps 30 ≤ 10000
  pub shortest : 0 < unwrap_or s.min_duration_seconds 3600
  pub ordered : unwrap_or s.min_duration_seconds 3600 ≤ unwrap_or s.max_duration_seconds 315360000
  pub rate : ltb_ℤ (pos 0) (unwrap_or s.max_rate_per_second default_rate) ≡ true
  pub fits :
      is_set (
        checked_mul
          (unwrap_or s.max_rate_per_second default_rate)
          (pos (unwrap_or s.min_duration_seconds 3600)))
      ≡ true
  pub quorum : unwrap_or s.min_quorum_bps 0 ≤ 10000

-- One call of an entry point that sets a parameter.
pub data ParamCall : Type 0 where
  fee_bps min_duration max_duration force_cancel_pause min_quorum_bps supply : ℕ → ParamCall
  max_rate : ℤ → ParamCall

unfoldable pub set_param : {T : Type 0} → Address → ParamCall → Act T (Unit {0})
set_param caller (fee_bps n) = set_fee_bps caller n
set_param caller (min_duration n) = set_min_duration caller n
set_param caller (max_duration n) = set_max_duration caller n
set_param caller (force_cancel_pause n) = set_force_cancel_pause_threshold caller n
set_param caller (min_quorum_bps n) = set_min_quorum_bps caller n
set_param caller (supply n) = set_governance_supply caller n
set_param caller (max_rate n) = set_max_rate caller n

module _ {T : Type 0} where
  set_fee_bps-keeps :
      (caller : Address) (n : ℕ) (env env' : GovernorEnv T)
      → InBounds env.store
      → set_fee_bps caller n env ≡ ok tt env'
      → InBounds env'.store
  unfolding set_fee_bps assert_not_paused require_role_or_admin
  set_fee_bps-keeps caller n env env' h e = ground arith

  set_min_duration-keeps :
      (caller : Address) (n : ℕ) (env env' : GovernorEnv T)
      → InBounds env.store
      → set_min_duration caller n env ≡ ok tt env'
      → InBounds env'.store
  unfolding set_min_duration assert_not_paused require_role_or_admin
  set_min_duration-keeps caller n env env' h e = ground arith

  set_max_rate-keeps :
      (caller : Address) (n : ℤ) (env env' : GovernorEnv T)
      → InBounds env.store
      → set_max_rate caller n env ≡ ok tt env'
      → InBounds env'.store
  unfolding set_max_rate assert_not_paused require_role_or_admin ltb_ℤ leb_ℤ
  set_max_rate-keeps caller n env env' h e = ground arith

  set_max_duration-keeps :
      (caller : Address) (n : ℕ) (env env' : GovernorEnv T)
      → InBounds env.store
      → set_max_duration caller n env ≡ ok tt env'
      → InBounds env'.store
  unfolding set_max_duration assert_not_paused require_role_or_admin
  set_max_duration-keeps caller n env env' h e = ground arith

  set_force_cancel_pause_threshold-keeps :
      (caller : Address) (n : ℕ) (env env' : GovernorEnv T)
      → InBounds env.store
      → set_force_cancel_pause_threshold caller n env ≡ ok tt env'
      → InBounds env'.store
  unfolding set_force_cancel_pause_threshold assert_not_paused require_role_or_admin
  set_force_cancel_pause_threshold-keeps caller n env env' h e = ground arith

  set_min_quorum_bps-keeps :
      (caller : Address) (n : ℕ) (env env' : GovernorEnv T)
      → InBounds env.store
      → set_min_quorum_bps caller n env ≡ ok tt env'
      → InBounds env'.store
  unfolding set_min_quorum_bps assert_not_paused require_role_or_admin
  set_min_quorum_bps-keeps caller n env env' h e = ground arith

  set_governance_supply-keeps :
      (caller : Address) (n : ℕ) (env env' : GovernorEnv T)
      → InBounds env.store
      → set_governance_supply caller n env ≡ ok tt env'
      → InBounds env'.store
  unfolding set_governance_supply assert_not_paused require_role_or_admin
  set_governance_supply-keeps caller n env env' h e = ground arith

  -- A successful call that sets a parameter keeps the bounds: the fee and the quorum are at most
  -- 10,000 basis points, the least duration is positive and at most the greatest, the greatest rate
  -- is positive, and its product with the least duration fits an i128; a parameter that is not set
  -- counts with its default.
  pub set_param-InBounds :
      (caller : Address) (call : ParamCall) (env env' : GovernorEnv T)
      → InBounds env.store
      → set_param caller call env ≡ ok tt env'
      → InBounds env'.store
  unfolding set_param
  set_param-InBounds caller (fee_bps n) env env' = set_fee_bps-keeps caller n env env'
  set_param-InBounds caller (min_duration n) env env' = set_min_duration-keeps caller n env env'
  set_param-InBounds caller (max_duration n) env env' = set_max_duration-keeps caller n env env'
  set_param-InBounds caller (force_cancel_pause n) env env' =
      set_force_cancel_pause_threshold-keeps caller n env env'
  set_param-InBounds caller (min_quorum_bps n) env env' = set_min_quorum_bps-keeps caller n env env'
  set_param-InBounds caller (supply n) env env' = set_governance_supply-keeps caller n env env'
  set_param-InBounds caller (max_rate n) env env' = set_max_rate-keeps caller n env env'

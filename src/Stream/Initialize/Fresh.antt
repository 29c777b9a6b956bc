-- ===== src/Stream/Initialize/Fresh.antt =====
-- What a successful `initialize` leaves behind.
use stream_fi_contracts.Prelude.{ℕ, ◌+◌, ◌-◌, ◌≤◌, ◌<◌, ◌≡◌, ◌≢◌, Bool, true, false, if◌then◌else◌}
use stream_fi_contracts.Prelude.Int.{pos, leb_ℤ, checked_mul}
use stream_fi_contracts.Host.{Host}
use stream_fi_contracts.Common.Address.{is_zero_address}
use stream_fi_contracts.Stream.Types.{
  StreamInfo, set_flag, flag_clawback_enabled, flag_regulated_asset,
}
use stream_fi_contracts.Stream.Env.{Env}
use stream_fi_contracts.Stream.Initialize.{
  InitArgs, initial_info, min_stream_duration, max_stream_duration, is_some,
}

-- The record that `initialize` saves, after its one event.
abbrev pub first_info : InitArgs → StreamInfo
first_info a = let i = initial_info a in record i { event_sequence = 1 }

abbrev flags_of : (clawback regulated : Bool) → ℕ
flags_of clawback regulated =
    let with_clawback : ℕ = if clawback then set_flag 0 flag_clawback_enabled else 0 in
    if regulated then set_flag with_clawback flag_regulated_asset else with_clawback

module _ (host : Host) where
  pub record Checks (a : InitArgs) (env : Env host.Tokens) : Type 0 where
    pub rate : leb_ℤ a.rate_per_second (pos 0) ≡ false
    pub recipient : is_zero_address host a.recipient ≡ false
    pub apart : a.recipient ≢ a.sender
    pub not_backdated : env.now ≤ a.start_time
    pub long_enough : 0 < a.end_time → a.start_time + min_stream_duration ≤ a.end_time
    pub not_too_long : 0 < a.end_time → a.end_time ≤ a.start_time + max_stream_duration
    pub obligation :
        0 < a.end_time
        → is_some (checked_mul a.rate_per_second (pos (a.end_time - a.start_time))) ≡ true

-- ===== src/Stream/Types.antt =====
-- contracts/stream/src/errors.rs and storage.rs: the error codes, the records under the storage
-- keys, and the bit flags of a stream.
pub mod Flags
use stream_fi_contracts.Prelude.{ℕ, ◌-◌, ◌^◌, Bool, not, bit_and, bit_or, ◌==◌}
use stream_fi_contracts.Prelude.Int.{ℤ}
use stream_fi_contracts.Host.{Address}

pub data Error : Type 0 where
  not_authorized stream_not_found stream_cancelled stream_not_started stream_ended : Error
  nothing_to_withdraw insufficient_deposit invalid_time_range already_paused not_paused : Error
  clawback_disabled arithmetic_overflow pause_threshold_not_met already_initialized : Error
  invalid_amount reentrancy_forbidden operator_already_set not_initialized : Error
  invalid_recipient backdated_stream stream_underfunded withdrawal_too_frequent : Error
  contract_paused stream_not_cancelable zero_rate_stream_not_allowed : Error
  stream_duration_too_short description_too_long invalid_keeper_reward_token : Error
  keeper_reward_pool_not_configured insufficient_keeper_reward_pool : Error
  keeper_ping_too_frequent keeper_reward_transfer_failed : Error

abbrev pub flag_paused : ℕ
flag_paused = 1

abbrev pub flag_clawback_enabled : ℕ
flag_clawback_enabled = 2

abbrev pub flag_cancelled : ℕ
flag_cancelled = 4

abbrev pub flag_regulated_asset : ℕ
flag_regulated_asset = 8

abbrev pub current_storage_version : ℕ
current_storage_version = 1

pub record ImmutableConfig : Type 0 where
  pub start_time : ℕ
  pub stop_time : ℕ
  pub token : Address
  pub rate_per_second : ℤ
  pub sender : Address
  pub recipient : Address

pub record StreamKeeperRewardPool : Type 0 where
  pub token : Address
  pub reward_per_ping : ℤ
  pub balance : ℤ

pub record SplitConfig : Type 0 where
  pub secondary_recipient : Address
  pub split_bps : ℕ

pub record CliffConfig : Type 0 where
  pub cliff_time : ℕ
  pub cliff_unlock_amount : ℤ

pub record RateCheckpoint : Type 0 where
  pub accrued : ℤ
  pub at : ℕ

pub record StreamConfig : Type 0 where
  pub is_cancelable : Bool

pub data StreamStatus : Type 0 where
  pending active paused cancelled completed : StreamStatus

pub record StreamSummary : Type 0 where
  pub sender : Address
  pub recipient : Address
  pub token : Address
  pub total_amount : ℤ
  pub streamed_amount : ℤ
  pub status : StreamStatus
  pub start_time : ℕ
  pub stop_time : ℕ

pub record StreamInfo : Type 0 where
  pub sender : Address
  pub recipient : Address
  pub token : Address
  pub rate_per_second : ℤ
  pub start_time : ℕ
  pub end_time : ℕ
  pub withdrawn : ℤ
  pub paused_at : ℕ
  pub flags : ℕ
  pub event_sequence : ℕ
  pub cumulative_fees : ℤ

-- `(flags & mask) != 0`
unfoldable pub has_flag : ℕ → ℕ → Bool
has_flag flags mask = not (bit_and flags mask == 0)

-- `flags | mask`
unfoldable pub set_flag : ℕ → ℕ → ℕ
set_flag flags mask = bit_or flags mask

-- `flags & !mask`, on u32
unfoldable pub clear_flag : ℕ → ℕ → ℕ
clear_flag flags mask = bit_and flags (2 ^ 32 - 1 - mask)

abbrev pub is_paused : StreamInfo → Bool
is_paused info = has_flag info.flags flag_paused

abbrev pub is_cancelled : StreamInfo → Bool
is_cancelled info = has_flag info.flags flag_cancelled

abbrev pub is_clawback_enabled : StreamInfo → Bool
is_clawback_enabled info = has_flag info.flags flag_clawback_enabled

abbrev pub is_regulated_asset : StreamInfo → Bool
is_regulated_asset info = has_flag info.flags flag_regulated_asset

abbrev pub mark_cancelled : StreamInfo → StreamInfo
mark_cancelled info = record info { flags = set_flag info.flags flag_cancelled }

-- ===== src/Stream/Math.antt =====
-- contracts/stream/src/math.rs: how much of a stream has accrued at a ledger time.
pub mod MulDiv
pub mod Accrual
pub mod Schedule
pub mod Available
use stream_fi_contracts.Prelude.{ℕ, ◌&&◌, ◌||◌, Option, none, some, ltb, ◌==◌, if◌then◌else◌}
use stream_fi_contracts.Prelude.Int.{
  ℤ, pos, pos_part, ltb_ℤ, eqb_ℤ, max_ℤ, i128_half, checked_add, checked_mul, saturating_sub,
  saturating_mul, checked_sub_u64,
}
use stream_fi_contracts.Prelude.Effect.{Calc, pure, branch, raise_if, ok_or, or_trap, ◌>>=◌, ◌>>◌}
use stream_fi_contracts.Host.{Host}
use stream_fi_contracts.Stream.Types.{
  Error, arithmetic_overflow, StreamInfo, is_paused, RateCheckpoint, CliffConfig,
}
use stream_fi_contracts.Stream.Env.{Store}

-- `i128::try_from` on a u128
abbrev i128_from_u128 : ℕ → Option ℤ
i128_from_u128 n = if ltb n i128_half then some (pos n) else none

abbrev pub narrowed : Option ℕ → Option ℤ
narrowed none = none
narrowed (some n) = i128_from_u128 n

unfoldable pub mul_div : Host → ℤ → ℕ → ℕ → Calc Error ℤ
mul_div host value multiplier divisor = do
  raise_if (ltb_ℤ value (pos 0) || divisor == 0) arithmetic_overflow
  product ← or_trap (host.u256_mul (host.from_u128 (pos_part value)) (host.from_u128 multiplier))
  quotient ← or_trap (host.u256_div product (host.from_u128 divisor))
  ok_or (narrowed (host.to_u128 quotient)) arithmetic_overflow

-- The time up to which a stream that has started accrues.
unfoldable pub effective_now : StreamInfo → ℕ → ℕ
effective_now info now =
    if is_paused info
    then (if ltb 0 info.end_time && ltb info.end_time info.paused_at
        then info.end_time
        else info.paused_at)
    else if ltb 0 info.end_time && ltb info.end_time now
    then info.end_time
    else now

-- `base + rate * (until - from)`, with the checks of the checkpoint's and the cliff's branch.
unfoldable pub accrued_from : Host → StreamInfo → (base : ℤ) (from until : ℕ) → Calc Error ℤ
unfolding checked_sub_u64
accrued_from host info base from until = branch (ltb until from) (pure (pos 0)) do
  elapsed ← ok_or (checked_sub_u64 until from) arithmetic_overflow
  linear ← mul_div host info.rate_per_second elapsed 1
  ok_or (checked_add base linear) arithmetic_overflow

unfoldable pub plain_accrual : Host → StreamInfo → ℕ → Calc Error ℤ
unfolding checked_sub_u64
plain_accrual host info until = do
  elapsed ← ok_or (checked_sub_u64 until info.start_time) arithmetic_overflow
  mul_div host info.rate_per_second elapsed 1

abbrev cliff_accrual : Host → StreamInfo → Option CliffConfig → ℕ → Calc Error ℤ
cliff_accrual host info none until = plain_accrual host info until
cliff_accrual host info (some cfg) until =
    accrued_from host info cfg.cliff_unlock_amount cfg.cliff_time until

abbrev pub checkpoint_accrual :
    Host → StreamInfo → Option RateCheckpoint → Option CliffConfig → ℕ → Calc Error ℤ
checkpoint_accrual host info none cliff until = cliff_accrual host info cliff until
checkpoint_accrual host info (some checkpoint) cliff until =
    accrued_from host info checkpoint.accrued checkpoint.at until

-- A function of the ledger time, the two optional records in storage, and the stream's record.
unfoldable pub streamed_amount : Host → ℕ → Store → StreamInfo → Calc Error ℤ
streamed_amount host now store info =
    branch (ltb now info.start_time) (pure (pos 0)) (
      checkpoint_accrual host info store.rate_checkpoint store.cliff_config
        (effective_now info now))

unfoldable pub withdrawable : Host → ℕ → Store → StreamInfo → Calc Error ℤ
withdrawable host now store info = do
  streamed ← streamed_amount host now store info
  pure (max_ℤ (saturating_sub streamed info.withdrawn) (pos 0))

unfoldable pub calculate_streamed_amount : ℤ → ℕ → Calc Error ℤ
unfolding checked_mul
calculate_streamed_amount rate_per_second elapsed =
    branch (eqb_ℤ rate_per_second (pos 0) || elapsed == 0) (pure (pos 0))
      (ok_or (checked_mul rate_per_second (pos elapsed)) arithmetic_overflow)

unfoldable pub rate_duration_saturating : ℤ → ℕ → ℤ
unfolding saturating_mul
rate_duration_saturating rate_per_second duration =
    if eqb_ℤ rate_per_second (pos 0) || duration == 0
    then pos 0
    else saturating_mul rate_per_second (pos duration)

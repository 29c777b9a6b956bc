-- ===== src/Stream/Funding.antt =====
-- contracts/stream/src/lib.rs: `top_up`, `extend_duration` and `top_up_and_extend`.
pub mod Deposits
use stream_fi_contracts.Prelude.{ℕ, ◌-◌, ◌&&◌, ltb, leb, ◌==◌}
use stream_fi_contracts.Prelude.Int.{ℤ, pos, leb_ℤ, checked_mul, checked_add_u64}
use stream_fi_contracts.Prelude.Effect.{raise_if, ok_or, ◌>>=◌, ◌>>◌}
use stream_fi_contracts.Host.{Host, Address}
use stream_fi_contracts.Stream.Types.{
  invalid_amount, stream_ended, invalid_time_range, arithmetic_overflow,
}
use stream_fi_contracts.Stream.Env.{
  Act, timestamp, current_contract_address, require_auth, balance, transfer,
}
use stream_fi_contracts.Stream.State.{load, save, assert_not_cancelled, with_guard}
use stream_fi_contracts.Stream.Events
use stream_fi_contracts.Stream.Ttl.{bump, bump_for_remaining}
use stream_fi_contracts.Stream.Access.{require_sender_or_operator, add_cumulative_deposit}

module _ (host : Host) where
  unfoldable pub top_up_body : Address → ℤ → Act host.Tokens (Unit {0})
  unfolding load bump assert_not_cancelled add_cumulative_deposit Events.topped_up
  top_up_body caller amount = do
    raise_if (leb_ℤ amount (pos 0)) invalid_amount
    info ← load
    require_auth caller
    bump
    assert_not_cancelled info
    now ← timestamp
    raise_if (ltb 0 info.end_time && leb info.end_time now) stream_ended
    self ← current_contract_address
    add_cumulative_deposit host info amount
    transfer host info.token caller self amount
    new_balance ← balance host info.token self
    Events.topped_up caller amount new_balance

  unfoldable pub top_up : Address → ℤ → Act host.Tokens (Unit {0})
  unfolding with_guard
  top_up caller amount = with_guard (top_up_body caller amount)

  unfoldable pub extend_duration_body : Address → ℕ → Act host.Tokens (Unit {0})
  unfolding bump load assert_not_cancelled require_sender_or_operator checked_mul
      add_cumulative_deposit checked_add_u64 save bump_for_remaining Events.topped_up
  extend_duration_body caller extra_time_seconds = do
    raise_if (extra_time_seconds == 0) invalid_time_range
    bump
    info ← load
    assert_not_cancelled info
    require_sender_or_operator caller info.sender
    raise_if (info.end_time == 0) invalid_time_range
    required_deposit ←
        ok_or (checked_mul (pos extra_time_seconds) info.rate_per_second) arithmetic_overflow
    self ← current_contract_address
    add_cumulative_deposit host info required_deposit
    transfer host info.token caller self required_deposit
    end_time ← ok_or (checked_add_u64 info.end_time extra_time_seconds) arithmetic_overflow
    save (record info { end_time = end_time })
    now ← timestamp
    bump_for_remaining (end_time - now)
    new_balance ← balance host info.token self
    Events.topped_up caller required_deposit new_balance

  unfoldable pub extend_duration : Address → ℕ → Act host.Tokens (Unit {0})
  unfolding with_guard
  extend_duration caller extra_time_seconds =
      with_guard (extend_duration_body caller extra_time_seconds)

  unfoldable pub top_up_and_extend_body : Address → ℤ → ℕ → Act host.Tokens (Unit {0})
  unfolding load require_sender_or_operator bump assert_not_cancelled add_cumulative_deposit
      checked_add_u64 save bump_for_remaining Events.topped_up_and_extended
  top_up_and_extend_body caller amount extra_time_seconds = do
    raise_if (leb_ℤ amount (pos 0)) invalid_amount
    raise_if (extra_time_seconds == 0) invalid_time_range
    info ← load
    require_sender_or_operator caller info.sender
    bump
    assert_not_cancelled info
    raise_if (info.end_time == 0) invalid_time_range
    self ← current_contract_address
    old_balance ← balance host info.token self
    add_cumulative_deposit host info amount
    transfer host info.token caller self amount
    new_end_time ← ok_or (checked_add_u64 info.end_time extra_time_seconds) arithmetic_overflow
    save (record info { end_time = new_end_time })
    now ← timestamp
    bump_for_remaining (new_end_time - now)
    new_balance ← balance host info.token self
    Events.topped_up_and_extended caller old_balance new_balance info.end_time new_end_time

  unfoldable pub top_up_and_extend : Address → ℤ → ℕ → Act host.Tokens (Unit {0})
  unfolding with_guard
  top_up_and_extend caller amount extra_time_seconds =
      with_guard (top_up_and_extend_body caller amount extra_time_seconds)

-- ===== src/Stream/Rate.antt =====
-- contracts/stream/src/lib.rs: `change_rate` and `set_cliff`.
pub mod Cliff
pub mod Prospective
use stream_fi_contracts.Prelude.{ℕ, ◌&&◌, ◌||◌, Option, none, some, ltb, leb, if◌then◌else◌}
use stream_fi_contracts.Prelude.Int.{
  ℤ, pos, ltb_ℤ, leb_ℤ, checked_add, checked_mul, checked_sub_u64,
}
use stream_fi_contracts.Prelude.Effect.{pure, raise_if, ok_or, when, calc, ◌>>=◌, ◌>>◌}
use stream_fi_contracts.Host.{Host, Address}
use stream_fi_contracts.Stream.Types.{
  invalid_amount, stream_ended, arithmetic_overflow, invalid_time_range, StreamInfo, CliffConfig,
  RateCheckpoint, is_paused,
}
use stream_fi_contracts.Stream.Env.{Act, stored, store, timestamp}
use stream_fi_contracts.Stream.State.{load, save, assert_not_cancelled, with_guard}
use stream_fi_contracts.Stream.Events
use stream_fi_contracts.Stream.Math.{streamed_amount}
use stream_fi_contracts.Stream.Ttl.{bump}
use stream_fi_contracts.Stream.Access.{require_sender_or_operator}

-- The checkpoint of a rate change that takes effect at `at`, when `accrued` has streamed.
unfoldable pub new_checkpoint : Option CliffConfig → StreamInfo → ℕ → ℤ → RateCheckpoint
new_checkpoint (some cfg) info at accrued =
    if ltb at cfg.cliff_time
    then record { accrued = cfg.cliff_unlock_amount; at = cfg.cliff_time }
    else record { accrued = accrued; at = at }
new_checkpoint none info at accrued =
    if ltb at info.start_time
    then record { accrued = pos 0; at = info.start_time }
    else record { accrued = accrued; at = at }

module _ {T : Type 0} where
  -- The whole obligation under the new rate must fit.
  unfoldable pub check_obligation : StreamInfo → RateCheckpoint → ℤ → Act T (Unit {0})
  unfolding checked_sub_u64 checked_mul checked_add
  check_obligation info checkpoint new_rate =
      when (ltb 0 info.end_time && ltb checkpoint.at info.end_time) do
        remaining ← ok_or (checked_sub_u64 info.end_time checkpoint.at) arithmetic_overflow
        future ← ok_or (checked_mul new_rate (pos remaining)) arithmetic_overflow
        total ← ok_or (checked_add checkpoint.accrued future) arithmetic_overflow
        pure tt

module _ (host : Host) where
  unfoldable pub change_rate_body : Address → ℤ → Act host.Tokens (Unit {0})
  unfolding load assert_not_cancelled require_sender_or_operator new_checkpoint check_obligation
      bump save Events.rate_changed
  change_rate_body caller new_rate_per_second = do
    raise_if (leb_ℤ new_rate_per_second (pos 0)) invalid_amount
    info ← load
    assert_not_cancelled info
    require_sender_or_operator caller info.sender
    now ← timestamp
    raise_if (ltb 0 info.end_time && leb info.end_time now) stream_ended
    accrued ← λ env. calc (streamed_amount host env.now env.store info) env
    let effective_change_time = if is_paused info then info.paused_at else now
    cliff_cfg ← stored (λ s. s.cliff_config)
    let checkpoint = new_checkpoint cliff_cfg info effective_change_time accrued
    check_obligation info checkpoint new_rate_per_second
    bump
    save (record info { rate_per_second = new_rate_per_second })
    store (λ s. record s { rate_checkpoint = some checkpoint })
    Events.rate_changed caller info.rate_per_second new_rate_per_second

  unfoldable pub change_rate : Address → ℤ → Act host.Tokens (Unit {0})
  unfolding with_guard
  change_rate caller new_rate_per_second = with_guard (change_rate_body caller new_rate_per_second)

module _ {T : Type 0} where
  unfoldable pub set_cliff_body : Address → ℕ → ℤ → Act T (Unit {0})
  unfolding bump load assert_not_cancelled require_sender_or_operator Events.cliff_configured
  set_cliff_body caller cliff_time cliff_unlock_amount = do
    bump
    info ← load
    assert_not_cancelled info
    require_sender_or_operator caller info.sender
    raise_if (ltb_ℤ cliff_unlock_amount (pos 0)) invalid_amount
    raise_if
        (ltb cliff_time info.start_time || (ltb 0 info.end_time && ltb info.end_time cliff_time))
        invalid_time_range
    store (λ s. record s {
      cliff_config =
          some (record { cliff_time = cliff_time; cliff_unlock_amount = cliff_unlock_amount });
    })
    Events.cliff_configured caller cliff_time cliff_unlock_amount

  unfoldable pub set_cliff : Address → ℕ → ℤ → Act T (Unit {0})
  unfolding with_guard
  set_cliff caller cliff_time cliff_unlock_amount =
      with_guard (set_cliff_body caller cliff_time cliff_unlock_amount)

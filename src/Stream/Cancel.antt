-- ===== src/Stream/Cancel.antt =====
-- contracts/stream/src/lib.rs: `cancel`, `force_cancel` and `clawback`.
pub mod Settle
pub mod Payments
pub mod Closing
pub mod Calls
use stream_fi_contracts.Prelude.{ℕ, ◌-◌, Bool, true, not, Option, none, some, ltb}
use stream_fi_contracts.Prelude.Int.{ℤ, pos, ltb_ℤ, min_ℤ, max_ℤ, checked_add, checked_sub}
use stream_fi_contracts.Prelude.Effect.{pure, raise_if, ok_or, or_trap, when, calc, ◌>>=◌, ◌>>◌}
use stream_fi_contracts.Host.{Host, Address}
use stream_fi_contracts.Stream.Types.{
  stream_not_cancelable, arithmetic_overflow, not_paused, pause_threshold_not_met,
  clawback_disabled, StreamInfo, StreamConfig, is_paused, is_clawback_enabled, mark_cancelled,
}
use stream_fi_contracts.Stream.Env.{
  Act, stored, timestamp, current_contract_address, require_auth, balance, transfer,
}
use stream_fi_contracts.Stream.State.{load, save, assert_not_cancelled, with_guard}
use stream_fi_contracts.Stream.Events
use stream_fi_contracts.Stream.Math.{streamed_amount}
use stream_fi_contracts.Stream.Ttl.{bump}
use stream_fi_contracts.Stream.Access.{
  auto_forward_address, require_sender_or_operator, require_not_paused,
}
use stream_fi_contracts.Stream.Withdraw.{payout}

abbrev pub is_cancelable : Option StreamConfig → Bool
is_cancelable none = true
is_cancelable (some cfg) = cfg.is_cancelable

abbrev pub default_pause_threshold_secs : ℕ
default_pause_threshold_secs = 2592000

abbrev pub threshold : Option ℕ → ℕ
threshold none = default_pause_threshold_secs
threshold (some secs) = secs

-- The contract's balance, what has streamed, what the recipient still gets, what the sender gets
-- back, and what the recipient has then received over the stream's life.
pub record Settlement : Type 0 where
  pub held : ℤ
  pub streamed : ℤ
  pub owed_to_recipient : ℤ
  pub refund_to_sender : ℤ
  pub total_withdrawn : ℤ

module _ (host : Host) where
  -- `max(0)` of a plain subtraction, which panics on overflow.
  abbrev pub excess : ℤ → ℤ → Act host.Tokens ℤ
  excess a b = do d ← or_trap (checked_sub a b); pure (max_ℤ d (pos 0))

  -- How the contract's balance divides, on the ledger time.
  unfoldable pub settlement : StreamInfo → Act host.Tokens Settlement
  unfolding checked_sub checked_add
  settlement info = do
    self ← current_contract_address
    held ← balance host info.token self
    streamed ← λ env. calc (streamed_amount host env.now env.store info) env
    unpaid ← excess streamed info.withdrawn
    let owed_to_recipient = min_ℤ unpaid held
    refund_to_sender ← excess held owed_to_recipient
    total_withdrawn ← ok_or (checked_add info.withdrawn owed_to_recipient) arithmetic_overflow
    pure (record {
      held = held;
      streamed = streamed;
      owed_to_recipient = owed_to_recipient;
      refund_to_sender = refund_to_sender;
      total_withdrawn = total_withdrawn;
    })

  abbrev pub pay_recipient : StreamInfo → ℤ → Act host.Tokens (Unit {0})
  pay_recipient info owed_to_recipient = do
    payout_recipient ← auto_forward_address info.recipient
    payout host info payout_recipient owed_to_recipient

  unfoldable pub pay_settlement : StreamInfo → Settlement → Act host.Tokens (Unit {0})
  unfolding save payout auto_forward_address
  pay_settlement info s = do
    let cancelled_info = mark_cancelled info
    save (record cancelled_info { withdrawn = s.total_withdrawn })
    when (ltb_ℤ (pos 0) s.owed_to_recipient) (pay_recipient info s.owed_to_recipient)
    self ← current_contract_address
    when (ltb_ℤ (pos 0) s.refund_to_sender)
        (transfer host info.token self info.sender s.refund_to_sender)

  -- What `cancel` and `force_cancel` do once the call is admitted: mark the stream, pay the
  -- recipient what is earned, return the rest to the sender.
  unfoldable pub settle : StreamInfo → Act host.Tokens Settlement
  unfolding settlement pay_settlement
  settle info = do s ← settlement info; pay_settlement info s; pure s

  -- The checks of `cancel`, in order.
  unfoldable pub admit_cancel : Address → Act host.Tokens StreamInfo
  unfolding bump load assert_not_cancelled require_sender_or_operator
  admit_cancel caller = do
    bump
    info ← load
    assert_not_cancelled info
    cancelable ← stored (λ s. is_cancelable s.stream_config)
    raise_if (not cancelable) stream_not_cancelable
    require_sender_or_operator caller info.sender
    pure info

  unfoldable pub cancel_body : Address → Act host.Tokens (Unit {0})
  unfolding admit_cancel settle Events.cancelled
  cancel_body caller = do
    info ← admit_cancel caller
    paid ← settle info
    Events.cancelled info.sender paid.refund_to_sender paid.total_withdrawn paid.refund_to_sender

  unfoldable pub cancel : Address → Act host.Tokens (Unit {0})
  unfolding with_guard
  cancel caller = with_guard (cancel_body caller)

  -- The checks of `force_cancel`, in order.
  unfoldable pub admit_force_cancel : Act host.Tokens StreamInfo
  unfolding bump load assert_not_cancelled
  admit_force_cancel = do
    pause_threshold_secs ← stored (λ s. threshold s.force_cancel_pause_threshold_secs)
    bump
    info ← load
    assert_not_cancelled info
    raise_if (not (is_paused info)) not_paused
    now ← timestamp
    raise_if (ltb (now - info.paused_at) pause_threshold_secs) pause_threshold_not_met
    require_auth info.recipient
    pure info

  unfoldable pub force_cancel_body : Act host.Tokens (Unit {0})
  unfolding admit_force_cancel settle Events.force_cancelled
  force_cancel_body = do
    info ← admit_force_cancel
    paid ← settle info
    Events.force_cancelled info.sender paid.refund_to_sender paid.total_withdrawn
        paid.refund_to_sender

  unfoldable pub force_cancel : Act host.Tokens (Unit {0})
  unfolding with_guard
  force_cancel = with_guard force_cancel_body

  unfoldable pub clawback_body : Address → Act host.Tokens ℤ
  unfolding bump load assert_not_cancelled require_not_paused require_sender_or_operator checked_sub
      Events.clawback
  clawback_body caller = do
    bump
    info ← load
    assert_not_cancelled info
    require_not_paused info
    raise_if (not (is_clawback_enabled info)) clawback_disabled
    require_sender_or_operator caller info.sender
    streamed ← λ env. calc (streamed_amount host env.now env.store info) env
    owed ← excess streamed info.withdrawn
    self ← current_contract_address
    held ← balance host info.token self
    amount ← excess held owed
    when (ltb_ℤ (pos 0) amount) (transfer host info.token self info.sender amount)
    Events.clawback caller amount
    pure amount

  unfoldable pub clawback : Address → Act host.Tokens ℤ
  unfolding with_guard
  clawback caller = with_guard (clawback_body caller)

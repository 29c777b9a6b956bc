-- ===== src/Stream/Events.antt =====
-- contracts/stream/src/events.rs: each event takes the next sequence number, which is kept in the
-- stream's record, and refuses a negative amount.
pub mod Quiet
use stream_fi_contracts.Prelude.{ℕ, List, [], ◌∷◌, Option, none, some}
use stream_fi_contracts.Host.{Address}
use stream_fi_contracts.Prelude.Int.{ℤ, pos, ltb_ℤ, checked_add_u64}
use stream_fi_contracts.Prelude.Effect.{contract, panic, panic_if, pure, ◌>>=◌, ◌>>◌}
use stream_fi_contracts.Stream.Types.{arithmetic_overflow, invalid_amount}
use stream_fi_contracts.Stream.Env.{Event, Act, publish}
use stream_fi_contracts.Stream.State.{load, save}

module _ {T : Type 0} where
  abbrev or_overflow : Option ℕ → Act T ℕ
  or_overflow none = panic (contract arithmetic_overflow)
  or_overflow (some next) = pure next

  unfoldable pub next_sequence : Act T ℕ
  unfolding load save checked_add_u64
  next_sequence = do
    before ← load
    next ← or_overflow (checked_add_u64 before.event_sequence 1)
    info ← load
    save (record info { event_sequence = next })
    pure next

  unfoldable pub assert_non_negative_amount : ℤ → Act T (Unit {0})
  assert_non_negative_amount value = panic_if (ltb_ℤ value (pos 0)) invalid_amount

  abbrev pub assert_all : List ℤ → Act T (Unit {0})
  assert_all [] = pure tt
  assert_all (value ∷ values) = assert_non_negative_amount value >> assert_all values

  -- The common body of the functions of events.rs: the amounts that the function checks, in order,
  -- then the sequence number, then the event.
  unfoldable pub emit : List ℤ → Event → Act T (Unit {0})
  unfolding next_sequence assert_non_negative_amount
  emit amounts event = do assert_all amounts; sequence ← next_sequence; publish sequence event

  unfoldable pub created :
      (sender recipient token : Address) (rate_per_second : ℤ)
      (start_time end_time storage_version : ℕ)
      → Act T (Unit {0})
  unfolding emit
  created sender recipient token rate_per_second start_time end_time storage_version =
      emit (rate_per_second ∷ [])
        (Event.created sender recipient token rate_per_second start_time end_time storage_version)

  unfoldable pub withdrawn :
      (recipient : Address) (amount total_withdrawn remaining : ℤ) → Act T (Unit {0})
  unfolding emit
  withdrawn recipient amount total_withdrawn remaining =
      emit (amount ∷ total_withdrawn ∷ remaining ∷ [])
        (Event.withdrawn recipient amount total_withdrawn remaining)

  unfoldable pub cancelled :
      (sender : Address) (refund_amount withdrawn_so_far remaining_deposit : ℤ) → Act T (Unit {0})
  unfolding emit
  cancelled sender refund_amount withdrawn_so_far remaining_deposit =
      emit (refund_amount ∷ withdrawn_so_far ∷ remaining_deposit ∷ [])
        (Event.cancelled sender refund_amount withdrawn_so_far remaining_deposit)

  unfoldable pub force_cancelled :
      (sender : Address) (refund_amount withdrawn_so_far remaining_deposit : ℤ) → Act T (Unit {0})
  unfolding emit
  force_cancelled sender refund_amount withdrawn_so_far remaining_deposit =
      emit (refund_amount ∷ withdrawn_so_far ∷ remaining_deposit ∷ [])
        (Event.force_cancelled sender refund_amount withdrawn_so_far remaining_deposit)

  unfoldable pub paused :
      (initiator : Address) (paused_at : ℕ) (withdrawable : ℤ) → Act T (Unit {0})
  unfolding emit
  paused initiator paused_at withdrawable =
      emit (withdrawable ∷ []) (Event.paused initiator paused_at withdrawable)

  unfoldable pub resumed : (initiator : Address) (resumed_at : ℕ) → Act T (Unit {0})
  unfolding emit
  resumed initiator resumed_at = emit [] (Event.resumed initiator resumed_at)

  unfoldable pub topped_up : (sender : Address) (amount new_balance : ℤ) → Act T (Unit {0})
  unfolding emit
  topped_up sender amount new_balance =
      emit (amount ∷ new_balance ∷ []) (Event.topped_up sender amount new_balance)

  unfoldable pub topped_up_and_extended :
      (caller : Address) (old_balance new_balance : ℤ) (old_end_time new_end_time : ℕ)
      → Act T (Unit {0})
  unfolding emit
  topped_up_and_extended caller old_balance new_balance old_end_time new_end_time =
      emit (old_balance ∷ new_balance ∷ [])
        (Event.topped_up_and_extended caller old_balance new_balance old_end_time new_end_time)

  unfoldable pub rate_changed : (caller : Address) (old_rate new_rate : ℤ) → Act T (Unit {0})
  unfolding emit
  rate_changed caller old_rate new_rate =
      emit (old_rate ∷ new_rate ∷ []) (Event.rate_changed caller old_rate new_rate)

  unfoldable pub clawback : (sender : Address) (amount : ℤ) → Act T (Unit {0})
  unfolding emit
  clawback sender amount = emit (amount ∷ []) (Event.clawback sender amount)

  unfoldable pub recipient_transferred : (old_recipient new_recipient : Address) → Act T (Unit {0})
  unfolding emit
  recipient_transferred old_recipient new_recipient =
      emit [] (Event.recipient_transferred old_recipient new_recipient)

  unfoldable pub operator_set : (sender operator : Address) → Act T (Unit {0})
  unfolding emit
  operator_set sender operator = emit [] (Event.operator_set sender operator)

  unfoldable pub operator_revoked : (sender : Address) → Act T (Unit {0})
  unfolding emit
  operator_revoked sender = emit [] (Event.operator_revoked sender)

  unfoldable pub split_recipient_set :
      (caller secondary_recipient : Address) (split_bps : ℕ) → Act T (Unit {0})
  unfolding emit
  split_recipient_set caller secondary_recipient split_bps =
      emit [] (Event.split_recipient_set caller secondary_recipient split_bps)

  unfoldable pub split_recipient_removed : (caller : Address) → Act T (Unit {0})
  unfolding emit
  split_recipient_removed caller = emit [] (Event.split_recipient_removed caller)

  unfoldable pub cliff_configured :
      (sender : Address) (cliff_time : ℕ) (cliff_unlock_amount : ℤ) → Act T (Unit {0})
  unfolding emit
  cliff_configured sender cliff_time cliff_unlock_amount =
      emit (cliff_unlock_amount ∷ []) (Event.cliff_configured sender cliff_time cliff_unlock_amount)

  unfoldable pub min_withdrawal_interval_set :
      (sender : Address) (interval_seconds : ℕ) → Act T (Unit {0})
  unfolding emit
  min_withdrawal_interval_set sender interval_seconds =
      emit [] (Event.min_withdrawal_interval_set sender interval_seconds)

  unfoldable pub keeper_ping : (keeper : Address) (bounty_amount : ℤ) → Act T (Unit {0})
  unfolding emit
  keeper_ping keeper bounty_amount =
      emit (bounty_amount ∷ []) (Event.keeper_ping keeper bounty_amount)

  unfoldable pub keeper_reward_pool_configured :
      (caller reward_token : Address) (reward_per_ping : ℤ) → Act T (Unit {0})
  unfolding emit
  keeper_reward_pool_configured caller reward_token reward_per_ping =
      emit (reward_per_ping ∷ [])
        (Event.keeper_reward_pool_configured caller reward_token reward_per_ping)

  unfoldable pub keeper_reward_pool_funded :
      (funder reward_token : Address) (amount : ℤ) → Act T (Unit {0})
  unfolding emit
  keeper_reward_pool_funded funder reward_token amount =
      emit (amount ∷ []) (Event.keeper_reward_pool_funded funder reward_token amount)

  unfoldable pub keeper_reward_pool_withdrawn :
      (caller reward_token : Address) (amount : ℤ) → Act T (Unit {0})
  unfolding emit
  keeper_reward_pool_withdrawn caller reward_token amount =
      emit (amount ∷ []) (Event.keeper_reward_pool_withdrawn caller reward_token amount)

  unfoldable pub emergency_paused : (caller : Address) (timestamp : ℕ) → Act T (Unit {0})
  unfolding emit
  emergency_paused caller timestamp = emit [] (Event.emergency_paused caller timestamp)

  unfoldable pub emergency_unpaused : (caller : Address) (timestamp : ℕ) → Act T (Unit {0})
  unfolding emit
  emergency_unpaused caller timestamp = emit [] (Event.emergency_unpaused caller timestamp)

  unfoldable pub cliff_reached :
      (recipient : Address) (timestamp : ℕ) (unlock_amount : ℤ) → Act T (Unit {0})
  unfolding emit
  cliff_reached recipient timestamp unlock_amount =
      emit (unlock_amount ∷ []) (Event.cliff_reached recipient timestamp unlock_amount)

  unfoldable pub stream_completed : (recipient : Address) (total_withdrawn : ℤ) → Act T (Unit {0})
  unfolding emit
  stream_completed recipient total_withdrawn =
      emit (total_withdrawn ∷ []) (Event.stream_completed recipient total_withdrawn)

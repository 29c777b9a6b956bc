-- ===== src/Stream/Withdraw.antt =====
-- contracts/stream/src/lib.rs: `withdraw`, its dry run, and the rate limit on withdrawals.
pub mod Payment
pub mod Split
pub mod Admission
pub mod Effects
pub mod Entitlement
pub mod Conservation
use stream_fi_contracts.Prelude.{
  ℕ, Bool, true, false, not, ◌&&◌, ◌||◌, Option, none, some, ltb, leb,
}
use stream_fi_contracts.Prelude.Int.{
  ℤ, pos, ltb_ℤ, leb_ℤ, eqb_ℤ, min_ℤ, checked_add, checked_sub, saturating_add_u64,
}
use stream_fi_contracts.Prelude.Effect.{pure, raise_if, ok_or, when, calc, ◌>>=◌, ◌>>◌}
use stream_fi_contracts.Host.{Host, Address}
use stream_fi_contracts.Stream.Types.{
  invalid_amount, withdrawal_too_frequent, nothing_to_withdraw, stream_underfunded,
  arithmetic_overflow, StreamInfo, SplitConfig, CliffConfig,
}
use stream_fi_contracts.Stream.Env.{
  Act, Store, stored, store, timestamp, current_contract_address, require_auth, balance, transfer,
}
use stream_fi_contracts.Stream.State.{load, save, assert_not_cancelled, with_guard}
use stream_fi_contracts.Stream.Events
use stream_fi_contracts.Stream.Math.{mul_div, withdrawable}
use stream_fi_contracts.Stream.Ttl.{bump}
use stream_fi_contracts.Stream.Access.{auto_forward_address, require_sender_or_operator}

abbrev pub or_zero : Option ℕ → ℕ
or_zero none = 0
or_zero (some n) = n

abbrev pub is_set : Option Bool → Bool
is_set none = false
is_set (some b) = true

-- The rate limit's test, on the ledger time.
unfoldable pub is_too_frequent : Store → ℕ → Bool
unfolding saturating_add_u64
is_too_frequent s now =
    let min_interval = or_zero s.min_withdrawal_interval in
    let last_withdrawal = or_zero s.last_withdrawal_time in
    ltb 0 min_interval
    && (ltb 0 last_withdrawal && ltb now (saturating_add_u64 last_withdrawal min_interval))

module _ {T : Type 0} where
  unfoldable pub check_interval : Act T (Unit {0})
  unfolding is_too_frequent
  check_interval env = raise_if (is_too_frequent env.store env.now) withdrawal_too_frequent env

  abbrev reach_cliff : Option CliffConfig → StreamInfo → ℕ → Act T (Unit {0})
  reach_cliff none info now = pure tt
  reach_cliff (some cliff) info now = do
    reached ← stored (λ s. is_set s.cliff_reached)
    (when (leb cliff.cliff_time now && not reached) do
      store (λ s. record s { cliff_reached = some true })
      Events.cliff_reached info.recipient now cliff.cliff_unlock_amount)

  -- The two one-time events at the end of a withdrawal.
  unfoldable pub milestones :
      StreamInfo → (now : ℕ) → (held new_withdrawn remaining : ℤ) → Act T (Unit {0})
  unfolding Events.cliff_reached Events.stream_completed
  milestones info now held new_withdrawn remaining = do
    cliff ← stored (λ s. s.cliff_config)
    reach_cliff cliff info now
    completed ← stored (λ s. is_set s.stream_completed)
    (when
        (eqb_ℤ remaining (pos 0) && ((ltb 0 info.end_time || ltb_ℤ (pos 0) held) && not completed))
        do
          store (λ s. record s { stream_completed = some true })
          Events.stream_completed info.recipient new_withdrawn)

-- What a withdrawal has computed when it starts to write.
pub record Withdrawal : Type 0 where
  pub info : StreamInfo
  pub payout_recipient : Address
  pub available : ℤ
  pub held : ℤ
  pub to_send : ℤ
  pub new_withdrawn : ℤ

module _ (host : Host) where
  abbrev pay_split :
      Option SplitConfig
      → StreamInfo
      → (payout_recipient : Address) → ℤ
      → Act host.Tokens (Unit {0})
  pay_split none info payout_recipient amount = do
    self ← current_contract_address
    transfer host info.token self payout_recipient amount
  pay_split (some split) info payout_recipient amount = do
    self ← current_contract_address
    secondary_amount ← calc (mul_div host amount split.split_bps 10000)
    primary_amount ← ok_or (checked_sub amount secondary_amount) arithmetic_overflow
    when (ltb_ℤ (pos 0) primary_amount)
        (transfer host info.token self payout_recipient primary_amount)
    when (ltb_ℤ (pos 0) secondary_amount)
        (transfer host info.token self split.secondary_recipient secondary_amount)

  -- The recipient's payment, divided where a split is configured.
  unfoldable pub payout : StreamInfo → (payout_recipient : Address) → ℤ → Act host.Tokens (Unit {0})
  unfolding checked_sub
  payout info payout_recipient amount = do
    split ← stored (λ s. s.split_config)
    pay_split split info payout_recipient amount

  -- Everything before the first write to the record: what the call has found out.
  unfoldable pub admit_withdrawal : ℤ → Act host.Tokens Withdrawal
  unfolding bump load assert_not_cancelled check_interval auto_forward_address checked_add
  admit_withdrawal amount = do
    raise_if (leb_ℤ amount (pos 0)) invalid_amount
    bump
    info ← load
    assert_not_cancelled info
    require_auth info.recipient
    check_interval
    available ← λ env. calc (withdrawable host env.now env.store info) env
    raise_if (eqb_ℤ available (pos 0)) nothing_to_withdraw
    self ← current_contract_address
    payout_recipient ← auto_forward_address info.recipient
    held ← balance host info.token self
    let to_send = min_ℤ (min_ℤ amount available) held
    raise_if (eqb_ℤ to_send (pos 0)) stream_underfunded
    new_withdrawn ← ok_or (checked_add info.withdrawn to_send) arithmetic_overflow
    pure (record {
      info = info;
      payout_recipient = payout_recipient;
      available = available;
      held = held;
      to_send = to_send;
      new_withdrawn = new_withdrawn;
    })

  -- The new record, the payment, and the time of it.
  unfoldable pub pay_withdrawal : Withdrawal → Act host.Tokens (Unit {0})
  unfolding save payout
  pay_withdrawal w = do
    let info = w.info
    save (record info { withdrawn = w.new_withdrawn })
    payout w.info w.payout_recipient w.to_send
    now ← timestamp
    store (λ s. record s { last_withdrawal_time = some now })

  -- The events.
  unfoldable pub announce_withdrawal : Withdrawal → Act host.Tokens ℤ
  unfolding checked_sub
  announce_withdrawal w = do
    now ← timestamp
    remaining ← ok_or (checked_sub w.held w.to_send) arithmetic_overflow
    Events.withdrawn w.info.recipient w.to_send w.new_withdrawn remaining
    milestones w.info now w.held w.new_withdrawn remaining
    pure w.to_send

  unfoldable pub settle_withdrawal : Withdrawal → Act host.Tokens ℤ
  unfolding pay_withdrawal announce_withdrawal Events.withdrawn milestones
  settle_withdrawal w = do pay_withdrawal w; announce_withdrawal w

  unfoldable pub withdraw_body : ℤ → Act host.Tokens ℤ
  unfolding admit_withdrawal settle_withdrawal
  withdraw_body amount = do w ← admit_withdrawal amount; settle_withdrawal w

  unfoldable pub withdraw : ℤ → Act host.Tokens ℤ
  unfolding with_guard
  withdraw amount = with_guard (withdraw_body amount)

  abbrev check_split : Option SplitConfig → ℤ → Act host.Tokens (Unit {0})
  check_split none to_send = pure tt
  check_split (some split) to_send = do
    secondary_amount ← calc (mul_div host to_send split.split_bps 10000)
    primary_amount ← ok_or (checked_sub to_send secondary_amount) arithmetic_overflow
    pure tt

  unfoldable pub validate_withdraw : ℤ → Act host.Tokens (Unit {0})
  unfolding load assert_not_cancelled check_interval checked_add checked_sub
  validate_withdraw amount = do
    raise_if (leb_ℤ amount (pos 0)) invalid_amount
    info ← load
    assert_not_cancelled info
    check_interval
    available ← λ env. calc (withdrawable host env.now env.store info) env
    raise_if (eqb_ℤ available (pos 0)) nothing_to_withdraw
    self ← current_contract_address
    held ← balance host info.token self
    let to_send = min_ℤ (min_ℤ amount available) held
    raise_if (eqb_ℤ to_send (pos 0)) stream_underfunded
    new_withdrawn ← ok_or (checked_add info.withdrawn to_send) arithmetic_overflow
    split ← stored (λ s. s.split_config)
    check_split split to_send

module _ {T : Type 0} where
  unfoldable pub set_min_withdrawal_interval : Address → ℕ → Act T (Unit {0})
  unfolding with_guard bump load assert_not_cancelled require_sender_or_operator
      Events.min_withdrawal_interval_set
  set_min_withdrawal_interval caller interval_seconds = with_guard do
    bump
    info ← load
    assert_not_cancelled info
    require_sender_or_operator caller info.sender
    store (λ s. record s { min_withdrawal_interval = some interval_seconds })
    Events.min_withdrawal_interval_set caller interval_seconds

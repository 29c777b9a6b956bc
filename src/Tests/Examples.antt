-- ===== src/Tests/Examples.antt =====
-- The theorems on the sample streams.
use stream_fi_contracts.Prelude.{ℕ, ◌≤◌, ◌<◌, ◌≡◌, ◌≢◌, refl, true, false, none, some, arith}
use stream_fi_contracts.Prelude.Int.{ltb_ℤ, pos, ltb_ℤ, ◌+ℤ◌, ◌-ℤ◌, ◌≤ℤ◌, ◌<ℤ◌}
use stream_fi_contracts.Prelude.Effect.{ok, commit}
use stream_fi_contracts.Common.Pause
use stream_fi_contracts.Common.Pause.Expiry
use stream_fi_contracts.Stream.Types.{has_flag, is_cancelled, is_paused}
use stream_fi_contracts.Stream.State.{depth}
use stream_fi_contracts.Stream.Events.Quiet.{SameButSequence}
use stream_fi_contracts.Stream.Math.{mul_div, withdrawable, streamed_amount}
use stream_fi_contracts.Stream.Math.MulDiv.{mul_div-floor}
use stream_fi_contracts.Stream.Math.Accrual.{IsSound, streamed_amount-scheduled}
use stream_fi_contracts.Stream.Math.Available.{withdrawable-scheduled}
use stream_fi_contracts.Stream.Math.Schedule.{streamed_amount_mono, streamed_amount-total}
use stream_fi_contracts.Stream.Withdraw.{payout}
use stream_fi_contracts.Stream.Withdraw.Split.{Divides, payout-Divides}
use stream_fi_contracts.Stream.Withdraw.Entitlement.{withdraw_pays_accrued}
use stream_fi_contracts.Stream.Withdraw.Conservation.{withdraw_conserves, withdraw-IsSound}
use stream_fi_contracts.Stream.Cancel.Closing.{Ends}
use stream_fi_contracts.Stream.Cancel.Calls.{Ready, cancel-Ends, force_cancel-Ends}
use stream_fi_contracts.Stream.Pausing.Freeze
use stream_fi_contracts.Stream.Pausing.Freeze.{Pauses, pause_freezes}
use stream_fi_contracts.Stream.Pausing.Resume.{resumed}
use stream_fi_contracts.Stream.Pausing.Accrual.{
  unpaused, resume_continues, resume_cliff_counts_pause,
}
use stream_fi_contracts.Stream.Rate.Cliff.{Accepts, set_cliff_erases_accrual}
use stream_fi_contracts.Stream.Rate.{set_cliff}
use stream_fi_contracts.Stream.Env.{Env}
use stream_fi_contracts.Stream.Calls.{Call, run}
use stream_fi_contracts.Stream.Calls.Cancelled.{run-cancelled}
use stream_fi_contracts.Stream.Keeper.Ping.{Pings, keeper_ping-Pings}
use stream_fi_contracts.Stream.Funding.Deposits.{TopsUp, top_up-TopsUp}
use stream_fi_contracts.Stream.Roles.Recipient.{HandsOver, transfer_recipient-HandsOver}
use stream_fi_contracts.Tests.{Balances, test_host, test_u256, test_token, test_transfer}
use stream_fi_contracts.Tests.Samples
use stream_fi_contracts.Tests.Samples.{
  info, sender, recipient, second, self, token, split, running, halted, halted_cliff, paused_info,
  cliff,
}
use stream_fi_contracts.Tests.Runs.{
  withdraw_runs, cancel_runs, force_cancel_runs, pause_runs, resume_runs, resume_cliff_runs,
  keeper_ping_runs, top_up_runs, transfer_recipient_runs, withdrawn_config, cancelled_config,
}

info-IsSound : IsSound info
unfolding has_flag
info-IsSound = record {
  rate_positive = omega arith;
  rate_bounded = omega arith;
  ordered = λ h. omega arith;
  start_bounded = omega arith;
  end_bounded = omega arith;
  pause_bounded = omega arith;
  pause_started = λ h. absurd (cc h);
  pause_inside = λ h. absurd (cc h);
  withdrawn_nonneg = omega arith;
  withdrawn_bounded = omega arith;
}

paused_info-IsSound : IsSound paused_info
paused_info-IsSound = record {
  rate_positive = omega arith;
  rate_bounded = omega arith;
  ordered = λ h. omega arith;
  start_bounded = omega arith;
  end_bounded = omega arith;
  pause_bounded = omega arith;
  pause_started = λ h. omega arith;
  pause_inside = λ h l. omega arith;
  withdrawn_nonneg = omega arith;
  withdrawn_bounded = omega arith;
}

abbrev sample_pause : Pause.PauseState
sample_pause = record {
  paused = true;
  paused_at = 500;
  max_duration = some 600;
  unpaused_at = none;
  unpause_cooldown = none;
}

mul_div-floor_example : mul_div test_host (pos 7) 10 4 tt ≡ ok (pos 17) tt
mul_div-floor_example =
    mul_div-floor test_host test_u256 7 10 4 (omega arith) (omega arith) (omega arith) (omega arith)

streamed_amount-scheduled_example :
    streamed_amount test_host 300 running.store info tt ≡ ok (pos 2000) tt
unfolding has_flag
streamed_amount-scheduled_example =
    streamed_amount-scheduled test_host test_u256 300 running.store info info-IsSound tt tt
      (omega arith)

withdrawable-scheduled_example : withdrawable test_host 300 running.store info tt ≡ ok (pos 1990) tt
unfolding has_flag
withdrawable-scheduled_example =
    withdrawable-scheduled test_host test_u256 300 running.store info info-IsSound tt tt
      (omega arith)

streamed_amount_mono_example : pos 2000 ≤ℤ pos 3000
unfolding has_flag
streamed_amount_mono_example =
    streamed_amount_mono test_host test_u256 running.store info 300 400 (pos 2000) (pos 3000)
      info-IsSound tt tt (omega arith) (omega arith)
      (streamed_amount-scheduled test_host test_u256 300 running.store info info-IsSound tt tt
        (omega arith))
      (streamed_amount-scheduled test_host test_u256 400 running.store info info-IsSound tt tt
        (omega arith))

streamed_amount-total_example :
    (n : ℕ) × (streamed_amount test_host 5000 running.store info tt ≡ ok (pos n) tt) × (n ≤ 10000)
streamed_amount-total_example =
    streamed_amount-total test_host test_u256 5000 running.store info info-IsSound refl refl
      (omega arith) (omega arith) (omega arith)

withdraw_pays_accrued_example :
    (running.auth recipient ≡ true)
    × (is_cancelled info ≡ false)
    × (pos 500 ≤ℤ pos 500)
    × SameButSequence (some (record info { withdrawn = pos 510 })) Samples.withdrawn.store.config
    × (pos 510 ≤ℤ pos 2000)
    × (Samples.withdrawn.store.cliff_config ≡ none)
    × (Samples.withdrawn.store.rate_checkpoint ≡ none)
    × (depth Samples.withdrawn.store.guard ≡ 0)
unfolding ◌+ℤ◌ has_flag
withdraw_pays_accrued_example =
    withdraw_pays_accrued test_host test_u256 (pos 500) (pos 500) running Samples.withdrawn info
      refl info-IsSound tt tt (omega arith) withdraw_runs

withdraw_conserves_example :
    (k : ℕ) × (pos 500 ≡ pos k)
    × (0 < k)
    × (k ≤ (test_token token).held self running.tokens)
    × Divides test_host token
        (test_token token)
        (some split)
        self
        recipient
        k
        running.tokens
        Samples.withdrawn.tokens
withdraw_conserves_example =
    withdraw_conserves test_host test_u256 (pos 500) (pos 500) running Samples.withdrawn info
      (test_token token) refl info-IsSound tt tt (omega arith) (omega arith)
      (omega arith, omega arith, omega arith) withdraw_runs

payout-Divides_example :
    Divides test_host token
      (test_token token)
      (some split)
      self
      recipient
      100
      running.tokens
      (commit running (payout test_host info recipient (pos 100) running)).tokens
unfolding payout ltb_ℤ ◌-ℤ◌ test_transfer mul_div
payout-Divides_example =
    payout-Divides test_host token (test_token token) test_u256 info recipient 100 running
      (commit running (payout test_host info recipient (pos 100) running)) refl (omega arith)
      (omega arith) (omega arith, omega arith, omega arith) refl

running-Ready : Ready test_host test_u256 info (test_token token) running
running-Ready = record {
  configured = refl;
  sound = info-IsSound;
  checkpoint_sound = tt;
  cliff_sound = tt;
  time_bounded = omega arith;
  payee_apart = omega arith;
  sender_apart = omega arith;
  sender_not_payee = omega arith;
  sender_not_second = omega arith;
  split_apart = (omega arith, omega arith, omega arith);
}

halted-Ready : Ready test_host test_u256 paused_info (test_token token) halted
halted-Ready = record {
  configured = refl;
  sound = paused_info-IsSound;
  checkpoint_sound = tt;
  cliff_sound = tt;
  time_bounded = omega arith;
  payee_apart = omega arith;
  sender_apart = omega arith;
  sender_not_payee = omega arith;
  sender_not_second = omega arith;
  split_apart = (omega arith, omega arith, omega arith);
}

cancel-Ends_example :
    (is_cancelled info ≡ false)
    × (true ≡ true)
    × (true ≡ true)
    × (running.auth sender ≡ true)
    × Ends test_host info (test_token token) running Samples.cancelled
    × (depth Samples.cancelled.store.guard ≡ 0)
cancel-Ends_example =
    cancel-Ends test_host test_u256 info (test_token token) sender running Samples.cancelled
      running-Ready cancel_runs

force_cancel-Ends_example :
    (is_cancelled paused_info ≡ false)
    × (is_paused paused_info ≡ true)
    × (50 ≤ 100)
    × (halted.auth recipient ≡ true)
    × Ends test_host paused_info (test_token token) halted Samples.force_cancelled
    × (depth Samples.force_cancelled.store.guard ≡ 0)
force_cancel-Ends_example =
    force_cancel-Ends test_host test_u256 paused_info (test_token token) halted
      Samples.force_cancelled halted-Ready force_cancel_runs

withdraw-IsSound_example : IsSound (record info { withdrawn = pos 510; event_sequence = 3 })
withdraw-IsSound_example =
    withdraw-IsSound test_host test_u256 (pos 500) (pos 500) running Samples.withdrawn info
      (record info { withdrawn = pos 510; event_sequence = 3 }) (test_token token) refl info-IsSound
      tt tt (omega arith) withdraw_runs withdrawn_config

pause_freezes_example :
    Pauses test_host sender running Samples.paused info
    × IsSound (Freeze.paused_info info 300)
    × (streamed_amount test_host 500 Samples.paused.store (Freeze.paused_info info 300) tt
        ≡ streamed_amount test_host 300 running.store info tt)
pause_freezes_example =
    pause_freezes test_host test_u256 sender 200 running Samples.paused info refl info-IsSound tt tt
      (omega arith) pause_runs

resume_continues_example :
    (Samples.resumed.store.config ≡ some (resumed paused_info 400))
    × (streamed_amount test_host 450 Samples.resumed.store (resumed paused_info 400) tt
        ≡ streamed_amount test_host 350 halted.store (unpaused paused_info) tt)
resume_continues_example =
    resume_continues test_host test_u256 sender 50 halted Samples.resumed paused_info refl
      paused_info-IsSound tt tt tt (omega arith) resume_runs

resume_cliff_counts_pause_example :
    (streamed_amount test_host 400 halted_cliff.store paused_info tt ≡ ok (pos 2000) tt)
    × (streamed_amount test_host 400 Samples.resumed_cliff.store (resumed paused_info 400) tt
        ≡ ok (pos 3000) tt)
unfolding has_flag
resume_cliff_counts_pause_example =
    resume_cliff_counts_pause test_host test_u256 sender halted_cliff Samples.resumed_cliff
      paused_info cliff refl paused_info-IsSound refl refl ((omega arith, omega arith), omega arith)
      (omega arith) (omega arith) resume_cliff_runs

sender-Accepts : Accepts test_host sender 600 (pos 0) running info
unfolding has_flag ltb_ℤ
sender-Accepts = record {
  free = refl;
  live = refl;
  allowed = refl;
  signed = refl;
  nonneg = refl;
  after_start = omega arith;
  before_end = λ h. omega arith;
  numbered = omega arith;
}

set_cliff_erases_accrual_example :
    (env' : Env Balances) × (set_cliff sender 600 (pos 0) running ≡ ok tt env')
    × (env'.store.config ≡ some (record info { event_sequence = 3 }))
    × (streamed_amount test_host 500 env'.store (record info { event_sequence = 3 }) tt
        ≡ ok (pos 0) tt)
    × (env'.tokens ≡ running.tokens)
set_cliff_erases_accrual_example =
    set_cliff_erases_accrual test_host test_u256 sender 600 200 (pos 0) running info refl
      info-IsSound (omega arith) (omega arith) refl (omega arith) (omega arith) sender-Accepts

run-cancelled_example :
    run test_host (Call.withdraw (pos 500)) Samples.cancelled ≢ ok tt Samples.cancelled
unfolding has_flag
run-cancelled_example =
    run-cancelled test_host (Call.withdraw (pos 500)) Samples.cancelled Samples.cancelled
      Samples.cancelled_info cancelled_config refl

set_paused_with_cooldown-lasts_example :
    Pause.is_paused 1000 (some (Pause.state sample_pause)) ≡ (true, some (Pause.state sample_pause))
unfolding Pause.set_paused_with_cooldown
set_paused_with_cooldown-lasts_example =
    Expiry.set_paused_with_cooldown-lasts 500 1000 none (some 600) none sample_pause (omega arith)
      (omega arith) refl

keeper_ping-Pings_example :
    Pings test_host recipient (pos 5) Samples.pooled Samples.pinged info Samples.pool
    × (pos 5 ≤ℤ pos 20)
keeper_ping-Pings_example =
    keeper_ping-Pings test_host recipient (pos 5) Samples.pooled Samples.pinged info Samples.pool
      refl refl keeper_ping_runs

top_up-TopsUp_example :
    TopsUp test_host sender (pos 50) (pos 10000) Samples.counted Samples.topped_up info
    × (pos 0 <ℤ pos 50)
top_up-TopsUp_example =
    top_up-TopsUp test_host sender (pos 50) (pos 10000) Samples.counted Samples.topped_up info refl
      refl top_up_runs

transfer_recipient-HandsOver_example : HandsOver test_host 4 running Samples.handed_over info
transfer_recipient-HandsOver_example =
    transfer_recipient-HandsOver test_host 4 running Samples.handed_over info refl
      transfer_recipient_runs

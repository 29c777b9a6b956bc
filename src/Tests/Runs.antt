-- ===== src/Tests/Runs.antt =====
-- Runs of the contract on the sample streams.
use stream_fi_contracts.Prelude.{◌≡◌, refl, some}
use stream_fi_contracts.Prelude.Int.{
  pos, ltb_ℤ, leb_ℤ, eqb_ℤ, min_ℤ, max_ℤ, ◌+ℤ◌, ◌-ℤ◌, ◌*ℤ◌, saturating_sub,
}
use stream_fi_contracts.Prelude.Effect.{ok}
use stream_fi_contracts.Stream.Types.{has_flag, set_flag, clear_flag}
use stream_fi_contracts.Stream.Initialize.{initialize, create, check_args}
use stream_fi_contracts.Stream.Math.{
  mul_div, withdrawable, streamed_amount, plain_accrual, accrued_from, effective_now,
}
use stream_fi_contracts.Stream.Withdraw.{withdraw, withdraw_body}
use stream_fi_contracts.Stream.Cancel.{cancel, cancel_body, force_cancel, force_cancel_body}
use stream_fi_contracts.Stream.Pausing.{pause, pause_body, resume, resume_body}
use stream_fi_contracts.Stream.Rate.{change_rate, change_rate_body, set_cliff, set_cliff_body}
use stream_fi_contracts.Stream.Keeper.{keeper_ping, keeper_ping_body}
use stream_fi_contracts.Stream.Funding.{top_up, top_up_body}
use stream_fi_contracts.Stream.Roles.{transfer_recipient, transfer_recipient_body}
use stream_fi_contracts.Tests.{test_host, change, test_transfer}
use stream_fi_contracts.Tests.Samples
use stream_fi_contracts.Tests.Samples.{sender, recipient, second, self, token}

pub withdraw_runs : withdraw test_host (pos 500) Samples.running ≡ ok (pos 500) Samples.withdrawn
unfolding withdraw withdraw_body ltb_ℤ leb_ℤ eqb_ℤ min_ℤ max_ℤ ◌+ℤ◌ ◌-ℤ◌ saturating_sub
    test_transfer change has_flag withdrawable streamed_amount plain_accrual accrued_from
    effective_now mul_div
withdraw_runs = refl

pub cancel_runs : cancel test_host sender Samples.running ≡ ok tt Samples.cancelled
unfolding cancel cancel_body set_flag ltb_ℤ leb_ℤ eqb_ℤ min_ℤ max_ℤ ◌+ℤ◌ ◌-ℤ◌ saturating_sub
    test_transfer change has_flag withdrawable streamed_amount plain_accrual accrued_from
    effective_now mul_div
cancel_runs = refl

pub force_cancel_runs : force_cancel test_host Samples.halted ≡ ok tt Samples.force_cancelled
unfolding force_cancel force_cancel_body set_flag ltb_ℤ leb_ℤ eqb_ℤ min_ℤ max_ℤ ◌+ℤ◌ ◌-ℤ◌
    saturating_sub test_transfer change has_flag withdrawable streamed_amount plain_accrual
    accrued_from effective_now mul_div
force_cancel_runs = refl

pub pause_runs : pause test_host sender Samples.running ≡ ok tt Samples.paused
unfolding pause pause_body set_flag ltb_ℤ leb_ℤ eqb_ℤ min_ℤ max_ℤ ◌+ℤ◌ ◌-ℤ◌ saturating_sub
    test_transfer change has_flag withdrawable streamed_amount plain_accrual accrued_from
    effective_now mul_div
pause_runs = refl

pub resume_runs : resume sender Samples.halted ≡ ok tt Samples.resumed
unfolding resume resume_body clear_flag ltb_ℤ leb_ℤ eqb_ℤ min_ℤ max_ℤ ◌+ℤ◌ ◌-ℤ◌ saturating_sub
    test_transfer change has_flag withdrawable streamed_amount plain_accrual accrued_from
    effective_now mul_div
resume_runs = refl

pub resume_cliff_runs : resume sender Samples.halted_cliff ≡ ok tt Samples.resumed_cliff
unfolding resume resume_body clear_flag ltb_ℤ leb_ℤ eqb_ℤ min_ℤ max_ℤ ◌+ℤ◌ ◌-ℤ◌ saturating_sub
    test_transfer change has_flag withdrawable streamed_amount plain_accrual accrued_from
    effective_now mul_div
resume_cliff_runs = refl

pub change_rate_runs : change_rate test_host sender (pos 20) Samples.running ≡ ok tt Samples.rated
unfolding change_rate change_rate_body ◌*ℤ◌ ltb_ℤ leb_ℤ eqb_ℤ min_ℤ max_ℤ ◌+ℤ◌ ◌-ℤ◌ saturating_sub
    test_transfer change has_flag withdrawable streamed_amount plain_accrual accrued_from
    effective_now mul_div
change_rate_runs = refl

set_cliff_runs : set_cliff sender 600 (pos 0) Samples.running ≡ ok tt Samples.cliffed
unfolding set_cliff set_cliff_body ltb_ℤ leb_ℤ eqb_ℤ min_ℤ max_ℤ ◌+ℤ◌ ◌-ℤ◌ saturating_sub
    test_transfer change has_flag withdrawable streamed_amount plain_accrual accrued_from
    effective_now mul_div
set_cliff_runs = refl

pub initialize_runs : initialize test_host Samples.args Samples.blank ≡ ok tt Samples.created
unfolding initialize create check_args ◌*ℤ◌ ltb_ℤ leb_ℤ eqb_ℤ min_ℤ max_ℤ ◌+ℤ◌ ◌-ℤ◌ saturating_sub
    test_transfer change has_flag withdrawable streamed_amount plain_accrual accrued_from
    effective_now mul_div
initialize_runs = refl

-- Three quarters of the 500 go to the recipient, the rest to the second recipient.
withdraw_splits :
    (Samples.withdrawn.tokens token recipient ≡ 475)
    × (Samples.withdrawn.tokens token second ≡ 225)
    × (Samples.withdrawn.tokens token self ≡ 9490)
unfolding withdraw withdraw_body ltb_ℤ leb_ℤ eqb_ℤ min_ℤ max_ℤ ◌+ℤ◌ ◌-ℤ◌ saturating_sub
    test_transfer change has_flag withdrawable streamed_amount plain_accrual accrued_from
    effective_now mul_div
withdraw_splits = (refl, refl, refl)

-- Of the 9,990 units held, 1,990 are owed; 497 of these are the second recipient's.
cancel_divides :
    (Samples.cancelled.tokens token recipient ≡ 1593)
    × (Samples.cancelled.tokens token second ≡ 597)
    × (Samples.cancelled.tokens token sender ≡ 8100)
    × (Samples.cancelled.tokens token self ≡ 0)
unfolding cancel cancel_body set_flag ltb_ℤ leb_ℤ eqb_ℤ min_ℤ max_ℤ ◌+ℤ◌ ◌-ℤ◌ saturating_sub
    test_transfer change has_flag withdrawable streamed_amount plain_accrual accrued_from
    effective_now mul_div
cancel_divides = (refl, refl, refl, refl)

pub withdrawn_config :
    Samples.withdrawn.store.config
    ≡ some (let i = Samples.info in record i { withdrawn = pos 510; event_sequence = 3 })
unfolding withdraw withdraw_body ltb_ℤ leb_ℤ eqb_ℤ min_ℤ max_ℤ ◌+ℤ◌ ◌-ℤ◌ saturating_sub
    test_transfer change has_flag withdrawable streamed_amount plain_accrual accrued_from
    effective_now mul_div
withdrawn_config = refl

pub cancelled_config : Samples.cancelled.store.config ≡ some Samples.cancelled_info
unfolding cancel cancel_body set_flag ltb_ℤ leb_ℤ eqb_ℤ min_ℤ max_ℤ ◌+ℤ◌ ◌-ℤ◌ saturating_sub
    test_transfer change has_flag withdrawable streamed_amount plain_accrual accrued_from
    effective_now mul_div
cancelled_config = refl

pub keeper_ping_runs : keeper_ping test_host recipient Samples.pooled ≡ ok (pos 5) Samples.pinged
unfolding keeper_ping keeper_ping_body ltb_ℤ leb_ℤ eqb_ℤ min_ℤ max_ℤ ◌+ℤ◌ ◌-ℤ◌ test_transfer change
    has_flag
keeper_ping_runs = refl

pub top_up_runs : top_up test_host sender (pos 50) Samples.counted ≡ ok tt Samples.topped_up
unfolding top_up top_up_body ltb_ℤ leb_ℤ eqb_ℤ min_ℤ max_ℤ ◌+ℤ◌ ◌-ℤ◌ test_transfer change has_flag
top_up_runs = refl

pub transfer_recipient_runs :
    transfer_recipient test_host 4 Samples.running ≡ ok tt Samples.handed_over
unfolding transfer_recipient transfer_recipient_body ltb_ℤ leb_ℤ eqb_ℤ min_ℤ max_ℤ ◌+ℤ◌ ◌-ℤ◌
    test_transfer change has_flag
transfer_recipient_runs = refl

-- ===== src/Stream/Calls/Cancelled.antt =====
-- Cancellation is final.
use stream_fi_contracts.Prelude.{◌≡◌, ◌≢◌, true, some, arith}
use stream_fi_contracts.Prelude.Effect.{ok, >>=-eq-ok, pure}
use stream_fi_contracts.Host.{Host}
use stream_fi_contracts.Stream.Types.{StreamInfo, is_cancelled}
use stream_fi_contracts.Stream.Env.{Env, Act}
use stream_fi_contracts.Stream.State.{locked, with_guard}
use stream_fi_contracts.Stream.State.Guard.{with_guard-ok}
use stream_fi_contracts.Stream.Withdraw
use stream_fi_contracts.Stream.Cancel
use stream_fi_contracts.Stream.Pausing
use stream_fi_contracts.Stream.Rate
use stream_fi_contracts.Stream.Funding
use stream_fi_contracts.Stream.Roles
use stream_fi_contracts.Stream.Keeper
use stream_fi_contracts.Stream.Calls.{Call, run}

module _ {T : Type 0} where
  -- A guarded call fails if its body does on the locked state.
  guarded-refuses :
      {A : Type 0} (f : Act T A) (a : A) (env env' : Env T)
      → ((b : A) (mid : Env T) → f (locked env) ≢ ok b mid)
      → with_guard f env ≢ ok a env'
  guarded-refuses f a env env' never h =
      let (mid, free, ran, left) = with_guard-ok f a env env' h in never a mid ran

module _ (host : Host) where
  -- On a cancelled stream none of these calls succeeds, whoever makes it and whatever its arguments.
  pub run-cancelled :
      (call : Call) (env env' : Env host.Tokens) (info : StreamInfo)
      → env.store.config ≡ some info
      → is_cancelled info ≡ true
      → run host call env ≢ ok tt env'
  unfolding run Withdraw.withdraw Withdraw.withdraw_body Withdraw.admit_withdrawal Cancel.cancel
      Cancel.cancel_body Cancel.admit_cancel Cancel.force_cancel Cancel.force_cancel_body
      Cancel.admit_force_cancel Cancel.clawback Cancel.clawback_body Pausing.pause
      Pausing.pause_body Pausing.resume Pausing.resume_body Rate.change_rate Rate.change_rate_body
      Rate.set_cliff Rate.set_cliff_body Funding.top_up Funding.top_up_body Funding.extend_duration
      Funding.extend_duration_body Funding.top_up_and_extend Funding.top_up_and_extend_body
      Roles.transfer_recipient Roles.transfer_recipient_body Roles.set_auto_forward_address
      Roles.set_operator Roles.revoke_operator Roles.set_split_recipient
      Roles.remove_split_recipient Roles.set_stream_title Roles.set_reference_tag
      Roles.set_stream_config Withdraw.set_min_withdrawal_interval
      Keeper.configure_keeper_reward_pool Keeper.fund_keeper_reward_pool Keeper.keeper_ping
      Keeper.keeper_ping_body
  run-cancelled (Call.withdraw amount) env env' info e c r =
      let (paid, mid, ran, rest) = >>=-eq-ok (Withdraw.withdraw host amount) (λ _. pure tt) env r in
      guarded-refuses _ paid env mid (λ b last q. ground arith) ran
  run-cancelled (Call.cancel caller) env env' info e c r =
      guarded-refuses _ tt env env' (λ b mid q. ground arith) r
  run-cancelled Call.force_cancel env env' info e c r =
      guarded-refuses _ tt env env' (λ b mid q. ground arith) r
  run-cancelled (Call.clawback caller) env env' info e c r =
      let (paid, mid, ran, rest) = >>=-eq-ok (Cancel.clawback host caller) (λ _. pure tt) env r in
      guarded-refuses _ paid env mid (λ b last q. ground arith) ran
  run-cancelled (Call.pause caller) env env' info e c r =
      guarded-refuses _ tt env env' (λ b mid q. ground arith) r
  run-cancelled (Call.resume caller) env env' info e c r =
      guarded-refuses _ tt env env' (λ b mid q. ground arith) r
  run-cancelled (Call.change_rate caller new_rate) env env' info e c r =
      guarded-refuses _ tt env env' (λ b mid q. ground arith) r
  run-cancelled (Call.set_cliff caller at amount) env env' info e c r =
      guarded-refuses _ tt env env' (λ b mid q. ground arith) r
  run-cancelled (Call.top_up caller amount) env env' info e c r =
      guarded-refuses _ tt env env' (λ b mid q. ground arith) r
  run-cancelled (Call.extend_duration caller secs) env env' info e c r =
      guarded-refuses _ tt env env' (λ b mid q. ground arith) r
  run-cancelled (Call.top_up_and_extend caller amount secs) env env' info e c r =
      guarded-refuses _ tt env env' (λ b mid q. ground arith) r
  run-cancelled (Call.transfer_recipient new_recipient) env env' info e c r =
      guarded-refuses _ tt env env' (λ b mid q. ground arith) r
  run-cancelled (Call.set_auto_forward_address address) env env' info e c r =
      guarded-refuses _ tt env env' (λ b mid q. ground arith) r
  run-cancelled (Call.set_operator caller operator) env env' info e c r = ground arith
  run-cancelled (Call.revoke_operator caller) env env' info e c r = ground arith
  run-cancelled (Call.set_split_recipient caller secondary bps) env env' info e c r =
      guarded-refuses _ tt env env' (λ b mid q. ground arith) r
  run-cancelled (Call.remove_split_recipient caller) env env' info e c r =
      guarded-refuses _ tt env env' (λ b mid q. ground arith) r
  run-cancelled (Call.set_stream_title caller title) env env' info e c r = ground arith
  run-cancelled (Call.set_reference_tag caller tag) env env' info e c r = ground arith
  run-cancelled (Call.set_stream_config caller config) env env' info e c r =
      guarded-refuses _ tt env env' (λ b mid q. ground arith) r
  run-cancelled (Call.set_min_withdrawal_interval caller secs) env env' info e c r =
      guarded-refuses _ tt env env' (λ b mid q. ground arith) r
  run-cancelled (Call.configure_keeper_reward_pool caller token reward) env env' info e c r =
      guarded-refuses _ tt env env' (λ b mid q. ground arith) r
  run-cancelled (Call.fund_keeper_reward_pool caller amount) env env' info e c r =
      guarded-refuses _ tt env env' (λ b mid q. ground arith) r
  run-cancelled (Call.keeper_ping keeper) env env' info e c r =
      let (paid, mid, ran, rest) =
        >>=-eq-ok (Keeper.keeper_ping host keeper) (λ _. pure tt) env r in
      guarded-refuses _ paid env mid (λ b last q. ground arith) ran

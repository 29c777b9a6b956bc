-- ===== src/Stream/Calls.antt =====
-- The entry points of contracts/stream/src/lib.rs that ask for a live stream, as one type of calls.
pub mod Cancelled
use stream_fi_contracts.Prelude.{ℕ, List}
use stream_fi_contracts.Prelude.Int.{ℤ}
use stream_fi_contracts.Prelude.Effect.{pure, ◌>>=◌, ◌>>◌}
use stream_fi_contracts.Host.{Host, Address}
use stream_fi_contracts.Stream.Types.{StreamConfig}
use stream_fi_contracts.Stream.Env.{Act}
use stream_fi_contracts.Stream.Withdraw
use stream_fi_contracts.Stream.Cancel
use stream_fi_contracts.Stream.Pausing
use stream_fi_contracts.Stream.Rate
use stream_fi_contracts.Stream.Funding
use stream_fi_contracts.Stream.Roles
use stream_fi_contracts.Stream.Keeper

pub data Call : Type 0 where
  withdraw : ℤ → Call
  cancel : Address → Call
  force_cancel : Call
  clawback : Address → Call
  pause : Address → Call
  resume : Address → Call
  change_rate : Address → ℤ → Call
  set_cliff : Address → ℕ → ℤ → Call
  top_up : Address → ℤ → Call
  extend_duration : Address → ℕ → Call
  top_up_and_extend : Address → ℤ → ℕ → Call
  transfer_recipient : Address → Call
  set_auto_forward_address : Address → Call
  set_operator : Address → Address → Call
  revoke_operator : Address → Call
  set_split_recipient : Address → Address → ℕ → Call
  remove_split_recipient : Address → Call
  set_stream_title : Address → List ℕ → Call
  set_reference_tag : Address → List ℕ → Call
  set_stream_config : Address → StreamConfig → Call
  set_min_withdrawal_interval : Address → ℕ → Call
  configure_keeper_reward_pool : Address → Address → ℤ → Call
  fund_keeper_reward_pool : Address → ℤ → Call
  keeper_ping : Address → Call

module _ (host : Host) where
  unfoldable pub run : Call → Act host.Tokens (Unit {0})
  unfolding Withdraw.withdraw Cancel.cancel Cancel.force_cancel Cancel.clawback Pausing.pause
      Pausing.resume Rate.change_rate Rate.set_cliff Funding.top_up Funding.extend_duration
      Funding.top_up_and_extend Roles.transfer_recipient Roles.set_auto_forward_address
      Roles.set_operator Roles.revoke_operator Roles.set_split_recipient
      Roles.remove_split_recipient Roles.set_stream_title Roles.set_reference_tag
      Roles.set_stream_config Withdraw.set_min_withdrawal_interval
      Keeper.configure_keeper_reward_pool Keeper.fund_keeper_reward_pool Keeper.keeper_ping
  run (withdraw amount) = do paid ← Withdraw.withdraw host amount; pure tt
  run (cancel caller) = Cancel.cancel host caller
  run force_cancel = Cancel.force_cancel host
  run (clawback caller) = do paid ← Cancel.clawback host caller; pure tt
  run (pause caller) = Pausing.pause host caller
  run (resume caller) = Pausing.resume caller
  run (change_rate caller new_rate) = Rate.change_rate host caller new_rate
  run (set_cliff caller at amount) = Rate.set_cliff caller at amount
  run (top_up caller amount) = Funding.top_up host caller amount
  run (extend_duration caller secs) = Funding.extend_duration host caller secs
  run (top_up_and_extend caller amount secs) = Funding.top_up_and_extend host caller amount secs
  run (transfer_recipient new_recipient) = Roles.transfer_recipient host new_recipient
  run (set_auto_forward_address address) = Roles.set_auto_forward_address host address
  run (set_operator caller operator) = Roles.set_operator caller operator
  run (revoke_operator caller) = Roles.revoke_operator caller
  run (set_split_recipient caller secondary bps) =
      Roles.set_split_recipient host caller secondary bps
  run (remove_split_recipient caller) = Roles.remove_split_recipient caller
  run (set_stream_title caller title) = Roles.set_stream_title caller title
  run (set_reference_tag caller tag) = Roles.set_reference_tag caller tag
  run (set_stream_config caller config) = Roles.set_stream_config caller config
  run (set_min_withdrawal_interval caller secs) = Withdraw.set_min_withdrawal_interval caller secs
  run (configure_keeper_reward_pool caller token reward) =
      Keeper.configure_keeper_reward_pool host caller token reward
  run (fund_keeper_reward_pool caller amount) = Keeper.fund_keeper_reward_pool host caller amount
  run (keeper_ping keeper) = do paid ← Keeper.keeper_ping host keeper; pure tt

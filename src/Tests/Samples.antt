-- ===== src/Tests/Samples.antt =====
-- Sample streams and runs of the contract on them.
use stream_fi_contracts.Prelude.{false, none, some, [], ◌==◌, ◌||◌, if◌then◌else◌}
use stream_fi_contracts.Prelude.Int.{pos}
use stream_fi_contracts.Prelude.Effect.{commit}
use stream_fi_contracts.Host.{Address}
use stream_fi_contracts.Stream.Types.{StreamInfo, CliffConfig, SplitConfig, StreamKeeperRewardPool}
use stream_fi_contracts.Stream.Env.{Env, Store}
use stream_fi_contracts.Stream.Initialize.{InitArgs, initialize}
use stream_fi_contracts.Stream.Withdraw.{withdraw}
use stream_fi_contracts.Stream.Cancel.{cancel, force_cancel}
use stream_fi_contracts.Stream.Pausing.{pause, resume}
use stream_fi_contracts.Stream.Rate.{change_rate, set_cliff}
use stream_fi_contracts.Stream.Keeper.{keeper_ping}
use stream_fi_contracts.Stream.Funding.{top_up}
use stream_fi_contracts.Stream.Roles.{transfer_recipient}
use stream_fi_contracts.Tests.{Balances, test_host}

abbrev pub sender : Address
sender = 1

abbrev pub recipient : Address
recipient = 2

abbrev pub second : Address
second = 3

abbrev pub self : Address
self = 5

abbrev pub token : Address
token = 7

-- 10 units a second, from 100 to 1100; 9,990 units are held.
abbrev pub args : InitArgs
args = record {
  sender = sender;
  recipient = recipient;
  token = token;
  rate_per_second = pos 10;
  start_time = 100;
  end_time = 1100;
  clawback_enabled = false;
  force_cancel_pause_secs = 50;
  is_regulated_asset = false;
  description = none;
}

abbrev pub info : StreamInfo
info = record {
  sender = sender;
  recipient = recipient;
  token = token;
  rate_per_second = pos 10;
  start_time = 100;
  end_time = 1100;
  withdrawn = pos 10;
  paused_at = 0;
  flags = 0;
  event_sequence = 2;
  cumulative_fees = pos 0;
}

abbrev pub empty : Store
empty = record {
  config = none;
  guard = none;
  storage_version = none;
  operator = none;
  force_cancel_pause_threshold_secs = none;
  split_config = none;
  cliff_config = none;
  min_withdrawal_interval = none;
  last_withdrawal_time = none;
  rate_checkpoint = none;
  emergency_paused = none;
  immutable_config = none;
  cliff_reached = none;
  stream_completed = none;
  stream_config = none;
  stream_title = none;
  reference_tag = none;
  stream_description = none;
  keeper_reward_pool = none;
  last_keeper_ping_ledger = none;
  auto_forward_address = none;
  cumulative_deposited = none;
}

abbrev pub balances : Balances
balances token' holder = if token' == token then (if holder == self then 9990 else 100) else 0

abbrev pub blank : Env Balances
blank = record {
  now = 100;
  sequence = 1000;
  self = self;
  auth = λ a. a == sender || a == recipient;
  store = empty;
  tokens = balances;
  published = [];
  ttl_extensions = [];
}

-- A quarter goes to the second recipient.
abbrev pub split : SplitConfig
split = record { secondary_recipient = second; split_bps = 2500 }

-- The stream at time 300, when 2,000 units have streamed and 10 are drawn.
abbrev pub running : Env Balances
running = record blank {
  now = 300;
  store = record empty {
    config = some info;
    split_config = some split;
    force_cancel_pause_threshold_secs = some 50;
  };
}

abbrev pub paused_info : StreamInfo
paused_info = record info { flags = 1; paused_at = 300 }

abbrev pub cancelled_info : StreamInfo
cancelled_info = record info { withdrawn = pos 2000; flags = 4; event_sequence = 3 }

-- Paused at 300, at time 400.
abbrev pub halted : Env Balances
halted = record running { now = 400; store = record running.store { config = some paused_info } }

abbrev pub cliff : CliffConfig
cliff = record { cliff_time = 200; cliff_unlock_amount = pos 1000 }

-- The same with a cliff that has passed.
abbrev pub halted_cliff : Env Balances
halted_cliff = record halted { store = record halted.store { cliff_config = some cliff } }

abbrev pub withdrawn : Env Balances
withdrawn = commit running (withdraw test_host (pos 500) running)

abbrev pub cancelled : Env Balances
cancelled = commit running (cancel test_host sender running)

abbrev pub force_cancelled : Env Balances
force_cancelled = commit halted (force_cancel test_host halted)

abbrev pub paused : Env Balances
paused = commit running (pause test_host sender running)

abbrev pub resumed : Env Balances
resumed = commit halted (resume sender halted)

abbrev pub resumed_cliff : Env Balances
resumed_cliff = commit halted_cliff (resume sender halted_cliff)

abbrev pub rated : Env Balances
rated = commit running (change_rate test_host sender (pos 20) running)

abbrev pub cliffed : Env Balances
cliffed = commit running (set_cliff sender 600 (pos 0) running)

abbrev pub created : Env Balances
created = commit blank (initialize test_host args blank)

-- Token 8 rewards keepers: 5 units a ping, and 20 are in the pool.
abbrev pub pool : StreamKeeperRewardPool
pool = record { token = 8; reward_per_ping = pos 5; balance = pos 20 }

abbrev pub pool_balances : Balances
pool_balances token' holder = if token' == 8 then (if holder == self then 20 else 0) else 0

abbrev pub pooled : Env Balances
pooled = record running {
  store = record running.store { keeper_reward_pool = some pool };
  tokens = pool_balances;
}

abbrev pub pinged : Env Balances
pinged = commit pooled (keeper_ping test_host recipient pooled)

-- The deposits of the stream are counted.
abbrev pub counted : Env Balances
counted = record running {
  store = record running.store { cumulative_deposited = some (pos 10000) };
}

abbrev pub topped_up : Env Balances
topped_up = commit counted (top_up test_host sender (pos 50) counted)

abbrev pub handed_over : Env Balances
handed_over = commit running (transfer_recipient test_host 4 running)

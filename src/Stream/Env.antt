-- ===== src/Stream/Env.antt =====
-- What a call of the stream contract sees: the call's context, the instance storage key by key
-- (`DataKey` of contracts/stream/src/storage.rs), the token contracts, and the two kinds of
-- request that it makes to its host (events, renewals of its storage).
use stream_fi_contracts.Prelude.{ℕ, Bool, true, false, Option, none, List, ◌∷◌}
use stream_fi_contracts.Prelude.Int.{ℤ}
use stream_fi_contracts.Prelude.Effect.{Action, trap, ok, or_trap}
use stream_fi_contracts.Host.{Host, Address}
use stream_fi_contracts.Common.Pause.{PauseCell}
use stream_fi_contracts.Prelude.Effect
use stream_fi_contracts.Stream.Types.{
  Error, StreamInfo, SplitConfig, CliffConfig, RateCheckpoint, ImmutableConfig, StreamConfig,
  StreamKeeperRewardPool,
}

-- Instance storage: `none` under a key that is not set.
pub record Store : Type 0 where
  pub config : Option StreamInfo
  pub guard : Option ℕ
  pub storage_version : Option ℕ
  pub operator : Option Address
  pub force_cancel_pause_threshold_secs : Option ℕ
  pub split_config : Option SplitConfig
  pub cliff_config : Option CliffConfig
  pub min_withdrawal_interval : Option ℕ
  pub last_withdrawal_time : Option ℕ
  pub rate_checkpoint : Option RateCheckpoint
  pub emergency_paused : Option PauseCell
  pub immutable_config : Option ImmutableConfig
  pub cliff_reached : Option Bool
  pub stream_completed : Option Bool
  pub stream_config : Option StreamConfig
  pub stream_title : Option (List ℕ)
  pub reference_tag : Option (List ℕ)
  pub stream_description : Option (List ℕ)
  pub keeper_reward_pool : Option StreamKeeperRewardPool
  pub last_keeper_ping_ledger : Option ℕ
  pub auto_forward_address : Option Address
  pub cumulative_deposited : Option ℤ

-- The events of events.rs, each with its topics and its data, but for the sequence number.
pub data Event : Type 0 where
  created : (sender recipient token : Address) → ℤ → ℕ → ℕ → ℕ → Event
  withdrawn : (recipient : Address) → (amount total_withdrawn remaining : ℤ) → Event
  cancelled : (sender : Address) → (refund withdrawn_so_far remaining : ℤ) → Event
  force_cancelled : (sender : Address) → (refund withdrawn_so_far remaining : ℤ) → Event
  paused : (initiator : Address) → ℕ → ℤ → Event
  resumed : (initiator : Address) → ℕ → Event
  topped_up : (sender : Address) → (amount new_balance : ℤ) → Event
  topped_up_and_extended :
      (caller : Address) → (old_balance new_balance : ℤ) → (old_end new_end : ℕ) → Event
  rate_changed : (caller : Address) → (old_rate new_rate : ℤ) → Event
  clawback : (sender : Address) → ℤ → Event
  recipient_transferred : (old_recipient new_recipient : Address) → Event
  operator_set : (sender operator : Address) → Event
  operator_revoked : (sender : Address) → Event
  split_recipient_set : (caller secondary_recipient : Address) → ℕ → Event
  split_recipient_removed : (caller : Address) → Event
  cliff_configured : (sender : Address) → ℕ → ℤ → Event
  min_withdrawal_interval_set : (sender : Address) → ℕ → Event
  keeper_ping : (keeper : Address) → ℤ → Event
  keeper_reward_pool_configured : (caller reward_token : Address) → ℤ → Event
  keeper_reward_pool_funded : (funder reward_token : Address) → ℤ → Event
  keeper_reward_pool_withdrawn : (caller reward_token : Address) → ℤ → Event
  emergency_paused : (caller : Address) → ℕ → Event
  emergency_unpaused : (caller : Address) → ℕ → Event
  cliff_reached : (recipient : Address) → ℕ → ℤ → Event
  stream_completed : (recipient : Address) → ℤ → Event

-- The state of a call. `now` is the ledger's timestamp and `sequence` its number; `self` is the
-- contract's own address; `auth` says whose signature the call carries.
pub record Env (T : Type 0) : Type 0 where
  pub now : ℕ
  pub sequence : ℕ
  pub self : Address
  pub auth : Address → Bool
  pub store : Store
  pub tokens : T
  -- Newest first, each with its sequence number.
  pub published : List (ℕ × Event)
  -- Newest first: the threshold and the target of each `extend_ttl`.
  pub ttl_extensions : List (ℕ × ℕ)

abbrev pub Act : Type 0 → Type 0 → Type 0
Act T A = Action (Env T) Error A

abbrev pub with_store : {T : Type 0} → Env T → Store → Env T
with_store env s = record env { store = s }

abbrev signed : Bool → Option (Unit {0})
signed true = Option.some tt
signed false = none

module _ {T : Type 0} where
  abbrev pub stored : {A : Type 0} → (Store → A) → Act T A
  stored f env = ok (f env.store) env

  abbrev pub store : (Store → Store) → Act T (Unit {0})
  store f env = ok tt (with_store env (f env.store))

  abbrev pub timestamp : Act T ℕ
  timestamp env = ok env.now env

  abbrev pub current_contract_address : Act T Address
  current_contract_address env = ok env.self env

  -- `address.require_auth()`
  abbrev pub require_auth : Address → Act T (Unit {0})
  require_auth address env = or_trap (signed (env.auth address)) env

  abbrev pub extend_ttl : ℕ → ℕ → Act T (Unit {0})
  extend_ttl threshold extend_to env =
      ok tt (record env { ttl_extensions = (threshold, extend_to) ∷ env.ttl_extensions })

  abbrev pub publish : ℕ → Event → Act T (Unit {0})
  publish sequence event env = ok tt (record env { published = (sequence, event) ∷ env.published })

module _ (host : Host) where
  abbrev pub balance : Address → Address → Act host.Tokens ℤ
  balance token holder env = or_trap (host.balance token holder env.tokens) env

  abbrev moved :
      Env host.Tokens → Option host.Tokens → Effect.Outcome (Env host.Tokens) Error (Unit {0})
  moved env none = trap Effect.host
  moved env (Option.some t) = ok tt (record env { tokens = t })

  abbrev pub transfer : Address → Address → Address → ℤ → Act host.Tokens (Unit {0})
  transfer token from to amount env = moved env (host.transfer token from to amount env.tokens)

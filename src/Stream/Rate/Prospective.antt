-- ===== src/Stream/Rate/Prospective.antt =====
-- A rate change does not touch what has streamed.
use stream_fi_contracts.Prelude.{
  ℕ, ◌+◌, ◌≤◌, ◌<◌, ◌≡◌, true, false, Option, none, some, if◌then◌else◌,
}
use stream_fi_contracts.Prelude.Int.{ℤ, pos, leb_ℤ}
use stream_fi_contracts.Prelude.Effect.{returned}
use stream_fi_contracts.Host.{Host, Address}
use stream_fi_contracts.Stream.Types.{StreamInfo, CliffConfig, is_paused, is_cancelled}
use stream_fi_contracts.Stream.Env.{Env}
use stream_fi_contracts.Stream.Access.{is_sender_or}
use stream_fi_contracts.Stream.Math.{streamed_amount}
use stream_fi_contracts.Stream.Rate.{new_checkpoint}

abbrev pub effective_time : StreamInfo → ℕ → ℕ
effective_time info now = if is_paused info then info.paused_at else now

abbrev pub rated_info : StreamInfo → ℤ → StreamInfo
rated_info info new_rate = record info {
  rate_per_second = new_rate;
  event_sequence = info.event_sequence + 1;
}

abbrev pub or_zero_ℤ : Option ℤ → ℤ
or_zero_ℤ none = pos 0
or_zero_ℤ (some z) = z

module _ (host : Host) where
  pub record ChangesRate (caller : Address) (new_rate : ℤ) (env env' : Env host.Tokens)
      (info : StreamInfo) : Type 0 where
    pub positive : leb_ℤ new_rate (pos 0) ≡ false
    pub was_live : is_cancelled info ≡ false
    pub allowed : is_sender_or env.store.operator caller info.sender ≡ true
    pub signed : env.auth caller ≡ true
    pub not_ended : 0 < info.end_time → env.now < info.end_time
    pub config : env'.store.config ≡ some (rated_info info new_rate)
    pub same_cliff : env'.store.cliff_config ≡ env.store.cliff_config
    pub checkpoint :
        env'.store.rate_checkpoint
        ≡ some (
            new_checkpoint env.store.cliff_config info
              (effective_time info env.now)
              (or_zero_ℤ (returned (streamed_amount host env.now env.store info tt))))
    pub computed :
        returned (streamed_amount host env.now env.store info tt)
        ≡ some (or_zero_ℤ (returned (streamed_amount host env.now env.store info tt)))
    pub same_tokens : env'.tokens ≡ env.tokens

-- The change takes effect once the schedule has begun: after the cliff, or else after the start.
abbrev pub HasBegun : StreamInfo → Option CliffConfig → ℕ → Type 0
HasBegun info none t = info.start_time ≤ t
HasBegun info (some cfg) t = cfg.cliff_time ≤ t

-- ===== src/Stream/Views.antt =====
-- contracts/stream/src/lib.rs: the read-only entry points that compute something.
use stream_fi_contracts.Prelude.{
  ℕ, ◌-◌, Bool, ◌&&◌, Option, none, some, ltb, leb, ◌==◌, if◌then◌else◌,
}
use stream_fi_contracts.Prelude.Int.{ℤ, pos, checked_add, checked_mul}
use stream_fi_contracts.Prelude.Effect.{pure, branch, ok, err, trap, or_trap, calc, Outcome, ◌>>=◌}
use stream_fi_contracts.Host.{Host}
use stream_fi_contracts.Stream.Types.{
  Error, StreamInfo, StreamStatus, StreamSummary, ImmutableConfig, is_cancelled, is_paused,
  is_clawback_enabled, pending, active, paused, cancelled, completed,
}
use stream_fi_contracts.Stream.Env.{Act, Env, stored, timestamp, current_contract_address, balance}
use stream_fi_contracts.Stream.State.{load, try_load}
use stream_fi_contracts.Stream.Math
use stream_fi_contracts.Stream.Math.{streamed_amount}
use stream_fi_contracts.Stream.Access

-- The status that `get_summary` reports, from the record and the ledger time.
unfoldable pub status : StreamInfo → ℕ → StreamStatus
status info now =
    if is_cancelled info
    then cancelled
    else if is_paused info
    then paused
    else if ltb now info.start_time
    then pending
    else if ltb 0 info.end_time && leb info.end_time now
    then completed
    else active

module _ (host : Host) where
  unfoldable pub withdrawable : Act host.Tokens ℤ
  unfolding load
  withdrawable = do
    info ← load
    branch (is_cancelled info) (pure (pos 0))
        (λ env. calc (Math.withdrawable host env.now env.store info) env)

  unfoldable pub streamed_total : Act host.Tokens ℤ
  unfolding load
  streamed_total = do
    info ← load
    branch (is_cancelled info) (pure (pos 0))
        (λ env. calc (streamed_amount host env.now env.store info) env)

  unfoldable pub cumulative_deposited : Act host.Tokens ℤ
  unfolding try_load Access.cumulative_deposited
  cumulative_deposited = do info ← try_load; Access.cumulative_deposited host info

  abbrev unwrap_or_zero : Outcome (Env host.Tokens) Error ℤ → Outcome (Env host.Tokens) Error ℤ
  unwrap_or_zero (ok n env) = ok n env
  unwrap_or_zero (err e env) = ok (pos 0) env
  unwrap_or_zero (trap t) = trap t

  unfoldable pub total_amount : StreamInfo → Act host.Tokens ℤ
  unfolding checked_mul checked_add
  total_amount info =
      branch (ltb info.start_time info.end_time)
        (or_trap (checked_mul (pos (info.end_time - info.start_time)) info.rate_per_second))
        (do
          self ← current_contract_address
          held ← balance host info.token self
          or_trap (checked_add held info.withdrawn))

  unfoldable pub get_summary : Act host.Tokens StreamSummary
  unfolding load status streamed_total total_amount
  get_summary = do
    info ← load
    now ← timestamp
    streamed ← λ env. unwrap_or_zero (streamed_total env)
    total ← total_amount info
    pure (record {
      sender = info.sender;
      recipient = info.recipient;
      token = info.token;
      total_amount = total;
      streamed_amount = streamed;
      status = status info now;
      start_time = info.start_time;
      stop_time = info.end_time;
    })

module _ {T : Type 0} where
  unfoldable pub clawback_enabled : Act T Bool
  unfolding load
  clawback_enabled = do info ← load; pure (is_clawback_enabled info)

  unfoldable pub is_open_ended : Act T Bool
  unfolding load
  is_open_ended = do info ← load; pure (info.end_time == 0)

  abbrev config_or_info : Option ImmutableConfig → Act T ImmutableConfig
  config_or_info (some cfg) = pure cfg
  config_or_info none = do
    info ← try_load
    pure (record {
      start_time = info.start_time;
      stop_time = info.end_time;
      token = info.token;
      rate_per_second = info.rate_per_second;
      sender = info.sender;
      recipient = info.recipient;
    })

  unfoldable pub immutable_config : Act T ImmutableConfig
  unfolding try_load
  immutable_config = do cfg ← stored (λ s. s.immutable_config); config_or_info cfg

-- ===== src/Stream/Rate/Cliff.antt =====
-- What `set_cliff` does to the accrual.
use stream_fi_contracts.Prelude.{
  ℕ, ◌+◌, ◌≤◌, ◌<◌, ◌≡◌, refl, ap, ◌∙◌, true, false, none, some, arith,
}
use stream_fi_contracts.Prelude.Int.{
  ℤ, pos, ◌≤ℤ◌, ltb_ℤ, checked_add_u64, InI128, u64_mod, ltb_ℤ-false,
}
use stream_fi_contracts.Prelude.Effect.{ok, is_ok, is_ok-ok}
use stream_fi_contracts.Host.{Host, Address, U256Laws}
use stream_fi_contracts.Stream.Types.{StreamInfo, CliffConfig, is_cancelled}
use stream_fi_contracts.Stream.Access.{is_sender_or, require_sender_or_operator}
use stream_fi_contracts.Stream.Events
use stream_fi_contracts.Stream.Ttl.{bump}
use stream_fi_contracts.Stream.Env.{Env, Store}
use stream_fi_contracts.Stream.State.{
  locked, unlock, depth, load, try_load, save, assert_not_cancelled,
}
use stream_fi_contracts.Stream.State.Guard.{with_guard-ok, with_guard-runs}
use stream_fi_contracts.Stream.Math.{streamed_amount}
use stream_fi_contracts.Stream.Math.Accrual.{IsSound, fitted, scheduled, streamed_amount-scheduled}
use stream_fi_contracts.Stream.Rate.{set_cliff, set_cliff_body}

module _ (host : Host) where
  pub record SetsCliff (at : ℕ) (amount : ℤ) (env env' : Env host.Tokens) (info : StreamInfo)
      : Type 0 where
    pub nonneg : pos 0 ≤ℤ amount
    pub after_start : info.start_time ≤ at
    pub before_end : 0 < info.end_time → at ≤ info.end_time
    pub config : env'.store.config ≡ some (record info { event_sequence = info.event_sequence + 1 })
    pub cliff :
        env'.store.cliff_config ≡ some (record { cliff_time = at; cliff_unlock_amount = amount })
    pub same_checkpoint : env'.store.rate_checkpoint ≡ env.store.rate_checkpoint
    pub same_tokens : env'.tokens ≡ env.tokens

  set_cliff_body-SetsCliff :
      (caller : Address) (at : ℕ) (amount : ℤ) (env env' : Env host.Tokens) (info : StreamInfo)
      → env.store.config ≡ some info
      → set_cliff_body caller at amount env ≡ ok tt env'
      → SetsCliff at amount env env' info
  unfolding set_cliff_body
  set_cliff_body-SetsCliff caller at amount env env' info e h =
      ground (arith, ltb_ℤ-false amount (pos 0))

  set_cliff-SetsCliff :
      (caller : Address) (at : ℕ) (amount : ℤ) (env env' : Env host.Tokens) (info : StreamInfo)
      → env.store.config ≡ some info
      → set_cliff caller at amount env ≡ ok tt env'
      → SetsCliff at amount env env' info
  unfolding set_cliff unlock
  set_cliff-SetsCliff caller at amount env env' info e h =
      let (mid, free, ran, left) = with_guard-ok (set_cliff_body caller at amount) tt env env' h in
      let r = set_cliff_body-SetsCliff caller at amount (locked env) mid info e ran in
      ground (arith, left)

  erased :
      (info info' : StreamInfo) (store : Store) (cfg : CliffConfig) (now : ℕ)
      → info.paused_at ≤ now
      → info' ≡ record info { event_sequence = info'.event_sequence }
      → store.rate_checkpoint ≡ none
      → store.cliff_config ≡ some cfg
      → now < cfg.cliff_time
      → scheduled now store info' ≡ 0
  erased info info' store cfg now a e ec ef h = rw (ec, ef) (ground (arith, e))

  bumped-IsSound :
      (info : StreamInfo) (n : ℕ) → IsSound info → IsSound (record info { event_sequence = n })
  bumped-IsSound info n s = record {
    rate_positive = s.rate_positive;
    rate_bounded = s.rate_bounded;
    ordered = s.ordered;
    start_bounded = s.start_bounded;
    end_bounded = s.end_bounded;
    pause_bounded = s.pause_bounded;
    pause_started = s.pause_started;
    pause_inside = s.pause_inside;
    withdrawn_nonneg = s.withdrawn_nonneg;
    withdrawn_bounded = s.withdrawn_bounded;
  }

  -- All that `set_cliff` asks for: nothing here speaks of what has accrued.
  pub record Accepts (caller : Address) (at : ℕ) (amount : ℤ) (env : Env host.Tokens)
      (info : StreamInfo) : Type 0 where
    pub free : depth env.store.guard ≡ 0
    pub live : is_cancelled info ≡ false
    pub allowed : is_sender_or env.store.operator caller info.sender ≡ true
    pub signed : env.auth caller ≡ true
    pub nonneg : ltb_ℤ amount (pos 0) ≡ false
    pub after_start : info.start_time ≤ at
    pub before_end : 0 < info.end_time → at ≤ info.end_time
    pub numbered : info.event_sequence + 1 < u64_mod

  set_cliff_body-ok :
      (caller : Address) (at : ℕ) (amount : ℤ) (env : Env host.Tokens) (info : StreamInfo)
      → env.store.config ≡ some info
      → Accepts caller at amount env info
      → is_ok (set_cliff_body caller at amount (locked env)) ≡ true
  unfolding set_cliff_body bump load try_load assert_not_cancelled require_sender_or_operator
      Events.cliff_configured Events.emit Events.next_sequence Events.assert_non_negative_amount
      checked_add_u64 save
  set_cliff_body-ok caller at amount env info e a = ground arith

  set_cliff-ok :
      (caller : Address) (at : ℕ) (amount : ℤ) (env : Env host.Tokens) (info : StreamInfo)
      → env.store.config ≡ some info
      → Accepts caller at amount env info
      → (env' : Env host.Tokens) × (set_cliff caller at amount env ≡ ok tt env')
  unfolding set_cliff
  set_cliff-ok caller at amount env info e a =
      let (mid, ran) = is_ok-ok _ (set_cliff_body-ok caller at amount env info e a) in
      (unlock mid, with_guard-runs (set_cliff_body caller at amount) env mid a.free ran)

  -- On a sound, live stream whose pause, if any, has begun and whose rate has not been changed: a
  -- `set_cliff` that is signed by the sender or the operator, outside any guarded call, with a
  -- non-negative i128 amount, a u64 time within the stream that is still to come, and an event number
  -- left, succeeds, whatever has accrued. It moves no tokens, and sets what has streamed to 0 until
  -- that time.
  pub set_cliff_erases_accrual :
      (laws : U256Laws host) (caller : Address) (at k : ℕ) (amount : ℤ) (env : Env host.Tokens)
      (info : StreamInfo)
      → env.store.config ≡ some info
      → IsSound info
      → info.paused_at ≤ env.now
      → InI128 amount
      → env.store.rate_checkpoint ≡ none
      → env.now + k < at
      → at < u64_mod
      → Accepts caller at amount env info
      → let info' : StreamInfo = record info { event_sequence = info.event_sequence + 1 } in
        (env' : Env host.Tokens) × (set_cliff caller at amount env ≡ ok tt env')
        × (env'.store.config ≡ some info')
        × (streamed_amount host (env.now + k) env'.store info' tt ≡ ok (pos 0) tt)
        × (env'.tokens ≡ env.tokens)
  set_cliff_erases_accrual laws caller at k amount env info e s past fits ec h b accepts =
      let (env', run) = set_cliff-ok caller at amount env info e accepts in
      let p = set_cliff-SetsCliff caller at amount env env' info e run in
      let ec' : env'.store.rate_checkpoint ≡ none = p.same_checkpoint ∙ ec in
      let cfg : CliffConfig = record { cliff_time = at; cliff_unlock_amount = amount } in
      let info' : StreamInfo = record info { event_sequence = info.event_sequence + 1 } in
      (
        env',
        run,
        p.config,
        streamed_amount-scheduled host laws (env.now + k) env'.store info' (bumped-IsSound info _ s)
              (rw ec' tt) (rw p.cliff ((p.nonneg, fits), b)) (omega arith)
            ∙ ap fitted
                (erased info info' env'.store cfg (env.now + k) (omega arith) refl ec' p.cliff h),
        p.same_tokens,
      )

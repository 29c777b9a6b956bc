-- ===== src/Stream/Pausing.antt =====
-- contracts/stream/src/lib.rs: `pause`, `resume`, and the emergency flag.
pub mod Freeze
pub mod Resume
pub mod Accrual
use stream_fi_contracts.Prelude.{
  ℕ, ◌-◌, Bool, true, false, not, ◌&&◌, Option, none, some, ltb, leb, if◌then◌else◌,
}
use stream_fi_contracts.Prelude.Int.{checked_add_u64, checked_sub_u64}
use stream_fi_contracts.Prelude.Effect.{
  pure, ok, trap, branch, raise_if, ok_or, when, calc, ◌>>=◌, ◌>>◌,
}
use stream_fi_contracts.Prelude.Effect
use stream_fi_contracts.Host.{Host, Address}
use stream_fi_contracts.Common.Pause
use stream_fi_contracts.Stream.Types.{
  Error, already_paused, not_paused, stream_not_started, stream_ended, arithmetic_overflow,
  pause_threshold_not_met, StreamInfo, RateCheckpoint, is_paused, flag_paused, set_flag, clear_flag,
}
use stream_fi_contracts.Stream.Env.{Act, Env, stored, store, with_store, timestamp, require_auth}
use stream_fi_contracts.Stream.State.{load, save, assert_not_cancelled, with_guard}
use stream_fi_contracts.Stream.Events
use stream_fi_contracts.Stream.Math.{withdrawable}
use stream_fi_contracts.Stream.Ttl.{bump, bump_for_remaining, max_pause_secs}
use stream_fi_contracts.Stream.Access.{require_sender_or_operator}

module _ (host : Host) where
  unfoldable pub pause_body : Address → Act host.Tokens (Unit {0})
  unfolding bump load assert_not_cancelled require_sender_or_operator save Events.paused
  pause_body caller = do
    bump
    info ← load
    assert_not_cancelled info
    raise_if (is_paused info) already_paused
    require_sender_or_operator caller info.sender
    now ← timestamp
    raise_if (ltb now info.start_time) stream_not_started
    raise_if (ltb 0 info.end_time && ltb info.end_time now) stream_ended
    w ← λ env. calc (withdrawable host env.now env.store info) env
    save (record info { flags = set_flag info.flags flag_paused; paused_at = now })
    Events.paused caller now w

  unfoldable pub pause : Address → Act host.Tokens (Unit {0})
  unfolding with_guard
  pause caller = with_guard (pause_body caller)

module _ {T : Type 0} where
  abbrev shift_checkpoint :
      Option RateCheckpoint → (paused_at paused_duration : ℕ) → Act T (Unit {0})
  shift_checkpoint none paused_at paused_duration = pure tt
  shift_checkpoint (some checkpoint) paused_at paused_duration =
      when (leb checkpoint.at paused_at) do
        at ← ok_or (checked_add_u64 checkpoint.at paused_duration) arithmetic_overflow
        store (λ s. record s { rate_checkpoint = some (record checkpoint { at = at }) })

  abbrev shifted_end : StreamInfo → ℕ → Act T ℕ
  shifted_end info paused_duration =
      branch (ltb 0 info.end_time)
        (ok_or (checked_add_u64 info.end_time paused_duration) arithmetic_overflow)
        (pure info.end_time)

  unfoldable pub resume_body : Address → Act T (Unit {0})
  unfolding bump load assert_not_cancelled require_sender_or_operator checked_sub_u64
      checked_add_u64 save bump_for_remaining Events.resumed
  resume_body caller = do
    bump
    info ← load
    assert_not_cancelled info
    raise_if (not (is_paused info)) not_paused
    require_sender_or_operator caller info.sender
    now ← timestamp
    paused_duration ← ok_or (checked_sub_u64 now info.paused_at) arithmetic_overflow
    checkpoint ← stored (λ s. s.rate_checkpoint)
    shift_checkpoint checkpoint info.paused_at paused_duration
    raise_if (ltb max_pause_secs paused_duration) pause_threshold_not_met
    new_start ← ok_or (checked_add_u64 info.start_time paused_duration) arithmetic_overflow
    new_end ← shifted_end info paused_duration
    save (record info {
      start_time = new_start;
      flags = clear_flag info.flags flag_paused;
      paused_at = 0;
      end_time = new_end;
    })
    when (ltb 0 new_end) (bump_for_remaining (new_end - now))
    Events.resumed caller now

  unfoldable pub resume : Address → Act T (Unit {0})
  unfolding with_guard
  resume caller = with_guard (resume_body caller)

  -- `is_emergency_paused`; the read may rewrite the cell.
  unfoldable pub is_emergency_paused : Act T Bool
  unfolding Pause.is_paused
  is_emergency_paused env =
      let (answer, cell) = Pause.is_paused env.now env.store.emergency_paused in
      ok answer (with_store env (record env.store { emergency_paused = cell }))

  abbrev set_result : Env T → Pause.SetPaused → Effect.Outcome (Env T) Error (Unit {0})
  set_result env (Pause.SetPaused.written p) =
      ok tt (with_store env (record env.store { emergency_paused = some (Pause.state p) }))
  set_result env Pause.SetPaused.in_cooldown = ok tt env
  set_result env Pause.SetPaused.undecodable = trap Effect.host

  -- `let _ = set_paused(..)`: a refusal is ignored.
  unfoldable pub set_emergency : Bool → Act T (Unit {0})
  unfolding Pause.set_paused
  set_emergency paused env =
      set_result env (Pause.set_paused env.now env.store.emergency_paused paused)

  unfoldable pub emergency_pause : Address → Act T (Unit {0})
  unfolding is_emergency_paused set_emergency bump Events.emergency_paused
  emergency_pause caller = do
    require_auth caller
    halted ← is_emergency_paused
    raise_if halted already_paused
    bump
    set_emergency true
    now ← timestamp
    Events.emergency_paused caller now

  unfoldable pub emergency_unpause : Address → Act T (Unit {0})
  unfolding is_emergency_paused set_emergency bump Events.emergency_unpaused
  emergency_unpause caller = do
    require_auth caller
    halted ← is_emergency_paused
    raise_if (not halted) not_paused
    bump
    set_emergency false
    now ← timestamp
    Events.emergency_unpaused caller now

-- ===== src/Stream/Pausing/Freeze.antt =====
-- What a successful `pause` leaves behind, and that it stops the accrual.
use stream_fi_contracts.Prelude.{ℕ, ◌+◌, ◌≤◌, ◌<◌, ◌≡◌, sym, ap, ◌∙◌, true, false, some, arith}
use stream_fi_contracts.Prelude.Int.{u64_mod}
use stream_fi_contracts.Prelude.Effect.{ok}
use stream_fi_contracts.Host.{Host, Address, U256Laws}
use stream_fi_contracts.Stream.Types.{StreamInfo, is_paused, is_cancelled, set_flag, flag_paused}
use stream_fi_contracts.Stream.Types.Flags.{pause_flags}
use stream_fi_contracts.Stream.Env.{Env, Store}
use stream_fi_contracts.Stream.Access.{is_sender_or}
use stream_fi_contracts.Stream.State.{locked, unlock}
use stream_fi_contracts.Stream.State.Guard.{with_guard-ok}
use stream_fi_contracts.Stream.Math.{streamed_amount}
use stream_fi_contracts.Stream.Math.Accrual.{
  IsSound, CheckpointSound, CliffSound, fitted, scheduled, streamed_amount-scheduled,
}
use stream_fi_contracts.Stream.Pausing.{pause, pause_body}

abbrev pub paused_info : StreamInfo → ℕ → StreamInfo
paused_info info now = record info {
  flags = set_flag info.flags flag_paused;
  paused_at = now;
  event_sequence = info.event_sequence + 1;
}

module _ (host : Host) where
  pub record Pauses (caller : Address) (env env' : Env host.Tokens) (info : StreamInfo)
      : Type 0 where
    pub was_live : is_cancelled info ≡ false
    pub was_running : is_paused info ≡ false
    pub allowed : is_sender_or env.store.operator caller info.sender ≡ true
    pub signed : env.auth caller ≡ true
    pub started : info.start_time ≤ env.now
    pub not_ended : 0 < info.end_time → env.now ≤ info.end_time
    pub config : env'.store.config ≡ some (paused_info info env.now)
    pub same_cliff : env'.store.cliff_config ≡ env.store.cliff_config
    pub same_checkpoint : env'.store.rate_checkpoint ≡ env.store.rate_checkpoint
    pub same_tokens : env'.tokens ≡ env.tokens

  pause_body-Pauses :
      (caller : Address) (env env' : Env host.Tokens) (info : StreamInfo)
      → env.store.config ≡ some info
      → pause_body host caller env ≡ ok tt env'
      → Pauses caller env env' info
  unfolding pause_body
  pause_body-Pauses caller env env' info e h = ground arith

  pause-Pauses :
      (caller : Address) (env env' : Env host.Tokens) (info : StreamInfo)
      → env.store.config ≡ some info
      → pause host caller env ≡ ok tt env'
      → Pauses caller env env' info
  unfolding pause unlock
  pause-Pauses caller env env' info e h =
      let (mid, free, ran, left) = with_guard-ok (pause_body host caller) tt env env' h in
      let r = pause_body-Pauses caller (locked env) mid info e ran in ground (arith, left)

  paused-IsSound :
      (info : StreamInfo) (now : ℕ)
      → IsSound info
      → now < u64_mod
      → info.start_time ≤ now
      → (0 < info.end_time → now ≤ info.end_time)
      → IsSound (paused_info info now)
  paused-IsSound info now s h a b = ground arith

  scheduled-paused :
      (info : StreamInfo) (store store' : Store) (now k : ℕ)
      → is_paused info ≡ false
      → store'.cliff_config ≡ store.cliff_config
      → store'.rate_checkpoint ≡ store.rate_checkpoint
      → info.start_time ≤ now
      → scheduled (now + k) store' (paused_info info now) ≡ scheduled now store info
  scheduled-paused info store store' now k p ec er a =
      rw (ec, er) (ground (arith, (pause_flags info.flags).0))

  -- A successful `pause` was made by the sender or the operator, on a live stream that had started,
  -- had not ended and was not paused. It records the time, leaves a sound record sound and the
  -- tokens alone; and what has streamed at any later time, until the record changes again, is what
  -- had streamed at the pause.
  pub pause_freezes :
      (laws : U256Laws host) (caller : Address) (k : ℕ) (env env' : Env host.Tokens)
      (info : StreamInfo)
      → env.store.config ≡ some info
      → IsSound info
      → CheckpointSound env.store.rate_checkpoint
      → CliffSound env.store.cliff_config
      → env.now + k < u64_mod
      → pause host caller env ≡ ok tt env'
      → Pauses caller env env' info
        × IsSound (paused_info info env.now)
        × (streamed_amount host (env.now + k) env'.store (paused_info info env.now) tt
            ≡ streamed_amount host env.now env.store info tt)
  pause_freezes laws caller k env env' info e s cs fs h run =
      let p = pause-Pauses caller env env' info e run in
      let s' = paused-IsSound info env.now s (omega arith) p.started p.not_ended in
      (
        p,
        s',
        streamed_amount-scheduled host laws (env.now + k) env'.store (paused_info info env.now) s'
              (rw p.same_checkpoint cs) (rw p.same_cliff fs) h
            ∙ ap fitted (
                scheduled-paused info env.store env'.store env.now k p.was_running p.same_cliff
                  p.same_checkpoint p.started)
            ∙ sym
                (streamed_amount-scheduled host laws env.now env.store info s cs fs (omega arith)),
      )

-- ===== src/Stream/Pausing/Resume.antt =====
-- What a successful `resume` leaves behind.
use stream_fi_contracts.Prelude.{
  ℕ, ◌+◌, ◌-◌, ◌≤◌, ◌<◌, ◌≡◌, true, false, Option, none, some, arith, ltb, leb, if◌then◌else◌,
}
use stream_fi_contracts.Prelude.Int.{u64_mod}
use stream_fi_contracts.Stream.Ttl.{max_pause_secs}
use stream_fi_contracts.Prelude.Effect.{ok}
use stream_fi_contracts.Stream.Types.{
  StreamInfo, RateCheckpoint, is_paused, is_cancelled, clear_flag, flag_paused,
}
use stream_fi_contracts.Stream.Env.{Env}
use stream_fi_contracts.Stream.State.{locked, unlock}
use stream_fi_contracts.Stream.State.Guard.{with_guard-ok}
use stream_fi_contracts.Stream.Pausing.{resume, resume_body}

-- The record, moved by the time that the stream was paused.
abbrev pub resumed : StreamInfo → ℕ → StreamInfo
resumed info now = record info {
  start_time = info.start_time + (now - info.paused_at);
  end_time = if ltb 0 info.end_time then info.end_time + (now - info.paused_at) else info.end_time;
  flags = clear_flag info.flags flag_paused;
  paused_at = 0;
  event_sequence = info.event_sequence + 1;
}

abbrev pub resumed_checkpoint : Option RateCheckpoint → StreamInfo → ℕ → Option RateCheckpoint
resumed_checkpoint none info now = none
resumed_checkpoint (some c) info now =
    if leb c.at info.paused_at
    then some (record c { at = c.at + (now - info.paused_at) })
    else some c

-- The numbers of the moved record are u64 values.
abbrev pub checkpoint_time : Option RateCheckpoint → ℕ
checkpoint_time none = 0
checkpoint_time (some c) = c.at

module _ {T : Type 0} where
  -- What holds after a `resume` that began at `env` with the record `info`.
  pub record Resumes (env env' : Env T) (info : StreamInfo) : Type 0 where
    pub was_live : is_cancelled info ≡ false
    pub was_paused : is_paused info ≡ true
    pub was_past : info.paused_at ≤ env.now
    pub was_short : env.now - info.paused_at ≤ max_pause_secs
    pub same_time : env'.now ≡ env.now
    pub moved_info : env'.store.config ≡ some (resumed info env.now)
    pub same_cliff : env'.store.cliff_config ≡ env.store.cliff_config
    pub moved_checkpoint :
        env'.store.rate_checkpoint ≡ resumed_checkpoint env.store.rate_checkpoint info env.now
    pub same_tokens : env'.tokens ≡ env.tokens
    pub start_fits : (resumed info env.now).start_time < u64_mod
    pub end_fits : info.end_time < u64_mod → (resumed info env.now).end_time < u64_mod
    pub checkpoint_fits :
        checkpoint_time env.store.rate_checkpoint < u64_mod
        → checkpoint_time env'.store.rate_checkpoint < u64_mod

  resume_body-Resumes :
      (caller : ℕ) (env env' : Env T) (info : StreamInfo)
      → env.store.config ≡ some info
      → resume_body caller env ≡ ok tt env'
      → Resumes env env' info
  unfolding resume_body
  resume_body-Resumes caller env env' info e h = ground arith

  -- A `resume` that succeeds found the stream live and paused for at most 30 days. It moves the
  -- start, a set end, and a checkpoint that had begun, by the length of the pause, clears the pause,
  -- leaves the cliff and the tokens alone, and nothing overflows.
  pub resume-Resumes :
      (caller : ℕ) (env env' : Env T) (info : StreamInfo)
      → env.store.config ≡ some info
      → resume caller env ≡ ok tt env'
      → Resumes env env' info
  unfolding resume unlock
  resume-Resumes caller env env' info e h =
      let (mid, free, ran, left) = with_guard-ok (resume_body caller) tt env env' h in
      let r = resume_body-Resumes caller (locked env) mid info e ran in ground (arith, left)

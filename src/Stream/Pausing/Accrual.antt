-- ===== src/Stream/Pausing/Accrual.antt =====
-- What a pause does to accrual: the schedule goes on as if the time of the pause had not passed,
-- except where a cliff is set.
use stream_fi_contracts.Prelude.{
  ℕ, ◌+◌, ◌-◌, ◌*◌, ◌≤◌, ◌<◌, ◌≡◌, refl, sym, ap, ◌∙◌, true, Option, none, some, arith, ltb,
}
use stream_fi_contracts.Prelude.Int.{pos_part, u64_mod}
use stream_fi_contracts.Prelude.Effect.{ok}
use stream_fi_contracts.Host.{Host, U256Laws}
use stream_fi_contracts.Stream.Types.{
  StreamInfo, RateCheckpoint, CliffConfig, is_paused, clear_flag, flag_paused,
}
use stream_fi_contracts.Stream.Types.Flags.{resume_flags}
use stream_fi_contracts.Stream.Env.{Env, Store}
use stream_fi_contracts.Stream.Math.{streamed_amount}
use stream_fi_contracts.Stream.Math.Accrual.{
  IsSound, CheckpointSound, CliffSound, fitted, line, origin, clock, scheduled,
  streamed_amount-scheduled,
}
use stream_fi_contracts.Stream.Pausing.{resume}
use stream_fi_contracts.Stream.Pausing.Resume.{
  Resumes, resume-Resumes, resumed, resumed_checkpoint, checkpoint_time,
}

-- The record with its pause taken off and nothing moved.
abbrev pub unpaused : StreamInfo → StreamInfo
unpaused info = record info { flags = clear_flag info.flags flag_paused }

-- The origin of the schedule lies before the pause and moves with it: a checkpoint that had begun,
-- or the start time of a stream with no cliff.
abbrev pub OriginMoves : StreamInfo → Option RateCheckpoint → Option CliffConfig → Type 0
OriginMoves info (some c) cliff = c.at ≤ info.paused_at
OriginMoves info none none = Unit
OriginMoves info none (some cfg) = ⊥

resumed-IsSound :
    (info : StreamInfo) (now : ℕ)
    → IsSound info
    → is_paused info ≡ true
    → info.paused_at ≤ now
    → (resumed info now).start_time < u64_mod
    → (resumed info now).end_time < u64_mod
    → IsSound (resumed info now)
resumed-IsSound info now s p h hs he = ground (arith, (resume_flags info.flags).0)

clock-resumed :
    (info : StreamInfo) (now k : ℕ)
    → info.paused_at ≤ now
    → clock (resumed info now) (now + k)
      ≡ clock (unpaused info) (info.paused_at + k) + (now - info.paused_at)
clock-resumed info now k h = ground (arith, (resume_flags info.flags).0)

origin-resumed :
    (info : StreamInfo) (now : ℕ) (c : Option RateCheckpoint) (cliff : Option CliffConfig)
    → OriginMoves info c cliff
    → (origin (resumed info now) (resumed_checkpoint c info now) cliff).0 ≡ (origin info c cliff).0
origin-resumed info now (some c) cliff o = ground arith
origin-resumed info now none none o = refl
origin-resumed info now none (some cfg) o = absurd o

origin_time-resumed :
    (info : StreamInfo) (now : ℕ) (c : Option RateCheckpoint) (cliff : Option CliffConfig)
    → OriginMoves info c cliff
    → (origin (resumed info now) (resumed_checkpoint c info now) cliff).1
      ≡ (origin info c cliff).1 + (now - info.paused_at)
origin_time-resumed info now (some c) cliff o = ground arith
origin_time-resumed info now none none o = refl
origin_time-resumed info now none (some cfg) o = absurd o

-- A line whose origin and clock move together has the same value.
line_shift :
    (info : StreamInfo) (base from until d : ℕ)
    → line info (base, from + d) (until + d) ≡ line info (base, from) until
line_shift info base from until d = ground arith

started_shift :
    (start now paused_at k : ℕ)
    → paused_at ≤ now
    → ltb (now + k) (start + (now - paused_at)) ≡ ltb (paused_at + k) start
started_shift start now paused_at k h = ground arith

scheduled-resumed :
    (info : StreamInfo) (store store' : Store) (now k : ℕ)
    → info.paused_at ≤ now
    → OriginMoves info store.rate_checkpoint store.cliff_config
    → store'.cliff_config ≡ store.cliff_config
    → store'.rate_checkpoint ≡ resumed_checkpoint store.rate_checkpoint info now
    → scheduled (now + k) store' (resumed info now)
      ≡ scheduled (info.paused_at + k) store (unpaused info)
scheduled-resumed info store store' now k h o ec er =
    rw (ec, er, started_shift info.start_time now info.paused_at k h, clock-resumed info now k h)
      (ground (
        arith,
        origin-resumed info now store.rate_checkpoint store.cliff_config o,
        origin_time-resumed info now store.rate_checkpoint store.cliff_config o,
        line_shift info (origin info store.rate_checkpoint store.cliff_config).0
            (origin info store.rate_checkpoint store.cliff_config).1
            (clock (unpaused info) (info.paused_at + k)) (now - info.paused_at),
      ))

unpaused-IsSound : (info : StreamInfo) → IsSound info → IsSound (unpaused info)
unpaused-IsSound info s = ground (arith, (resume_flags info.flags).0)

checkpoint-sound_bound :
    (c : Option RateCheckpoint) → CheckpointSound c → checkpoint_time c < u64_mod
checkpoint-sound_bound none s = omega arith
checkpoint-sound_bound (some c) s = s.1

resumed-CheckpointSound :
    (c : Option RateCheckpoint) (info : StreamInfo) (now : ℕ)
    → CheckpointSound c
    → checkpoint_time (resumed_checkpoint c info now) < u64_mod
    → CheckpointSound (resumed_checkpoint c info now)
resumed-CheckpointSound none info now s h = tt
resumed-CheckpointSound (some c) info now s h = ground arith

mul_split : (r a b c : ℕ) → c ≤ b → b ≤ a → r * (a - c) ≡ r * (b - c) + r * (a - b)
mul_split r a b c h k = let e : a - c ≡ (b - c) + (a - b) = omega arith in rw e (omega arith)

cliff_jump :
    (info : StreamInfo) (cfg : CliffConfig) (store store' : Store) (now : ℕ)
    → IsSound info
    → is_paused info ≡ true
    → info.paused_at ≤ now
    → store.rate_checkpoint ≡ none
    → store.cliff_config ≡ some cfg
    → cfg.cliff_time ≤ info.paused_at
    → store'.cliff_config ≡ some cfg
    → store'.rate_checkpoint ≡ none
    → scheduled now store' (resumed info now)
      ≡ scheduled now store info + pos_part info.rate_per_second * (now - info.paused_at)
cliff_jump info cfg store store' now s p h ec ef b ef' ec' =
    rw (ef, ec, ef', ec')
      (ground (
        arith,
        (resume_flags info.flags).0,
        mul_split (pos_part info.rate_per_second) now info.paused_at cfg.cliff_time b h,
      ))

module _ (host : Host) (laws : U256Laws host) where
  -- The moved record and checkpoint are sound where those before the call were.
  after-IsSound :
      (env env' : Env host.Tokens) (info : StreamInfo)
      → IsSound info
      → CheckpointSound env.store.rate_checkpoint
      → Resumes env env' info
      → IsSound (resumed info env.now) × CheckpointSound env'.store.rate_checkpoint
  after-IsSound env env' info s cs r =
      let c = env.store.rate_checkpoint in
      let fits = r.checkpoint_fits (checkpoint-sound_bound c cs) in
      (
        resumed-IsSound info env.now s r.was_paused r.was_past r.start_fits
            (r.end_fits s.end_bounded),
        rw r.moved_checkpoint
            (resumed-CheckpointSound c info env.now cs (rw r.moved_checkpoint at fits)),
      )

  -- After a successful `resume` of a sound stream that has either a rate checkpoint which had begun
  -- by the time of the pause, or neither a checkpoint nor a cliff (pending or passed), the amount
  -- streamed k seconds later is the amount that the stream, never paused, would have streamed k
  -- seconds after the time of the pause: paused time does not count. At k = 0 nothing has been gained
  -- or lost.
  pub resume_continues :
      (caller k : ℕ) (env env' : Env host.Tokens) (info : StreamInfo)
      → env.store.config ≡ some info
      → IsSound info
      → CheckpointSound env.store.rate_checkpoint
      → CliffSound env.store.cliff_config
      → OriginMoves info env.store.rate_checkpoint env.store.cliff_config
      → env.now + k < u64_mod
      → resume caller env ≡ ok tt env'
      → (env'.store.config ≡ some (resumed info env.now))
        × (streamed_amount host (env.now + k) env'.store (resumed info env.now) tt
            ≡ streamed_amount host (info.paused_at + k) env.store (unpaused info) tt)
  resume_continues caller k env env' info e s cs fs o h run =
      let r = resume-Resumes caller env env' info e run in
      let (s', cs') = after-IsSound env env' info s cs r in
      let past = r.was_past in
      (
        r.moved_info,
        streamed_amount-scheduled host laws (env.now + k) env'.store (resumed info env.now) s' cs'
              (rw r.same_cliff fs) h
            ∙ ap fitted (
                scheduled-resumed info env.store env'.store env.now k past o r.same_cliff
                  r.moved_checkpoint)
            ∙ sym (
                streamed_amount-scheduled host laws (info.paused_at + k) env.store (unpaused info)
                  (unpaused-IsSound info s) cs fs (omega arith)),
      )

  -- With a cliff that has passed by the time of the pause, and no rate change, a successful `resume`
  -- adds rate * (length of the pause) to what had streamed: the pause is counted as elapsed time.
  -- Here `before` is what had streamed at the call, paused.
  pub resume_cliff_counts_pause :
      (caller : ℕ) (env env' : Env host.Tokens) (info : StreamInfo) (cfg : CliffConfig)
      → env.store.config ≡ some info
      → IsSound info
      → env.store.rate_checkpoint ≡ none
      → env.store.cliff_config ≡ some cfg
      → CliffSound (some cfg)
      → cfg.cliff_time ≤ info.paused_at
      → env.now < u64_mod
      → resume caller env ≡ ok tt env'
      → let before = scheduled env.now env.store info in
        (streamed_amount host env.now env.store info tt ≡ fitted before)
        × (streamed_amount host env.now env'.store (resumed info env.now) tt
            ≡ fitted (before + pos_part info.rate_per_second * (env.now - info.paused_at)))
  resume_cliff_counts_pause caller env env' info cfg e s ec ef fs b h run =
      let r = resume-Resumes caller env env' info e run in
      let ec' : env'.store.rate_checkpoint ≡ none = r.moved_checkpoint ∙ rw ec in
      let ef' : env'.store.cliff_config ≡ some cfg = r.same_cliff ∙ ef in
      let cs : CheckpointSound env.store.rate_checkpoint = rw ec tt in
      let (s', cs') = after-IsSound env env' info s cs r in
      (
        streamed_amount-scheduled host laws env.now env.store info s cs (rw ef fs) h,
        streamed_amount-scheduled host laws env.now env'.store (resumed info env.now) s' cs'
              (rw ef' fs) h
            ∙ ap fitted (
                cliff_jump info cfg env.store env'.store env.now s r.was_paused r.was_past ec ef b
                  ef' ec'),
      )

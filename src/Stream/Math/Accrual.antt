-- ===== src/Stream/Math/Accrual.antt =====
-- `streamed_amount` of math.rs against the release schedule, written as a sum over the naturals.
use native.Mathlib.Nat.{div-one, zero-add}
use stream_fi_contracts.Prelude.{
  ℕ, ◌+◌, ◌-◌, ◌*◌, ◌≤◌, ◌<◌, ◌≡◌, refl, ◌∙◌, inl, inr, true, false, Option, some, none, ltb, min,
  if◌then◌else◌, arith, Bool-cases,
}
use stream_fi_contracts.Prelude.Int.{
  ℤ, pos, negsuc, pos_part, ◌≤ℤ◌, InI128, i128_half, u64_mod, checked_add, checked_add-pos,
  checked_sub_u64-le,
}
use stream_fi_contracts.Prelude.Effect.{Calc, Outcome, ok, err, ok_or, ◌>>=◌}
use stream_fi_contracts.Host.{Host, U256Laws}
use stream_fi_contracts.Stream.Types.{
  Error, arithmetic_overflow, StreamInfo, CliffConfig, RateCheckpoint, is_paused,
}
use stream_fi_contracts.Stream.Env.{Store}
use stream_fi_contracts.Stream.Math.{
  mul_div, effective_now, accrued_from, plain_accrual, streamed_amount, checkpoint_accrual,
}
use stream_fi_contracts.Stream.Math.MulDiv.{mul_div-floor}

-- What holds of the record of a stream that is not cancelled.
pub record IsSound (info : StreamInfo) : Type 0 where
  pub rate_positive : pos 1 ≤ℤ info.rate_per_second
  pub rate_bounded : InI128 info.rate_per_second
  pub ordered : 0 < info.end_time → info.start_time < info.end_time
  pub start_bounded : info.start_time < u64_mod
  pub end_bounded : info.end_time < u64_mod
  pub pause_bounded : info.paused_at < u64_mod
  pub pause_started : is_paused info ≡ true → info.start_time ≤ info.paused_at
  pub pause_inside : is_paused info ≡ true → 0 < info.end_time → info.paused_at ≤ info.end_time
  pub withdrawn_nonneg : pos 0 ≤ℤ info.withdrawn
  pub withdrawn_bounded : InI128 info.withdrawn

-- The amounts of the optional records are non-negative i128 values.
abbrev pub IsAmount : ℤ → Type 0
IsAmount z = (pos 0 ≤ℤ z) × InI128 z

abbrev pub CliffSound : Option CliffConfig → Type 0
CliffSound none = Unit
CliffSound (some cfg) = IsAmount cfg.cliff_unlock_amount × (cfg.cliff_time < u64_mod)

abbrev pub CheckpointSound : Option RateCheckpoint → Type 0
CheckpointSound none = Unit
CheckpointSound (some c) = IsAmount c.accrued × (c.at < u64_mod)

-- Where the schedule starts: a checkpoint, else a cliff, else the start time.
abbrev pub origin_cliff : StreamInfo → Option CliffConfig → ℕ × ℕ
origin_cliff info none = (0, info.start_time)
origin_cliff info (some cfg) = (pos_part cfg.cliff_unlock_amount, cfg.cliff_time)

abbrev pub origin : StreamInfo → Option RateCheckpoint → Option CliffConfig → ℕ × ℕ
origin info none cliff = origin_cliff info cliff
origin info (some c) cliff = (pos_part c.accrued, c.at)

-- A stopped clock: the pause, or the end, or the ledger time.
abbrev pub clock : StreamInfo → ℕ → ℕ
clock info now =
    let running = if is_paused info then info.paused_at else now in
    if ltb 0 info.end_time then min running info.end_time else running

-- `base + rate * elapsed` from the origin on, and nothing before.
abbrev pub line : StreamInfo → ℕ × ℕ → ℕ → ℕ
line info (base, from) until =
    if ltb until from then 0 else base + pos_part info.rate_per_second * (until - from)

abbrev pub scheduled : ℕ → Store → StreamInfo → ℕ
scheduled now store info =
    if ltb now info.start_time
    then 0
    else line info (origin info store.rate_checkpoint store.cliff_config) (clock info now)

-- A value that must fit an i128.
abbrev pub fitted : ℕ → Outcome (Unit {0}) Error ℤ
fitted n = if ltb n i128_half then ok (pos n) tt else err arithmetic_overflow tt

effective_now-clock : (info : StreamInfo) (now : ℕ) → effective_now info now ≡ clock info now
unfolding effective_now
effective_now-clock info now = ground arith

pub pos-pos_part : (z : ℤ) → pos 0 ≤ℤ z → z ≡ pos (pos_part z)
pos-pos_part (pos n) h = refl
pos-pos_part (negsuc n) h = absurd (omega arith)

pub pos_part-lt : (z : ℤ) → InI128 z → pos_part z < i128_half
pos_part-lt (pos n) h = h
pos_part-lt (negsuc n) h = omega arith

module _ (host : Host) (laws : U256Laws host) where
  -- `rate * elapsed / 1`
  linear :
      (r : ℤ) (elapsed : ℕ)
      → pos 1 ≤ℤ r
      → InI128 r
      → elapsed < u64_mod
      → mul_div host r elapsed 1 tt ≡ fitted (pos_part r * elapsed)
  linear r elapsed hp hb he = rw (pos-pos_part r (omega arith)) (
      mul_div-floor host laws (pos_part r) elapsed 1 (pos_part-lt r hb) (omega arith) (omega arith)
        (omega arith)
      ∙ rw (div-one (pos_part r * elapsed)))

  -- The last step of a sum `base + linear`.
  sum_fitted :
      (b k : ℕ) (m : Calc Error ℤ)
      → m tt ≡ fitted k
      → (m >>= λ n. ok_or (checked_add (pos b) n) arithmetic_overflow) tt ≡ fitted (b + k)
  sum_fitted b k m e = ground (arith, e, checked_add-pos b k)

  pub accrued_from-line :
      (info : StreamInfo) (base : ℤ) (from until : ℕ)
      → IsSound info
      → IsAmount base
      → until < u64_mod
      → accrued_from host info base from until tt ≡ fitted (line info (pos_part base, from) until)
  unfolding accrued_from
  accrued_from-line info base from until s a h = elim (Bool-cases (ltb until from)) [
    | inl early ↦ rw early
    | inr late ↦
        let started : from ≤ until = ground arith in
        rw (late, checked_sub_u64-le until from started)
          (rw (pos-pos_part base a.0) (
            sum_fitted (pos_part base) _ (mul_div host info.rate_per_second (until - from) 1) (
              linear info.rate_per_second (until - from) s.rate_positive s.rate_bounded
                (omega arith))))
  ]

  pub plain_accrual-line :
      (info : StreamInfo) (until : ℕ)
      → IsSound info
      → info.start_time ≤ until
      → until < u64_mod
      → plain_accrual host info until tt ≡ fitted (line info (0, info.start_time) until)
  unfolding plain_accrual
  plain_accrual-line info until s a h =
      let late : ltb until info.start_time ≡ false = ground arith in
      rw (late, checked_sub_u64-le until info.start_time a, zero-add)
        (linear info.rate_per_second (until - info.start_time) s.rate_positive s.rate_bounded
          (omega arith))

  -- The two lemmas joined: what has streamed by `until`, given the two optional records.
  accrual-line :
      (info : StreamInfo) (c : Option RateCheckpoint) (cliff : Option CliffConfig) (until : ℕ)
      → IsSound info
      → CheckpointSound c
      → CliffSound cliff
      → info.start_time ≤ until
      → until < u64_mod
      → checkpoint_accrual host info c cliff until tt
        ≡ fitted (line info (origin info c cliff) until)
  accrual-line info (some c) cliff until s cs fs a h =
      accrued_from-line info c.accrued c.at until s cs.0 h
  accrual-line info none (some cfg) until s cs fs a h =
      accrued_from-line info cfg.cliff_unlock_amount cfg.cliff_time until s fs.0 h
  accrual-line info none none until s cs fs a h = plain_accrual-line info until s a h

  -- For a sound stream `streamed_amount` is the schedule's value: 0 before the origin, then
  -- base + rate * (clock - origin). The clock of a paused stream stands at the earlier of the time of
  -- the pause and a set end; that of a running one at a set end once this has passed. It fails only
  -- where that value exceeds an i128.
  pub streamed_amount-scheduled :
      (now : ℕ) (store : Store) (info : StreamInfo)
      → IsSound info
      → CheckpointSound store.rate_checkpoint
      → CliffSound store.cliff_config
      → now < u64_mod
      → streamed_amount host now store info tt ≡ fitted (scheduled now store info)
  unfolding streamed_amount
  streamed_amount-scheduled now store info s cs fs h = elim (Bool-cases (ltb now info.start_time)) [
    | inl early ↦ rw early
    | inr started ↦
        rw (started, effective_now-clock info now)
          (accrual-line info store.rate_checkpoint store.cliff_config (clock info now) s cs fs
            (ground arith) (ground arith))
  ]

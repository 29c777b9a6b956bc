-- ===== src/Stream/Math/Schedule.antt =====
-- The release schedule over time.
use stream_fi_contracts.Prelude.{ℕ, ◌-◌, ◌*◌, ◌≤◌, ◌<◌, ◌≡◌, sym, ◌∙◌, true, none, arith, ltb}
use stream_fi_contracts.Prelude.Int.{ℤ, pos, pos_part, ◌≤ℤ◌, i128_half, u64_mod}
use stream_fi_contracts.Prelude.Effect.{ok}
use stream_fi_contracts.Host.{Host, U256Laws}
use stream_fi_contracts.Stream.Types.{StreamInfo}
use stream_fi_contracts.Stream.Env.{Store}
use stream_fi_contracts.Stream.Math.{streamed_amount}
use stream_fi_contracts.Stream.Math.Available.{taken}
use stream_fi_contracts.Stream.Math.Accrual.{
  IsSound, CheckpointSound, CliffSound, line, clock, origin, scheduled, streamed_amount-scheduled,
}

mul_mono : (r a b : ℕ) → a ≤ b → r * a ≤ r * b
mul_mono r a b h = grind arith

pub line_mono :
    (info : StreamInfo) (base from a b : ℕ)
    → a ≤ b
    → line info (base, from) a ≤ line info (base, from) b
line_mono info base from a b h =
    ground (arith, mul_mono (pos_part info.rate_per_second) (a - from) (b - from))

clock_mono : (info : StreamInfo) (a b : ℕ) → a ≤ b → clock info a ≤ clock info b
clock_mono info a b h = ground arith

-- While the record is left alone, the amount streamed never falls as time passes.
pub scheduled_mono :
    (store : Store) (info : StreamInfo) (now later : ℕ)
    → now ≤ later
    → scheduled now store info ≤ scheduled later store info
scheduled_mono store info now later h =
    let (base, from) = origin info store.rate_checkpoint store.cliff_config in
    ground (
      arith,
      line_mono info base from (clock info now) (clock info later) (clock_mono info now later h),
    )

-- A bounded stream with no cliff and no rate change never releases more than rate * duration.
pub scheduled-le-total :
    (now : ℕ) (store : Store) (info : StreamInfo)
    → IsSound info
    → store.rate_checkpoint ≡ none
    → store.cliff_config ≡ none
    → 0 < info.end_time
    → scheduled now store info ≤ pos_part info.rate_per_second * (info.end_time - info.start_time)
scheduled-le-total now store info s nc nf bounded = ground (
  arith,
  mul_mono (pos_part info.rate_per_second) (clock info now - info.start_time)
      (info.end_time - info.start_time),
)

le-lt : {a b c : ℕ} → a ≤ b → b < c → a < c
le-lt h k = omega arith

lt→ltb : (a b : ℕ) → a < b → ltb a b ≡ true
lt→ltb a b h = ground arith

module _ (host : Host) (laws : U256Laws host) where
  -- What has streamed never falls: of two results of `streamed_amount` on the same sound record, the
  -- later is at least the earlier.
  pub streamed_amount_mono :
      (store : Store) (info : StreamInfo) (now later : ℕ) (a b : ℤ)
      → IsSound info
      → CheckpointSound store.rate_checkpoint
      → CliffSound store.cliff_config
      → now ≤ later
      → later < u64_mod
      → streamed_amount host now store info tt ≡ ok a tt
      → streamed_amount host later store info tt ≡ ok b tt
      → a ≤ℤ b
  streamed_amount_mono store info now later a b s cs fs h l ra rb =
      let ea = streamed_amount-scheduled host laws now store info s cs fs (omega arith) in
      let eb = streamed_amount-scheduled host laws later store info s cs fs l in
      let (fa, va) = taken (ltb (scheduled now store info) i128_half) _ a (sym ea ∙ ra) in
      let (fb, vb) = taken (ltb (scheduled later store info) i128_half) _ b (sym eb ∙ rb) in
      rw (va, vb) (let m = scheduled_mono store info now later h in omega arith)

  -- On a sound bounded stream with no cliff and no rate change whose whole obligation fits an i128,
  -- as `initialize` demands, `streamed_amount` always returns: it never fails, at no time, and
  -- never exceeds that obligation, rate * (end - start).
  pub streamed_amount-total :
      (now : ℕ) (store : Store) (info : StreamInfo)
      → IsSound info
      → store.rate_checkpoint ≡ none
      → store.cliff_config ≡ none
      → 0 < info.end_time
      → now < u64_mod
      → pos_part info.rate_per_second * (info.end_time - info.start_time) < i128_half
      → (n : ℕ) × (streamed_amount host now store info tt ≡ ok (pos n) tt)
        × (n ≤ pos_part info.rate_per_second * (info.end_time - info.start_time))
  streamed_amount-total now store info s nc nf bounded h fits =
      let le = scheduled-le-total now store info s nc nf bounded in
      let small : ltb (scheduled now store info) i128_half ≡ true = lt→ltb _ _ (le-lt le fits) in
      (
        scheduled now store info,
        streamed_amount-scheduled host laws now store info s (rw nc tt) (rw nf tt) h ∙ rw small,
        le,
      )

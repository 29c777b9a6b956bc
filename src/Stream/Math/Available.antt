-- ===== src/Stream/Math/Available.antt =====
-- `withdrawable` of math.rs against the release schedule.
use stream_fi_contracts.Prelude.{
  ℕ, ◌-◌, ◌<◌, ◌≡◌, refl, inl, inr, Bool, true, false, arith, Bool-cases, ltb, ltb→lt,
  if◌then◌else◌,
}
use stream_fi_contracts.Prelude.Int.{
  ℤ, pos, negsuc, pos_part, ◌≤ℤ◌, max_ℤ, leb_ℤ, saturating_sub, ◌-ℤ◌, i128_half, u64_mod,
}
use stream_fi_contracts.Prelude.Effect.{Calc, ok, err, pure, ◌>>=◌}
use stream_fi_contracts.Host.{Host, U256Laws}
use stream_fi_contracts.Stream.Types.{Error, StreamInfo, arithmetic_overflow}
use stream_fi_contracts.Stream.Env.{Store}
use stream_fi_contracts.Stream.Math.{withdrawable, streamed_amount}
use stream_fi_contracts.Stream.Math.Accrual.{
  IsSound, CheckpointSound, CliffSound, fitted, scheduled, streamed_amount-scheduled,
}

excess_ℕ : (k w : ℕ) → k < i128_half → max_ℤ (saturating_sub (pos k) (pos w)) (pos 0) ≡ pos (k - w)
unfolding saturating_sub ◌-ℤ◌ max_ℤ leb_ℤ
excess_ℕ k w h = ground arith

-- The last step of `withdrawable`.
drawn_from :
    (k : ℕ) (drawn : ℤ) (m : Calc Error ℤ)
    → pos 0 ≤ℤ drawn
    → m tt ≡ fitted k
    → (m >>= λ streamed. pure (max_ℤ (saturating_sub streamed drawn) (pos 0))) tt
      ≡ (if ltb k i128_half then ok (pos (k - pos_part drawn)) tt else err arithmetic_overflow tt)
drawn_from k (negsuc w) m a e = absurd (omega arith)
drawn_from k (pos w) m a e = elim (Bool-cases (ltb k i128_half)) [
  | inl fits ↦ let d = excess_ℕ k w (ltb→lt _ _ fits) in ground (arith, e, d)
  | inr over ↦ ground (arith, e)
]

-- A value that is returned only where it fits.
pub taken :
    (b : Bool) (n : ℕ) (a : ℤ)
    → (if b then ok (pos n) tt else err arithmetic_overflow tt) ≡ ok a tt
    → (b ≡ true) × (a ≡ pos n)
taken true n a h = (refl, cc h)
taken false n a h = absurd (cc h)

module _ (host : Host) (laws : U256Laws host) where
  -- For a sound stream `withdrawable` is what the schedule has released less what was drawn, and 0
  -- where more was drawn; it fails only where the released amount exceeds an i128.
  pub withdrawable-scheduled :
      (now : ℕ) (store : Store) (info : StreamInfo)
      → IsSound info
      → CheckpointSound store.rate_checkpoint
      → CliffSound store.cliff_config
      → now < u64_mod
      → withdrawable host now store info tt ≡ (
          if ltb (scheduled now store info) i128_half
          then ok (pos (scheduled now store info - pos_part info.withdrawn)) tt
          else err arithmetic_overflow tt)
  unfolding withdrawable
  withdrawable-scheduled now store info s cs fs h =
      drawn_from (scheduled now store info) info.withdrawn (streamed_amount host now store info)
        s.withdrawn_nonneg (streamed_amount-scheduled host laws now store info s cs fs h)

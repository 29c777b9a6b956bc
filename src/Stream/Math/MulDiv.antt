-- ===== src/Stream/Math/MulDiv.antt =====
-- `mul_div` of math.rs on a non-negative value: the 256-bit intermediate never overflows.
use stream_fi_contracts.Prelude.{
  ℕ, ◌*◌, ◌/◌, ◌^◌, ◌<◌, ◌≡◌, refl, ◌∙◌, inl, inr, some, none, ltb, if◌then◌else◌, arith,
  Bool-cases, ltb→lt, ◌==◌, false, true, Bool, ◌||◌,
}
use stream_fi_contracts.Prelude.Int.{pos, ltb_ℤ, i128_half}
use stream_fi_contracts.Prelude.Effect.{ok, err, ok_or}
use stream_fi_contracts.Host.{Host, U256Laws}
use stream_fi_contracts.Stream.Types.{arithmetic_overflow}
use stream_fi_contracts.Stream.Math.{mul_div, narrowed}

product-lt : (v m : ℕ) → v < 2 ^ 127 → m < 2 ^ 128 → v * m < 2 ^ 256
product-lt v m hv hm = grind arith

module _ (host : Host) (laws : U256Laws host) where
  open laws use {value, from_value, mul_value, div_value, to_small, to_large}

  to_i128 :
      (q : host.U256)
      → narrowed (host.to_u128 q) ≡ (if ltb (value q) i128_half then some (pos (value q)) else none)
  to_i128 q = elim (Bool-cases (ltb (value q) (2 ^ 128))) [
    | inl small ↦ ground (arith, to_small q (ltb→lt _ _ small))
    | inr large ↦ ground (arith, to_large q (ground arith))
  ]

  product :
      (v m : ℕ)
      → v < i128_half
      → m < 2 ^ 128
      → (p : host.U256) × (host.u256_mul (host.from_u128 v) (host.from_u128 m) ≡ some p)
        × (value p ≡ v * m)
  product v m hv hm =
      let ev : value (host.from_u128 v) ≡ v = from_value v (omega arith) in
      let em : value (host.from_u128 m) ≡ m = from_value m hm in
      let (p, e, w) =
        mul_value (host.from_u128 v) (host.from_u128 m) (rw (ev, em) (product-lt v m hv hm)) in
      (p, e, w ∙ rw (ev, em))

  quotient :
      (p : host.U256) (d : ℕ)
      → 0 < d
      → d < 2 ^ 128
      → (q : host.U256) × (host.u256_div p (host.from_u128 d) ≡ some q) × (value q ≡ value p / d)
  quotient p d pd hd =
      let ed : value (host.from_u128 d) ≡ d = from_value d hd in
      let (q, e, w) = div_value p (host.from_u128 d) (rw ed (omega arith)) in (q, e, w ∙ rw ed)

  settled :
      (b : Bool) (k : ℕ)
      → ok_or {S = Unit {0}} (if b then some (pos k) else none) arithmetic_overflow tt
        ≡ (if b then ok (pos k) tt else err arithmetic_overflow tt)
  settled true k = refl
  settled false k = refl

  -- On a non-negative i128 the result is the exact floor of value * multiplier / divisor where that
  -- fits an i128, and `ArithmeticOverflow` where it does not.
  pub mul_div-floor :
      (v m d : ℕ)
      → v < i128_half
      → m < 2 ^ 128
      → 0 < d
      → d < 2 ^ 128
      → mul_div host (pos v) m d tt ≡ (
          if ltb (v * m / d) i128_half then ok (pos (v * m / d)) tt else err arithmetic_overflow tt)
  unfolding mul_div ltb_ℤ
  mul_div-floor v m d hv hm pd hd =
      let (p, ep, vp) = product v m hv hm in
      let (q, eq, vq) = quotient p d pd hd in
      let vk : value q ≡ v * m / d = vq ∙ rw vp in
      let narrow = to_i128 q in
      let allowed : (ltb_ℤ (pos v) (pos 0) || d == 0) ≡ false = ground arith in
      rw (allowed, ep, eq, narrow, vk) (settled (ltb (v * m / d) i128_half) (v * m / d))

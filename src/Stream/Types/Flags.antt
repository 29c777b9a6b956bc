-- ===== src/Stream/Types/Flags.antt =====
-- The bit flags of a stream (contracts/stream/src/storage.rs): each is a binary digit of `flags`.
use stream_fi_contracts.Prelude.{
  ℕ, zero, suc, ◌*◌, ◌/◌, ◌%◌, ◌≤◌, ◌≡◌, refl, true, false, arith, ◌==◌, bit_and, bit_or, max, min,
}
use stream_fi_contracts.Prelude.Bits.{bit_and-split, bit_or-split}
use stream_fi_contracts.Stream.Types.{
  has_flag, set_flag, clear_flag, flag_paused, flag_clawback_enabled, flag_cancelled,
}

bit_and-zero : (n f : ℕ) → f ≤ n → bit_and f 0 ≡ 0
bit_and-zero n zero h = refl
bit_and-zero zero (suc f) h = absurd (omega arith)
bit_and-zero (suc n) (suc f) h =
    omega (arith, bit_and-split (suc f) 0, bit_and-zero n (suc f / 2) (omega arith))

bit_and-one : (f : ℕ) → bit_and f 1 ≡ f % 2
bit_and-one f = omega (arith, bit_and-split f 1, bit_and-zero (f / 2) (f / 2) (omega arith))

bit_and-two : (f : ℕ) → bit_and f 2 ≡ f / 2 % 2 * 2
bit_and-two f = omega (arith, bit_and-split f 2, bit_and-one (f / 2))

bit_and-four : (f : ℕ) → bit_and f 4 ≡ f / 2 / 2 % 2 * 4
bit_and-four f = omega (arith, bit_and-split f 4, bit_and-two (f / 2))

pub has_flag-paused : (f : ℕ) → has_flag f flag_paused ≡ (f % 2 == 1)
unfolding has_flag
has_flag-paused f = ground (arith, bit_and-one f)

pub has_flag-clawback : (f : ℕ) → has_flag f flag_clawback_enabled ≡ (f / 2 % 2 == 1)
unfolding has_flag
has_flag-clawback f = ground (arith, bit_and-two f)

pub has_flag-cancelled : (f : ℕ) → has_flag f flag_cancelled ≡ (f / 2 / 2 % 2 == 1)
unfolding has_flag
has_flag-cancelled f = ground (arith, bit_and-four f)

-- The digits of a word, by the two recursions.
or_digits :
    (f m : ℕ) → (bit_or f m % 2 ≡ max (f % 2) (m % 2)) × (bit_or f m / 2 ≡ bit_or (f / 2) (m / 2))
or_digits f m = omega (arith, bit_or-split f m)

and_digits :
    (f m : ℕ)
    → (bit_and f m % 2 ≡ min (f % 2) (m % 2)) × (bit_and f m / 2 ≡ bit_and (f / 2) (m / 2))
and_digits f m = omega (arith, bit_and-split f m)

cancelled_digits :
    (f : ℕ)
    → (bit_or f 4 % 2 ≡ f % 2) × (bit_or f 4 / 2 % 2 ≡ f / 2 % 2) × (bit_or f 4 / 2 / 2 % 2 ≡ 1)
cancelled_digits f = omega (arith, or_digits f 4, or_digits (f / 2) 2, or_digits (f / 2 / 2) 1)

paused_digits :
    (f : ℕ)
    → (bit_or f 1 % 2 ≡ 1)
      × (bit_or f 1 / 2 % 2 ≡ f / 2 % 2)
      × (bit_or f 1 / 2 / 2 % 2 ≡ f / 2 / 2 % 2)
paused_digits f = omega (arith, or_digits f 1, or_digits (f / 2) 0, or_digits (f / 2 / 2) 0)

resumed_digits :
    (f : ℕ)
    → (bit_and f 4294967294 % 2 ≡ 0)
      × (bit_and f 4294967294 / 2 % 2 ≡ f / 2 % 2)
      × (bit_and f 4294967294 / 2 / 2 % 2 ≡ f / 2 / 2 % 2)
resumed_digits f = omega (
  arith,
  and_digits f 4294967294,
  and_digits (f / 2) 2147483647,
  and_digits (f / 2 / 2) 1073741823,
)

-- Marking a stream cancelled sets that flag and leaves the pause and the clawback flag.
pub mark_flags :
    (f : ℕ)
    → (has_flag (set_flag f flag_cancelled) flag_cancelled ≡ true)
      × (has_flag (set_flag f flag_cancelled) flag_paused ≡ has_flag f flag_paused)
      × (has_flag (set_flag f flag_cancelled) flag_clawback_enabled
          ≡ has_flag f flag_clawback_enabled)
unfolding set_flag
mark_flags f =
    let (d0, d1, d2) = cancelled_digits f in
    let g = bit_or f 4 in
    ground (
      arith,
      d0,
      d1,
      d2,
      has_flag-paused g,
      has_flag-paused f,
      has_flag-clawback g,
      has_flag-clawback f,
      has_flag-cancelled g,
    )

-- Pausing sets the pause flag and leaves the cancelled and the clawback flag.
pub pause_flags :
    (f : ℕ)
    → (has_flag (set_flag f flag_paused) flag_paused ≡ true)
      × (has_flag (set_flag f flag_paused) flag_cancelled ≡ has_flag f flag_cancelled)
      × (has_flag (set_flag f flag_paused) flag_clawback_enabled ≡ has_flag f flag_clawback_enabled)
unfolding set_flag
pause_flags f =
    let (d0, d1, d2) = paused_digits f in
    let g = bit_or f 1 in
    ground (
      arith,
      d0,
      d1,
      d2,
      has_flag-paused g,
      has_flag-cancelled g,
      has_flag-cancelled f,
      has_flag-clawback g,
      has_flag-clawback f,
    )

-- Resuming clears the pause flag and leaves the cancelled and the clawback flag.
pub resume_flags :
    (f : ℕ)
    → (has_flag (clear_flag f flag_paused) flag_paused ≡ false)
      × (has_flag (clear_flag f flag_paused) flag_cancelled ≡ has_flag f flag_cancelled)
      × (has_flag (clear_flag f flag_paused) flag_clawback_enabled
          ≡ has_flag f flag_clawback_enabled)
unfolding clear_flag
resume_flags f =
    let (d0, d1, d2) = resumed_digits f in
    let g = bit_and f 4294967294 in
    ground (
      arith,
      d0,
      d1,
      d2,
      has_flag-paused g,
      has_flag-cancelled g,
      has_flag-cancelled f,
      has_flag-clawback g,
      has_flag-clawback f,
    )

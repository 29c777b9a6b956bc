-- ===== src/Prelude/Int.antt =====
-- Signed integers over the native numbers, and the i128 operations that the contracts use. An i128
-- is a ℤ; each operation writes its range check out.
use Prim.Native.Nat.{ℕ, suc, ◌+◌, ◌-◌, ◌*◌, ◌^◌, ◌≤◌, ◌<◌}
use mathlib.Core.Path.{◌≡◌}
use mathlib.Core.Logic.{◌≢◌}
use mathlib.Core.Bool.{Bool, true, false}
use mathlib.Core.Option.{Option, none, some}
use native.Mathlib.Omega.{arith}
use stream_fi_contracts.Prelude.Tests.{ltb, leb, if◌then◌else◌}

-- `negsuc n` is -(n + 1).
pub data ℤ : Type 0 where
  pos : ℕ → ℤ
  negsuc : ℕ → ℤ

abbrev pub pos_part : ℤ → ℕ
pos_part (pos n) = n
pos_part (negsuc n) = 0

abbrev pub neg_part : ℤ → ℕ
neg_part (pos n) = 0
neg_part (negsuc n) = suc n

-- a - b, as an integer.
abbrev pub sub_ℕ : ℕ → ℕ → ℤ
sub_ℕ a b = if leb b a then pos (a - b) else negsuc (b - a - 1)

infixl 65 ◌+ℤ◌ ◌-ℤ◌
infixl 70 ◌*ℤ◌
infix 50 ◌≤ℤ◌ ◌<ℤ◌
unfoldable pub ◌+ℤ◌ : ℤ → ℤ → ℤ
a +ℤ b = sub_ℕ (pos_part a + pos_part b) (neg_part a + neg_part b)

unfoldable pub ◌-ℤ◌ : ℤ → ℤ → ℤ
a -ℤ b = sub_ℕ (pos_part a + neg_part b) (neg_part a + pos_part b)

unfoldable pub ◌*ℤ◌ : ℤ → ℤ → ℤ
a *ℤ b =
    sub_ℕ (pos_part a * pos_part b + neg_part a * neg_part b)
      (pos_part a * neg_part b + neg_part a * pos_part b)

abbrev pub ◌≤ℤ◌ : ℤ → ℤ → Type 0
a ≤ℤ b = pos_part a + neg_part b ≤ pos_part b + neg_part a

abbrev pub ◌<ℤ◌ : ℤ → ℤ → Type 0
a <ℤ b = pos_part a + neg_part b < pos_part b + neg_part a

unfoldable pub ltb_ℤ : ℤ → ℤ → Bool
ltb_ℤ a b = ltb (pos_part a + neg_part b) (pos_part b + neg_part a)

unfoldable pub leb_ℤ : ℤ → ℤ → Bool
leb_ℤ a b = leb (pos_part a + neg_part b) (pos_part b + neg_part a)

unfoldable pub eqb_ℤ : ℤ → ℤ → Bool
unfolding leb_ℤ
eqb_ℤ a b = if leb_ℤ a b then leb_ℤ b a else false

unfoldable pub max_ℤ : ℤ → ℤ → ℤ
unfolding leb_ℤ
max_ℤ a b = if leb_ℤ a b then b else a

unfoldable pub min_ℤ : ℤ → ℤ → ℤ
unfolding leb_ℤ
min_ℤ a b = if leb_ℤ a b then a else b

-- 2 ^ 127: an i128 lies from -2 ^ 127 to 2 ^ 127 - 1.
abbrev pub i128_half : ℕ
i128_half = 2 ^ 127

abbrev pub u64_mod : ℕ
u64_mod = 2 ^ 64

abbrev pub u32_mod : ℕ
u32_mod = 2 ^ 32

abbrev pub in_i128 : ℤ → Bool
in_i128 (pos n) = ltb n i128_half
in_i128 (negsuc n) = ltb n i128_half

abbrev pub InI128 : ℤ → Type 0
InI128 (pos n) = n < i128_half
InI128 (negsuc n) = n < i128_half

-- `Option` results of the checked operations: `none` on overflow.
unfoldable pub checked_add : ℤ → ℤ → Option ℤ
checked_add a b = if in_i128 (a +ℤ b) then some (a +ℤ b) else none

unfoldable pub checked_sub : ℤ → ℤ → Option ℤ
checked_sub a b = if in_i128 (a -ℤ b) then some (a -ℤ b) else none

unfoldable pub checked_mul : ℤ → ℤ → Option ℤ
checked_mul a b = if in_i128 (a *ℤ b) then some (a *ℤ b) else none

abbrev clamp_i128 : ℤ → ℤ
clamp_i128 (pos n) = if ltb n i128_half then pos n else pos (i128_half - 1)
clamp_i128 (negsuc n) = if ltb n i128_half then negsuc n else negsuc (i128_half - 1)

unfoldable pub saturating_sub : ℤ → ℤ → ℤ
saturating_sub a b = clamp_i128 (a -ℤ b)

unfoldable pub saturating_mul : ℤ → ℤ → ℤ
saturating_mul a b = clamp_i128 (a *ℤ b)

-- u64 and u32 operations.
unfoldable pub checked_add_u64 : ℕ → ℕ → Option ℕ
checked_add_u64 a b = if ltb (a + b) u64_mod then some (a + b) else none

unfoldable pub checked_add_u32 : ℕ → ℕ → Option ℕ
checked_add_u32 a b = if ltb (a + b) u32_mod then some (a + b) else none

unfoldable pub checked_sub_u64 : ℕ → ℕ → Option ℕ
checked_sub_u64 a b = if leb b a then some (a - b) else none

unfoldable pub saturating_add_u64 : ℕ → ℕ → ℕ
saturating_add_u64 a b = if ltb (a + b) u64_mod then a + b else u64_mod - 1

unfoldable pub saturating_add_u32 : ℕ → ℕ → ℕ
saturating_add_u32 a b = if ltb (a + b) u32_mod then a + b else u32_mod - 1

-- One lemma for each operation lets `omega` work with the operations shut, at any depth.
pub +ℤ_parts :
    (a b : ℤ)
    → pos_part (a +ℤ b) + neg_part a + neg_part b ≡ neg_part (a +ℤ b) + pos_part a + pos_part b
unfolding ◌+ℤ◌
+ℤ_parts a b = ground arith

pub -ℤ_parts :
    (a b : ℤ)
    → pos_part (a -ℤ b) + neg_part a + pos_part b ≡ neg_part (a -ℤ b) + pos_part a + neg_part b
unfolding ◌-ℤ◌
-ℤ_parts a b = ground arith

pub eq_of_parts : (a b : ℤ) → pos_part a + neg_part b ≡ pos_part b + neg_part a → a ≡ b
eq_of_parts a b h = ground arith

pub ruleset int_laws = (arith, +ℤ_parts, -ℤ_parts, eq_of_parts)

pub pos-+ℤ-pos : (m n : ℕ) → pos m +ℤ pos n ≡ pos (m + n)
pos-+ℤ-pos m n = omega int_laws

pub +ℤ-zero : (a : ℤ) → a +ℤ pos 0 ≡ a
+ℤ-zero a = omega int_laws

pub -ℤ-zero : (a : ℤ) → a -ℤ pos 0 ≡ a
-ℤ-zero a = omega int_laws

pub +ℤ-assoc : (a b c : ℤ) → (a +ℤ b) +ℤ c ≡ a +ℤ (b +ℤ c)
+ℤ-assoc a b c = omega int_laws

pub -ℤ--ℤ : (a b c : ℤ) → (a -ℤ b) -ℤ c ≡ a -ℤ (b +ℤ c)
-ℤ--ℤ a b c = omega int_laws

pub zero-+ℤ : (a : ℤ) → pos 0 +ℤ a ≡ a
zero-+ℤ a = omega int_laws

pub pos-*ℤ-pos : (m n : ℕ) → pos m *ℤ pos n ≡ pos (m * n)
unfolding ◌*ℤ◌
pos-*ℤ-pos m n = ground arith

pub checked_add-pos :
    (m n : ℕ)
    → checked_add (pos m) (pos n) ≡ (if ltb (m + n) i128_half then some (pos (m + n)) else none)
unfolding checked_add
checked_add-pos m n = rw (pos-+ℤ-pos m n)

pub checked_sub_u64-le : (a b : ℕ) → b ≤ a → checked_sub_u64 a b ≡ some (a - b)
unfolding checked_sub_u64
checked_sub_u64-le a b h = ground arith

-- What the tests on integers say.
pub leb_ℤ-false : (a b : ℤ) → leb_ℤ a b ≡ false → b <ℤ a
unfolding leb_ℤ
leb_ℤ-false a b h = ground arith

pub leb_ℤ-true : (a b : ℤ) → leb_ℤ a b ≡ true → a ≤ℤ b
unfolding leb_ℤ
leb_ℤ-true a b h = ground arith

pub ltb_ℤ-true : (a b : ℤ) → ltb_ℤ a b ≡ true → a <ℤ b
unfolding ltb_ℤ
ltb_ℤ-true a b h = ground arith

pub ltb_ℤ-false : (a b : ℤ) → ltb_ℤ a b ≡ false → b ≤ℤ a
unfolding ltb_ℤ
ltb_ℤ-false a b h = ground arith

pub eqb_ℤ-true : (a b : ℤ) → eqb_ℤ a b ≡ true → a ≡ b
unfolding eqb_ℤ
eqb_ℤ-true a b h = ground arith

pub eqb_ℤ-false : (a b : ℤ) → eqb_ℤ a b ≡ false → a ≢ b
unfolding eqb_ℤ
eqb_ℤ-false a b h e = ground arith

pub min_ℤ_bounds : (a b : ℤ) → (min_ℤ a b ≤ℤ a) × (min_ℤ a b ≤ℤ b)
unfolding min_ℤ
min_ℤ_bounds a b = ground arith

pub max_ℤ_bounds : (a b : ℤ) → (a ≤ℤ max_ℤ a b) × (b ≤ℤ max_ℤ a b)
unfolding max_ℤ
max_ℤ_bounds a b = ground arith

pub checked_add-some : (a b c : ℤ) → checked_add a b ≡ some c → c ≡ a +ℤ b
unfolding checked_add
checked_add-some a b c h = ground arith

pub checked_sub-some : (a b c : ℤ) → checked_sub a b ≡ some c → c ≡ a -ℤ b
unfolding checked_sub
checked_sub-some a b c h = ground arith

-- What an addition that does not overflow gives is an i128.
pub checked_add-InI128 : (a b c : ℤ) → checked_add a b ≡ some c → InI128 (a +ℤ b)
unfolding checked_add
checked_add-InI128 a b c h = ground arith

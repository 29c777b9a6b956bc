-- ===== src/Prelude/Lists.antt =====
-- Lists of numbers (addresses, identifiers) as sets: membership, removal, uniqueness.
use Prim.Native.Nat.{ℕ, suc}
use mathlib.Core.Path.{◌≡◌, refl, sym, ap, ◌∙◌}
use mathlib.Core.Logic.{inl, inr}
use mathlib.Core.Bool.{Bool, true, false, not, ◌||◌, ◌&&◌}
use mathlib.Core.List.{List, [], ◌∷◌, ◌++◌}
use native.Mathlib.Omega.{arith}
use stream_fi_contracts.Prelude.Tests.{◌==◌, if◌then◌else◌, Bool-cases}

unfoldable pub length : {A : Type 0} → List A → ℕ
length [] = 0
length (x ∷ xs) = suc (length xs)

unfoldable pub member : ℕ → List ℕ → Bool
member a [] = false
member a (x ∷ xs) = a == x || member a xs

unfoldable pub without : ℕ → List ℕ → List ℕ
without a [] = []
without a (x ∷ xs) = let rest = without a xs in if x == a then rest else x ∷ rest

abbrev pub Unique : List ℕ → Type 0
Unique [] = Unit
Unique (x ∷ xs) = (member x xs ≡ false) × Unique xs

pub member-snoc : (b a : ℕ) (xs : List ℕ) → member b (xs ++ (a ∷ [])) ≡ (member b xs || b == a)
unfolding member
member-snoc b a [] = ground arith
member-snoc b a (x ∷ xs) = let rest = member-snoc b a xs in ground (arith, rest)

pub length-snoc : (a : ℕ) (xs : List ℕ) → length (xs ++ (a ∷ [])) ≡ suc (length xs)
unfolding length
length-snoc a [] = refl
length-snoc a (x ∷ xs) = ap suc (length-snoc a xs)

pub Unique-snoc : (a : ℕ) (xs : List ℕ) → Unique xs → member a xs ≡ false → Unique (xs ++ (a ∷ []))
unfolding member
Unique-snoc a [] u h = (refl, tt)
Unique-snoc a (x ∷ xs) (first, rest) h =
    let here : member a xs ≡ false = ground arith in
    let there = member-snoc x a xs in
    let fresh : member x (xs ++ (a ∷ [])) ≡ false = ground (arith, there) in
    (fresh, Unique-snoc a xs rest here)

pub member-without :
    (b a : ℕ) (xs : List ℕ) → member b (without a xs) ≡ (not (b == a) && member b xs)
unfolding member without
member-without b a [] = ground arith
member-without b a (x ∷ xs) =
    let rest = member-without b a xs in
    elim (Bool-cases (x == a)) [
      | inl same ↦ rw same (rest ∙ ground (arith, same))
      | inr other ↦ rw other (ground (arith, other, rest))
    ]

without-absent : (a : ℕ) (xs : List ℕ) → member a xs ≡ false → without a xs ≡ xs
unfolding member without
without-absent a [] h = refl
without-absent a (x ∷ xs) h =
    let other : (x == a) ≡ false = ground arith in
    let absent : member a xs ≡ false = ground arith in
    rw other (ap (λ ys. x ∷ ys) (without-absent a xs absent))

pub length-without :
    (a : ℕ) (xs : List ℕ) → Unique xs → member a xs ≡ true → suc (length (without a xs)) ≡ length xs
unfolding member without length
length-without a [] u h = absurd (ground arith)
length-without a (x ∷ xs) (first, rest) h = elim (Bool-cases (x == a)) [
  | inl same ↦
      let is : x ≡ a = ground (arith, same) in rw (same, without-absent a xs (rw (sym is) first))
  | inr other ↦
      let there : member a xs ≡ true = ground (arith, other) in
      rw other (ap suc (length-without a xs rest there))
]

pub Unique-without : (a : ℕ) (xs : List ℕ) → Unique xs → Unique (without a xs)
unfolding member without
Unique-without a [] u = tt
Unique-without a (x ∷ xs) (first, rest) = elim (Bool-cases (x == a)) [
  | inl same ↦ rw same (Unique-without a xs rest)
  | inr other ↦
      let m = member-without x a xs in
      rw other ((ground (arith, m, first), Unique-without a xs rest))
]

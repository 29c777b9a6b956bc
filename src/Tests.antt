-- ===== src/Tests.antt =====
-- A host to run the contracts on: token balances as a function, 256-bit numbers as naturals.
pub mod Samples
pub mod Runs
pub mod Examples
pub mod VaultSamples
pub mod VaultRuns
pub mod VaultExamples
pub mod GovernorSamples
pub mod GovernorExamples
use native.Mathlib.Nat.{zero-add}
use stream_fi_contracts.Prelude.{
  ℕ, ◌+◌, ◌-◌, ◌*◌, ◌/◌, ◌^◌, ◌≤◌, ◌<◌, ◌≡◌, ◌≢◌, refl, sym, ◌∙◌, Bool, true, false, Option, none,
  some, arith, ltb, leb, ◌==◌, if◌then◌else◌, ◌&&◌,
}
use stream_fi_contracts.Prelude.Int.{ℤ, pos, negsuc}
use stream_fi_contracts.Host.{Host, Address, U256Laws, TokenLaws}

-- The balance of a holder under a token.
abbrev pub Balances : Type 0
Balances = Address → Address → ℕ

unfoldable pub change : Balances → (token holder : Address) → ℕ → Balances
change t token holder n token' holder' =
    if token' == token && holder' == holder then n else t token' holder'

unfoldable pub test_transfer : (token from to : Address) → ℤ → Balances → Option Balances
unfolding change
test_transfer token from to (negsuc n) t = none
test_transfer token from to (pos n) t =
    if leb n (t token from)
    then (let left = change t token from (t token from - n) in
        some (change left token to (left token to + n)))
    else none

abbrev pub test_host : Host
test_host = record {
  Tokens = Balances;
  U256 = ℕ;
  zero_account = 900;
  zero_contract = 901;
  balance = λ token holder t. some (pos (t token holder));
  transfer = test_transfer;
  from_u128 = λ n. n;
  u256_mul = λ a b. some (a * b);
  u256_div = λ a b. if b == 0 then none else some (a / b);
  to_u128 = λ a. if ltb a (2 ^ 128) then some a else none;
}

pub test_u256 : U256Laws test_host
test_u256 = record {
  value = λ a. a;
  from_value = λ n h. refl;
  mul_value = λ a b h. (a * b, refl, refl);
  div_value = λ a b h. (a / b, ground arith, refl);
  to_small = λ a h. ground arith;
  to_large = λ a h. ground arith;
}

eq_self : (n : ℕ) → (n == n) ≡ true
eq_self n = ground arith

neq : (m n : ℕ) → m ≢ n → (m == n) ≡ false
neq m n h = ground arith

change-same : (t : Balances) (token holder n : ℕ) → change t token holder n token holder ≡ n
unfolding change
change-same t token holder n = rw (eq_self token, eq_self holder)

change-other :
    (t : Balances) (token holder other n : ℕ)
    → other ≢ holder
    → change t token holder n token other ≡ t token other
unfolding change
change-other t token holder other n h = rw (eq_self token, neq other holder h)

picked : (b : Bool) (v u : Balances) → (if b then some v else none) ≡ some u → (b ≡ true) × (u ≡ v)
picked true v u h = (refl, cc h)
picked false v u h = absurd (cc h)

-- What a transfer that succeeds has done.
moved :
    (token from to n : ℕ) (t u : Balances)
    → test_transfer token from to (pos n) t ≡ some u
    → (n ≤ t token from)
      × (u ≡ (
          let left = change t token from (t token from - n) in
          change left token to (left token to + n)))
unfolding test_transfer
moved token from to n t u h = let (c, e) = picked (leb n (t token from)) _ u h in (ground arith, e)

not_negative :
    (token from to : Address) (a : ℤ) (t u : Balances)
    → test_transfer token from to a t ≡ some u
    → (n : ℕ) × (a ≡ pos n) × (n ≤ t token from)
unfolding test_transfer
not_negative token from to (pos n) t u h = (n, refl, (moved token from to n t u h).0)
not_negative token from to (negsuc n) t u h = absurd (cc h)

pub test_token : (token : Address) → TokenLaws test_host token
test_token token = record {
  held = λ holder t. t token holder;
  balance_held = λ holder t. refl;
  transfer_covered = not_negative token;
  transfer_from = λ from to n t u d h.
      let (le, e) = moved token from to n t u h in
      let left = change t token from (t token from - n) in
      let same =
        change-other left token to from (left token to + n) d
        ∙ change-same t token from (t token from - n) in
      rw (e, same) (omega arith);
  transfer_to = λ from to n t u d h.
      let (le, e) = moved token from to n t u h in
      let left = change t token from (t token from - n) in
      rw (
        e,
        change-same left token to (left token to + n),
        change-other t token from to (t token from - n) (λ x. d (sym x)),
      );
  transfer_other = λ from to other n t u a b h.
      let (le, e) = moved token from to n t u h in
      let left = change t token from (t token from - n) in
      rw (
        e,
        change-other left token to other (left token to + n) b,
        change-other t token from other (t token from - n) a,
      );
}

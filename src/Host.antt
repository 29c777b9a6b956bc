-- ===== src/Host.antt =====
-- What the contracts take from their host (soroban_sdk) and from the token contracts that they
-- call, none of which is under contracts/: parameters, with the documented behaviour that some
-- theorems rely on as laws.
use stream_fi_contracts.Prelude.{ℕ, ◌+◌, ◌*◌, ◌/◌, ◌^◌, ◌≤◌, ◌<◌, ◌≡◌, ◌≢◌, Option, none, some}
use stream_fi_contracts.Prelude.Int.{ℤ, pos}

-- Addresses are only compared.
abbrev pub Address : Type 0
Address = ℕ

pub record Host : Type 1 where
  -- The state of all token contracts.
  pub Tokens : Type 0
  -- The host's 256-bit numbers.
  pub U256 : Type 0
  -- What `Address::from_string` gives for the two literals of `is_zero_address`.
  pub zero_account : Address
  pub zero_contract : Address
  -- `token.balance(holder)`; `none` if the call fails.
  pub balance : (token holder : Address) → Tokens → Option ℤ
  -- `token.transfer(from, to, amount)`; `none` if the call fails.
  pub transfer : (token from to : Address) → ℤ → Tokens → Option Tokens
  pub from_u128 : ℕ → U256
  pub u256_mul : U256 → U256 → Option U256
  pub u256_div : U256 → U256 → Option U256
  pub to_u128 : U256 → Option ℕ

-- The documented arithmetic of `soroban_sdk::U256`: exact below 2 ^ 256, and `to_u128` gives a
-- value below 2 ^ 128 only.
pub record U256Laws (host : Host) : Type 0 where
  pub value : host.U256 → ℕ
  pub from_value : (n : ℕ) → n < 2 ^ 128 → value (host.from_u128 n) ≡ n
  pub mul_value :
      (a b : host.U256)
      → value a * value b < 2 ^ 256
      → (c : host.U256) × (host.u256_mul a b ≡ some c) × (value c ≡ value a * value b)
  pub div_value :
      (a b : host.U256)
      → value b ≢ 0
      → (c : host.U256) × (host.u256_div a b ≡ some c) × (value c ≡ value a / value b)
  pub to_small : (a : host.U256) → value a < 2 ^ 128 → host.to_u128 a ≡ some (value a)
  pub to_large : (a : host.U256) → 2 ^ 128 ≤ value a → host.to_u128 a ≡ none

-- The documented behaviour of a SEP-41 token that takes no fee: balances are non-negative, and a
-- transfer that succeeds moves exactly its amount between two holders and leaves all else.
pub record TokenLaws (host : Host) (token : Address) : Type 0 where
  pub held : Address → host.Tokens → ℕ
  pub balance_held :
      (holder : Address) (t : host.Tokens)
      → host.balance token holder t ≡ some (pos (held holder t))
  pub transfer_covered :
      (from to : Address) (a : ℤ) (t u : host.Tokens)
      → host.transfer token from to a t ≡ some u
      → (n : ℕ) × (a ≡ pos n) × (n ≤ held from t)
  pub transfer_from :
      (from to : Address) (n : ℕ) (t u : host.Tokens)
      → from ≢ to
      → host.transfer token from to (pos n) t ≡ some u
      → held from u + n ≡ held from t
  pub transfer_to :
      (from to : Address) (n : ℕ) (t u : host.Tokens)
      → from ≢ to
      → host.transfer token from to (pos n) t ≡ some u
      → held to u ≡ held to t + n
  pub transfer_other :
      (from to other : Address) (n : ℕ) (t u : host.Tokens)
      → other ≢ from
      → other ≢ to
      → host.transfer token from to (pos n) t ≡ some u
      → held other u ≡ held other t

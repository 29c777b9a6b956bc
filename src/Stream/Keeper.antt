-- ===== src/Stream/Keeper.antt =====
-- contracts/stream/src/lib.rs: the separately funded pool that rewards keepers.
pub mod Ping
use stream_fi_contracts.Prelude.{ℕ, Bool, true, false, not, ◌||◌, Option, none, some, ltb, ◌==◌}
use stream_fi_contracts.Prelude.Int.{
  ℤ, pos, ltb_ℤ, leb_ℤ, eqb_ℤ, checked_add, checked_sub, saturating_add_u32,
}
use stream_fi_contracts.Prelude.Effect.{pure, branch, raise, raise_if, ok_or, ◌>>=◌, ◌>>◌}
use stream_fi_contracts.Host.{Host, Address}
use stream_fi_contracts.Common.Address.{is_zero_address}
use stream_fi_contracts.Common.Ttl.{min_ttl_ledgers}
use stream_fi_contracts.Stream.Types.{
  invalid_amount, invalid_keeper_reward_token, keeper_reward_pool_not_configured,
  insufficient_keeper_reward_pool, keeper_ping_too_frequent, keeper_reward_transfer_failed,
  arithmetic_overflow, StreamInfo, StreamKeeperRewardPool,
}
use stream_fi_contracts.Stream.Env.{
  Act, stored, store, current_contract_address, require_auth, balance, transfer,
}
use stream_fi_contracts.Stream.State.{load, assert_not_cancelled, with_guard}
use stream_fi_contracts.Stream.Events
use stream_fi_contracts.Stream.Ttl.{bump, bump_for_remaining, remaining_secs}
use stream_fi_contracts.Stream.Access.{require_sender_or_operator}

abbrev answers : Option ℤ → Bool
answers none = false
answers (some held) = true

-- A ping that comes within the threshold interval after the last.
unfoldable pub is_too_soon : Option ℕ → ℕ → Bool
unfolding saturating_add_u32
is_too_soon none sequence = false
is_too_soon (some last) sequence = ltb sequence (saturating_add_u32 last min_ttl_ledgers)

module _ (host : Host) where
  abbrev kept_balance : Option StreamKeeperRewardPool → Address → Act host.Tokens ℤ
  kept_balance none reward_token = pure (pos 0)
  kept_balance (some pool) reward_token =
      branch (pool.token == reward_token) (pure pool.balance) (raise invalid_keeper_reward_token)

  unfoldable pub configure_keeper_reward_pool :
      (caller reward_token : Address) → ℤ → Act host.Tokens (Unit {0})
  unfolding with_guard load require_sender_or_operator assert_not_cancelled is_zero_address bump
      Events.keeper_reward_pool_configured
  configure_keeper_reward_pool caller reward_token reward_per_ping = with_guard do
    info ← load
    require_sender_or_operator caller info.sender
    assert_not_cancelled info
    raise_if (leb_ℤ reward_per_ping (pos 0)) invalid_amount
    raise_if (is_zero_address host reward_token || reward_token == info.token)
        invalid_keeper_reward_token
    (λ env.
        raise_if (not (answers (host.balance reward_token env.self env.tokens)))
          invalid_keeper_reward_token env)
    existing ← stored (λ s. s.keeper_reward_pool)
    kept ← kept_balance existing reward_token
    bump
    store (λ s. record s {
      keeper_reward_pool =
          some (record { token = reward_token; reward_per_ping = reward_per_ping; balance = kept });
    })
    Events.keeper_reward_pool_configured caller reward_token reward_per_ping

  unfoldable pub fund_keeper_reward_pool : Address → ℤ → Act host.Tokens (Unit {0})
  unfolding with_guard load require_sender_or_operator assert_not_cancelled checked_add bump
      Events.keeper_reward_pool_funded
  fund_keeper_reward_pool caller amount = with_guard do
    info ← load
    require_sender_or_operator caller info.sender
    assert_not_cancelled info
    raise_if (leb_ℤ amount (pos 0)) invalid_amount
    existing ← stored (λ s. s.keeper_reward_pool)
    pool ← ok_or existing keeper_reward_pool_not_configured
    new_pool_balance ← ok_or (checked_add pool.balance amount) arithmetic_overflow
    self ← current_contract_address
    held ← balance host pool.token self
    expected ← ok_or (checked_add held amount) arithmetic_overflow
    store (λ s. record s { keeper_reward_pool = some (record pool { balance = new_pool_balance }) })
    bump
    transfer host pool.token caller self amount
    held_after ← balance host pool.token self
    raise_if (not (eqb_ℤ held_after expected)) keeper_reward_transfer_failed
    Events.keeper_reward_pool_funded caller pool.token amount

  -- A payment out of the pool, with both balances compared to what they should be.
  unfoldable pub checked_payment :
      (token to : Address) → ℤ → (expected expected_to : ℤ) → Act host.Tokens (Unit {0})
  checked_payment token to amount expected expected_to = do
    self ← current_contract_address
    transfer host token self to amount
    held_after ← balance host token self
    raise_if (not (eqb_ℤ held_after expected)) keeper_reward_transfer_failed
    held_to ← balance host token to
    raise_if (not (eqb_ℤ held_to expected_to)) keeper_reward_transfer_failed

  unfoldable pub withdraw_keeper_reward_pool : Address → ℤ → Act host.Tokens (Unit {0})
  unfolding with_guard load require_sender_or_operator checked_sub checked_add bump checked_payment
      Events.keeper_reward_pool_withdrawn
  withdraw_keeper_reward_pool caller amount = with_guard do
    info ← load
    require_sender_or_operator caller info.sender
    raise_if (leb_ℤ amount (pos 0)) invalid_amount
    existing ← stored (λ s. s.keeper_reward_pool)
    pool ← ok_or existing keeper_reward_pool_not_configured
    new_pool_balance ← ok_or (checked_sub pool.balance amount) insufficient_keeper_reward_pool
    self ← current_contract_address
    held ← balance host pool.token self
    expected ← ok_or (checked_sub held amount) insufficient_keeper_reward_pool
    held_caller ← balance host pool.token caller
    expected_caller ← ok_or (checked_add held_caller amount) arithmetic_overflow
    store (λ s. record s { keeper_reward_pool = some (record pool { balance = new_pool_balance }) })
    bump
    checked_payment pool.token caller amount expected expected_caller
    Events.keeper_reward_pool_withdrawn caller pool.token amount

  -- The checks of `keeper_ping`, in order.
  unfoldable pub admit_ping : Address → Act host.Tokens (StreamInfo × StreamKeeperRewardPool)
  unfolding load assert_not_cancelled is_too_soon
  admit_ping keeper = do
    require_auth keeper
    info ← load
    assert_not_cancelled info
    existing ← stored (λ s. s.keeper_reward_pool)
    pool ← ok_or existing keeper_reward_pool_not_configured
    raise_if (ltb_ℤ pool.balance pool.reward_per_ping) insufficient_keeper_reward_pool
    (λ env.
        raise_if (is_too_soon env.store.last_keeper_ping_ledger env.sequence)
          keeper_ping_too_frequent env)
    pure (info, pool)

  -- The pool is charged, the ledger noted, and the storage renewed.
  unfoldable pub charge_ping : StreamInfo → StreamKeeperRewardPool → Act host.Tokens (Unit {0})
  unfolding checked_sub bump_for_remaining
  charge_ping info pool = do
    new_pool_balance ← ok_or (checked_sub pool.balance pool.reward_per_ping) arithmetic_overflow
    store (λ s. record s { keeper_reward_pool = some (record pool { balance = new_pool_balance }) })
    (λ env. store (λ s. record s { last_keeper_ping_ledger = some env.sequence }) env)
    (λ env. bump_for_remaining (remaining_secs info env) env)

  unfoldable pub pay_ping : Address → StreamKeeperRewardPool → Act host.Tokens (Unit {0})
  unfolding checked_sub checked_add checked_payment
  pay_ping keeper pool = do
    self ← current_contract_address
    held ← balance host pool.token self
    expected ← ok_or (checked_sub held pool.reward_per_ping) insufficient_keeper_reward_pool
    held_keeper ← balance host pool.token keeper
    expected_keeper ← ok_or (checked_add held_keeper pool.reward_per_ping) arithmetic_overflow
    checked_payment pool.token keeper pool.reward_per_ping expected expected_keeper

  -- The reward: it is paid, announced and returned.
  unfoldable pub reward_ping : Address → StreamKeeperRewardPool → Act host.Tokens ℤ
  unfolding pay_ping Events.keeper_ping
  reward_ping keeper pool = do
    pay_ping keeper pool
    Events.keeper_ping keeper pool.reward_per_ping
    pure pool.reward_per_ping

  abbrev pub ping_with : Address → StreamInfo × StreamKeeperRewardPool → Act host.Tokens ℤ
  ping_with keeper p = do charge_ping p.0 p.1; reward_ping keeper p.1

  unfoldable pub keeper_ping_body : Address → Act host.Tokens ℤ
  unfolding admit_ping charge_ping reward_ping
  keeper_ping_body keeper = do p ← admit_ping keeper; ping_with keeper p

  unfoldable pub keeper_ping : Address → Act host.Tokens ℤ
  unfolding with_guard keeper_ping_body
  keeper_ping keeper = with_guard (keeper_ping_body keeper)

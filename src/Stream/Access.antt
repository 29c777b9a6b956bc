-- ===== src/Stream/Access.antt =====
-- contracts/stream/src/lib.rs: who may call, where payouts go, and the running total of deposits.
use stream_fi_contracts.Prelude.{Bool, ◌||◌, Option, none, some, ◌==◌}
use stream_fi_contracts.Prelude.Int.{ℤ, checked_add}
use stream_fi_contracts.Prelude.Effect.{pure, branch, raise, raise_if, ok_or, ◌>>=◌}
use stream_fi_contracts.Host.{Host, Address}
use stream_fi_contracts.Stream.Types.{
  not_authorized, not_paused, arithmetic_overflow, StreamInfo, is_paused,
}
use stream_fi_contracts.Stream.Env.{
  Act, stored, store, require_auth, balance, current_contract_address,
}

abbrev pub or_recipient : Option Address → Address → Address
or_recipient none recipient = recipient
or_recipient (some address) recipient = address

abbrev pub is_sender_or : Option Address → Address → Address → Bool
is_sender_or none caller sender = caller == sender
is_sender_or (some op) caller sender = caller == sender || caller == op

module _ {T : Type 0} where
  unfoldable pub require_not_paused : StreamInfo → Act T (Unit {0})
  require_not_paused info = raise_if (is_paused info) not_paused

  unfoldable pub require_sender_or_operator : (caller sender : Address) → Act T (Unit {0})
  require_sender_or_operator caller sender = do
    operator ← stored (λ s. s.operator)
    branch (is_sender_or operator caller sender) (require_auth caller) (raise not_authorized)

  unfoldable pub auto_forward_address : Address → Act T Address
  auto_forward_address recipient = stored (λ s. or_recipient s.auto_forward_address recipient)

module _ (host : Host) where
  abbrev total_or_balance : StreamInfo → Option ℤ → Act host.Tokens ℤ
  total_or_balance info (some total) = pure total
  total_or_balance info none = do
    self ← current_contract_address
    held ← balance host info.token self
    ok_or (checked_add held info.withdrawn) arithmetic_overflow

  unfoldable pub cumulative_deposited : StreamInfo → Act host.Tokens ℤ
  unfolding checked_add
  cumulative_deposited info = do
    total ← stored (λ s. s.cumulative_deposited)
    total_or_balance info total

  unfoldable pub add_cumulative_deposit : StreamInfo → ℤ → Act host.Tokens (Unit {0})
  unfolding cumulative_deposited checked_add
  add_cumulative_deposit info amount = do
    before ← cumulative_deposited info
    total ← ok_or (checked_add before amount) arithmetic_overflow
    store (λ s. record s { cumulative_deposited = some total })

-- ===== src/Stream/Roles.antt =====
-- contracts/stream/src/lib.rs: the recipient, the payout address, the operator, the split, the
-- cancellation switch, and the sender's labels.
pub mod Recipient
use stream_fi_contracts.Prelude.{
  ℕ, Bool, true, false, not, ◌&&◌, ◌||◌, Option, none, some, List, ltb, leb, ◌==◌, if◌then◌else◌,
}
use stream_fi_contracts.Prelude.Effect.{raise_if, when, ◌>>=◌, ◌>>◌}
use stream_fi_contracts.Host.{Host, Address}
use stream_fi_contracts.Common.Address.{is_zero_address}
use stream_fi_contracts.Stream.Types.{
  not_authorized, invalid_recipient, stream_ended, invalid_amount, StreamInfo, StreamConfig,
}
use stream_fi_contracts.Stream.Env.{Act, stored, store, timestamp, require_auth}
use stream_fi_contracts.Stream.State.{load, save, assert_not_cancelled, with_guard}
use stream_fi_contracts.Stream.Events
use stream_fi_contracts.Stream.Ttl.{bump}
use stream_fi_contracts.Stream.Access.{require_sender_or_operator}

abbrev pub is_same : Option Address → Address → Bool
is_same none address = false
is_same (some existing) address = address == existing

module _ (host : Host) where
  unfoldable pub transfer_recipient_body : Address → Act host.Tokens (Unit {0})
  unfolding bump load assert_not_cancelled is_zero_address save Events.recipient_transferred
  transfer_recipient_body new_recipient = do
    bump
    info ← load
    assert_not_cancelled info
    require_auth info.recipient
    raise_if (is_zero_address host new_recipient || new_recipient == info.recipient)
        invalid_recipient
    now ← timestamp
    raise_if (ltb 0 info.end_time && leb info.end_time now) stream_ended
    save (record info { recipient = new_recipient })
    store (λ s. record s { auto_forward_address = none })
    Events.recipient_transferred info.recipient new_recipient

  unfoldable pub transfer_recipient : Address → Act host.Tokens (Unit {0})
  unfolding with_guard
  transfer_recipient new_recipient = with_guard (transfer_recipient_body new_recipient)

  unfoldable pub set_auto_forward_address : Address → Act host.Tokens (Unit {0})
  unfolding with_guard bump load assert_not_cancelled is_zero_address
  set_auto_forward_address address = with_guard do
    bump
    info ← load
    assert_not_cancelled info
    require_auth info.recipient
    raise_if (is_zero_address host address) invalid_recipient
    store (λ s. record s {
      auto_forward_address = if address == info.recipient then none else some address;
    })

module _ {T : Type 0} where
  abbrev sender_only : Address → StreamInfo → Act T (Unit {0})
  sender_only caller info = do
    raise_if (not (caller == info.sender)) not_authorized
    require_auth caller

  abbrev replace_operator : Option Address → (caller operator : Address) → Act T (Unit {0})
  replace_operator existing caller operator = when (not (is_same existing operator)) do
    when (elim existing [ none ↦ false | some old ↦ true ]) (Events.operator_revoked caller)
    store (λ s. record s { operator = some operator })
    Events.operator_set caller operator

  unfoldable pub set_operator : (caller operator : Address) → Act T (Unit {0})
  unfolding load assert_not_cancelled bump Events.operator_revoked Events.operator_set
  set_operator caller operator = do
    info ← load
    assert_not_cancelled info
    sender_only caller info
    bump
    existing ← stored (λ s. s.operator)
    replace_operator existing caller operator

  unfoldable pub revoke_operator : Address → Act T (Unit {0})
  unfolding load assert_not_cancelled bump Events.operator_revoked
  revoke_operator caller = do
    info ← load
    assert_not_cancelled info
    sender_only caller info
    bump
    store (λ s. record s { operator = none })
    Events.operator_revoked caller

  -- The sender, the operator or the recipient, with its signature.
  abbrev any_party : Address → StreamInfo → Act T (Unit {0})
  any_party caller info = do
    operator ← stored (λ s. s.operator)
    raise_if
        (not (caller == info.sender)
          && (not (is_same operator caller) && not (caller == info.recipient)))
        not_authorized
    require_auth caller

module _ (host : Host) where
  unfoldable pub set_split_recipient : (caller secondary : Address) → ℕ → Act host.Tokens (Unit {0})
  unfolding with_guard bump load assert_not_cancelled is_zero_address Events.split_recipient_set
  set_split_recipient caller secondary_recipient split_bps = with_guard do
    bump
    info ← load
    assert_not_cancelled info
    any_party caller info
    raise_if (split_bps == 0 || leb 10000 split_bps) invalid_amount
    raise_if
        (is_zero_address host secondary_recipient
          || (secondary_recipient == info.sender || secondary_recipient == info.recipient))
        invalid_recipient
    store (λ s. record s {
      split_config =
          some (record { secondary_recipient = secondary_recipient; split_bps = split_bps });
    })
    Events.split_recipient_set caller secondary_recipient split_bps

module _ {T : Type 0} where
  unfoldable pub remove_split_recipient : Address → Act T (Unit {0})
  unfolding with_guard bump load assert_not_cancelled Events.split_recipient_removed
  remove_split_recipient caller = with_guard do
    bump
    info ← load
    assert_not_cancelled info
    any_party caller info
    store (λ s. record s { split_config = none })
    Events.split_recipient_removed caller

  unfoldable pub set_stream_title : Address → List ℕ → Act T (Unit {0})
  unfolding load assert_not_cancelled bump
  set_stream_title caller title = do
    info ← load
    assert_not_cancelled info
    sender_only caller info
    bump
    store (λ s. record s { stream_title = some title })

  unfoldable pub set_reference_tag : Address → List ℕ → Act T (Unit {0})
  unfolding load assert_not_cancelled bump
  set_reference_tag caller tag = do
    info ← load
    assert_not_cancelled info
    sender_only caller info
    bump
    store (λ s. record s { reference_tag = some tag })

  unfoldable pub set_stream_config : Address → StreamConfig → Act T (Unit {0})
  unfolding with_guard bump load assert_not_cancelled require_sender_or_operator
  set_stream_config caller config = with_guard do
    bump
    info ← load
    assert_not_cancelled info
    require_sender_or_operator caller info.sender
    store (λ s. record s { stream_config = some config })

  unfoldable pub set_cancelable : Address → Bool → Act T (Unit {0})
  unfolding set_stream_config
  set_cancelable caller is_cancelable =
      set_stream_config caller (record { is_cancelable = is_cancelable })

-- ===== src/Stream/Roles/Recipient.antt =====
-- Who may hand a stream to another recipient, and what goes with it.
use stream_fi_contracts.Prelude.{◌+◌, ◌<◌, ◌≡◌, ◌≢◌, true, false, none, some, arith}
use stream_fi_contracts.Prelude.Effect.{ok}
use stream_fi_contracts.Host.{Host, Address}
use stream_fi_contracts.Common.Address.{is_zero_address}
use stream_fi_contracts.Stream.Types.{StreamInfo, is_cancelled}
use stream_fi_contracts.Stream.Env.{Env}
use stream_fi_contracts.Stream.State.{locked, unlock}
use stream_fi_contracts.Stream.State.Guard.{with_guard-ok}
use stream_fi_contracts.Stream.Roles.{transfer_recipient, transfer_recipient_body}

module _ (host : Host) where
  pub record HandsOver (new_recipient : Address) (env env' : Env host.Tokens) (info : StreamInfo)
      : Type 0 where
    pub signed : env.auth info.recipient ≡ true
    pub live : is_cancelled info ≡ false
    pub not_zero : is_zero_address host new_recipient ≡ false
    pub different : new_recipient ≢ info.recipient
    pub open_still : 0 < info.end_time → env.now < info.end_time
    pub config :
        env'.store.config
        ≡ some (record info { recipient = new_recipient; event_sequence = info.event_sequence + 1 })
    pub forward_cleared : env'.store.auto_forward_address ≡ none
    pub same_split : env'.store.split_config ≡ env.store.split_config
    pub same_tokens : env'.tokens ≡ env.tokens

  transfer_recipient_body-HandsOver :
      (new_recipient : Address) (env env' : Env host.Tokens) (info : StreamInfo)
      → env.store.config ≡ some info
      → transfer_recipient_body host new_recipient env ≡ ok tt env'
      → HandsOver new_recipient env env' info
  unfolding transfer_recipient_body
  transfer_recipient_body-HandsOver new_recipient env env' info e h = ground arith

  -- A successful `transfer_recipient` was signed by the recipient of a live stream before its end.
  -- The new recipient is another address and not the zero address; the record changes in that field
  -- and the event sequence alone, the forwarding address is cleared, and no token moves.
  pub transfer_recipient-HandsOver :
      (new_recipient : Address) (env env' : Env host.Tokens) (info : StreamInfo)
      → env.store.config ≡ some info
      → transfer_recipient host new_recipient env ≡ ok tt env'
      → HandsOver new_recipient env env' info
  unfolding transfer_recipient unlock
  transfer_recipient-HandsOver new_recipient env env' info e h =
      let (mid, free, ran, left) =
        with_guard-ok (transfer_recipient_body host new_recipient) tt env env' h in
      let r = transfer_recipient_body-HandsOver new_recipient (locked env) mid info e ran in
      ground (arith, left)

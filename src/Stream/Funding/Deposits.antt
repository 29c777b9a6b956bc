-- ===== src/Stream/Funding/Deposits.antt =====
-- What a top-up adds.
use stream_fi_contracts.Prelude.{◌<◌, ◌≡◌, true, false, some, arith}
use stream_fi_contracts.Prelude.Int.{ℤ, pos, ◌+ℤ◌, ◌<ℤ◌, leb_ℤ, leb_ℤ-false, in_i128}
use stream_fi_contracts.Prelude.Effect.{ok}
use stream_fi_contracts.Host.{Host, Address}
use stream_fi_contracts.Stream.Types.{StreamInfo, is_cancelled}
use stream_fi_contracts.Stream.Env.{Env}
use stream_fi_contracts.Stream.State.{locked, unlock}
use stream_fi_contracts.Stream.State.Guard.{with_guard-ok}
use stream_fi_contracts.Stream.Events.Quiet.{SameButSequence}
use stream_fi_contracts.Stream.Funding.{top_up, top_up_body}

module _ (host : Host) where
  pub record TopsUp (caller : Address) (amount total : ℤ) (env env' : Env host.Tokens)
      (info : StreamInfo) : Type 0 where
    pub positive : leb_ℤ amount (pos 0) ≡ false
    pub signed : env.auth caller ≡ true
    pub live : is_cancelled info ≡ false
    pub open_still : 0 < info.end_time → env.now < info.end_time
    pub moved : host.transfer info.token caller env.self amount env.tokens ≡ some env'.tokens
    pub counted : env'.store.cumulative_deposited ≡ some (total +ℤ amount)
    pub counted_fits : in_i128 (total +ℤ amount) ≡ true
    pub same_record : SameButSequence (some info) env'.store.config
    pub same_cliff : env'.store.cliff_config ≡ env.store.cliff_config
    pub same_checkpoint : env'.store.rate_checkpoint ≡ env.store.rate_checkpoint

  top_up_body-TopsUp :
      (caller : Address) (amount total : ℤ) (env env' : Env host.Tokens) (info : StreamInfo)
      → env.store.config ≡ some info
      → env.store.cumulative_deposited ≡ some total
      → top_up_body host caller amount env ≡ ok tt env'
      → TopsUp caller amount total env env' info
  unfolding top_up_body
  top_up_body-TopsUp caller amount total env env' info e t h = ground arith

  -- Where the deposits are counted: a successful `top_up` of a live stream before its end was
  -- signed by whoever pays. It transfers exactly the amount, which is positive, from the payer to
  -- the contract and adds it to the running total of deposits without overflow; the record but for
  -- its event sequence, the cliff and the rate checkpoint are as before.
  pub top_up-TopsUp :
      (caller : Address) (amount total : ℤ) (env env' : Env host.Tokens) (info : StreamInfo)
      → env.store.config ≡ some info
      → env.store.cumulative_deposited ≡ some total
      → top_up host caller amount env ≡ ok tt env'
      → TopsUp caller amount total env env' info × (pos 0 <ℤ amount)
  unfolding top_up unlock
  top_up-TopsUp caller amount total env env' info e t h =
      let (mid, free, ran, left) = with_guard-ok (top_up_body host caller amount) tt env env' h in
      let r = top_up_body-TopsUp caller amount total (locked env) mid info e t ran in
      (ground (arith, left), leb_ℤ-false amount (pos 0) r.positive)

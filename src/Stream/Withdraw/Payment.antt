-- ===== src/Stream/Withdraw/Payment.antt =====
-- The payment of `withdraw` and `cancel`: what it leaves alone, and how it divides the amount.
use stream_fi_contracts.Prelude.{◌≡◌, arith}
use stream_fi_contracts.Prelude.Int.{ℤ}
use stream_fi_contracts.Prelude.Effect.{ok}
use stream_fi_contracts.Host.{Host, Address}
use stream_fi_contracts.Stream.Types.{StreamInfo}
use stream_fi_contracts.Stream.Env.{Env}
use stream_fi_contracts.Stream.Withdraw.{payout}

module _ (host : Host) where
  -- A payment changes nothing but the tokens.
  pub payout-frame :
      (info : StreamInfo) (to : Address) (amount : ℤ) (env env' : Env host.Tokens)
      → payout host info to amount env ≡ ok tt env'
      → env' ≡ record env { tokens = env'.tokens }
  unfolding payout
  payout-frame info to amount env env' h = ground arith

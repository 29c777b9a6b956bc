-- ===== src/Stream/Withdraw/Admission.antt =====
-- What a withdrawal has checked before it writes.
use stream_fi_contracts.Prelude.{◌≡◌, true, false, some, arith}
use stream_fi_contracts.Prelude.Int.{ℤ, pos, leb_ℤ, eqb_ℤ, min_ℤ, checked_add}
use stream_fi_contracts.Prelude.Effect.{ok, returned}
use stream_fi_contracts.Host.{Host}
use stream_fi_contracts.Stream.Types.{StreamInfo, is_cancelled}
use stream_fi_contracts.Stream.Env.{Env}
use stream_fi_contracts.Stream.Access.{or_recipient}
use stream_fi_contracts.Stream.Math.{withdrawable}
use stream_fi_contracts.Stream.Withdraw.{Withdrawal, admit_withdrawal, is_too_frequent}

module _ (host : Host) where
  pub record Admits (amount : ℤ) (env env' : Env host.Tokens) (info : StreamInfo) (w : Withdrawal)
      : Type 0 where
    pub positive : leb_ℤ amount (pos 0) ≡ false
    pub live : is_cancelled info ≡ false
    pub signed : env.auth info.recipient ≡ true
    pub spaced : is_too_frequent env.store env.now ≡ false
    pub found : w.info ≡ info
    pub to : w.payout_recipient ≡ or_recipient env.store.auto_forward_address info.recipient
    pub holds : host.balance info.token env.self env.tokens ≡ some w.held
    pub accrued : returned (withdrawable host env.now env.store info tt) ≡ some w.available
    pub clamped : w.to_send ≡ min_ℤ (min_ℤ amount w.available) w.held
    pub some_accrued : eqb_ℤ w.available (pos 0) ≡ false
    pub nonzero : eqb_ℤ w.to_send (pos 0) ≡ false
    pub added : checked_add info.withdrawn w.to_send ≡ some w.new_withdrawn
    pub same_store : env'.store ≡ env.store
    pub same_tokens : env'.tokens ≡ env.tokens
    pub same_self : env'.self ≡ env.self
    pub same_time : env'.now ≡ env.now

  pub admit_withdrawal-Admits :
      (amount : ℤ) (env env' : Env host.Tokens) (info : StreamInfo) (w : Withdrawal)
      → env.store.config ≡ some info
      → admit_withdrawal host amount env ≡ ok w env'
      → Admits amount env env' info w
  unfolding admit_withdrawal
  admit_withdrawal-Admits amount env env' info w e h = ground arith

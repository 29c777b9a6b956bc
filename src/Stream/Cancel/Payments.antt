-- ===== src/Stream/Cancel/Payments.antt =====
-- Where the tokens go when a stream is cancelled.
use native.Mathlib.Nat.{zero-mul}
use stream_fi_contracts.Prelude.{
  ℕ, ◌+◌, ◌-◌, ◌<◌, ◌≡◌, ◌≢◌, refl, sym, ◌∙◌, inl, inr, Bool, true, false, Option, none, some,
  arith, Bool-cases, ltb,
}
use stream_fi_contracts.Prelude.Int.{ℤ, pos, ltb_ℤ, i128_half}
use stream_fi_contracts.Prelude.Effect.{ok, when, >>=-eq-ok}
use stream_fi_contracts.Host.{Host, Address, U256Laws, TokenLaws}
use stream_fi_contracts.Stream.Types.{StreamInfo, SplitConfig, mark_cancelled}
use stream_fi_contracts.Stream.Env.{Env, with_store, transfer}
use stream_fi_contracts.Stream.Access.{or_recipient, auto_forward_address}
use stream_fi_contracts.Stream.Withdraw.Payment.{payout-frame}
use stream_fi_contracts.Stream.Withdraw.Split.{
  SplitApart, Divides, SecondaryGains, NotSecond, Gives, share, payout-Divides, positive,
}
use stream_fi_contracts.Stream.Cancel.{Settlement, pay_recipient, pay_settlement}

module _ (host : Host) where
  -- The state in which the payments run.
  abbrev pub closed : StreamInfo → Settlement → Env host.Tokens → Env host.Tokens
  closed info s env = with_store env (record env.store {
    config = some (
        let cancelled_info = mark_cancelled info in
        record cancelled_info { withdrawn = s.total_withdrawn });
  })

  -- The two payments, one after the other.
  pub record Payments (info : StreamInfo) (s : Settlement) (env env' : Env host.Tokens)
      : Type 0 where
    pub mid : Env host.Tokens
    pub first :
        when
          (ltb_ℤ (pos 0) s.owed_to_recipient)
          (pay_recipient host info s.owed_to_recipient)
          (closed info s env)
        ≡ ok tt mid
    pub middle : mid ≡ record (closed info s env) { tokens = mid.tokens }
    pub second :
        when
          (ltb_ℤ (pos 0) s.refund_to_sender)
          (transfer host info.token mid.self info.sender s.refund_to_sender)
          mid
        ≡ ok tt env'
    pub end : env' ≡ record mid { tokens = env'.tokens }

  pay_recipient-frame :
      (info : StreamInfo) (owed : ℤ) (env env' : Env host.Tokens)
      → when (ltb_ℤ (pos 0) owed) (pay_recipient host info owed) env ≡ ok tt env'
      → env' ≡ record env { tokens = env'.tokens }
  unfolding auto_forward_address
  pay_recipient-frame info owed env env' h = elim (Bool-cases (ltb_ℤ (pos 0) owed)) [
    | inl due ↦
        payout-frame host info (or_recipient env.store.auto_forward_address info.recipient) owed env
          env' (rw due at h)
    | inr nothing ↦ let same : env' ≡ env = sym (cc (rw nothing at h)) in rw same
  ]

  transfer-frame :
      (b : Bool) (token from to : Address) (a : ℤ) (env env' : Env host.Tokens)
      → when b (transfer host token from to a) env ≡ ok tt env'
      → env' ≡ record env { tokens = env'.tokens }
  transfer-frame true token from to a env env' h = ground arith
  transfer-frame false token from to a env env' h = ground arith

  pub pay_settlement-Payments :
      (info : StreamInfo) (s : Settlement) (env env' : Env host.Tokens)
      → pay_settlement host info s env ≡ ok tt env'
      → Payments info s env env'
  unfolding pay_settlement
  pay_settlement-Payments info s env env' h =
      let (u, mid, first, rest) =
        >>=-eq-ok
          (when (ltb_ℤ (pos 0) s.owed_to_recipient) (pay_recipient host info s.owed_to_recipient))
          (λ _ e.
            when (ltb_ℤ (pos 0) s.refund_to_sender)
              (transfer host info.token e.self info.sender s.refund_to_sender) e)
          (closed info s env) h in
      record {
        mid = mid;
        first = first;
        middle = pay_recipient-frame info s.owed_to_recipient (closed info s env) mid first;
        second = rest;
        end =
            transfer-frame (ltb_ℤ (pos 0) s.refund_to_sender) info.token mid.self info.sender
              s.refund_to_sender mid env' rest;
      }

  module _ (info : StreamInfo) (token : TokenLaws host info.token) where
    open token use {held}

    share-zero : (split : Option SplitConfig) → share split 0 ≡ 0
    share-zero none = refl
    share-zero (some split) = rw (zero-mul split.split_bps)

    SecondaryGains-zero :
        (split : Option SplitConfig) (t : host.Tokens)
        → SecondaryGains host info.token token split 0 t t
    SecondaryGains-zero none t = tt
    SecondaryGains-zero (some split) t = rw (share-zero (some split)) (omega arith)

    Divides-zero :
        (split : Option SplitConfig) (self to : Address) (t : host.Tokens)
        → Divides host info.token token split self to 0 t t
    Divides-zero split self to t = record {
      paid = omega arith;
      primary = omega arith;
      secondary = SecondaryGains-zero split t;
      kept = λ other a b c. refl;
    }

    pub pay_recipient-Divides :
        (u256 : U256Laws host) (k : ℕ) (env env' : Env host.Tokens)
        → k < i128_half
        → let payee = or_recipient env.store.auto_forward_address info.recipient in
          env.self ≢ payee
          → SplitApart env.store.split_config env.self payee
          → when (ltb_ℤ (pos 0) (pos k)) (pay_recipient host info (pos k)) env ≡ ok tt env'
          → Divides host info.token token env.store.split_config env.self payee k env.tokens
              env'.tokens
    unfolding auto_forward_address
    pay_recipient-Divides u256 k env env' b d apart h = elim (Bool-cases (ltb 0 k)) [
      | inl due ↦
          payout-Divides host info.token token u256 info _ k env env' refl b d apart
            (rw (positive k, due) at h)
      | inr nothing ↦
          let zero : k ≡ 0 = ground arith in
          let same : env' ≡ env = sym (cc (rw (positive k, nothing) at h)) in
          rw (same, zero) (Divides-zero env.store.split_config env.self _ env.tokens)
    ]

    -- How a closing payment of `owed` and `refund` units changes the balances.
    pub record Closes (split : Option SplitConfig) (self payee sender : Address) (owed refund : ℕ)
        (t u : host.Tokens) : Type 0 where
      pub left : held self u + (owed + refund) ≡ held self t
      pub returned_all : held sender u ≡ held sender t + refund
      pub paid : held payee u ≡ held payee t + (owed - share split owed)
      pub secondary : SecondaryGains host info.token token split owed t u

    -- A payment to another holder leaves the second recipient with its share.
    SecondaryGains-kept :
        (split : Option SplitConfig) (self payee sender : Address) (owed refund : ℕ)
        (t m u : host.Tokens)
        → NotSecond split sender
        → SplitApart split self payee
        → Gives host info.token token self sender refund m u
        → SecondaryGains host info.token token split owed t m
        → SecondaryGains host info.token token split owed t u
    SecondaryGains-kept none self payee sender owed refund t m u y apart b a = tt
    SecondaryGains-kept (some split) self payee sender owed refund t m u y apart b a =
        b.kept split.secondary_recipient apart.1 (λ e. y (sym e)) ∙ a

    pub Closes-two :
        (split : Option SplitConfig) (self payee sender : Address) (owed refund : ℕ)
        (t m u : host.Tokens)
        → self ≢ payee
        → self ≢ sender
        → sender ≢ payee
        → NotSecond split sender
        → SplitApart split self payee
        → Divides host info.token token split self payee owed t m
        → Gives host info.token token self sender refund m u
        → Closes split self payee sender owed refund t u
    Closes-two split self payee sender owed refund t m u d d' x y apart a b = record {
      left = omega (arith, a.paid, b.taken);
      returned_all = b.given ∙ rw (a.kept sender (λ e. d' (sym e)) x y);
      paid = b.kept payee (λ e. d (sym e)) (λ e. x (sym e)) ∙ a.primary;
      secondary =
          SecondaryGains-kept split self payee sender owed refund t m u y apart b a.secondary;
    }

-- ===== src/Stream/Withdraw/Conservation.antt =====
-- Where the tokens of a withdrawal go, and that the record stays well formed.
use stream_fi_contracts.Prelude.{ℕ, ◌≤◌, ◌<◌, ◌≡◌, ◌≢◌, refl, sym, ◌∙◌, false, Option, some, arith}
use stream_fi_contracts.Prelude.Int.{
  ℤ, pos, negsuc, ◌<ℤ◌, ◌+ℤ◌, leb_ℤ, eqb_ℤ, min_ℤ, i128_half, InI128, u64_mod, int_laws,
  eqb_ℤ-false, checked_add-InI128,
}
use stream_fi_contracts.Prelude.Effect.{ok}
use stream_fi_contracts.Host.{Host, Address, U256Laws, TokenLaws}
use stream_fi_contracts.Stream.Types.{StreamInfo, SplitConfig}
use stream_fi_contracts.Stream.Env.{Env}
use stream_fi_contracts.Stream.Access.{or_recipient}
use stream_fi_contracts.Stream.State.{locked, unlock}
use stream_fi_contracts.Stream.Math.Accrual.{IsSound, CheckpointSound, CliffSound}
use stream_fi_contracts.Stream.Withdraw.{withdraw, payout}
use stream_fi_contracts.Stream.Withdraw.Split.{SplitApart, Divides, payout-Divides}
use stream_fi_contracts.Stream.Withdraw.Entitlement.{
  Withdraws, withdraw-Withdraws, available-le, saved_config,
}

-- The least of three amounts, the first two positive and the last a balance.
least-pos :
    (amount available n : ℤ) (held : ℕ)
    → leb_ℤ amount (pos 0) ≡ false
    → pos 0 <ℤ available
    → InI128 available
    → n ≡ min_ℤ (min_ℤ amount available) (pos held)
    → eqb_ℤ n (pos 0) ≡ false
    → (k : ℕ) × (n ≡ pos k) × (0 < k) × (k < i128_half) × (k ≤ held)
unfolding min_ℤ leb_ℤ
least-pos amount available (pos k) held p a b e z =
    let nz = eqb_ℤ-false (pos k) (pos 0) z in
    (k, refl, ground (arith, nz), ground arith, ground arith)
least-pos amount available (negsuc k) held p a b e z = absurd (ground arith)

drawn-IsSound :
    (info info' : StreamInfo) (n : ℤ) (k : ℕ)
    → IsSound info
    → n ≡ pos k
    → InI128 (info.withdrawn +ℤ n)
    → info'
      ≡ (record info { withdrawn = info.withdrawn +ℤ n; event_sequence = info'.event_sequence })
    → IsSound info'
drawn-IsSound info info' n k s en fits e = rw e (record {
  rate_positive = s.rate_positive;
  rate_bounded = s.rate_bounded;
  ordered = s.ordered;
  start_bounded = s.start_bounded;
  end_bounded = s.end_bounded;
  pause_bounded = s.pause_bounded;
  pause_started = s.pause_started;
  pause_inside = s.pause_inside;
  withdrawn_nonneg = let nonneg = s.withdrawn_nonneg in rw en (omega (int_laws, nonneg));
  withdrawn_bounded = fits;
})

module _ (host : Host) where
  withdraw_amount :
      (u256 : U256Laws host) (amount n : ℤ) (env env' : Env host.Tokens) (info : StreamInfo)
      (token : TokenLaws host info.token)
      → IsSound info
      → CheckpointSound env.store.rate_checkpoint
      → CliffSound env.store.cliff_config
      → env.now < u64_mod
      → Withdraws host amount n env env' info
      → (k : ℕ) × (n ≡ pos k) × (0 < k) × (k < i128_half) × (k ≤ token.held env.self env.tokens)
  withdraw_amount u256 amount n env env' info token s cs fs h w =
      let plan = w.plan in
      let a = w.admitted in
      let (sum, up, fits) =
        available-le host u256 (locked env) info plan.available s cs fs h a.accrued
          a.some_accrued in
      let held : plan.held ≡ pos (token.held env.self env.tokens) =
        cc (a.holds, token.balance_held env.self env.tokens) in
      least-pos amount plan.available n (token.held env.self env.tokens) a.positive up fits
        (w.sent ∙ a.clamped ∙ rw held) (rw w.sent a.nonzero)

  -- A payment whose arguments are known by equations.
  pub payment-Divides :
      (u256 : U256Laws host) (info plan_info : StreamInfo) (token : TokenLaws host info.token)
      (split : Option SplitConfig) (self to plan_to : Address) (k : ℕ) (amount : ℤ)
      (t u : host.Tokens) (saved paid : Env host.Tokens)
      → k < i128_half
      → self ≢ to
      → SplitApart split self to
      → plan_info ≡ info
      → plan_to ≡ to
      → amount ≡ pos k
      → saved.store.split_config ≡ split
      → saved.self ≡ self
      → saved.tokens ≡ t
      → u ≡ paid.tokens
      → payout host plan_info plan_to amount saved ≡ ok tt paid
      → Divides host info.token token split self to k t u
  payment-Divides u256 info plan_info token split self to plan_to k amount t u saved paid b d apart
        ei et ea es eself etok eu h =
      rw (sym es, sym eself, sym etok, eu)
        (payout-Divides host info.token token u256 info to k saved paid refl b (rw eself d)
          (rw (es, eself) apart) (rw (ei, et, ea) at h))

  -- On a token that takes no fee, where the contract, the payee and the second recipient are
  -- different and the split is below the whole, a successful `withdraw` of a sound stream pays a
  -- positive amount of at most the contract's balance, and exactly that amount leaves the
  -- contract: the payee (the forwarding address, or the recipient) and the second recipient of a
  -- split share it without loss.
  pub withdraw_conserves :
      (u256 : U256Laws host) (amount n : ℤ) (env env' : Env host.Tokens) (info : StreamInfo)
      (token : TokenLaws host info.token)
      → env.store.config ≡ some info
      → IsSound info
      → CheckpointSound env.store.rate_checkpoint
      → CliffSound env.store.cliff_config
      → env.now < u64_mod
      → let payee = or_recipient env.store.auto_forward_address info.recipient in
        env.self ≢ payee
        → SplitApart env.store.split_config env.self payee
        → withdraw host amount env ≡ ok n env'
        → (k : ℕ) × (n ≡ pos k)
          × (0 < k)
          × (k ≤ token.held env.self env.tokens)
          × Divides host info.token token env.store.split_config env.self payee k env.tokens
              env'.tokens
  unfolding unlock
  withdraw_conserves u256 amount n env env' info token e s cs fs h d apart run =
      let w = withdraw-Withdraws host amount n env env' info e run in
      let plan = w.plan in
      let a = w.admitted in
      let p = w.settled in
      let (k, ek, pk, bk, le) = withdraw_amount u256 amount n env env' info token s cs fs h w in
      (
        k,
        ek,
        pk,
        le,
        payment-Divides u256 info plan.info token env.store.split_config env.self _
            plan.payout_recipient k plan.to_send env.tokens env'.tokens p.saved p.paid bk d apart
            a.found a.to (sym w.sent ∙ ek) (p.saved_split ∙ ground (arith, a.same_store))
            (p.saved_self ∙ a.same_self) (p.saved_tokens ∙ a.same_tokens)
            (ground (arith, w.left, p.end_tokens)) p.payment,
      )

  -- On a token that takes no fee, a successful `withdraw` leaves a sound record sound.
  pub withdraw-IsSound :
      (u256 : U256Laws host) (amount n : ℤ) (env env' : Env host.Tokens) (info info' : StreamInfo)
      (token : TokenLaws host info.token)
      → env.store.config ≡ some info
      → IsSound info
      → CheckpointSound env.store.rate_checkpoint
      → CliffSound env.store.cliff_config
      → env.now < u64_mod
      → withdraw host amount env ≡ ok n env'
      → env'.store.config ≡ some info'
      → IsSound info'
  withdraw-IsSound u256 amount n env env' info info' token e s cs fs h run e' =
      let w = withdraw-Withdraws host amount n env env' info e run in
      let (k, ek, pk, bk, le) = withdraw_amount u256 amount n env env' info token s cs fs h w in
      let same = rw e' at (saved_config host amount n env env' info w) in
      let fits : InI128 (info.withdrawn +ℤ n) =
        checked_add-InI128 info.withdrawn n w.plan.new_withdrawn (rw w.sent w.admitted.added) in
      drawn-IsSound info info' n k s ek fits same.0

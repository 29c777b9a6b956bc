-- ===== src/Stream/Cancel/Closing.antt =====
-- What a cancellation leaves behind: the record marked, the contract empty.
use mathlib.Core.Path.{subst}
use stream_fi_contracts.Prelude.{ℕ, ◌+◌, ◌-◌, ◌<◌, ◌≡◌, ◌≢◌, refl, some, arith}
use stream_fi_contracts.Prelude.Int.{pos, pos_part, u64_mod}
use stream_fi_contracts.Prelude.Effect.{ok, ◌>>=◌, >>=-eq-ok}
use stream_fi_contracts.Host.{Host, U256Laws, TokenLaws}
use stream_fi_contracts.Stream.Types.{StreamInfo, mark_cancelled}
use stream_fi_contracts.Stream.Env.{Env}
use stream_fi_contracts.Stream.Access.{or_recipient}
use stream_fi_contracts.Stream.Events.Quiet.{SameButSequence}
use stream_fi_contracts.Stream.Math.Accrual.{IsSound, CheckpointSound, CliffSound}
use stream_fi_contracts.Stream.Withdraw.Split.{SplitApart, NotSecond, when-transfer-Gives}
use stream_fi_contracts.Stream.Cancel.{Settlement, settle, settlement, pay_settlement}
use stream_fi_contracts.Stream.Cancel.Settle.{Settled, settlement-Settled, Settled-values, owed}
use stream_fi_contracts.Stream.Cancel.Payments.{
  closed, Payments, pay_settlement-Payments, pay_recipient-Divides, Closes, Closes-two,
}

module _ (host : Host) where
  settle-parts :
      (info : StreamInfo) (s : Settlement) (env env' : Env host.Tokens)
      → settle host info env ≡ ok s env'
      → Settled host info s env env × Payments host info s env env'
  unfolding settle
  settle-parts info s env env' h =
      let (s1, mid, first, rest) =
        >>=-eq-ok (settlement host info) (λ s. pay_settlement host info s >>= λ _ e. ok s e) env
          h in
      let (u, mid', second, last) =
        >>=-eq-ok (pay_settlement host info s1) (λ _ e. ok s1 e) mid rest in
      let same : s1 ≡ s = cc last in
      let end : mid' ≡ env' = cc last in
      let st = settlement-Settled host info s1 env mid first in
      (
        subst (λ x. Settled host info x env env) same
            (subst (λ x. Settled host info s1 env x) st.unchanged st),
        subst (λ x. Payments host info x env env') same
            (subst (λ x. Payments host info s1 env x) end
              (pay_settlement-Payments host info s1 env mid'
                (subst (λ x. pay_settlement host info s1 x ≡ ok tt mid') st.unchanged second))),
      )

  -- The record of a stream that was cancelled when `value` more units were owed.
  abbrev pub closed_info : StreamInfo → ℕ → StreamInfo
  closed_info info value =
      let cancelled_info = mark_cancelled info in
      record cancelled_info { withdrawn = pos (pos_part info.withdrawn + value) }

  -- The end of a settled stream: what the recipient had earned, as far as the balance went, is paid,
  -- and the rest is returned, so that the contract keeps nothing.
  pub record Ends (info : StreamInfo) (token : TokenLaws host info.token)
      (env env' : Env host.Tokens) : Type 0 where
    pub value : ℕ
    pub value_is : value ≡ owed host env.now env.store info (token.held env.self env.tokens)
    pub divided :
        Closes host info token env.store.split_config env.self
          (or_recipient env.store.auto_forward_address info.recipient)
          info.sender
          value
          (token.held env.self env.tokens - value)
          env.tokens
          env'.tokens
    pub emptied : token.held env.self env'.tokens ≡ 0
    pub marked : SameButSequence (some (closed_info info value)) env'.store.config

  pub settle-Ends :
      (u256 : U256Laws host) (info : StreamInfo) (token : TokenLaws host info.token)
      (s : Settlement) (env env' : Env host.Tokens)
      → IsSound info
      → CheckpointSound env.store.rate_checkpoint
      → CliffSound env.store.cliff_config
      → env.now < u64_mod
      → env.self ≢ or_recipient env.store.auto_forward_address info.recipient
      → env.self ≢ info.sender
      → info.sender ≢ or_recipient env.store.auto_forward_address info.recipient
      → NotSecond env.store.split_config info.sender
      → SplitApart env.store.split_config env.self
          (or_recipient env.store.auto_forward_address info.recipient)
      → settle host info env ≡ ok s env'
      → Ends info token env env' × (env'.store.guard ≡ env.store.guard)
  settle-Ends u256 info token s env env' snd cs fs b d d' x y apart run =
      let (st, p) = settle-parts info s env env' run in
      let held = token.held env.self env.tokens in
      let value = owed host env.now env.store info held in
      let (small, eo, er, et) =
        Settled-values host u256 info s env env held snd cs fs b
          (token.balance_held env.self env.tokens) st in
      let first =
        pay_recipient-Divides host info token u256 value (closed host info s env) p.mid
          (omega arith) d apart (rw eo at p.first) in
      let same_self : p.mid.self ≡ env.self = ground (arith, p.middle) in
      let second =
        when-transfer-Gives host info.token token env.self info.sender (held - value) p.mid env' d'
          (rw (er, same_self) at p.second) in
      let c =
        Closes-two host info token env.store.split_config env.self _ info.sender value
          (held - value) env.tokens p.mid.tokens env'.tokens d d' x y apart first second in
      (
        record {
          value = value;
          value_is = refl;
          divided = c;
          emptied = omega (arith, c.left);
          marked =
              let same : env'.store.config ≡ (closed host info s env).store.config =
                ground (arith, p.end, p.middle) in
              rw (same, et) (refl, omega arith);
        },
        ground (arith, p.end, p.middle),
      )

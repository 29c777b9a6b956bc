-- ===== src/Stream/Cancel/Settle.antt =====
-- How the balance divides when a stream is cancelled.
use stream_fi_contracts.Prelude.{
  ℕ, min, ltb, ltb→lt, ◌+◌, ◌-◌, ◌<◌, ◌≡◌, sym, ◌∙◌, true, some, arith,
}
use stream_fi_contracts.Prelude.Int.{
  pos, min_ℤ, max_ℤ, ◌-ℤ◌, ◌+ℤ◌, in_i128, leb_ℤ, pos_part, i128_half, u64_mod, pos-+ℤ-pos,
}
use stream_fi_contracts.Prelude.Effect.{returned-some, ok, returned}
use stream_fi_contracts.Host.{Host, U256Laws}
use stream_fi_contracts.Stream.Types.{StreamInfo}
use stream_fi_contracts.Stream.Env.{Store, Env}
use stream_fi_contracts.Stream.Math.{streamed_amount}
use stream_fi_contracts.Stream.Math.Accrual.{
  IsSound, CheckpointSound, CliffSound, scheduled, streamed_amount-scheduled, pos-pos_part,
}
use stream_fi_contracts.Stream.Math.Available.{taken}
use stream_fi_contracts.Stream.Cancel.{Settlement, settlement}

owed_value : (k w h : ℕ) → min_ℤ (max_ℤ (pos k -ℤ pos w) (pos 0)) (pos h) ≡ pos (min (k - w) h)
unfolding min_ℤ max_ℤ leb_ℤ ◌-ℤ◌
owed_value k w h = ground arith

refund_value : (h o : ℕ) → max_ℤ (pos h -ℤ pos o) (pos 0) ≡ pos (h - o)
unfolding max_ℤ leb_ℤ ◌-ℤ◌
refund_value h o = ground arith

module _ (host : Host) where
  -- How the settlement's amounts follow from the state.
  pub record Settled (info : StreamInfo) (s : Settlement) (env env' : Env host.Tokens)
      : Type 0 where
    pub holds : host.balance info.token env.self env.tokens ≡ some s.held
    pub accrued : returned (streamed_amount host env.now env.store info tt) ≡ some s.streamed
    pub owed : s.owed_to_recipient ≡ min_ℤ (max_ℤ (s.streamed -ℤ info.withdrawn) (pos 0)) s.held
    pub refund : s.refund_to_sender ≡ max_ℤ (s.held -ℤ s.owed_to_recipient) (pos 0)
    pub total : s.total_withdrawn ≡ info.withdrawn +ℤ s.owed_to_recipient
    pub total_fits : in_i128 (info.withdrawn +ℤ s.owed_to_recipient) ≡ true
    pub unchanged : env' ≡ env

  pub settlement-Settled :
      (info : StreamInfo) (s : Settlement) (env env' : Env host.Tokens)
      → settlement host info env ≡ ok s env'
      → Settled info s env env'
  unfolding settlement
  settlement-Settled info s env env' h = ground arith

  -- What the recipient is still owed, as far as the balance goes.
  abbrev pub owed : ℕ → Store → StreamInfo → (held : ℕ) → ℕ
  owed now store info held = min (scheduled now store info - pos_part info.withdrawn) held

  -- The settlement of a sound stream, in numbers.
  pub Settled-values :
      (u256 : U256Laws host) (info : StreamInfo) (s : Settlement) (env env' : Env host.Tokens)
      (h : ℕ)
      → IsSound info
      → CheckpointSound env.store.rate_checkpoint
      → CliffSound env.store.cliff_config
      → env.now < u64_mod
      → host.balance info.token env.self env.tokens ≡ some (pos h)
      → Settled info s env env'
      → (scheduled env.now env.store info < i128_half)
        × (s.owed_to_recipient ≡ pos (owed env.now env.store info h))
        × (s.refund_to_sender ≡ pos (h - owed env.now env.store info h))
        × (s.total_withdrawn ≡ pos (pos_part info.withdrawn + owed env.now env.store info h))
  Settled-values u256 info s env env' h snd cs fs b eb st =
      let k = scheduled env.now env.store info in
      let w = pos_part info.withdrawn in
      let run = returned-some (streamed_amount host env.now env.store info tt) st.accrued in
      let e = streamed_amount-scheduled host u256 env.now env.store info snd cs fs b in
      let (fits, es) = taken (ltb k i128_half) k s.streamed (sym e ∙ run) in
      let eh : s.held ≡ pos h = cc (st.holds, eb) in
      let ew = pos-pos_part info.withdrawn snd.withdrawn_nonneg in
      let eo : s.owed_to_recipient ≡ pos (min (k - w) h) =
        st.owed ∙ rw (es, eh, ew) (owed_value k w h) in
      (
        ltb→lt k i128_half fits,
        eo,
        st.refund ∙ rw (eh, eo) (refund_value h (min (k - w) h)),
        st.total ∙ rw (eo, ew) (pos-+ℤ-pos w (min (k - w) h)),
      )

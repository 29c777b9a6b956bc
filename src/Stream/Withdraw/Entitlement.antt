-- ===== src/Stream/Withdraw/Entitlement.antt =====
-- A withdrawal pays what has accrued and no more.
use mathlib.Core.Path.{subst}
use stream_fi_contracts.Prelude.{
  ℕ, ◌-◌, ◌<◌, ◌≡◌, ◌≢◌, ltb→lt, sym, ap, ◌∙◌, inl, inr, true, false, some, arith, Bool-cases, ltb,
}
use stream_fi_contracts.Prelude.Int.{
  ℤ, pos, pos_part, ◌≤ℤ◌, ◌<ℤ◌, ◌+ℤ◌, eqb_ℤ, min_ℤ, i128_half, u64_mod, InI128, int_laws,
  min_ℤ_bounds, checked_add-some, eqb_ℤ-false,
}
use stream_fi_contracts.Prelude.Effect.{ok, returned, returned-some, >>=-eq-ok}
use stream_fi_contracts.Host.{Host, U256Laws}
use stream_fi_contracts.Stream.Types.{StreamInfo, is_cancelled}
use stream_fi_contracts.Stream.Env.{Env}
use stream_fi_contracts.Stream.State.{locked, unlock, depth}
use stream_fi_contracts.Stream.State.Guard.{with_guard-ok}
use stream_fi_contracts.Stream.Events.Quiet.{SameButSequence}
use stream_fi_contracts.Stream.Math.{withdrawable}
use stream_fi_contracts.Stream.Math.Accrual.{
  IsSound, CheckpointSound, CliffSound, scheduled, pos-pos_part,
}
use stream_fi_contracts.Stream.Math.Available.{withdrawable-scheduled, taken}
use stream_fi_contracts.Stream.Withdraw.{
  Withdrawal, withdraw, withdraw_body, admit_withdrawal, settle_withdrawal,
}
use stream_fi_contracts.Stream.Withdraw.Admission.{Admits, admit_withdrawal-Admits}
use stream_fi_contracts.Stream.Withdraw.Effects.{Pays, settle_withdrawal-Pays}

-- What is left of k, when it is not 0, makes up for what was drawn.
drawn_rest :
    (k : ℕ) (drawn a : ℤ)
    → pos 0 ≤ℤ drawn
    → a ≡ pos (k - pos_part drawn)
    → a ≢ pos 0
    → drawn +ℤ a ≡ pos k
drawn_rest k drawn a p e z = elim (Bool-cases (ltb (pos_part drawn) k)) [
  | inl more ↦ rw e (grind (int_laws, ltb→lt _ _ more))
  | inr none_left ↦ absurd (z (e ∙ ap pos (ground arith)))
]

least :
    (amount available held n drawn k : ℤ)
    → drawn +ℤ available ≡ k
    → n ≡ min_ℤ (min_ℤ amount available) held
    → (n ≤ℤ amount) × (drawn +ℤ n ≤ℤ k)
least amount available held n drawn k sum e =
    let outer = min_ℤ_bounds (min_ℤ amount available) held in
    let inner = min_ℤ_bounds amount available in rw (e, sym sum) (omega int_laws, omega int_laws)

module _ (host : Host) where
  -- What a call of `withdraw` that succeeds has gone through.
  pub record Withdraws (amount n : ℤ) (env env' : Env host.Tokens) (info : StreamInfo)
      : Type 0 where
    pub plan : Withdrawal
    pub begun : Env host.Tokens
    pub ended : Env host.Tokens
    pub admitted : Admits host amount (locked env) begun info plan
    pub settled : Pays host plan begun ended
    pub sent : n ≡ plan.to_send
    pub left : env' ≡ unlock ended
    pub free : depth env.store.guard ≡ 0

  pub withdraw-Withdraws :
      (amount n : ℤ) (env env' : Env host.Tokens) (info : StreamInfo)
      → env.store.config ≡ some info
      → withdraw host amount env ≡ ok n env'
      → Withdraws amount n env env' info
  unfolding withdraw withdraw_body
  withdraw-Withdraws amount n env env' info e h =
      let (ended, free, ran, left) = with_guard-ok (withdraw_body host amount) n env env' h in
      let (plan, begun, first, rest) =
        >>=-eq-ok (admit_withdrawal host amount) (settle_withdrawal host) (locked env) ran in
      let (sent, settled) = settle_withdrawal-Pays host plan n begun ended rest in
      record {
        plan = plan;
        begun = begun;
        ended = ended;
        admitted = admit_withdrawal-Admits host amount (locked env) begun info plan e first;
        settled = settled;
        sent = sent;
        left = left;
        free = free;
      }

  -- On a sound stream a withdrawable amount that is not 0 is what has streamed less what was drawn.
  pub available-le :
      (laws : U256Laws host) (env : Env host.Tokens) (info : StreamInfo) (available : ℤ)
      → IsSound info
      → CheckpointSound env.store.rate_checkpoint
      → CliffSound env.store.cliff_config
      → env.now < u64_mod
      → returned (withdrawable host env.now env.store info tt) ≡ some available
      → eqb_ℤ available (pos 0) ≡ false
      → (info.withdrawn +ℤ available ≡ pos (scheduled env.now env.store info))
        × (pos 0 <ℤ available)
        × InI128 available
  available-le laws env info available s cs fs h r z =
      let k = scheduled env.now env.store info in
      let run = returned-some (withdrawable host env.now env.store info tt) r in
      let e = withdrawable-scheduled host laws env.now env.store info s cs fs h in
      let w = pos-pos_part info.withdrawn s.withdrawn_nonneg in
      let nz = eqb_ℤ-false available (pos 0) z in
      let (fits, value) =
        taken (ltb k i128_half) (k - pos_part info.withdrawn) available (sym e ∙ run) in
      let small = ltb→lt k i128_half fits in
      (
        drawn_rest k info.withdrawn available s.withdrawn_nonneg value nz,
        rw value (ground (arith, value, nz)),
        rw value (omega arith),
      )

  pub saved_config :
      (amount n : ℤ) (env env' : Env host.Tokens) (info : StreamInfo)
      → Withdraws amount n env env' info
      → SameButSequence (some (record info { withdrawn = info.withdrawn +ℤ n })) env'.store.config
  unfolding unlock
  saved_config amount n env env' info w =
      let plan = w.plan in
      let a = w.admitted in
      let sum : plan.new_withdrawn ≡ info.withdrawn +ℤ n =
        checked_add-some info.withdrawn plan.to_send plan.new_withdrawn a.added ∙ rw w.sent in
      let same : env'.store.config ≡ w.ended.store.config = rw w.left in
      rw same (
        subst
          (λ i.
            SameButSequence (some (record i { withdrawn = info.withdrawn +ℤ n }))
              w.ended.store.config)
          a.found
          (subst
            (λ z. SameButSequence (some (record plan.info { withdrawn = z })) w.ended.store.config)
            sum w.settled.end_config))

  -- The amounts of a successful withdrawal.
  clamped :
      (laws : U256Laws host) (amount n : ℤ) (env env' : Env host.Tokens) (info : StreamInfo)
      → IsSound info
      → CheckpointSound env.store.rate_checkpoint
      → CliffSound env.store.cliff_config
      → env.now < u64_mod
      → Withdraws amount n env env' info
      → (n ≤ℤ amount) × (info.withdrawn +ℤ n ≤ℤ pos (scheduled env.now env.store info))
  clamped laws amount n env env' info s cs fs h w =
      let a = w.admitted in
      least amount w.plan.available w.plan.held n info.withdrawn
        (pos (scheduled env.now env.store info))
        (available-le laws (locked env) info w.plan.available s cs fs h a.accrued a.some_accrued).0
        (w.sent ∙ a.clamped)

  -- A successful `withdraw` of a sound stream was signed by the recipient, found the stream live,
  -- and returns n, which is at most the amount asked for: `withdrawn` grows by n and nothing else
  -- of the record changes but the event sequence, and the new `withdrawn` is at most what the
  -- schedule has released at the ledger time. The cliff and the rate checkpoint are as before, and
  -- the guard is free afterwards.
  pub withdraw_pays_accrued :
      (laws : U256Laws host) (amount n : ℤ) (env env' : Env host.Tokens) (info : StreamInfo)
      → env.store.config ≡ some info
      → IsSound info
      → CheckpointSound env.store.rate_checkpoint
      → CliffSound env.store.cliff_config
      → env.now < u64_mod
      → withdraw host amount env ≡ ok n env'
      → (env.auth info.recipient ≡ true)
        × (is_cancelled info ≡ false)
        × (n ≤ℤ amount)
        × SameButSequence (some (record info { withdrawn = info.withdrawn +ℤ n })) env'.store.config
        × (info.withdrawn +ℤ n ≤ℤ pos (scheduled env.now env.store info))
        × (env'.store.cliff_config ≡ env.store.cliff_config)
        × (env'.store.rate_checkpoint ≡ env.store.rate_checkpoint)
        × (depth env'.store.guard ≡ 0)
  unfolding unlock
  withdraw_pays_accrued laws amount n env env' info e s cs fs h run =
      let w = withdraw-Withdraws amount n env env' info e run in
      let a = w.admitted in
      let p = w.settled in
      let (asked, released) = clamped laws amount n env env' info s cs fs h w in
      (
        a.signed,
        a.live,
        asked,
        saved_config amount n env env' info w,
        released,
        ground (arith, w.left, p.end_cliff, a.same_store),
        ground (arith, w.left, p.end_checkpoint, a.same_store),
        ground (arith, w.left, p.end_guard, a.same_store, w.free),
      )

-- ===== src/Stream/Withdraw/Effects.antt =====
-- What a withdrawal leaves behind.
use mathlib.Core.Path.{subst}
use stream_fi_contracts.Prelude.{ℕ, ◌≡◌, refl, inl, inr, some, arith, [], ◌∷◌, Option-cases}
use stream_fi_contracts.Prelude.Int.{ℤ, checked_sub}
use stream_fi_contracts.Prelude.Effect.{ok, pure, ◌>>=◌, ◌>>◌, >>=-eq-ok}
use stream_fi_contracts.Host.{Host}
use stream_fi_contracts.Stream.Types.{StreamInfo}
use stream_fi_contracts.Stream.Env.{Env, Event, with_store, timestamp, store}
use stream_fi_contracts.Stream.Events
use stream_fi_contracts.Stream.Events.Quiet.{SameButSequence, Quiet, Quiet-trans, emit-Quiet}
use stream_fi_contracts.Stream.Withdraw.{
  Withdrawal, pay_withdrawal, announce_withdrawal, settle_withdrawal, payout, milestones,
}
use stream_fi_contracts.Stream.Withdraw.Payment.{payout-frame}

module _ {T : Type 0} where
  pub milestones-Quiet :
      (info : StreamInfo) (now : ℕ) (held total remaining : ℤ) (env env' : Env T)
      → milestones info now held total remaining env ≡ ok tt env'
      → Quiet env env'
  unfolding milestones
  milestones-Quiet info now held total remaining env env' h = ground arith

module _ (host : Host) where
  announce_withdrawal-Quiet :
      (w : Withdrawal) (n : ℤ) (env env' : Env host.Tokens)
      → announce_withdrawal host w env ≡ ok n env'
      → (n ≡ w.to_send) × Quiet env env'
  unfolding announce_withdrawal Events.withdrawn
  announce_withdrawal-Quiet w n env env' h = elim (Option-cases (checked_sub w.held w.to_send)) [
    | inl e ↦ absurd (ground arith)
    | inr (r, e) ↦
        let (u, mid, first, rest) =
          >>=-eq-ok (Events.withdrawn w.info.recipient w.to_send w.new_withdrawn r)
            (λ _. milestones w.info env.now w.held w.new_withdrawn r >> pure w.to_send) env
            (rw e at h) in
        let (v, last, second, done) =
          >>=-eq-ok (milestones w.info env.now w.held w.new_withdrawn r) (λ _. pure w.to_send) mid
            rest in
        let end : last ≡ env' = cc done in
        (
          cc done,
          subst (λ x. Quiet env x) end
              (Quiet-trans
                (emit-Quiet (w.to_send ∷ w.new_withdrawn ∷ r ∷ [])
                  (Event.withdrawn w.info.recipient w.to_send w.new_withdrawn r) env mid first)
                (milestones-Quiet w.info env.now w.held w.new_withdrawn r mid last second)),
        )
  ]

  -- The payment runs on the state in which the new record is saved.
  pub record Pays (w : Withdrawal) (env env' : Env host.Tokens) : Type 0 where
    pub paid : Env host.Tokens
    pub saved : Env host.Tokens
    pub payment : payout host w.info w.payout_recipient w.to_send saved ≡ ok tt paid
    pub saved_tokens : saved.tokens ≡ env.tokens
    pub saved_split : saved.store.split_config ≡ env.store.split_config
    pub saved_self : saved.self ≡ env.self
    pub end_tokens : env'.tokens ≡ paid.tokens
    pub end_config :
        SameButSequence
          (some (let info = w.info in record info { withdrawn = w.new_withdrawn }))
          env'.store.config
    pub end_guard : env'.store.guard ≡ env.store.guard
    pub end_cliff : env'.store.cliff_config ≡ env.store.cliff_config
    pub end_checkpoint : env'.store.rate_checkpoint ≡ env.store.rate_checkpoint
    pub end_split : env'.store.split_config ≡ env.store.split_config
    pub end_time : env'.now ≡ env.now
    pub end_last : env'.store.last_withdrawal_time ≡ some env.now

  abbrev saved_env : Withdrawal → Env host.Tokens → Env host.Tokens
  saved_env w env = with_store env (record env.store {
    config = some (let info = w.info in record info { withdrawn = w.new_withdrawn });
  })

  -- The payment runs on the saved record, and the time of the withdrawal is noted after it.
  pay_withdrawal-ok :
      (w : Withdrawal) (env env' : Env host.Tokens)
      → pay_withdrawal host w env ≡ ok tt env'
      → (paid : Env host.Tokens) × (payout host w.info w.payout_recipient w.to_send
            (saved_env w env)
          ≡ ok tt paid)
        × (env' ≡ with_store paid (record paid.store { last_withdrawal_time = some paid.now }))
  unfolding pay_withdrawal
  pay_withdrawal-ok w env env' h =
      let (u, paid, first, rest) =
        >>=-eq-ok (payout host w.info w.payout_recipient w.to_send)
          (λ _. do now ← timestamp; store (λ s. record s { last_withdrawal_time = some now }))
          (saved_env w env) h in
      (paid, first, cc rest)

  pays :
      (w : Withdrawal) (env mid env' paid : Env host.Tokens)
      → payout host w.info w.payout_recipient w.to_send (saved_env w env) ≡ ok tt paid
      → mid ≡ with_store paid (record paid.store { last_withdrawal_time = some paid.now })
      → paid ≡ record (saved_env w env) { tokens = paid.tokens }
      → Quiet mid env'
      → Pays w env env'
  pays w env mid env' paid payment left frame q = record {
    paid = paid;
    saved = saved_env w env;
    payment = payment;
    saved_tokens = refl;
    saved_split = refl;
    saved_self = refl;
    end_tokens = ground (arith, left);
    end_config =
        let same : mid.store.config ≡ (saved_env w env).store.config =
          ground (arith, left, frame) in
        subst (λ o. SameButSequence o env'.store.config) same q.same_config;
    end_guard = ground (arith, left, frame);
    end_cliff = ground (arith, left, frame);
    end_checkpoint = ground (arith, left, frame);
    end_split = ground (arith, left, frame);
    end_time = ground (arith, left, frame);
    end_last = ground (arith, left, frame);
  }

  pub settle_withdrawal-Pays :
      (w : Withdrawal) (n : ℤ) (env env' : Env host.Tokens)
      → settle_withdrawal host w env ≡ ok n env'
      → (n ≡ w.to_send) × Pays w env env'
  unfolding settle_withdrawal
  settle_withdrawal-Pays w n env env' h =
      let (u, mid, first, rest) =
        >>=-eq-ok (pay_withdrawal host w) (λ _. announce_withdrawal host w) env h in
      let (sent, q) = announce_withdrawal-Quiet w n mid env' rest in
      let (paid, payment, left) = pay_withdrawal-ok w env mid first in
      let frame : paid ≡ record (saved_env w env) { tokens = paid.tokens } =
        payout-frame host w.info w.payout_recipient w.to_send (saved_env w env) paid payment in
      (sent, pays w env mid env' paid payment left frame q)

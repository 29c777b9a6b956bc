-- ===== src/Stream/Events/Quiet.antt =====
-- What an event leaves alone: all but the log of events, the sequence number that is kept in the
-- stream's record, and the requests for storage renewal.
use mathlib.Core.Path.{subst}
use stream_fi_contracts.Prelude.{◌≤◌, ◌≡◌, Option, none, some, List, [], ◌∷◌, ◌∙◌, arith}
use stream_fi_contracts.Prelude.Int.{ℤ}
use stream_fi_contracts.Prelude.Effect.{ok, ◌>>=◌, >>=-eq-ok}
use stream_fi_contracts.Stream.Types.{StreamInfo}
use stream_fi_contracts.Stream.Env.{Env, Event, publish}
use stream_fi_contracts.Stream.Events.{emit, assert_all, assert_non_negative_amount, next_sequence}

abbrev pub SameButSequence : Option StreamInfo → Option StreamInfo → Type 0
SameButSequence none none = Unit
SameButSequence none (some j) = ⊥
SameButSequence (some i) none = ⊥
SameButSequence (some i) (some j) =
    (j ≡ record i { event_sequence = j.event_sequence }) × (i.event_sequence ≤ j.event_sequence)

pub SameButSequence-trans :
    (a b c : Option StreamInfo) → SameButSequence a b → SameButSequence b c → SameButSequence a c
SameButSequence-trans none none none p q = tt
SameButSequence-trans (some i) (some j) (some k) p q = ground arith
SameButSequence-trans none (some j) c p q = absurd p
SameButSequence-trans (some i) none c p q = absurd p
SameButSequence-trans none none (some k) p q = absurd q
SameButSequence-trans (some i) (some j) none p q = absurd q

module _ {T : Type 0} where
  pub record Quiet (env env' : Env T) : Type 0 where
    pub same_now : env'.now ≡ env.now
    pub same_self : env'.self ≡ env.self
    pub same_tokens : env'.tokens ≡ env.tokens
    pub same_config : SameButSequence env.store.config env'.store.config
    pub same_guard : env'.store.guard ≡ env.store.guard
    pub same_operator : env'.store.operator ≡ env.store.operator
    pub same_split : env'.store.split_config ≡ env.store.split_config
    pub same_cliff : env'.store.cliff_config ≡ env.store.cliff_config
    pub same_checkpoint : env'.store.rate_checkpoint ≡ env.store.rate_checkpoint
    pub same_interval : env'.store.min_withdrawal_interval ≡ env.store.min_withdrawal_interval
    pub same_last : env'.store.last_withdrawal_time ≡ env.store.last_withdrawal_time
    pub same_pool : env'.store.keeper_reward_pool ≡ env.store.keeper_reward_pool
    pub same_ping : env'.store.last_keeper_ping_ledger ≡ env.store.last_keeper_ping_ledger
    pub same_deposits : env'.store.cumulative_deposited ≡ env.store.cumulative_deposited

  pub Quiet-trans : {a b c : Env T} → Quiet a b → Quiet b c → Quiet a c
  Quiet-trans {a} {b} {c} p q = record {
    same_now = q.same_now ∙ p.same_now;
    same_self = q.same_self ∙ p.same_self;
    same_tokens = q.same_tokens ∙ p.same_tokens;
    same_config =
        SameButSequence-trans a.store.config b.store.config c.store.config p.same_config
          q.same_config;
    same_guard = q.same_guard ∙ p.same_guard;
    same_operator = q.same_operator ∙ p.same_operator;
    same_split = q.same_split ∙ p.same_split;
    same_cliff = q.same_cliff ∙ p.same_cliff;
    same_checkpoint = q.same_checkpoint ∙ p.same_checkpoint;
    same_interval = q.same_interval ∙ p.same_interval;
    same_last = q.same_last ∙ p.same_last;
    same_pool = q.same_pool ∙ p.same_pool;
    same_ping = q.same_ping ∙ p.same_ping;
    same_deposits = q.same_deposits ∙ p.same_deposits;
  }

  assert_all-frame :
      (amounts : List ℤ) (env env' : Env T) → assert_all amounts env ≡ ok tt env' → env' ≡ env
  unfolding assert_non_negative_amount
  assert_all-frame [] env env' h = ground arith
  assert_all-frame (a ∷ more) env env' h = ground (arith, assert_all-frame more env env')

  publish-Quiet :
      (event : Event) (env env' : Env T)
      → (next_sequence >>= λ sequence. publish sequence event) env ≡ ok tt env'
      → Quiet env env'
  unfolding next_sequence
  publish-Quiet event env env' h = ground arith

  pub emit-Quiet :
      (amounts : List ℤ) (event : Event) (env env' : Env T)
      → emit amounts event env ≡ ok tt env'
      → Quiet env env'
  unfolding emit
  emit-Quiet amounts event env env' h =
      let (u, mid, first, rest) =
        >>=-eq-ok (assert_all amounts) (λ _. next_sequence >>= λ sequence. publish sequence event)
          env h in
      subst (λ e. Quiet e env') (assert_all-frame amounts env mid first)
        (publish-Quiet event mid env' rest)

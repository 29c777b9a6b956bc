-- ===== src/Stream/Keeper/Ping.antt =====
-- What a keeper's ping costs the reward pool.
use stream_fi_contracts.Prelude.{
  ℕ, ◌+◌, ◌-◌, ◌≤◌, ◌≡◌, ◌⊎◌, inl, inr, true, false, Option, Option-cases, some, [], ◌∷◌, sym, ap,
  ◌∙◌, arith,
}
use stream_fi_contracts.Common.Ttl.{min_ttl_ledgers}
use stream_fi_contracts.Prelude.Int.{
  ℤ, ◌+ℤ◌, ◌-ℤ◌, ◌≤ℤ◌, ltb_ℤ, ltb_ℤ-false, eqb_ℤ, eqb_ℤ-true, checked_add, checked_sub,
  checked_add-some, checked_sub-some, saturating_add_u32, u32_mod,
}
use stream_fi_contracts.Prelude.Effect.{ok, pure, >>=-eq-ok, ◌>>◌}
use stream_fi_contracts.Host.{Host, Address}
use stream_fi_contracts.Stream.Types.{StreamInfo, StreamKeeperRewardPool, is_cancelled}
use stream_fi_contracts.Stream.Env.{Env, Event, Act}
use stream_fi_contracts.Stream.State.{locked, unlock}
use stream_fi_contracts.Stream.State.Guard.{with_guard-ok}
use stream_fi_contracts.Stream.Events
use stream_fi_contracts.Stream.Events.Quiet.{emit-Quiet}
use stream_fi_contracts.Stream.Keeper.{
  keeper_ping, keeper_ping_body, admit_ping, charge_ping, pay_ping, reward_ping, ping_with,
  checked_payment, is_too_soon,
}

spaced_apart :
    (before : Option ℕ) (sequence : ℕ)
    → is_too_soon before sequence ≡ false
    → (last : ℕ) → before ≡ some last
    → (last + min_ttl_ledgers ≤ sequence) ⊎ (u32_mod - 1 ≤ sequence)
unfolding is_too_soon saturating_add_u32
spaced_apart before sequence h last e = ground arith

module _ (host : Host) where
  pub record Pings (keeper : Address) (n : ℤ) (env env' : Env host.Tokens) (info : StreamInfo)
      (pool : StreamKeeperRewardPool) : Type 0 where
    pub signed : env.auth keeper ≡ true
    pub live : is_cancelled info ≡ false
    pub affordable : ltb_ℤ pool.balance pool.reward_per_ping ≡ false
    -- Where the addition saturates, the ledger number is the largest u32.
    pub spaced :
        (last : ℕ)
        → env.store.last_keeper_ping_ledger ≡ some last
        → (last + min_ttl_ledgers ≤ env.sequence) ⊎ (u32_mod - 1 ≤ env.sequence)
    pub reward : n ≡ pool.reward_per_ping
    pub charged :
        env'.store.keeper_reward_pool
        ≡ some (record pool { balance = pool.balance -ℤ pool.reward_per_ping })
    pub noted : env'.store.last_keeper_ping_ledger ≡ some env.sequence
    pub paid : host.transfer pool.token env.self keeper n env.tokens ≡ some env'.tokens
    -- What the token reports of the contract and of the keeper, before and after.
    pub held : ℤ
    pub held_before : host.balance pool.token env.self env.tokens ≡ some held
    pub held_after : host.balance pool.token env.self env'.tokens ≡ some (held -ℤ n)
    pub had : ℤ
    pub had_before : host.balance pool.token keeper env.tokens ≡ some had
    pub had_after : host.balance pool.token keeper env'.tokens ≡ some (had +ℤ n)

  -- What the checks of a ping have found.
  record AdmitsPing (keeper : Address) (env env' : Env host.Tokens) (info info' : StreamInfo)
      (pool pool' : StreamKeeperRewardPool) : Type 0 where
    signed : env.auth keeper ≡ true
    live : is_cancelled info ≡ false
    affordable : ltb_ℤ pool.balance pool.reward_per_ping ≡ false
    spaced : is_too_soon env.store.last_keeper_ping_ledger env.sequence ≡ false
    unchanged : env' ≡ env
    same_info : info' ≡ info
    same_pool : pool' ≡ pool

  admit_ping-Admits :
      (keeper : Address) (env env' : Env host.Tokens) (info info' : StreamInfo)
      (pool pool' : StreamKeeperRewardPool)
      → env.store.config ≡ some info
      → env.store.keeper_reward_pool ≡ some pool
      → admit_ping host keeper env ≡ ok (info', pool') env'
      → AdmitsPing keeper env env' info info' pool pool'
  unfolding admit_ping
  admit_ping-Admits keeper env env' info info' pool pool' e p h = ground arith

  charge_ping-charged :
      (info : StreamInfo) (pool : StreamKeeperRewardPool) (env env' : Env host.Tokens)
      → charge_ping host info pool env ≡ ok tt env'
      → (env'.store.keeper_reward_pool
          ≡ some (record pool { balance = pool.balance -ℤ pool.reward_per_ping }))
        × (env'.store.last_keeper_ping_ledger ≡ some env.sequence)
        × (env'.self ≡ env.self)
        × (env'.tokens ≡ env.tokens)
  unfolding charge_ping
  charge_ping-charged info pool env env' h = ground arith

  -- The payment moved exactly `n` by the token's own reports.
  pub record Moves (token self to : Address) (n : ℤ) (t u : host.Tokens) : Type 0 where
    pub sent : host.transfer token self to n t ≡ some u
    pub held : ℤ
    pub held_before : host.balance token self t ≡ some held
    pub held_after : host.balance token self u ≡ some (held -ℤ n)
    pub had : ℤ
    pub had_before : host.balance token to t ≡ some had
    pub had_after : host.balance token to u ≡ some (had +ℤ n)

  checked_payment-paid :
      (token to : Address) (amount expected expected_to : ℤ) (env env' : Env host.Tokens)
      → checked_payment host token to amount expected expected_to env ≡ ok tt env'
      → (host.transfer token env.self to amount env.tokens ≡ some env'.tokens)
        × (host.balance token env.self env'.tokens ≡ some expected)
        × (host.balance token to env'.tokens ≡ some expected_to)
        × (env'.store ≡ env.store)
  unfolding checked_payment
  checked_payment-paid token to amount expected expected_to env env' h =
      elim (Option-cases (host.balance token env.self env'.tokens)) [
        | inl failed ↦ absurd (ground (arith, failed))
        | inr (b, reads) ↦ elim (Option-cases (host.balance token to env'.tokens)) [
          | inl failed ↦ absurd (ground (arith, failed, reads))
          | inr (c, reads_to) ↦
              let agree : eqb_ℤ b expected ≡ true = ground (arith, reads) in
              let agree_to : eqb_ℤ c expected_to ≡ true = ground (arith, reads, reads_to) in
              let is = eqb_ℤ-true b expected agree in
              let is_to = eqb_ℤ-true c expected_to agree_to in
              ground (arith, reads, reads_to, is, is_to)
        ]
      ]

  pay_ping-paid :
      (keeper : Address) (pool : StreamKeeperRewardPool) (env env' : Env host.Tokens)
      → pay_ping host keeper pool env ≡ ok tt env'
      → Moves pool.token env.self keeper pool.reward_per_ping env.tokens env'.tokens
        × (env'.store ≡ env.store)
  unfolding pay_ping
  pay_ping-paid keeper pool env env' h =
      let n = pool.reward_per_ping in
      elim (Option-cases (host.balance pool.token env.self env.tokens)) [
        | inl failed ↦ absurd (ground (arith, failed))
        | inr (held, reads) ↦ elim (Option-cases (host.balance pool.token keeper env.tokens)) [
          | inl failed ↦ absurd (ground (arith, failed, reads))
          | inr (had, reads_keeper) ↦ elim (Option-cases (checked_sub held n)) [
            | inl short ↦ absurd (ground (arith, reads, reads_keeper, short))
            | inr (less, taken) ↦ elim (Option-cases (checked_add had n)) [
              | inl over ↦ absurd (ground (arith, reads, reads_keeper, taken, over))
              | inr (more, given) ↦
                  let run : checked_payment host pool.token keeper n less more env ≡ ok tt env' =
                    ground (arith, reads, reads_keeper, taken, given) in
                  let (sent, left, got, same) =
                    checked_payment-paid pool.token keeper n less more env env' run in
                  (
                    record {
                      sent = sent;
                      held = held;
                      held_before = reads;
                      held_after = left ∙ ap some (checked_sub-some held n less taken);
                      had = had;
                      had_before = reads_keeper;
                      had_after = got ∙ ap some (checked_add-some had n more given);
                    },
                    same,
                  )
            ]
          ]
        ]
      ]

  -- The payment, the event, and the result.
  reward_ping-paid :
      (keeper : Address) (pool : StreamKeeperRewardPool) (n : ℤ) (env env' : Env host.Tokens)
      → reward_ping host keeper pool env ≡ ok n env'
      → Moves pool.token env.self keeper pool.reward_per_ping env.tokens env'.tokens
        × (env'.store.keeper_reward_pool ≡ env.store.keeper_reward_pool)
        × (env'.store.last_keeper_ping_ledger ≡ env.store.last_keeper_ping_ledger)
        × (n ≡ pool.reward_per_ping)
  unfolding reward_ping Events.keeper_ping
  reward_ping-paid keeper pool n env env' h =
      let reward = pool.reward_per_ping in
      let announce : Act host.Tokens (Unit {0}) =
        Events.emit (reward ∷ []) (Event.keeper_ping keeper reward) in
      let (u, paid, first, rest) =
        >>=-eq-ok (pay_ping host keeper pool) (λ _. announce >> pure reward) env h in
      let (v, told, second, last) = >>=-eq-ok announce (λ _. pure reward) paid rest in
      let q = emit-Quiet (reward ∷ []) (Event.keeper_ping keeper reward) paid told second in
      let (sent, same) = pay_ping-paid keeper pool env paid first in
      let end : told ≡ env' = cc last in
      (
        rw⁻¹ end (rw q.same_tokens sent),
        rw⁻¹ end (q.same_pool ∙ rw same),
        rw⁻¹ end (q.same_ping ∙ rw same),
        cc last,
      )

  keeper_ping_body-Pings :
      (keeper : Address) (n : ℤ) (env env' : Env host.Tokens) (info : StreamInfo)
      (pool : StreamKeeperRewardPool)
      → env.store.config ≡ some info
      → env.store.keeper_reward_pool ≡ some pool
      → keeper_ping_body host keeper env ≡ ok n env'
      → Pings keeper n env env' info pool
  unfolding keeper_ping_body
  keeper_ping_body-Pings keeper n env env' info pool e p h =
      let (found, begun, first, rest) =
        >>=-eq-ok (admit_ping host keeper) (ping_with host keeper) env h in
      let a = admit_ping-Admits keeper env begun info found.0 pool found.1 e p first in
      let (u, charged, second, last) =
        >>=-eq-ok (charge_ping host found.0 found.1) (λ _. reward_ping host keeper found.1) begun
          rest in
      let c = charge_ping-charged found.0 found.1 begun charged second in
      let r = reward_ping-paid keeper found.1 n charged env' last in
      let same_tokens : charged.tokens ≡ env.tokens = c.3 ∙ rw a.unchanged in
      let same_self : charged.self ≡ env.self = c.2 ∙ rw a.unchanged in
      let reward : n ≡ pool.reward_per_ping = r.3 ∙ rw a.same_pool in
      let m : Moves pool.token env.self keeper n env.tokens env'.tokens =
        rw (a.same_pool, same_self, same_tokens, sym reward) at r.0 in
      record {
        signed = a.signed;
        live = a.live;
        affordable = a.affordable;
        spaced = spaced_apart env.store.last_keeper_ping_ledger env.sequence a.spaced;
        reward = reward;
        charged = r.1 ∙ c.0 ∙ rw a.same_pool;
        noted = r.2 ∙ c.1 ∙ rw a.unchanged;
        paid = m.sent;
        held = m.held;
        held_before = m.held_before;
        held_after = m.held_after;
        had = m.had;
        had_before = m.had_before;
        had_after = m.had_after;
      }

  -- On any token contract: a successful `keeper_ping` was signed by the keeper, on a live stream,
  -- with at least the reward in the pool, and its ledger is at least 100,000 after that of the last
  -- ping, or the largest u32. It transfers the reward from the contract to the keeper, after which
  -- the token reports exactly the reward less for the contract and more for the keeper; it takes the
  -- reward off the pool's balance, notes the ledger, and returns the reward.
  pub keeper_ping-Pings :
      (keeper : Address) (n : ℤ) (env env' : Env host.Tokens) (info : StreamInfo)
      (pool : StreamKeeperRewardPool)
      → env.store.config ≡ some info
      → env.store.keeper_reward_pool ≡ some pool
      → keeper_ping host keeper env ≡ ok n env'
      → Pings keeper n env env' info pool × (pool.reward_per_ping ≤ℤ pool.balance)
  unfolding keeper_ping unlock
  keeper_ping-Pings keeper n env env' info pool e p h =
      let (mid, free, ran, left) = with_guard-ok (keeper_ping_body host keeper) n env env' h in
      let r = keeper_ping_body-Pings keeper n (locked env) mid info pool e p ran in
      let tokens : env'.tokens ≡ mid.tokens = rw left in
      (
        record {
          signed = r.signed;
          live = r.live;
          affordable = r.affordable;
          spaced = r.spaced;
          reward = r.reward;
          charged = rw left r.charged;
          noted = rw left r.noted;
          paid = rw tokens r.paid;
          held = r.held;
          held_before = r.held_before;
          held_after = rw tokens r.held_after;
          had = r.had;
          had_before = r.had_before;
          had_after = rw tokens r.had_after;
        },
        ltb_ℤ-false pool.balance pool.reward_per_ping r.affordable,
      )

-- ===== src/Stream/State.antt =====
-- contracts/stream/src/state.rs: the consolidated record, the cancelled test, and the re-entrancy
-- guard.
pub mod Guard
use stream_fi_contracts.Prelude.{ℕ, ◌+◌, ◌-◌, Option, none, some, leb, ltb, if◌then◌else◌}
use stream_fi_contracts.Prelude.Effect.{
  Outcome, ok, err, trap, contract, raise, raise_if, branch, modify, ◌>>◌,
}
use stream_fi_contracts.Stream.Types.{
  Error, not_initialized, stream_cancelled, reentrancy_forbidden, StreamInfo, is_cancelled,
}
use stream_fi_contracts.Stream.Env.{Env, Act, with_store}

abbrev pub max_reentrancy_depth : ℕ
max_reentrancy_depth = 1

abbrev pub depth : Option ℕ → ℕ
depth none = 0
depth (some d) = d

-- The counter goes down, unless it is 0 already.
abbrev pub released : Option ℕ → Option ℕ
released guard = if ltb 0 (depth guard) then some (depth guard - 1) else guard

module _ {T : Type 0} where
  abbrev found : Option StreamInfo → Act T StreamInfo
  found none env = err not_initialized env
  found (some info) env = ok info env

  unfoldable pub try_load : Act T StreamInfo
  try_load env = found env.store.config env

  abbrev or_panic : Outcome (Env T) Error StreamInfo → Outcome (Env T) Error StreamInfo
  or_panic (ok info env) = ok info env
  or_panic (err e env) = trap (contract e)
  or_panic (trap t) = trap t

  unfoldable pub load : Act T StreamInfo
  unfolding try_load
  load env = or_panic (try_load env)

  unfoldable pub save : StreamInfo → Act T (Unit {0})
  save info env = ok tt (with_store env (record env.store { config = some info }))

  unfoldable pub assert_not_cancelled : StreamInfo → Act T (Unit {0})
  assert_not_cancelled info = raise_if (is_cancelled info) stream_cancelled

  abbrev pub locked : Env T → Env T
  locked env = with_store env (record env.store { guard = some (depth env.store.guard + 1) })

  unfoldable pub lock : Act T (Unit {0})
  lock env =
      branch (leb max_reentrancy_depth (depth env.store.guard)) (raise reentrancy_forbidden)
        (modify locked) env

  unfoldable pub unlock : Env T → Env T
  unlock env = with_store env (record env.store { guard = released env.store.guard })

  -- The guard is released whether the call returns a value or an error.
  abbrev release : {A : Type 0} → Outcome (Env T) Error A → Outcome (Env T) Error A
  release (ok a env) = ok a (unlock env)
  release (err e env) = err e (unlock env)
  release (trap t) = trap t

  unfoldable pub with_guard : {A : Type 0} → Act T A → Act T A
  unfolding lock unlock
  with_guard f = do lock; λ env. release (f env)

-- ===== src/Stream/State/Guard.antt =====
-- `with_guard` of state.rs: what its caller may rely on, and that it refuses to nest.
use stream_fi_contracts.Prelude.{◌≤◌, ◌≡◌, refl, arith}
use stream_fi_contracts.Prelude.Effect.{Outcome, ok, err, trap}
use stream_fi_contracts.Stream.Types.{Error, reentrancy_forbidden}
use stream_fi_contracts.Stream.Env.{Env, Act}
use stream_fi_contracts.Stream.State.{lock, depth, locked, unlock, with_guard}

module _ {T A : Type 0} where
  -- A guarded call that succeeds ran its body once, from the state with the lock taken; the lock is
  -- released on the state that the body left.
  pub with_guard-ok :
      (f : Act T A) (a : A) (env env' : Env T)
      → with_guard f env ≡ ok a env'
      → (mid : Env T) × (depth env.store.guard ≡ 0)
        × (f (locked env) ≡ ok a mid)
        × (env' ≡ unlock mid)
  unfolding with_guard
  with_guard-ok f a env env' h = go (f (locked env)) refl
    where
      go :
          (r : Outcome (Env T) Error A)
          → f (locked env) ≡ r
          → (mid : Env T) × (depth env.store.guard ≡ 0)
            × (f (locked env) ≡ ok a mid)
            × (env' ≡ unlock mid)
      go (ok b mid) e = (mid, ground arith, ground arith, ground arith)
      go (err x mid) e = absurd (ground arith)
      go (trap t) e = absurd (ground arith)

  -- While a guarded call is running, any other guarded call is refused.
  with_guard-nested :
      (f : Act T A) (env : Env T)
      → 1 ≤ depth env.store.guard
      → with_guard f env ≡ err reentrancy_forbidden env
  unfolding with_guard
  with_guard-nested f env h = ground arith

  -- A body that succeeds on the locked state makes the guarded call succeed.
  pub with_guard-runs :
      (f : Act T A) (env mid : Env T) {a : A}
      → depth env.store.guard ≡ 0
      → f (locked env) ≡ ok a mid
      → with_guard f env ≡ ok a (unlock mid)
  unfolding with_guard lock
  with_guard-runs f env mid free ran = ground arith

-- ===== src/Stream/Cancel/Calls.antt =====
-- `cancel` and `force_cancel`, whole calls.
use mathlib.Core.Path.{subst}
use stream_fi_contracts.Prelude.{
  ◌-◌, ◌≤◌, ◌<◌, ◌≡◌, ◌≢◌, sym, true, false, some, List, [], ◌∷◌, arith, ltb,
}
use stream_fi_contracts.Prelude.Int.{ℤ, u64_mod}
use stream_fi_contracts.Prelude.Effect.{ok, ◌>>=◌, >>=-eq-ok}
use stream_fi_contracts.Host.{Host, Address, U256Laws, TokenLaws}
use stream_fi_contracts.Stream.Types.{StreamInfo, is_cancelled, is_paused}
use stream_fi_contracts.Stream.Env.{Env, Event}
use stream_fi_contracts.Stream.Access.{or_recipient, is_sender_or}
use stream_fi_contracts.Stream.State.{locked, unlock, depth}
use stream_fi_contracts.Stream.State.Guard.{with_guard-ok}
use stream_fi_contracts.Stream.Events
use stream_fi_contracts.Stream.Events.Quiet.{Quiet, emit-Quiet, SameButSequence-trans}
use stream_fi_contracts.Stream.Math.Accrual.{IsSound, CheckpointSound, CliffSound}
use stream_fi_contracts.Stream.Withdraw.Split.{SplitApart, NotSecond}
use stream_fi_contracts.Stream.Cancel.{
  Settlement, settle, admit_cancel, cancel_body, cancel, admit_force_cancel, force_cancel_body,
  force_cancel, is_cancelable, threshold,
}
use stream_fi_contracts.Stream.Cancel.Closing.{Ends, closed_info, settle-Ends}

module _ (host : Host) where
  pub record AdmitsCancel (caller : Address) (env env' : Env host.Tokens) (info : StreamInfo)
      : Type 0 where
    pub live : is_cancelled info ≡ false
    pub cancelable : is_cancelable env.store.stream_config ≡ true
    pub allowed : is_sender_or env.store.operator caller info.sender ≡ true
    pub signed : env.auth caller ≡ true
    pub renewed : env' ≡ record env { ttl_extensions = env'.ttl_extensions }

  admit_cancel-Admits :
      (caller : Address) (env env' : Env host.Tokens) (info info' : StreamInfo)
      → env.store.config ≡ some info
      → admit_cancel host caller env ≡ ok info' env'
      → AdmitsCancel caller env env' info × (info' ≡ info)
  unfolding admit_cancel
  admit_cancel-Admits caller env env' info info' e h = (ground arith, ground arith)

  pub record AdmitsForce (env env' : Env host.Tokens) (info : StreamInfo) : Type 0 where
    pub live : is_cancelled info ≡ false
    pub was_paused : is_paused info ≡ true
    pub long :
        ltb (env.now - info.paused_at) (threshold env.store.force_cancel_pause_threshold_secs)
        ≡ false
    pub signed : env.auth info.recipient ≡ true
    pub renewed : env' ≡ record env { ttl_extensions = env'.ttl_extensions }

  admit_force_cancel-Admits :
      (env env' : Env host.Tokens) (info info' : StreamInfo)
      → env.store.config ≡ some info
      → admit_force_cancel host env ≡ ok info' env'
      → AdmitsForce env env' info × (info' ≡ info)
  unfolding admit_force_cancel
  admit_force_cancel-Admits env env' info info' e h = (ground arith, ground arith)

  -- The event and the guard change nothing of the end.
  Ends-after :
      (info : StreamInfo) (token : TokenLaws host info.token)
      (env begun mid ended env' : Env host.Tokens)
      → begun ≡ record (locked env) { ttl_extensions = begun.ttl_extensions }
      → Ends host info token begun mid
      → Quiet mid ended
      → env' ≡ unlock ended
      → Ends host info token env env'
  unfolding unlock
  Ends-after info token env begun mid ended env' eb ends q left =
      let e = subst (λ x. Ends host info token x mid) eb ends in
      let tok : env'.tokens ≡ mid.tokens = rw left q.same_tokens in
      let conf : env'.store.config ≡ ended.store.config = rw left in
      record {
        value = e.value;
        value_is = e.value_is;
        divided = rw tok e.divided;
        emptied = rw tok e.emptied;
        marked = rw conf (
            SameButSequence-trans (some (closed_info host info e.value)) mid.store.config
              ended.store.config e.marked q.same_config);
      }

  module _ (u256 : U256Laws host) (info : StreamInfo) (token : TokenLaws host info.token) where
    -- The contract, the sender and the payees are different, and the stream's records are sound.
    pub record Ready (env : Env host.Tokens) : Type 0 where
      pub configured : env.store.config ≡ some info
      pub sound : IsSound info
      pub checkpoint_sound : CheckpointSound env.store.rate_checkpoint
      pub cliff_sound : CliffSound env.store.cliff_config
      pub time_bounded : env.now < u64_mod
      pub payee_apart : env.self ≢ or_recipient env.store.auto_forward_address info.recipient
      pub sender_apart : env.self ≢ info.sender
      pub sender_not_payee :
          info.sender ≢ or_recipient env.store.auto_forward_address info.recipient
      pub sender_not_second : NotSecond env.store.split_config info.sender
      pub split_apart :
          SplitApart env.store.split_config env.self
            (or_recipient env.store.auto_forward_address info.recipient)

    settle-Ends-begun :
        (s : Settlement) (env begun mid : Env host.Tokens)
        → Ready env
        → begun ≡ record (locked env) { ttl_extensions = begun.ttl_extensions }
        → settle host info begun ≡ ok s mid
        → Ends host info token begun mid × (mid.store.guard ≡ (locked env).store.guard)
    settle-Ends-begun s env begun mid r eb run =
        let lock : Env host.Tokens = record (locked env) {
          ttl_extensions = begun.ttl_extensions;
        } in
        let (ends, guard) =
          settle-Ends host u256 info token s lock mid r.sound r.checkpoint_sound r.cliff_sound
            r.time_bounded r.payee_apart r.sender_apart r.sender_not_payee r.sender_not_second
            r.split_apart (subst (λ x. settle host info x ≡ ok s mid) eb run) in
        (subst (λ x. Ends host info token x mid) (sym eb) ends, guard)

    -- The common end of both calls, from the admitted state on.
    settled_call :
        (amounts : Settlement → List ℤ) (event : Settlement → Event) (i : StreamInfo)
        (env begun ended env' : Env host.Tokens)
        → Ready env
        → depth env.store.guard ≡ 0
        → i ≡ info
        → begun ≡ record (locked env) { ttl_extensions = begun.ttl_extensions }
        → (settle host i >>= λ paid. Events.emit (amounts paid) (event paid)) begun ≡ ok tt ended
        → env' ≡ unlock ended
        → Ends host info token env env' × (depth env'.store.guard ≡ 0)
    unfolding unlock
    settled_call amounts event i env begun ended env' r free same eb run left =
        let (s, mid, second, last) =
          >>=-eq-ok (settle host i) (λ paid. Events.emit (amounts paid) (event paid)) begun run in
        let (ends, guard) =
          settle-Ends-begun s env begun mid r eb
            (subst (λ x. settle host x begun ≡ ok s mid) same second) in
        let q = emit-Quiet (amounts s) (event s) mid ended last in
        (
          Ends-after info token env begun mid ended env' eb ends q left,
          ground (arith, left, q.same_guard, guard, free),
        )

    -- Where the stream's records are sound, the token takes no fee, a split is below the whole, and
    -- the contract, the sender and the payees are different: a successful `cancel` was signed by the sender or the
    -- operator, and found the stream live and cancelable. What the recipient has earned and not
    -- drawn, as far as the balance goes, is paid out: the second recipient of a split gets its share
    -- rounded down, the payee of the recipient all else. The rest goes back to the sender, and the
    -- contract's balance is 0. The record is marked cancelled, with `withdrawn` grown by the
    -- payment, and the guard is free afterwards.
    pub cancel-Ends :
        (caller : Address) (env env' : Env host.Tokens)
        → Ready env
        → cancel host caller env ≡ ok tt env'
        → (is_cancelled info ≡ false)
          × (is_cancelable env.store.stream_config ≡ true)
          × (is_sender_or env.store.operator caller info.sender ≡ true)
          × (env.auth caller ≡ true)
          × Ends host info token env env'
          × (depth env'.store.guard ≡ 0)
    unfolding cancel cancel_body Events.cancelled
    cancel-Ends caller env env' r run =
        let (ended, free, ran, left) = with_guard-ok (cancel_body host caller) tt env env' run in
        let (i, begun, first, rest) =
          >>=-eq-ok (admit_cancel host caller)
            (λ i. settle host i >>= λ paid.
              Events.cancelled i.sender paid.refund_to_sender paid.total_withdrawn
                paid.refund_to_sender)
            (locked env) ran in
        let (a, same) = admit_cancel-Admits caller (locked env) begun info i r.configured first in
        let (ends, unlocked) =
          settled_call (λ s. s.refund_to_sender ∷ s.total_withdrawn ∷ s.refund_to_sender ∷ [])
            (λ s. Event.cancelled i.sender s.refund_to_sender s.total_withdrawn s.refund_to_sender)
            i env begun ended env' r free same a.renewed rest left in
        (a.live, a.cancelable, a.allowed, a.signed, ends, unlocked)

    -- Where the stream's records are sound, the token takes no fee, a split is below the whole, and
    -- the contract, the sender and the payees are different: a successful `force_cancel` was signed
    -- by the recipient, and found the stream live and paused for at least the threshold. It ends the stream as `cancel`
    -- does: what had streamed at the pause and was not drawn, as far as the balance goes, is paid
    -- out, the second recipient of a split getting its share rounded down and the payee of the
    -- recipient all else; the sender gets the rest, the contract's balance is 0, the record is
    -- marked cancelled, and the guard is free afterwards.
    pub force_cancel-Ends :
        (env env' : Env host.Tokens)
        → Ready env
        → force_cancel host env ≡ ok tt env'
        → (is_cancelled info ≡ false)
          × (is_paused info ≡ true)
          × (threshold env.store.force_cancel_pause_threshold_secs ≤ env.now - info.paused_at)
          × (env.auth info.recipient ≡ true)
          × Ends host info token env env'
          × (depth env'.store.guard ≡ 0)
    unfolding force_cancel force_cancel_body Events.force_cancelled
    force_cancel-Ends env env' r run =
        let (ended, free, ran, left) = with_guard-ok (force_cancel_body host) tt env env' run in
        let (i, begun, first, rest) =
          >>=-eq-ok (admit_force_cancel host)
            (λ i. settle host i >>= λ paid.
              Events.force_cancelled i.sender paid.refund_to_sender paid.total_withdrawn
                paid.refund_to_sender)
            (locked env) ran in
        let (a, same) = admit_force_cancel-Admits (locked env) begun info i r.configured first in
        let (ends, unlocked) =
          settled_call (λ s. s.refund_to_sender ∷ s.total_withdrawn ∷ s.refund_to_sender ∷ [])
            (λ s.
              Event.force_cancelled i.sender s.refund_to_sender s.total_withdrawn
                s.refund_to_sender)
            i env begun ended env' r free same a.renewed rest left in
        (a.live, a.was_paused, ground (arith, a.long), a.signed, ends, unlocked)

-- ===== src/Governor/Roles/Handover.antt =====
-- transfer_authority and accept_authority keep the registry of administrators.
use stream_fi_contracts.Prelude.{
  ◌≡◌, Bool, none, Option, arith, not, ◌==◌, ◌||◌, Option-cases, inl, inr,
}
use stream_fi_contracts.Prelude.Effect.{ok, >>=-eq-ok, raise_if, ◌>>=◌, ◌>>◌}
use stream_fi_contracts.Contract.{loaded, store, require_auth}
use stream_fi_contracts.Host.{Host, Address}
use stream_fi_contracts.Common.Address.{is_zero_address}
use stream_fi_contracts.Common.Rbac
use stream_fi_contracts.Governor.Types.{
  Store, GovernorEnv, Act, Error, admin, no_pending_authority, not_pending_authority, invalid_param,
}
use stream_fi_contracts.Governor.Events
use stream_fi_contracts.Governor.Storage.{bump}
use stream_fi_contracts.Governor.Roles.{
  grant, revoke, has_role, transfer_authority, accept_authority,
}
use stream_fi_contracts.Governor.Roles.Admins.{HasAdmins, grant-HasAdmins, revoke-HasAdmins}
use stream_fi_contracts.Governor.Roles.Keeping.{SameAdmins, kept-HasAdmins, after_role}

module _ {T : Type 0} where
  -- What follows a step that leaves the storage alone; `calm_then` drops the step's result.
  calm :
      {A B : Type 0} (m : Act T A) (rest : A → Act T B) (b : B) (env env' : GovernorEnv T)
      → ((a : A) (mid : GovernorEnv T) → m env ≡ ok a mid → mid.store ≡ env.store)
      → HasAdmins env.store
      → (m >>= rest) env ≡ ok b env'
      → (a : A) × (mid : GovernorEnv T) × HasAdmins mid.store × (rest a mid ≡ ok b env')
  calm m rest b env env' frame h e =
      let (a, e1, ran, h1) = >>=-eq-ok m rest env e in (a, e1, rw (frame a e1 ran) h, h1)

  calm_then :
      {B : Type 0} (m : Act T (Unit {0})) (rest : Act T B) (b : B) (env env' : GovernorEnv T)
      → ((a : Unit {0}) (mid : GovernorEnv T) → m env ≡ ok a mid → mid.store ≡ env.store)
      → HasAdmins env.store
      → (m >> rest) env ≡ ok b env'
      → (mid : GovernorEnv T) × HasAdmins mid.store × (rest mid ≡ ok b env')
  calm_then m rest b env env' frame h e =
      let (a, e1, ran, h1) = >>=-eq-ok m (λ _. rest) env e in (e1, rw (frame a e1 ran) h, h1)

  loaded_frame :
      {A : Type 0} (f : Store → Option A) (x : Error) (env : GovernorEnv T) (a : A)
      (env' : GovernorEnv T)
      → loaded f x env ≡ ok a env'
      → env'.store ≡ env.store
  loaded_frame f x env a env' h = elim (Option-cases (f env.store)) [
    | inl missing ↦ absurd (ground arith)
    | inr (v, found) ↦ ground arith
  ]

  raise_if_frame :
      (b : Bool) (x : Error) (env : GovernorEnv T) (u : Unit {0}) (env' : GovernorEnv T)
      → raise_if b x env ≡ ok u env'
      → env'.store ≡ env.store
  raise_if_frame b x env u env' h = ground arith

  require_auth_frame :
      (caller : Address) (env : GovernorEnv T) (u : Unit {0}) (env' : GovernorEnv T)
      → require_auth {E = Error} caller env ≡ ok u env'
      → env'.store ≡ env.store
  require_auth_frame caller env u env' h = ground arith

  bump_frame :
      (env : GovernorEnv T) (u : Unit {0}) (env' : GovernorEnv T)
      → bump env ≡ ok u env'
      → env'.store ≡ env.store
  unfolding bump
  bump_frame env u env' h = ground arith

  -- The end of `accept_authority`.
  settled :
      (caller proposer : Address) (env env' : GovernorEnv T)
      → ((store λ s. record s { pending_authority = none }) >>= λ _.
            (store λ s. record s { pending_authority_proposer = none }) >>= λ _.
            Events.accept_authority caller proposer)
          env
        ≡ ok tt env'
      → SameAdmins env.store env'.store
  unfolding Events.accept_authority
  settled caller proposer env env' h = record {
    same_entry = λ a. ground arith;
    same_count = ground arith;
    same_members = ground arith;
  }

  -- What `accept_authority` does after its checks.
  unfoldable hand_over : (caller : Address) → Act T (Unit {0})
  hand_over caller = do
    proposer ← loaded (λ s. s.pending_authority_proposer) no_pending_authority
    new ← grant admin caller
    held ← revoke admin proposer
    store λ s. record s { pending_authority = none }
    store λ s. record s { pending_authority_proposer = none }
    Events.accept_authority caller proposer

  hand_over_keeps :
      (caller : Address) (env env' : GovernorEnv T)
      → HasAdmins env.store
      → hand_over caller env ≡ ok tt env'
      → HasAdmins env'.store
  unfolding hand_over
  hand_over_keeps caller env env' h e =
      let (proposer, e1, h1, r1) =
        calm (loaded (λ s. s.pending_authority_proposer) no_pending_authority) _ tt env env'
          (loaded_frame (λ s. s.pending_authority_proposer) no_pending_authority env) h e in
      let (new, e2, gave, r2) = >>=-eq-ok (grant admin caller) _ e1 r1 in
      let h2 = grant-HasAdmins caller new e1 e2 h1 gave in
      let (held, e3, took, r3) = >>=-eq-ok (revoke admin proposer) _ e2 r2 in
      let h3 = revoke-HasAdmins proposer held e2 e3 h2 took in
      kept-HasAdmins e3.store env'.store (settled caller proposer e3 env' r3) h3

  pub accept_authority_keeps :
      (caller : Address) (env env' : GovernorEnv T)
      → HasAdmins env.store
      → accept_authority caller env ≡ ok tt env'
      → HasAdmins env'.store
  unfolding accept_authority hand_over
  accept_authority_keeps caller env env' h e =
      let (pending, e1, h1, r1) =
        calm (loaded (λ s. s.pending_authority) no_pending_authority) _ tt env env'
          (loaded_frame (λ s. s.pending_authority) no_pending_authority env) h e in
      let (e2, h2, r2) =
        calm_then (raise_if (not (caller == pending)) not_pending_authority)
          (require_auth caller >> (bump >> hand_over caller)) tt e1 env'
          (raise_if_frame (not (caller == pending)) not_pending_authority e1) h1 r1 in
      let (e3, h3, r3) =
        calm_then (require_auth caller) (bump >> hand_over caller) tt e2 env'
          (require_auth_frame caller e2) h2 r2 in
      let (e4, h4, r4) = calm_then bump (hand_over caller) tt e3 env' (bump_frame e3) h3 r3 in
      hand_over_keeps caller e4 env' h4 r4

  transferred_frame :
      (caller account : Address) (env env' : GovernorEnv T)
      → Events.transfer_authority caller account env ≡ ok tt env'
      → env'.store ≡ env.store
  unfolding Events.transfer_authority
  transferred_frame caller account env env' h = ground arith

module _ (host : Host) where
  pub transfer_authority_keeps :
      (caller account : Address) (env env' : GovernorEnv host.Tokens)
      → HasAdmins env.store
      → transfer_authority host caller account env ≡ ok tt env'
      → HasAdmins env'.store
  unfolding transfer_authority has_role
  transfer_authority_keeps caller account env env' h e =
      let bad =
        account == caller
        || is_zero_address host account
        || Rbac.has_role env.now (env.store.role admin account) in
      let (e2, h2, r2) =
        calm_then (raise_if bad invalid_param) _ tt env env' (raise_if_frame bad invalid_param env)
          h e in
      let (e3, h3, r3) = after_role caller _ tt e2 env' h2 r2 in
      let (new, e4, gave, r4) = >>=-eq-ok (grant admin account) _ e3 r3 in
      let h4 = grant-HasAdmins account new e3 e4 h3 gave in
      let (held, e5, took, r5) = >>=-eq-ok (revoke admin caller) _ e4 r4 in
      rw (transferred_frame caller account e5 env' r5) (revoke-HasAdmins caller held e4 e5 h4 took)

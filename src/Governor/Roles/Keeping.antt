-- ===== src/Governor/Roles/Keeping.antt =====
-- The grants and revocations, and the batches of them, keep the registry of administrators.
use stream_fi_contracts.Prelude.{
  ℕ, ◌≡◌, ◌∙◌, Bool, false, ◌&&◌, ◌||◌, Option, none, some, List, [], ◌∷◌, arith, refl, sym,
}
use stream_fi_contracts.Prelude.Effect.{ok, >>=-eq-ok, when, raise_if, ◌>>=◌}
use stream_fi_contracts.Host.{Address}
use stream_fi_contracts.Common.Rbac
use stream_fi_contracts.Contract.{is_set}
use stream_fi_contracts.Governor.Types.{
  Store, GovernorEnv, Act, Role, admin, fee_manager, rate_manager, pauser, executor, eqb_role,
  Error, invalid_param,
}
use stream_fi_contracts.Governor.Events
use stream_fi_contracts.Governor.Storage.{at_role, at_members, bump}
use stream_fi_contracts.Governor.Roles.{
  grant, revoke, require_role, has_role, grant_role, revoke_role, grant_all, revoke_all,
  grant_role_batch, revoke_role_batch, grant_with_expiration, grant_role_with_expiration, is_past,
}
use stream_fi_contracts.Governor.Roles.Admins.{HasAdmins, grant-HasAdmins, revoke-HasAdmins}

-- The administrators' cells are as they were.
pub record SameAdmins (s s' : Store) : Type 0 where
  pub same_entry : (a : Address) → s'.role admin a ≡ s.role admin a
  pub same_count : s'.admin_count ≡ s.admin_count
  pub same_members : s'.role_members admin ≡ s.role_members admin

pub kept-HasAdmins : (s s' : Store) → SameAdmins s s' → HasAdmins s → HasAdmins s'
kept-HasAdmins s s' k h =
    let m = k.same_members in
    record {
      counted = ground (arith, k.same_count, h.counted, m);
      single = rw m h.single;
      listed = λ a. let l = h.listed a in let e = k.same_entry a in ground (arith, m);
      lasting = λ a r x. let l = h.lasting a r in let e = k.same_entry a in ground arith;
      governed = rw m h.governed;
    }

module _ {T : Type 0} where
  grant_other :
      (role : Role) (account : Address) (b : Bool) (env env' : GovernorEnv T)
      → eqb_role role admin ≡ false
      → grant role account env ≡ ok b env'
      → SameAdmins env.store env'.store
  unfolding grant Rbac.grant Rbac.grant_with_expiration Rbac.enroll Rbac.has_role at_members at_role
  grant_other role account b env env' d e = record {
    same_entry = λ a. ground arith;
    same_count = ground arith;
    same_members = ground arith;
  }

  revoke_other :
      (role : Role) (account : Address) (b : Bool) (env env' : GovernorEnv T)
      → eqb_role role admin ≡ false
      → revoke role account env ≡ ok b env'
      → SameAdmins env.store env'.store
  unfolding revoke Rbac.revoke Rbac.has_role Rbac.has_expired at_members at_role
  revoke_other role account b env env' d e = record {
    same_entry = λ a. ground arith;
    same_count = ground arith;
    same_members = ground arith;
  }

  grant_with_expiration_other :
      (role : Role) (account : Address) (expires_at : Option ℕ) (b : Bool)
      (env env' : GovernorEnv T)
      → eqb_role role admin ≡ false
      → grant_with_expiration role account expires_at env ≡ ok b env'
      → SameAdmins env.store env'.store
  unfolding grant_with_expiration Rbac.grant_with_expiration Rbac.enroll Rbac.has_role at_members
      at_role
  grant_with_expiration_other role account expires_at b env env' d e = record {
    same_entry = λ a. ground arith;
    same_count = ground arith;
    same_members = ground arith;
  }

  as_grant :
      (role : Role) (account : Address) (env : GovernorEnv T)
      → grant role account env ≡ grant_with_expiration role account none env
  unfolding grant grant_with_expiration Rbac.grant
  as_grant role account env = refl

  admitted :
      (bad : Bool) (x : Error) (env env' : GovernorEnv T)
      → raise_if bad x env ≡ ok tt env'
      → (bad ≡ false) × (env' ≡ env)
  admitted bad x env env' h = (ground arith, ground arith)

  grant_keeps :
      (role : Role) (account : Address) (b : Bool) (env env' : GovernorEnv T)
      → HasAdmins env.store
      → grant role account env ≡ ok b env'
      → HasAdmins env'.store
  grant_keeps admin account b env env' h e = grant-HasAdmins account b env env' h e
  grant_keeps fee_manager account b env env' h e =
      kept-HasAdmins env.store env'.store (grant_other fee_manager account b env env' refl e) h
  grant_keeps rate_manager account b env env' h e =
      kept-HasAdmins env.store env'.store (grant_other rate_manager account b env env' refl e) h
  grant_keeps pauser account b env env' h e =
      kept-HasAdmins env.store env'.store (grant_other pauser account b env env' refl e) h
  grant_keeps executor account b env env' h e =
      kept-HasAdmins env.store env'.store (grant_other executor account b env env' refl e) h

  revoke_keeps :
      (role : Role) (account : Address) (b : Bool) (env env' : GovernorEnv T)
      → HasAdmins env.store
      → revoke role account env ≡ ok b env'
      → HasAdmins env'.store
  revoke_keeps admin account b env env' h e = revoke-HasAdmins account b env env' h e
  revoke_keeps fee_manager account b env env' h e =
      kept-HasAdmins env.store env'.store (revoke_other fee_manager account b env env' refl e) h
  revoke_keeps rate_manager account b env env' h e =
      kept-HasAdmins env.store env'.store (revoke_other rate_manager account b env env' refl e) h
  revoke_keeps pauser account b env env' h e =
      kept-HasAdmins env.store env'.store (revoke_other pauser account b env env' refl e) h
  revoke_keeps executor account b env env' h e =
      kept-HasAdmins env.store env'.store (revoke_other executor account b env env' refl e) h

  require_role_frame :
      (caller : Address) (role : Role) (env env' : GovernorEnv T)
      → require_role caller role env ≡ ok tt env'
      → env'.store ≡ env.store
  unfolding require_role has_role bump
  require_role_frame caller role env env' h = ground arith

  granted_frame :
      (b : Bool) (caller : Address) (role : Role) (account : Address) (env env' : GovernorEnv T)
      → when b (Events.grant_role caller role account) env ≡ ok tt env'
      → env'.store ≡ env.store
  unfolding Events.grant_role
  granted_frame b caller role account env env' h = ground arith

  revoked_frame :
      (b : Bool) (caller : Address) (role : Role) (account : Address) (env env' : GovernorEnv T)
      → when b (Events.revoke_role caller role account) env ≡ ok tt env'
      → env'.store ≡ env.store
  unfolding Events.revoke_role
  revoked_frame b caller role account env env' h = ground arith

  grant_all_keeps :
      (caller : Address) (role : Role) (accounts : List Address) (env env' : GovernorEnv T)
      → HasAdmins env.store
      → grant_all caller role accounts env ≡ ok tt env'
      → HasAdmins env'.store
  unfolding grant_all
  grant_all_keeps caller role [] env env' h e =
      let same : env ≡ env' = ground arith in rw (sym same) h
  grant_all_keeps caller role (account ∷ accounts) env env' h e =
      let (b, e1, new, h1) = >>=-eq-ok (grant role account) _ env e in
      let k = grant_keeps role account b env e1 h new in
      let (_, e2, told, h2) = >>=-eq-ok (when b (Events.grant_role caller role account)) _ e1 h1 in
      let s2 = granted_frame b caller role account e1 e2 told in
      grant_all_keeps caller role accounts e2 env' (rw s2 k) h2

  revoke_all_keeps :
      (caller : Address) (role : Role) (accounts : List Address) (env env' : GovernorEnv T)
      → HasAdmins env.store
      → revoke_all caller role accounts env ≡ ok tt env'
      → HasAdmins env'.store
  unfolding revoke_all
  revoke_all_keeps caller role [] env env' h e =
      let same : env ≡ env' = ground arith in rw (sym same) h
  revoke_all_keeps caller role (account ∷ accounts) env env' h e =
      let (b, e1, ended, h1) = >>=-eq-ok (revoke role account) _ env e in
      let k = revoke_keeps role account b env e1 h ended in
      let (_, e2, told, h2) = >>=-eq-ok (when b (Events.revoke_role caller role account)) _ e1 h1 in
      let s2 = revoked_frame b caller role account e1 e2 told in
      revoke_all_keeps caller role accounts e2 env' (rw s2 k) h2

  -- An administrator's call, after the test of the role.
  pub after_role :
      {B : Type 0} (caller : Address) (rest : Unit {0} → Act T B) (b : B) (env env' : GovernorEnv T)
      → HasAdmins env.store
      → (require_role caller admin >>= rest) env ≡ ok b env'
      → (mid : GovernorEnv T) × HasAdmins mid.store × (rest tt mid ≡ ok b env')
  after_role caller rest b env env' h e =
      let (_, e1, req, h1) = >>=-eq-ok (require_role caller admin) rest env e in
      (e1, rw (require_role_frame caller admin env e1 req) h, h1)

  pub grant_role_keeps :
      (caller : Address) (role : Role) (account : Address) (env env' : GovernorEnv T)
      → HasAdmins env.store
      → grant_role caller role account env ≡ ok tt env'
      → HasAdmins env'.store
  unfolding grant_role
  grant_role_keeps caller role account env env' h e =
      let (e1, h1, r1) = after_role caller _ tt env env' h e in
      let (b, e2, new, r2) = >>=-eq-ok (grant role account) _ e1 r1 in
      rw (granted_frame b caller role account e2 env' r2) (grant_keeps role account b e1 e2 h1 new)

  -- A grant with an expiry that is none is a grant.
  grant_with_expiration_keeps :
      (role : Role) (account : Address) (expires_at : Option ℕ) (b : Bool)
      (env env' : GovernorEnv T)
      → (eqb_role role admin && is_set expires_at) ≡ false
      → HasAdmins env.store
      → grant_with_expiration role account expires_at env ≡ ok b env'
      → HasAdmins env'.store
  grant_with_expiration_keeps role account none b env env' d h e =
      grant_keeps role account b env env' h (as_grant role account env ∙ e)
  grant_with_expiration_keeps role account (some at) b env env' d h e =
      kept-HasAdmins env.store env'.store
        (grant_with_expiration_other role account (some at) b env env' (ground arith) e) h

  pub grant_role_with_expiration_keeps :
      (caller : Address) (role : Role) (account : Address) (expires_at : Option ℕ)
      (env env' : GovernorEnv T)
      → HasAdmins env.store
      → grant_role_with_expiration caller role account expires_at env ≡ ok tt env'
      → HasAdmins env'.store
  unfolding grant_role_with_expiration
  grant_role_with_expiration_keeps caller role account expires_at env env' h e =
      let (e1, h1, r1) = after_role caller _ tt env env' h e in
      let bad = eqb_role role admin && is_set expires_at || is_past e1.now expires_at in
      let (_, e2, passed, r2) = >>=-eq-ok (raise_if bad invalid_param) _ e1 r1 in
      let (fine, same) = admitted bad invalid_param e1 e2 passed in
      let (b, e3, new, r3) = >>=-eq-ok (grant_with_expiration role account expires_at) _ e2 r2 in
      rw (granted_frame b caller role account e3 env' r3) (
        grant_with_expiration_keeps role account expires_at b e2 e3 (ground arith) (rw same h1) new)

  pub revoke_role_keeps :
      (caller : Address) (role : Role) (account : Address) (env env' : GovernorEnv T)
      → HasAdmins env.store
      → revoke_role caller role account env ≡ ok tt env'
      → HasAdmins env'.store
  unfolding revoke_role
  revoke_role_keeps caller role account env env' h e =
      let (e1, h1, r1) = after_role caller _ tt env env' h e in
      let (b, e2, ended, r2) = >>=-eq-ok (revoke role account) _ e1 r1 in
      rw (revoked_frame b caller role account e2 env' r2)
        (revoke_keeps role account b e1 e2 h1 ended)

  pub grant_role_batch_keeps :
      (caller : Address) (role : Role) (accounts : List Address) (env env' : GovernorEnv T)
      → HasAdmins env.store
      → grant_role_batch caller role accounts env ≡ ok tt env'
      → HasAdmins env'.store
  unfolding grant_role_batch
  grant_role_batch_keeps caller role accounts env env' h e =
      let (e1, h1, r1) = after_role caller _ tt env env' h e in
      grant_all_keeps caller role accounts e1 env' h1 r1

  pub revoke_role_batch_keeps :
      (caller : Address) (role : Role) (accounts : List Address) (env env' : GovernorEnv T)
      → HasAdmins env.store
      → revoke_role_batch caller role accounts env ≡ ok tt env'
      → HasAdmins env'.store
  unfolding revoke_role_batch
  revoke_role_batch_keeps caller role accounts env env' h e =
      let (e1, h1, r1) = after_role caller _ tt env env' h e in
      revoke_all_keeps caller role accounts e1 env' h1 r1

-- ===== src/Governor/Roles/Calls.antt =====
-- The entry points that change roles, as one type, and what every one of them keeps.
use stream_fi_contracts.Prelude.{ℕ, ◌≡◌, List, Option}
use stream_fi_contracts.Prelude.Effect.{ok}
use stream_fi_contracts.Host.{Host, Address}
use stream_fi_contracts.Governor.Types.{GovernorEnv, Act, Role}
use stream_fi_contracts.Governor.Roles.{
  grant_role, revoke_role, grant_role_batch, revoke_role_batch, transfer_authority,
  accept_authority, grant_role_with_expiration, claim_admin,
}
use stream_fi_contracts.Governor.Roles.Admins.{HasAdmins}
use stream_fi_contracts.Governor.Roles.Keeping.{
  grant_role_with_expiration_keeps, grant_role_keeps, revoke_role_keeps, grant_role_batch_keeps,
  revoke_role_batch_keeps,
}
use stream_fi_contracts.Governor.Roles.Handover.{transfer_authority_keeps, accept_authority_keeps}

-- A call of an entry point that changes roles.
pub data RoleCall : Type 0 where
  grant_one revoke_one : Role → (account : Address) → RoleCall
  grants revokes : Role → List Address → RoleCall
  grant_until : Role → (account : Address) → (expires_at : Option ℕ) → RoleCall
  transfer : (new_authority : Address) → RoleCall
  accept claim : RoleCall

module _ (host : Host) where
  unfoldable pub run_role : (caller : Address) → RoleCall → Act host.Tokens (Unit {0})
  run_role caller (grant_one role account) = grant_role caller role account
  run_role caller (revoke_one role account) = revoke_role caller role account
  run_role caller (grants role accounts) = grant_role_batch caller role accounts
  run_role caller (revokes role accounts) = revoke_role_batch caller role accounts
  run_role caller (grant_until role account expires_at) =
      grant_role_with_expiration caller role account expires_at
  run_role caller (transfer account) = transfer_authority host caller account
  run_role caller accept = accept_authority caller
  run_role caller claim = claim_admin caller

  -- A successful call of grant_role, grant_role_with_expiration, revoke_role, one of the two batches,
  -- transfer_authority, accept_authority or claim_admin keeps the registry of administrators: the
  -- count, the list of members and the assignments agree, none of them expires, and there is an
  -- administrator.
  pub run_role-HasAdmins :
      (caller : Address) (call : RoleCall) (env env' : GovernorEnv host.Tokens)
      → HasAdmins env.store
      → run_role caller call env ≡ ok tt env'
      → HasAdmins env'.store
  unfolding run_role claim_admin
  run_role-HasAdmins caller (grant_one role account) env env' =
      grant_role_keeps caller role account env env'
  run_role-HasAdmins caller (revoke_one role account) env env' =
      revoke_role_keeps caller role account env env'
  run_role-HasAdmins caller (grants role accounts) env env' =
      grant_role_batch_keeps caller role accounts env env'
  run_role-HasAdmins caller (revokes role accounts) env env' =
      revoke_role_batch_keeps caller role accounts env env'
  run_role-HasAdmins caller (grant_until role account expires_at) env env' =
      grant_role_with_expiration_keeps caller role account expires_at env env'
  run_role-HasAdmins caller (transfer account) env env' =
      transfer_authority_keeps host caller account env env'
  run_role-HasAdmins caller accept env env' = accept_authority_keeps caller env env'
  run_role-HasAdmins caller claim env env' = accept_authority_keeps caller env env'

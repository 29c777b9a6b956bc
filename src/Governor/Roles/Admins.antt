-- ===== src/Governor/Roles/Admins.antt =====
-- The administrators of the governor: the count, the list of members and the assignments agree, and
-- one administrator is always left.
use stream_fi_contracts.Prelude.{
  if◌then◌else◌, suc, ◌≡◌, ◌<◌, ◌++◌, ◌∷◌, [], List, Bool, true, false, some, none, arith,
  Bool-cases, inl, inr, Option-cases, ◌-◌, ◌==◌,
}
use stream_fi_contracts.Prelude.Effect.{ok}
use stream_fi_contracts.Prelude.Lists.{
  length, member, without, Unique, member-snoc, length-snoc, Unique-snoc, member-without,
  length-without, Unique-without,
}
use stream_fi_contracts.Host.{Address}
use stream_fi_contracts.Common.Rbac.{RoleAssignment, Cells, enroll, role_members}
use stream_fi_contracts.Common.Rbac
use stream_fi_contracts.Contract.{is_set, unwrap_or}
use stream_fi_contracts.Governor.Types.{Store, GovernorEnv, admin}
use stream_fi_contracts.Governor.Storage.{at_role, at_members}
use stream_fi_contracts.Governor.Roles.{grant, revoke}

abbrev pub admins : Store → List Address
admins s = unwrap_or (s.role_members admin) []

pub record HasAdmins (s : Store) : Type 0 where
  pub counted : s.admin_count ≡ some (length (admins s))
  pub single : Unique (admins s)
  pub listed : (a : Address) → is_set (s.role admin a) ≡ member a (admins s)
  pub lasting : (a : Address) (r : RoleAssignment) → s.role admin a ≡ some r → r.expires_at ≡ none
  pub governed : 0 < length (admins s)

module _ {T : Type 0} where
  -- A grant of the role gives an account nothing that it holds, or lists it last.
  granted_cases :
      (account : Address) (b : Bool) (env env' : GovernorEnv T)
      → HasAdmins env.store
      → grant admin account env ≡ ok b env'
      → (env'.store.admin_count ≡ (
          if member account (admins env.store)
          then env.store.admin_count
          else some (suc (length (admins env.store)))))
        × (env'.store.role_members admin ≡ (
            if member account (admins env.store)
            then env.store.role_members admin
            else some (admins env.store ++ (account ∷ []))))
  unfolding grant Rbac.grant Rbac.grant_with_expiration Rbac.enroll Rbac.has_role at_members at_role
  granted_cases account b env env' h e =
      let l = h.listed account in let c = h.counted in ground arith

  granted_entry :
      (account a : Address) (b : Bool) (env env' : GovernorEnv T)
      → HasAdmins env.store
      → grant admin account env ≡ ok b env'
      → env'.store.role admin a
        ≡ (if a == account then some (record { expires_at = none }) else env.store.role admin a)
  unfolding grant Rbac.grant Rbac.grant_with_expiration Rbac.enroll Rbac.has_role at_members at_role
  granted_entry account a b env env' h e = ground arith

  revoked_cases :
      (account : Address) (env env' : GovernorEnv T)
      → HasAdmins env.store
      → revoke admin account env ≡ ok true env'
      → (member account (admins env.store) ≡ true)
        × (1 < length (admins env.store))
        × (env'.store.admin_count ≡ some (length (admins env.store) - 1))
        × (env'.store.role_members admin ≡ some (without account (admins env.store)))
  unfolding revoke Rbac.revoke Rbac.has_role Rbac.has_expired at_members at_role
  revoked_cases account env env' h e =
      let l = h.listed account in
      let c = h.counted in
      let n = h.lasting account in
      elim (Option-cases (env.store.role admin account)) [
        | inl x ↦ ground arith
        | inr (r, x) ↦ let m = n r x in ground arith
      ]

  -- A grant of the administration keeps the registry of administrators.
  pub grant-HasAdmins :
      (account : Address) (b : Bool) (env env' : GovernorEnv T)
      → HasAdmins env.store
      → grant admin account env ≡ ok b env'
      → HasAdmins env'.store
  grant-HasAdmins account b env env' h e =
      let (c, m) = granted_cases account b env env' h e in
      elim (Bool-cases (member account (admins env.store))) [
        | inl held ↦
            let same : env'.store.role_members admin ≡ env.store.role_members admin =
              ground (arith, m, held) in
            record {
              counted = ground (arith, c, held, same, h.counted);
              single = rw same h.single;
              listed = λ a.
                  let entry = granted_entry account a b env env' h e in
                  let l = h.listed a in ground (arith, same, held);
              lasting = λ a r x.
                  let entry = granted_entry account a b env env' h e in
                  let k = h.lasting a r in ground (arith, same, held);
              governed = rw same h.governed;
            }
        | inr new ↦
            let more : env'.store.role_members admin ≡ some (admins env.store ++ (account ∷ [])) =
              ground (arith, m, new) in
            record {
              counted =
                  let n = length-snoc account (admins env.store) in
                  ground (arith, c, new, more, h.counted);
              single = rw more (Unique-snoc account (admins env.store) h.single new);
              listed = λ a.
                  let entry = granted_entry account a b env env' h e in
                  let l = h.listed a in
                  let n = member-snoc a account (admins env.store) in ground (arith, more);
              lasting = λ a r x.
                  let entry = granted_entry account a b env env' h e in
                  let k = h.lasting a r in ground (arith, more);
              governed = let n = length-snoc account (admins env.store) in ground (arith, more);
            }
      ]

  revoked_entry :
      (account a : Address) (env env' : GovernorEnv T)
      → revoke admin account env ≡ ok true env'
      → env'.store.role admin a ≡ (if a == account then none else env.store.role admin a)
  unfolding revoke Rbac.revoke Rbac.has_role Rbac.has_expired at_members at_role
  revoked_entry account a env env' e = ground arith

  not_revoked :
      (account : Address) (env env' : GovernorEnv T)
      → revoke admin account env ≡ ok false env'
      → env'.store ≡ env.store
  unfolding revoke Rbac.revoke Rbac.has_role Rbac.has_expired at_members at_role
  not_revoked account env env' e = ground arith

  removed-HasAdmins :
      (account : Address) (env env' : GovernorEnv T)
      → HasAdmins env.store
      → revoke admin account env ≡ ok true env'
      → HasAdmins env'.store
  removed-HasAdmins account env env' h e =
      let (held, others, count, list) = revoked_cases account env env' h e in
      let shorter = length-without account (admins env.store) h.single held in
      record {
        counted = ground (arith, list, count, shorter);
        single = rw list (Unique-without account (admins env.store) h.single);
        listed = λ a.
            let entry = revoked_entry account a env env' e in
            let l = h.listed a in
            let n = member-without a account (admins env.store) in ground (arith, list);
        lasting = λ a r x.
            let entry = revoked_entry account a env env' e in let k = h.lasting a r in ground arith;
        governed = ground (arith, list, shorter, others);
      }

  -- A revocation of the administration keeps the registry of administrators, one of them at least.
  pub revoke-HasAdmins :
      (account : Address) (b : Bool) (env env' : GovernorEnv T)
      → HasAdmins env.store
      → revoke admin account env ≡ ok b env'
      → HasAdmins env'.store
  revoke-HasAdmins account true env env' h e = removed-HasAdmins account env env' h e
  revoke-HasAdmins account false env env' h e = rw (not_revoked account env env' e) h

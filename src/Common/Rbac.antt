-- ===== src/Common/Rbac.antt =====
-- contracts/common/src/rbac.rs: the role mechanics, as functions of the ledger time and of the three
-- cells of storage that a call names: an account's assignment of a role, the number of admins, and
-- the role's members. An assignment that earlier versions stored as a plain flag is left out.
use stream_fi_contracts.Prelude.{
  ℕ, suc, ◌-◌, Bool, true, false, not, ◌&&◌, ◌||◌, Option, none, some, List, [], ◌∷◌, ◌++◌, ltb,
  leb, if◌then◌else◌,
}
use stream_fi_contracts.Prelude.Int.{u32_mod}
use stream_fi_contracts.Prelude.Lists.{without}
use stream_fi_contracts.Host.{Address}
use stream_fi_contracts.Contract.{is_set, unwrap_or}

pub record RoleAssignment : Type 0 where
  pub expires_at : Option ℕ

pub record Cells : Type 0 where
  pub assignment : Option RoleAssignment
  pub admin_count : Option ℕ
  pub members : Option (List Address)

unfoldable pub has_role : ℕ → Option RoleAssignment → Bool
has_role now none = false
has_role now (some a) = elim a.expires_at [ none ↦ true | some exp ↦ ltb now exp ]

abbrev pub role_members : Cells → List Address
role_members c = unwrap_or c.members []

-- A new member of a role.
unfoldable pub enroll : Bool → Address → RoleAssignment → Cells → Option (Bool × Cells)
enroll is_admin account assignment c =
    if is_admin && leb (u32_mod - 1) (unwrap_or c.admin_count 0)
    then none
    else some (
      true,
      record {
        assignment = some assignment;
        admin_count = if is_admin then some (suc (unwrap_or c.admin_count 0)) else c.admin_count;
        members = some (role_members c ++ (account ∷ []));
      },
    )

-- Whether the grant is new, and the cells after it. `none` is the overflow of the count, a trap.
unfoldable pub grant_with_expiration : ℕ → Bool → Address → Option ℕ → Cells → Option (Bool × Cells)
unfolding has_role enroll
grant_with_expiration now is_admin account expires_at c =
    let was_active = has_role now c.assignment in
    if was_active || is_set c.assignment
    then some (not was_active, record c { assignment = some (record { expires_at = expires_at }) })
    else enroll is_admin account (record { expires_at = expires_at }) c

unfoldable pub grant : ℕ → Bool → Address → Cells → Option (Bool × Cells)
unfolding grant_with_expiration
grant now is_admin account c = grant_with_expiration now is_admin account none c

-- How a revocation ends.
pub data Revocation : Type 0 where
  last_admin : Revocation
  not_held : Revocation
  revoked : Cells → Revocation

unfoldable pub has_expired : ℕ → Option RoleAssignment → Bool
has_expired now none = false
has_expired now (some a) = elim a.expires_at [ none ↦ false | some exp ↦ leb exp now ]

abbrev dismissed : Address → Option ℕ → Cells → Cells
dismissed account count c = record {
  assignment = none;
  admin_count = count;
  members = some (without account (role_members c));
}

unfoldable pub revoke : ℕ → Bool → Address → Cells → Revocation
unfolding has_role has_expired
revoke now is_admin account c =
    let is_active = has_role now c.assignment in
    let count = unwrap_or c.admin_count 0 in
    if not is_active && not (has_expired now c.assignment)
    then not_held
    else if is_admin && is_active
    then (if leb count 1 then last_admin else revoked (dismissed account (some (count - 1)) c))
    else if is_admin
    then revoked (dismissed account (some (count - 1)) c)
    else revoked (dismissed account c.admin_count c)

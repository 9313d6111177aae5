-- ===== src/Organizations/Context.antt =====
-- Who may do what: src/apps/organizations/permissions.py, services/context.py and services/authz.py
-- for a team's context.
use roamkit_api.Base.{
  ℕ, Bool, true, false, not, Result, ok, ◌>>=◌, ◌>>◌, raise_if, or_raise, first_where,
}
use roamkit_api.Organizations.{
  Organization, Membership, MembershipRole, owner, State, OrganizationError, not_found,
  permission_denied, is_active, is_open, has_id, find_member,
}

pub record OrgPermissions : Type 0 where
  pub can_view : Bool
  pub can_spend : Bool
  pub can_manage_members : Bool
  pub can_invite : Bool
  pub can_transfer_ownership : Bool
  pub can_archive_org : Bool
  pub can_assign_esim : Bool
  pub can_device_bind : Bool

abbrev pub permissions_for_role : MembershipRole → OrgPermissions
permissions_for_role owner = record {
  can_view = true;
  can_spend = true;
  can_manage_members = true;
  can_invite = true;
  can_transfer_ownership = true;
  can_archive_org = true;
  can_assign_esim = true;
  can_device_bind = true;
}
permissions_for_role MembershipRole.admin = record {
  can_view = true;
  can_spend = true;
  can_manage_members = true;
  can_invite = true;
  can_transfer_ownership = false;
  can_archive_org = false;
  can_assign_esim = true;
  can_device_bind = true;
}
permissions_for_role MembershipRole.member = record {
  can_view = true;
  can_spend = true;
  can_manage_members = false;
  can_invite = false;
  can_transfer_ownership = false;
  can_archive_org = false;
  can_assign_esim = true;
  can_device_bind = false;
}
permissions_for_role MembershipRole.viewer = record {
  can_view = true;
  can_spend = false;
  can_manage_members = false;
  can_invite = false;
  can_transfer_ownership = false;
  can_archive_org = false;
  can_assign_esim = false;
  can_device_bind = false;
}

-- A team's `AccountContext`; its account is the organization's.
pub record AccountContext : Type 0 where
  pub organization : Organization
  pub membership : Membership

unfoldable pub resolve_organization_context :
    ℕ → ℕ → State → Result OrganizationError AccountContext
resolve_organization_context user organization_id s =
    or_raise (first_where (has_id organization_id) s.organizations) not_found >>= λ org.
    or_raise (find_member org.id user s) not_found >>= λ membership.
    raise_if (not (is_active membership.status)) permission_denied
    >> ok (record { organization = org; membership = membership })

abbrev pub require_org_mutation : AccountContext → Result OrganizationError (Unit {0})
require_org_mutation ctx = raise_if (not (is_open ctx.organization.status)) permission_denied

abbrev pub permissions : AccountContext → OrgPermissions
permissions ctx = permissions_for_role ctx.membership.role

abbrev require : Bool → AccountContext → Result OrganizationError (Unit {0})
require permitted ctx = require_org_mutation ctx >> raise_if (not permitted) permission_denied

unfoldable pub require_manage_members : AccountContext → Result OrganizationError (Unit {0})
require_manage_members ctx = require (permissions ctx).can_manage_members ctx

unfoldable pub require_transfer_ownership : AccountContext → Result OrganizationError (Unit {0})
require_transfer_ownership ctx = require (permissions ctx).can_transfer_ownership ctx

unfoldable pub require_archive_org : AccountContext → Result OrganizationError (Unit {0})
require_archive_org ctx = require (permissions ctx).can_archive_org ctx

unfoldable pub require_invite : AccountContext → Result OrganizationError (Unit {0})
require_invite ctx = require (permissions ctx).can_invite ctx

unfoldable pub require_device_bind : AccountContext → Result OrganizationError (Unit {0})
require_device_bind ctx = require (permissions ctx).can_device_bind ctx

-- ===== src/Organizations/Members.antt =====
-- src/apps/organizations/services/membership.py, and `create_organization` of
-- services/account_binding.py.
use Prim.Native.String.{count}
use roamkit_api.Base.{
  ℕ, Bool, true, false, not, ◌&&◌, ◌==◌, leb, some, none, is_none, Option, ◌∷◌, String, str_eq,
  if◌then◌else◌, Result, ok, ◌>>=◌, ◌>>◌, raise_if, or_raise, atomic, update_where,
}
use roamkit_api.Base.Int.{pos}
use roamkit_api.Ledger.{AccountKind}
use roamkit_api.Partner.{MembershipStatus}
use roamkit_api.Organizations.{
  Organization, OrganizationStatus, archived, Membership, MembershipRole, owner, State,
  OrganizationError, last_owner, not_allowed, invite_conflict, integrity, does_not_exist,
  value_error, data_error, is_active, is_open, is_owner, has_id, find_member, active_owner_count,
  save_membership, is_attributed,
}
use roamkit_api.Organizations.Context.{
  AccountContext, resolve_organization_context, require_transfer_ownership, require_manage_members,
  require_archive_org,
}

abbrev pub Body : Type 0 → Type 0
Body A = Result OrganizationError (A × State)

abbrev pub set_role : MembershipRole → Membership → Membership
set_role role m = record m { role = role }

abbrev pub set_status : MembershipStatus → Membership → Membership
set_status status m = record m { status = status }

abbrev pub reject_attributed_member : ℕ → ℕ → State → Result OrganizationError (Unit {0})
reject_attributed_member user organization s =
    raise_if (is_attributed user organization s) (invite_conflict "partner_self_referral")

-- The demotion comes first.
unfoldable pub exchange_roles : ℕ → ℕ → Membership → State → Body Membership
exchange_roles organization actor target s =
    save_membership organization actor (set_role MembershipRole.admin) s >>= λ demoted.
    save_membership organization target.user (set_role owner) demoted >>= λ promoted.
    ok (set_role owner target, promoted)

unfoldable pub transfer_body : ℕ → ℕ → ℕ → State → Body Membership
transfer_body actor organization_id new_owner s =
    resolve_organization_context actor organization_id s >>= λ ctx.
    require_transfer_ownership ctx
    >> (reject_attributed_member new_owner ctx.organization.id s
        >> (or_raise (find_member ctx.organization.id new_owner s)
              (not_allowed "New owner must be an active organization member.")
            >>= λ target.
                raise_if (not (is_active target.status))
                  (not_allowed "New owner must be an active organization member.")
                >> (or_raise (find_member ctx.organization.id ctx.membership.user s) does_not_exist
                    >>= λ mine.
                        raise_if (not (is_owner mine.role))
                          (not_allowed "Only the owner can transfer ownership.")
                        >> (if target.user == mine.user
                            then ok (mine, s)
                            else exchange_roles ctx.organization.id mine.user target s))))

unfoldable pub transfer_ownership : ℕ → ℕ → ℕ → State → Result OrganizationError Membership × State
transfer_ownership actor organization_id new_owner s =
    atomic s (transfer_body actor organization_id new_owner s)

-- The role that a text names.
unfoldable pub role_named : String → Option MembershipRole
role_named text =
    if str_eq text "owner"
    then some owner
    else if str_eq text "admin"
    then some MembershipRole.admin
    else if str_eq text "member"
    then some MembershipRole.member
    else if str_eq text "viewer"
    then some MembershipRole.viewer
    else none

abbrev pub names_owner : Option MembershipRole → Bool
names_owner none = false
names_owner (some role) = is_owner role

unfoldable pub set_role_body : ℕ → ℕ → ℕ → String → State → Body Membership
set_role_body actor organization_id user role s =
    raise_if (names_owner (role_named role))
      (not_allowed "Use transfer_ownership to assign the owner role.")
    >> (resolve_organization_context actor organization_id s >>= λ ctx.
        require_manage_members ctx
        >> (reject_attributed_member user ctx.organization.id s
            >> (or_raise (find_member ctx.organization.id user s)
                  (not_allowed "Target must be an active organization member.")
                >>= λ target.
                    raise_if (not (is_active target.status))
                      (not_allowed "Target must be an active organization member.")
                    >> (raise_if (is_owner target.role)
                          (not_allowed "Cannot change the owner's role; transfer ownership.")
                        >> (or_raise (role_named role) (not_allowed "Invalid role.") >>= λ r.
                            save_membership ctx.organization.id user (set_role r) s >>= λ saved.
                            ok (set_role r target, saved))))))

unfoldable pub set_member_role :
    ℕ → ℕ → ℕ → String → State → Result OrganizationError Membership × State
set_member_role actor organization_id user role s =
    atomic s (set_role_body actor organization_id user role s)

abbrev pub is_revoked : MembershipStatus → Bool
is_revoked MembershipStatus.active = false
is_revoked MembershipStatus.suspended = false
is_revoked MembershipStatus.revoked = true

-- The guards on an active owner.
unfoldable pub check_owner_revocation :
    AccountContext → Membership → State → Result OrganizationError (Unit {0})
check_owner_revocation ctx target s =
    if is_owner target.role && is_active target.status
    then raise_if (leb (active_owner_count ctx.organization.id s.memberships) 1) last_owner
      >> raise_if (not (is_owner ctx.membership.role))
          (not_allowed "Only the owner can revoke an owner.")
    else ok tt

unfoldable pub revoke_body : ℕ → ℕ → ℕ → State → Body Membership
revoke_body actor organization_id user s =
    resolve_organization_context actor organization_id s >>= λ ctx.
    require_manage_members ctx
    >> (or_raise (find_member ctx.organization.id user s)
          (not_allowed "Target membership not found.")
        >>= λ target.
            if is_revoked target.status
            then ok (target, s)
            else check_owner_revocation ctx target s
              >> (save_membership ctx.organization.id user (set_status MembershipStatus.revoked) s
                  >>= λ saved. ok (set_status MembershipStatus.revoked target, saved)))

unfoldable pub revoke_membership : ℕ → ℕ → ℕ → State → Result OrganizationError Membership × State
revoke_membership actor organization_id user s = atomic s (revoke_body actor organization_id user s)

unfoldable pub status_named : String → Option OrganizationStatus
status_named text =
    if str_eq text "active"
    then some OrganizationStatus.active
    else if str_eq text "suspended"
    then some OrganizationStatus.suspended
    else if str_eq text "archived"
    then some archived
    else none

abbrev pub save_status : OrganizationStatus → Organization → Organization
save_status status o = record o { status = status }

unfoldable pub set_organization_status_body : ℕ → ℕ → String → State → Body Organization
set_organization_status_body actor organization_id text s =
    or_raise (status_named text) (not_allowed "Invalid organization status.") >>= λ status.
    resolve_organization_context actor organization_id s >>= λ ctx.
    (if is_open ctx.organization.status
      then require_archive_org ctx
      else raise_if (not (is_owner ctx.membership.role))
          (not_allowed "Only the owner can change organization status."))
    >> ok (
      save_status status ctx.organization,
      record s {
        organizations =
            update_where (has_id ctx.organization.id) (save_status status) s.organizations;
      },
    )

unfoldable pub set_organization_status :
    ℕ → ℕ → String → State → Result OrganizationError Organization × State
set_organization_status actor organization_id text s =
    atomic s (set_organization_status_body actor organization_id text s)

-- An insert under the two unique indexes.
unfoldable pub insert_membership : Membership → State → Result OrganizationError State
insert_membership m s =
    raise_if (not (is_none (find_member m.organization m.user s)))
      (integrity "organizations_membership_org_user_uniq")
    >> (raise_if (not (leb (active_owner_count m.organization (m ∷ s.memberships)) 1))
          (integrity "organizations_membership_one_active_owner")
        >> ok (record s { memberships = m ∷ s.memberships }))

-- `pk` and `account` are the new primary keys, `strip` is Python's.
module _ (strip : String → String) (pk account : ℕ) where
  abbrev pub new_organization : String → OrganizationStatus → Organization
  new_organization name status = record { id = pk; name = name; status = status; account = account }

  abbrev pub with_organization : String → OrganizationStatus → State → State
  with_organization name status s = record s {
    bank = record s.bank {
      accounts =
          record {
            id = account;
            user = none;
            kind = AccountKind.organization;
            balance = pos 0;
            version = 0;
            pricing_profile = none;
          }
          ∷ s.bank.accounts;
    };
    organizations = new_organization name status ∷ s.organizations;
  }

  unfoldable pub create_body : String → ℕ → OrganizationStatus → State → Body Organization
  create_body name actor status s =
      let trimmed = strip name in
      raise_if (str_eq trimmed "") value_error
      >> (raise_if (not (leb (count trimmed) 128)) data_error
          >> (insert_membership
                (record {
                  organization = pk;
                  user = actor;
                  role = owner;
                  status = MembershipStatus.active;
                })
                (with_organization trimmed status s)
              >>= λ saved. ok (new_organization trimmed status, saved)))

  unfoldable pub create_organization :
      String → ℕ → OrganizationStatus → State → Result OrganizationError Organization × State
  create_organization name actor status s = atomic s (create_body name actor status s)

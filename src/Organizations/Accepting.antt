-- ===== src/Organizations/Accepting.antt =====
-- Accepting an invite: `accept_invite` of src/apps/organizations/services/invites.py, at the instant
-- `now`.
use roamkit_api.Base.{
  ℕ, Bool, true, false, not, ◌||◌, ◌==◌, leb, none, some, is_none, String, str_eq, if◌then◌else◌,
  Result, ok, err, ◌>>=◌, ◌>>◌, raise_if, or_raise, atomic, first_where,
}
use roamkit_api.Partner.{MembershipStatus}
use roamkit_api.Organizations.{
  Membership, MembershipRole, OrganizationInvite, accepted, expired, User, State, OrganizationError,
  does_not_exist, invite_invalid, is_active, is_open, has_id, find_member, save_membership,
}
use roamkit_api.Organizations.Members.{Body, reject_attributed_member, insert_membership}
use roamkit_api.Organizations.Invites.{
  Texts, is_pending, is_accepted, is_revoked_invite, is_expired, role_granted, has_invite_id,
  has_token, with_invites, normalize_invite_email,
}

pub record InviteAcceptResult : Type 0 where
  pub membership : Membership
  pub invite : OrganizationInvite
  pub already_accepted : Bool

abbrev pub same_role : MembershipRole → MembershipRole → Bool
same_role MembershipRole.owner MembershipRole.owner = true
same_role MembershipRole.owner MembershipRole.admin = false
same_role MembershipRole.owner MembershipRole.member = false
same_role MembershipRole.owner MembershipRole.viewer = false
same_role MembershipRole.admin MembershipRole.owner = false
same_role MembershipRole.admin MembershipRole.admin = true
same_role MembershipRole.admin MembershipRole.member = false
same_role MembershipRole.admin MembershipRole.viewer = false
same_role MembershipRole.member MembershipRole.owner = false
same_role MembershipRole.member MembershipRole.admin = false
same_role MembershipRole.member MembershipRole.member = true
same_role MembershipRole.member MembershipRole.viewer = false
same_role MembershipRole.viewer MembershipRole.owner = false
same_role MembershipRole.viewer MembershipRole.admin = false
same_role MembershipRole.viewer MembershipRole.member = false
same_role MembershipRole.viewer MembershipRole.viewer = true

abbrev pub grant_role : MembershipRole → Membership → Membership
grant_role role m = record m { role = role; status = MembershipStatus.active }

-- `get_or_create` of the membership, and its correction.
unfoldable pub join : OrganizationInvite → ℕ → State → Body Membership
join invite user s = elim (find_member invite.organization user s) [
  | none ↦
      let m : Membership = record {
        organization = invite.organization;
        user = user;
        role = role_granted invite.role;
        status = MembershipStatus.active;
      } in
      insert_membership m s >>= λ saved. ok (m, saved)
  | some m ↦
      if not (is_active m.status) || not (same_role m.role (role_granted invite.role))
      then (save_membership invite.organization user (grant_role (role_granted invite.role)) s
          >>= λ saved. ok (grant_role (role_granted invite.role) m, saved))
      else ok (m, s)
]

abbrev pub set_accepted : ℕ → ℕ → OrganizationInvite → OrganizationInvite
set_accepted user now i = record i {
  status = accepted;
  accepted_by = some user;
  accepted_at = some now;
}

abbrev pub set_expired : OrganizationInvite → OrganizationInvite
set_expired i = record i { status = expired }

abbrev pub is_accepted_by : ℕ → OrganizationInvite → Bool
is_accepted_by user i = elim i.accepted_by [ none ↦ false | some u ↦ u == user ]

module _ (texts : Texts) (now : ℕ) where
  unfoldable pub accept_pending : User → OrganizationInvite → State → Body InviteAcceptResult
  unfolding normalize_invite_email
  accept_pending actor invite s =
      raise_if (not (is_pending invite.status)) (invite_invalid "Invite is not pending.")
      >> (or_raise (first_where (has_id invite.organization) s.organizations) does_not_exist
          >>= λ org.
              raise_if (not (is_open org.status)) (invite_invalid "Organization is not active.")
              >> (raise_if
                    (not (
                      str_eq (normalize_invite_email texts now actor.email)
                        invite.email_normalized))
                    (invite_invalid "Invite email does not match authenticated user.")
                  >> (reject_attributed_member actor.id invite.organization s
                      >> (join invite actor.id s >>= λ joined. ok (
                        record {
                          membership = joined.0;
                          invite = set_accepted actor.id now invite;
                          already_accepted = false;
                        },
                        with_invites (has_invite_id invite.id) (set_accepted actor.id now) joined.1,
                      )))))

  -- The replay by the acceptor.
  unfoldable pub accept_again : User → OrganizationInvite → State → Body InviteAcceptResult
  accept_again actor invite s =
      if is_accepted_by actor.id invite
      then (or_raise (find_member invite.organization actor.id s) does_not_exist >>= λ m.
          ok (record { membership = m; invite = invite; already_accepted = true }, s))
      else err (invite_invalid "Invite has already been accepted.")

  -- An expired invite is saved as such, and reported after the transaction.
  unfoldable pub expire_invite :
      OrganizationInvite → State → Result OrganizationError InviteAcceptResult × State
  expire_invite invite s =
      if is_pending invite.status
      then (
        err (invite_invalid "Invite has expired."),
        with_invites (has_invite_id invite.id) set_expired s,
      )
      else (err (invite_invalid "Invite has expired."), s)

  unfoldable pub accept_locked :
      User → OrganizationInvite → State → Result OrganizationError InviteAcceptResult × State
  accept_locked actor invite s =
      if is_accepted invite.status
      then atomic s (accept_again actor invite s)
      else if is_revoked_invite invite.status
      then (err (invite_invalid "Invite has been revoked."), s)
      else if is_expired invite.status || leb invite.expires_at now
      then expire_invite invite s
      else atomic s (accept_pending actor invite s)

  unfoldable pub accept_invite :
      User → String → State → Result OrganizationError InviteAcceptResult × State
  accept_invite actor raw_token s =
      if str_eq raw_token "" || str_eq (texts.strip raw_token) ""
      then (err (invite_invalid "Invalid invite token."), s)
      else if is_none (first_where (λ (u : User). u.id == actor.id) s.users)
      then (err does_not_exist, s)
      else elim (first_where (has_token (texts.digest (texts.strip raw_token))) s.invites) [
        | none ↦ (err (invite_invalid "Invalid invite token."), s)
        | some invite ↦ accept_locked actor invite s
      ]

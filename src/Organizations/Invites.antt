-- ===== src/Organizations/Invites.antt =====
-- Creating and revoking an invite: src/apps/organizations/services/invites.py. Each call is one
-- transaction at the instant `now`.
use roamkit_api.Base.{
  ℕ, ◌+◌, Bool, true, false, not, ◌&&◌, ◌==◌, Option, none, some, is_none, ◌∷◌, String, str_eq,
  if◌then◌else◌, Result, ok, ◌>>=◌, ◌>>◌, raise_if, or_raise, atomic, first_where, update_where,
}
use roamkit_api.Organizations.{
  Membership, MembershipRole, OrganizationInvite, InviteRole, InviteStatus, pending, accepted,
  expired, User, State, OrganizationError, not_found, not_allowed, invite_conflict, integrity,
  is_active, is_open, is_attributed,
}
use roamkit_api.Organizations.Context.{resolve_organization_context, require_invite}
use roamkit_api.Organizations.Members.{Body}

-- Python's `strip` and `lower`, the database's comparison `iexact`, and the hexadecimal SHA-256.
pub record Texts : Type 0 where
  pub strip : String → String
  pub lower : String → String
  pub iexact : String → String → Bool
  pub digest : String → String

abbrev pub is_pending : InviteStatus → Bool
is_pending pending = true
is_pending accepted = false
is_pending InviteStatus.revoked = false
is_pending expired = false

abbrev pub is_accepted : InviteStatus → Bool
is_accepted pending = false
is_accepted accepted = true
is_accepted InviteStatus.revoked = false
is_accepted expired = false

abbrev pub is_revoked_invite : InviteStatus → Bool
is_revoked_invite pending = false
is_revoked_invite accepted = false
is_revoked_invite InviteStatus.revoked = true
is_revoked_invite expired = false

abbrev pub is_expired : InviteStatus → Bool
is_expired pending = false
is_expired accepted = false
is_expired InviteStatus.revoked = false
is_expired expired = true

abbrev pub role_granted : InviteRole → MembershipRole
role_granted InviteRole.admin = MembershipRole.admin
role_granted InviteRole.member = MembershipRole.member
role_granted InviteRole.viewer = MembershipRole.viewer

unfoldable pub invite_role_named : String → Option InviteRole
invite_role_named text =
    if str_eq text "admin"
    then some InviteRole.admin
    else if str_eq text "member"
    then some InviteRole.member
    else if str_eq text "viewer"
    then some InviteRole.viewer
    else none

abbrev pub has_invite_id : ℕ → OrganizationInvite → Bool
has_invite_id pk i = i.id == pk

abbrev pub has_token : String → OrganizationInvite → Bool
has_token token_hash i = str_eq i.token_hash token_hash

abbrev pub is_pending_for : ℕ → String → OrganizationInvite → Bool
is_pending_for organization email i =
    i.organization == organization && (str_eq i.email_normalized email && is_pending i.status)

pub record InviteCreateResult : Type 0 where
  pub invite : OrganizationInvite
  pub raw_token : String
  pub created : Bool

abbrev pub with_invites :
    (OrganizationInvite → Bool) → (OrganizationInvite → OrganizationInvite) → State → State
with_invites p f s = record s { invites = update_where p f s.invites }

abbrev set_revoked : ℕ → OrganizationInvite → OrganizationInvite
set_revoked now i = record i { status = InviteStatus.revoked; revoked_at = some now }

unfoldable pub revoke_invite_body : ℕ → ℕ → ℕ → ℕ → State → Body OrganizationInvite
revoke_invite_body now actor organization_id pk s =
    resolve_organization_context actor organization_id s >>= λ ctx.
    require_invite ctx
    >> (or_raise
          (first_where (λ i. has_invite_id pk i && i.organization == ctx.organization.id) s.invites)
          not_found
        >>= λ invite.
            if not (is_pending invite.status)
            then ok (invite, s)
            else ok (
              set_revoked now invite,
              with_invites (has_invite_id invite.id) (set_revoked now) s,
            ))

unfoldable pub revoke_invite :
    ℕ → ℕ → ℕ → ℕ → State → Result OrganizationError OrganizationInvite × State
revoke_invite now actor organization_id pk s =
    atomic s (revoke_invite_body now actor organization_id pk s)

module _ (texts : Texts) (now : ℕ) where
  unfoldable pub normalize_invite_email : String → String
  normalize_invite_email email = texts.lower (texts.strip email)

  -- Whether a known user of that address is a customer of the organization's channel.
  unfoldable pub is_known_customer : String → ℕ → State → Bool
  is_known_customer email organization s =
      elim (first_where (λ (u : User). texts.iexact u.email email) s.users) [
        | none ↦ false
        | some u ↦ is_attributed u.id organization s
      ]

  has_address : String → ℕ → State → Bool
  has_address email user s =
      not (is_none (first_where (λ (u : User). u.id == user && texts.iexact u.email email) s.users))

  unfoldable pub is_member_address : String → ℕ → State → Bool
  unfolding has_address
  is_member_address email organization s = not (
      is_none (
        first_where
          (λ (m : Membership).
            m.organization == organization && (is_active m.status && has_address email m.user s))
          s.memberships))

  -- `token` is the new raw token, `pk` the new primary key, `ttl` the lifetime.
  module _ (token : String) (pk ttl : ℕ) where
    abbrev renew : ℕ → String → InviteRole → OrganizationInvite → OrganizationInvite
    renew actor email role i = record i {
      email = texts.strip email;
      role = role;
      token_hash = texts.digest token;
      expires_at = now + ttl;
      invited_by = actor;
    }

    abbrev new_invite : ℕ → ℕ → String → InviteRole → OrganizationInvite
    new_invite actor organization email role = record {
      id = pk;
      organization = organization;
      email = texts.strip email;
      email_normalized = normalize_invite_email email;
      role = role;
      status = pending;
      token_hash = texts.digest token;
      expires_at = now + ttl;
      invited_by = actor;
      accepted_by = none;
      accepted_at = none;
      revoked_at = none;
    }

    -- The unique column `token_hash`.
    abbrev pub check_token :
        (OrganizationInvite → Bool) → State → Result OrganizationError (Unit {0})
    check_token is_other s =
        raise_if
          (not
            (is_none (first_where (λ i. has_token (texts.digest token) i && is_other i) s.invites)))
          (integrity "token_hash")

    unfoldable pub issue_invite : ℕ → ℕ → String → InviteRole → State → Body InviteCreateResult
    unfolding normalize_invite_email
    issue_invite actor organization email role s =
        elim (first_where (is_pending_for organization (normalize_invite_email email)) s.invites) [
          | some i ↦
              check_token (λ other. not (has_invite_id i.id other)) s
              >> ok (
                record { invite = renew actor email role i; raw_token = token; created = false },
                with_invites (has_invite_id i.id) (renew actor email role) s,
              )
          | none ↦
              check_token (λ other. true) s
              >> ok (
                record {
                  invite = new_invite actor organization email role;
                  raw_token = token;
                  created = true;
                },
                record s { invites = new_invite actor organization email role ∷ s.invites },
              )
        ]

    unfoldable pub create_invite_body : ℕ → ℕ → String → String → State → Body InviteCreateResult
    unfolding normalize_invite_email
    create_invite_body actor organization_id email role_text s =
        or_raise (invite_role_named role_text) (not_allowed "Invalid invite role.") >>= λ role.
        resolve_organization_context actor organization_id s >>= λ ctx.
        require_invite ctx
        >> (raise_if (not (is_open ctx.organization.status))
              (not_allowed "Organization is not active.")
            >> (raise_if (str_eq (normalize_invite_email email) "")
                  (not_allowed "Email is required.")
                >> (raise_if
                      (is_known_customer (normalize_invite_email email) ctx.organization.id s)
                      (invite_conflict "partner_self_referral")
                    >> (raise_if
                          (is_member_address (normalize_invite_email email) ctx.organization.id s)
                          (invite_conflict "User is already an active organization member.")
                        >> issue_invite actor ctx.organization.id email role s))))

    unfoldable pub create_invite :
        ℕ → ℕ → String → String → State → Result OrganizationError InviteCreateResult × State
    create_invite actor organization_id email role_text s =
        atomic s (create_invite_body actor organization_id email role_text s)

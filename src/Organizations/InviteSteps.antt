-- ===== src/Organizations/InviteSteps.antt =====
-- Creating and revoking an invite (src/apps/organizations/services/invites.py) change no membership.
use roamkit_api.Base.{
  ℕ, inl, inr, true, not, String, ◌==◌, first_where, Ensures, if-Ensures, >>=-Ensures,
  raise_if-Ensures, or_raise-Ensures, ok-Ensures, atomic-state, Option-cases, ◌&&◌, str_eq,
}
use roamkit_api.Organizations.{State, OrganizationError, is_open, OrganizationInvite, InviteRole}
use roamkit_api.Organizations.Context.{resolve_organization_context, require_invite}
use roamkit_api.Organizations.Invites.{
  Texts, create_invite, create_invite_body, issue_invite, revoke_invite, revoke_invite_body,
  is_pending, check_token, is_pending_for, has_invite_id, invite_role_named, is_known_customer,
  is_member_address, normalize_invite_email, InviteCreateResult,
}
use roamkit_api.Organizations.Steps.{Step, Step-with_invites}
use roamkit_api.Organizations.MemberSteps.{nothing}

module _ (texts : Texts) (now : ℕ) where
  module _ (token : String) (pk ttl : ℕ) where
    issue_invite-Step :
        (actor organization : ℕ) (email : String) (role : InviteRole) (s : State)
        → Ensures
            (λ (p : InviteCreateResult × State). Step actor s p.1)
            (issue_invite texts now token pk ttl actor organization email role s)
    unfolding issue_invite
    issue_invite-Step actor organization email role s =
        let P = λ (p : InviteCreateResult × State). Step actor s p.1 in
        elim (Option-cases (
          first_where (is_pending_for organization (normalize_invite_email texts now email))
            s.invites)) [
              | inl absent ↦
                  rw (absent, issue_invite)
                    (>>=-Ensures P (check_token texts now token pk ttl (λ other. true) s) _
                      (λ u unused.
                        ok-Ensures OrganizationError P _
                          (Step-with_invites actor s s _ (nothing actor s))))
              | inr (i, found) ↦
                  rw (found, issue_invite)
                    (>>=-Ensures P
                      (check_token texts now token pk ttl (λ other. not (has_invite_id i.id other))
                        s)
                      _
                      (λ u unused.
                        ok-Ensures OrganizationError P _
                          (Step-with_invites actor s s _ (nothing actor s))))
            ]

    create_invite_body-Step :
        (actor organization_id : ℕ) (email role : String) (s : State)
        → Ensures
            (λ (p : InviteCreateResult × State). Step actor s p.1)
            (create_invite_body texts now token pk ttl actor organization_id email role s)
    unfolding create_invite_body
    create_invite_body-Step actor organization_id email role_text s =
        let P = λ (p : InviteCreateResult × State). Step actor s p.1 in
        let address = normalize_invite_email texts now email in
        or_raise-Ensures P (invite_role_named role_text) _ _ (λ role named.
          >>=-Ensures P (resolve_organization_context actor organization_id s) _ (λ ctx entered.
            >>=-Ensures P (require_invite ctx) _ (λ u permitted.
              raise_if-Ensures P (not (is_open ctx.organization.status)) _ _ (λ a.
                raise_if-Ensures P (str_eq address "") _ _ (λ b.
                  raise_if-Ensures P (is_known_customer texts now address ctx.organization.id s) _ _
                    (λ c.
                      raise_if-Ensures P (is_member_address texts now address ctx.organization.id s)
                        _ _ (λ d. issue_invite-Step actor ctx.organization.id email role s)))))))

    pub create_invite-Step :
        (actor organization_id : ℕ) (email role : String) (s : State)
        → Step actor s (create_invite texts now token pk ttl actor organization_id email role s).1
    unfolding create_invite
    create_invite-Step actor organization_id email role s =
        atomic-state (Step actor s) s
          (create_invite_body texts now token pk ttl actor organization_id email role s)
          (nothing actor s) (create_invite_body-Step actor organization_id email role s)

revoke_invite_body-Step :
    (now actor organization_id pk : ℕ) (s : State)
    → Ensures
        (λ (p : OrganizationInvite × State). Step actor s p.1)
        (revoke_invite_body now actor organization_id pk s)
unfolding revoke_invite_body
revoke_invite_body-Step now actor organization_id pk s =
    let P = λ (p : OrganizationInvite × State). Step actor s p.1 in
    >>=-Ensures P (resolve_organization_context actor organization_id s) _ (λ ctx entered.
      >>=-Ensures P (require_invite ctx) _ (λ u permitted.
        or_raise-Ensures P
          (first_where
            (λ (i : OrganizationInvite).
              has_invite_id pk i && i.organization == ctx.organization.id)
            s.invites)
          _ _
          (λ invite found.
            if-Ensures P (not (is_pending invite.status)) _ _
              (λ done. ok-Ensures OrganizationError P _ (nothing actor s))
              (λ pending.
                ok-Ensures OrganizationError P _
                  (Step-with_invites actor s s _ (nothing actor s))))))

pub revoke_invite-Step :
    (now actor organization_id pk : ℕ) (s : State)
    → Step actor s (revoke_invite now actor organization_id pk s).1
unfolding revoke_invite
revoke_invite-Step now actor organization_id pk s =
    atomic-state (Step actor s) s (revoke_invite_body now actor organization_id pk s)
      (nothing actor s) (revoke_invite_body-Step now actor organization_id pk s)

-- ===== src/Organizations/StatusSteps.antt =====
-- Changing an organization's status (src/apps/organizations/services/membership.py) makes one step or
-- none.
use roamkit_api.Base.{
  ℕ, ◌≡◌, refl, sym, ap, ◌∙◌, true, if◌then◌else◌, raise_if, not, String, arith, Ensures,
  >>=-Ensures, or_raise-Ensures, ok-Ensures, atomic-state, ok,
}
use roamkit_api.Organizations.{
  Organization, State, OrganizationError, not_allowed, is_open, is_owner, find_member,
}
use roamkit_api.Organizations.Context.{
  AccountContext, resolve_organization_context, require_archive_org,
}
use roamkit_api.Organizations.Entry.{resolve_organization_context-Entered}
use roamkit_api.Organizations.Members.{
  set_organization_status_body, set_organization_status, status_named,
}
use roamkit_api.Organizations.Saves.{find_member-key}
use roamkit_api.Organizations.Steps.{Step, sets_status}
use roamkit_api.Organizations.MemberSteps.{nothing, owns}

module _ (actor organization_id : ℕ) (s : State) where
  -- Who may change an organization's status owns it.
  owner_of :
      (ctx : AccountContext) (u : Unit {0})
      → (if is_open ctx.organization.status
          then require_archive_org ctx
          else raise_if
              (not (is_owner ctx.membership.role))
              (not_allowed "Only the owner can change organization status."))
        ≡ ok u
      → is_owner ctx.membership.role ≡ true
  unfolding require_archive_org
  owner_of ctx u h = ground (arith, h)

  set_organization_status_body-Step :
      (text : String)
      → Ensures
          (λ (p : Organization × State). Step actor s p.1)
          (set_organization_status_body actor organization_id text s)
  unfolding set_organization_status_body
  set_organization_status_body-Step text =
      let P = λ (p : Organization × State). Step actor s p.1 in
      or_raise-Ensures P (status_named text) _ _ (λ status named.
        >>=-Ensures P (resolve_organization_context actor organization_id s) _ (λ ctx entered.
          let c =
            (resolve_organization_context-Entered actor organization_id s).value ctx entered in
          let o = ctx.organization.id in
          >>=-Ensures P
            (if is_open ctx.organization.status
              then require_archive_org ctx
              else raise_if (not (is_owner ctx.membership.role)) _)
            _
            (λ u permitted. ok-Ensures OrganizationError P _ (
              sets_status o ctx.membership status _
                (ap (λ w. find_member w actor s) c.id ∙ c.membership)
                (owns o ctx.membership
                  ((find_member-key organization_id actor s ctx.membership c.membership).0
                    ∙ sym c.id)
                  (owner_of ctx u permitted) c.active)
                refl refl refl refl))))

  pub set_organization_status-Step :
      (text : String) → Step actor s (set_organization_status actor organization_id text s).1
  unfolding set_organization_status
  set_organization_status-Step text =
      atomic-state (Step actor s) s (set_organization_status_body actor organization_id text s)
        (nothing actor s) (set_organization_status_body-Step text)

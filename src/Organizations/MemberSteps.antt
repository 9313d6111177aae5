-- ===== src/Organizations/MemberSteps.antt =====
-- Changes of ownership, role and membership (src/apps/organizations/services/membership.py) make one
-- step or none.
use roamkit_api.Base.{
  true_of_not, ℕ, ◌≡◌, refl, sym, ap, ◌∙◌, true, false, not, some, String, ◌==◌, arith, Ensures,
  if-Ensures, >>=-Ensures, raise_if-Ensures, or_raise-Ensures, ok-Ensures, atomic-state, ok,
}
use mathlib.Core.Path.{subst}
use roamkit_api.Partner.{MembershipStatus}
use roamkit_api.Organizations.{
  Membership, MembershipRole, owner, State, OrganizationError, is_active, is_owner, find_member,
  save_membership, is_attributed, is_active_owner,
}
use roamkit_api.Organizations.Context.{
  AccountContext, resolve_organization_context, require_transfer_ownership, require_manage_members,
}
use roamkit_api.Organizations.Entry.{
  Entered, Entered-row, Entered-organization, resolve_organization_context-Entered,
  require_manage_members-Permitted,
}
use roamkit_api.Organizations.Members.{
  set_role, set_status, exchange_roles, transfer_body, transfer_ownership, set_role_body,
  set_member_role, revoke_body, revoke_membership, role_named, names_owner, is_revoked,
  check_owner_revocation,
}
use roamkit_api.Organizations.Saves.{
  IsSingle, KeepsKey, find_member-key, find_member_self, save_membership-Saves, saved-Saves,
}
use roamkit_api.Organizations.Steps.{Step, Manages, files, hands_over, alters}

abbrev IsStep {ℓ} : {A : Type ℓ} → ℕ → State → A × State → Type 0
IsStep actor s p = Step actor s p.1

pub set_role-KeepsKey : (r : MembershipRole) → KeepsKey (set_role r)
set_role-KeepsKey r = record { organization = λ m. refl; user = λ m. refl }

set_status-KeepsKey : (st : MembershipStatus) → KeepsKey (set_status st)
set_status-KeepsKey st = record { organization = λ m. refl; user = λ m. refl }

pub nothing : (actor : ℕ) (s : State) → Step actor s s
nothing actor s =
    files s (record { organizations = refl; channels = refl; attributions = refl }) refl

pub owns :
    (o : ℕ) (m : Membership)
    → m.organization ≡ o
    → is_owner m.role ≡ true
    → is_active m.status ≡ true
    → is_active_owner o m ≡ true
owns o m same role active = ground arith

module _ (actor organization_id : ℕ) (s : State) (v : IsSingle s) where
  manages :
      (ctx : AccountContext)
      → Entered actor organization_id s ctx
      → require_manage_members ctx ≡ ok tt
      → Manages actor ctx.organization.id s
  manages ctx c permitted = record {
    row = ctx.membership;
    found = ap (λ o. find_member o actor s) c.id ∙ c.membership;
    active = c.active;
    can_manage_members = require_manage_members-Permitted ctx permitted;
  }

  exchange_roles-Step :
      (o : ℕ) (mine target : Membership)
      → find_member o actor s ≡ some mine
      → find_member o target.user s ≡ some target
      → is_owner mine.role ≡ true
      → is_active mine.status ≡ true
      → is_active target.status ≡ true
      → (target.user == actor) ≡ false
      → is_attributed target.user o s ≡ false
      → Ensures (λ (p : Membership × State). Step actor s p.1) (exchange_roles o actor target s)
  unfolding exchange_roles
  exchange_roles-Step o mine target h k owns active active' other free =
      >>=-Ensures (λ (p : Membership × State). Step actor s p.1)
        (save_membership o actor (set_role MembershipRole.admin) s) _
        (λ demoted p.
          let first =
            (save_membership-Saves (set_role MembershipRole.admin) (set_role-KeepsKey _) o actor s
                mine v.unique h).value
              demoted p in
          let k' = first.finds o target.user (ground (arith, other)) ∙ k in
          >>=-Ensures (λ (p : Membership × State). Step actor s p.1)
            (save_membership o target.user (set_role owner) demoted) _
            (λ promoted q.
              ok-Ensures OrganizationError (λ (p : Membership × State). Step actor s p.1) _
                (hands_over o mine target demoted promoted h
                  (ground (arith, find_member-key o actor s mine h)) k active' other free first
                  ((save_membership-Saves (set_role owner) (set_role-KeepsKey _) o target.user
                      demoted target first.unique k').value
                    promoted q))))

  transfer_body-Step :
      (new_owner : ℕ)
      → Ensures
          (λ (p : Membership × State). Step actor s p.1)
          (transfer_body actor organization_id new_owner s)
  unfolding transfer_body
  transfer_body-Step new_owner =
      let P = λ (p : Membership × State). Step actor s p.1 in
      >>=-Ensures P (resolve_organization_context actor organization_id s) _ (λ ctx entered.
        let c = (resolve_organization_context-Entered actor organization_id s).value ctx entered in
        let o = ctx.organization.id in
        >>=-Ensures P (require_transfer_ownership ctx) _ (λ u permitted.
          raise_if-Ensures P (is_attributed new_owner o s) _ _ (λ free.
            or_raise-Ensures P (find_member o new_owner s) _ _ (λ target found.
              raise_if-Ensures P (not (is_active target.status)) _ _ (λ active.
                or_raise-Ensures P (find_member o ctx.membership.user s) _ _ (λ mine found_mine.
                  raise_if-Ensures P (not (is_owner mine.role)) _ _ (λ owns.
                    if-Ensures P (target.user == mine.user) _ _
                      (λ same. ok-Ensures OrganizationError P _ (nothing actor s))
                      (λ other.
                        let mine_user =
                          (find_member-key o ctx.membership.user s mine found_mine).1 ∙ c.user in
                        subst (λ w. Ensures P (exchange_roles o w target s)) (sym mine_user)
                          (exchange_roles-Step o mine target
                            (ap (λ w. find_member o w s) (sym c.user) ∙ found_mine)
                            (find_member_self o new_owner s target found) (true_of_not _ owns)
                            (subst (λ (m : Membership). is_active m.status ≡ true)
                              (sym (Entered-row actor organization_id s ctx mine c found_mine))
                              c.active)
                            (true_of_not _ active)
                            (ap (λ w. target.user == w) (sym mine_user) ∙ other)
                            (ap (λ w. is_attributed w o s)
                                (find_member-key o new_owner s target found).1
                              ∙ free))))))))))

  set_role_body-Step :
      (user : ℕ) (role : String)
      → Ensures
          (λ (p : Membership × State). Step actor s p.1)
          (set_role_body actor organization_id user role s)
  unfolding set_role_body
  set_role_body-Step user role =
      let P = λ (p : Membership × State). Step actor s p.1 in
      raise_if-Ensures P (names_owner (role_named role)) _ _ (λ no_owner.
        >>=-Ensures P (resolve_organization_context actor organization_id s) _ (λ ctx entered.
          let c =
            (resolve_organization_context-Entered actor organization_id s).value ctx entered in
          let o = ctx.organization.id in
          >>=-Ensures P (require_manage_members ctx) _ (λ u permitted.
            raise_if-Ensures P (is_attributed user o s) _ _ (λ free.
              or_raise-Ensures P (find_member o user s) _ _ (λ target found.
                raise_if-Ensures P (not (is_active target.status)) _ _ (λ active.
                  raise_if-Ensures P (is_owner target.role) _ _ (λ owns.
                    or_raise-Ensures P (role_named role) _ _ (λ r named.
                      >>=-Ensures P (save_membership o user (set_role r) s) _ (λ t saved.
                        ok-Ensures OrganizationError P _ (
                          alters o target (set_role r target) t (manages ctx c permitted)
                            (find_member_self o user s target found) (λ pk. ground (arith, owns))
                            (λ pk. ground (arith, no_owner, named))
                            (λ live.
                              ap (λ w. is_attributed w o s)
                                (find_member-key o user s target found).1
                              ∙ free)
                            (saved-Saves (set_role r) (set_role-KeepsKey r) o user s t target
                              v.unique found saved)))))))))))

  -- An active owner is the only one: the revocation would have been refused.
  no_active_owner :
      (ctx : AccountContext) (target : Membership) (w : Unit {0})
      → Entered actor organization_id s ctx
      → check_owner_revocation ctx target s ≡ ok w
      → (pk : ℕ) → is_active_owner pk target ≡ false
  unfolding check_owner_revocation
  no_active_owner ctx target w c checked pk = ground (
    arith,
    checked,
    v.few ctx.organization.id ctx.organization (Entered-organization actor organization_id s ctx c),
  )

  no_revival : false ≡ true → ⊥
  no_revival h = cc

  revoke_body-Step :
      (user : ℕ)
      → Ensures
          (λ (p : Membership × State). Step actor s p.1)
          (revoke_body actor organization_id user s)
  unfolding revoke_body
  revoke_body-Step user =
      let P = λ (p : Membership × State). Step actor s p.1 in
      >>=-Ensures P (resolve_organization_context actor organization_id s) _ (λ ctx entered.
        let c = (resolve_organization_context-Entered actor organization_id s).value ctx entered in
        let o = ctx.organization.id in
        >>=-Ensures P (require_manage_members ctx) _ (λ u permitted.
          or_raise-Ensures P (find_member o user s) _ _ (λ target found.
            if-Ensures P (is_revoked target.status) _ _
              (λ done. ok-Ensures OrganizationError P _ (nothing actor s))
              (λ live. >>=-Ensures P (check_owner_revocation ctx target s) _ (λ w checked.
                >>=-Ensures P (save_membership o user (set_status MembershipStatus.revoked) s) _
                  (λ t saved. ok-Ensures OrganizationError P _ (
                    alters o target (set_status MembershipStatus.revoked target) t
                      (manages ctx c permitted) (find_member_self o user s target found)
                      (no_active_owner ctx target w c checked) (λ pk. ground arith)
                      (λ live. absurd (no_revival live))
                      (saved-Saves (set_status MembershipStatus.revoked) (set_status-KeepsKey _) o
                        user s t target v.unique found saved))))))))

  -- What the operations leave is one step away.
  pub transfer_ownership-Step :
      (new_owner : ℕ) → Step actor s (transfer_ownership actor organization_id new_owner s).1
  unfolding transfer_ownership
  transfer_ownership-Step new_owner =
      atomic-state (Step actor s) s (transfer_body actor organization_id new_owner s)
        (nothing actor s) (transfer_body-Step new_owner)

  pub set_member_role-Step :
      (user : ℕ) (role : String)
      → Step actor s (set_member_role actor organization_id user role s).1
  unfolding set_member_role
  set_member_role-Step user role =
      atomic-state (Step actor s) s (set_role_body actor organization_id user role s)
        (nothing actor s) (set_role_body-Step user role)

  pub revoke_membership-Step :
      (user : ℕ) → Step actor s (revoke_membership actor organization_id user s).1
  unfolding revoke_membership
  revoke_membership-Step user =
      atomic-state (Step actor s) s (revoke_body actor organization_id user s) (nothing actor s)
        (revoke_body-Step user)

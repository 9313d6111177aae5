-- ===== src/Organizations/FoundingSteps.antt =====
-- Creating an organization (src/apps/organizations/services/account_binding.py) makes one step or
-- none.
use Prim.Native.String.{count}
use roamkit_api.Base.{
  true_of_not, ℕ, ◌≡◌, inl, inr, refl, ap, true, false, not, none, String, Option, ◌∷◌, leb,
  is_none, Ensures, >>=-Ensures, raise_if-Ensures, ok-Ensures, atomic-state, Option-cases, ◌≤◌,
  leb→le, str_eq,
}
use roamkit_api.Organizations.{
  Organization, OrganizationStatus, Membership, State, OrganizationError, find_member,
  is_attributed, active_owner_count,
}
use roamkit_api.Organizations.Members.{
  insert_membership, create_body, create_organization, with_organization, new_organization,
}
use roamkit_api.Organizations.Steps.{Step, founds, founder}
use roamkit_api.Organizations.MemberSteps.{nothing}

pub insert_membership-Inserts :
    (m : Membership) (s : State)
    → Ensures
        (λ (t : State).
          (find_member m.organization m.user s ≡ none)
          × (active_owner_count m.organization (m ∷ s.memberships) ≤ 1)
          × (t ≡ record s { memberships = m ∷ s.memberships }))
        (insert_membership m s)
unfolding insert_membership
insert_membership-Inserts m s =
    let P = λ (t : State).
      (find_member m.organization m.user s ≡ none)
      × (active_owner_count m.organization (m ∷ s.memberships) ≤ 1)
      × (t ≡ record s { memberships = m ∷ s.memberships }) in
    raise_if-Ensures P (not (is_none (find_member m.organization m.user s))) _ _ (λ absent.
      raise_if-Ensures P (not (leb (active_owner_count m.organization (m ∷ s.memberships)) 1)) _ _
        (λ few.
          ok-Ensures OrganizationError P _
            (is_none_of (true_of_not _ absent), leb→le _ _ (true_of_not _ few), refl)))
  where
    is_none_of : {o : Option Membership} → is_none o ≡ true → o ≡ none
    is_none_of {o} h = elim (Option-cases o) [ inl absent ↦ absent | inr (x, found) ↦ cc ]

module _ (strip : String → String) (pk account : ℕ) where
  create_body-Step :
      (name : String) (actor : ℕ) (status : OrganizationStatus) (s : State)
      → is_attributed actor pk s ≡ false
      → Ensures
          (λ (p : Organization × State). Step actor s p.1)
          (create_body strip pk account name actor status s)
  unfolding create_body
  create_body-Step name actor status s free =
      let P = λ (p : Organization × State). Step actor s p.1 in
      let before = with_organization strip pk account (strip name) status s in
      raise_if-Ensures P (str_eq (strip name) "") _ _ (λ named.
        raise_if-Ensures P (not (leb (count (strip name)) 128)) _ _ (λ fits.
          >>=-Ensures P (insert_membership (founder pk actor) before) _ (λ t inserted.
            let (absent, few, same) =
              (insert_membership-Inserts (founder pk actor) before).value t inserted in
            ok-Ensures OrganizationError P _ (
              founds (new_organization strip pk account (strip name) status) t absent few free
                (ap (λ (x : State). x.organizations) same) (ap (λ (x : State). x.memberships) same)
                (ap (λ (x : State). x.channels) same) (ap (λ (x : State). x.attributions) same)))))

  pub create_organization-Step :
      (name : String) (actor : ℕ) (status : OrganizationStatus) (s : State)
      → is_attributed actor pk s ≡ false
      → Step actor s (create_organization strip pk account name actor status s).1
  unfolding create_organization
  create_organization-Step name actor status s free =
      atomic-state (Step actor s) s (create_body strip pk account name actor status s)
        (nothing actor s) (create_body-Step name actor status s free)

-- ===== src/Organizations/Joining.antt =====
-- What `get_or_create` of the membership does for an accepted invite
-- (src/apps/organizations/services/invites.py).
use roamkit_api.Base.{
  ℕ, ◌≡◌, inl, inr, refl, ap, ◌∙◌, true, not, ◌||◌, some, arith, first_where, first_where-cons,
  first_where-update_where, first_where-selects, Ensures, if-Ensures, >>=-Ensures, ok-Ensures, ok,
  Option-cases,
}
use roamkit_api.Organizations.{
  Membership, MembershipRole, OrganizationInvite, State, OrganizationError, is_active, find_member,
  save_membership, is_member_of,
}
use roamkit_api.Organizations.Members.{insert_membership}
use roamkit_api.Organizations.Invites.{role_granted}
use roamkit_api.Organizations.Accepting.{join, grant_role, same_role}
use roamkit_api.Organizations.FoundingSteps.{insert_membership-Inserts}
use roamkit_api.Organizations.Saves.{save_membership-Writes}
use roamkit_api.Organizations.Steps.{invited}

-- The user's membership is active and has that role; invites and users are as before.
pub record Joins (o user : ℕ) (granted : MembershipRole) (s : State) (p : Membership × State)
    : Type 0 where
  pub found : find_member o user p.1 ≡ some p.0
  pub active : is_active p.0.status ≡ true
  pub role : p.0.role ≡ granted
  pub invites : p.1.invites ≡ s.invites
  pub users : p.1.users ≡ s.users

same_role_eq : (a b : MembershipRole) → same_role a b ≡ true → a ≡ b
same_role_eq a b h = ground (arith, h)

save-Joins :
    (o user : ℕ) (granted : MembershipRole) (m : Membership) (s t : State)
    → find_member o user s ≡ some m
    → save_membership o user (grant_role granted) s ≡ ok t
    → Joins o user granted s (grant_role granted m, t)
save-Joins o user granted m s t found saved =
    let same = (save_membership-Writes o user (grant_role granted) s).value t saved in
    record {
      found =
          ap (first_where (is_member_of o user)) (ap (λ (x : State). x.memberships) same)
          ∙ (first_where-update_where (is_member_of o user) (is_member_of o user)
                (grant_role granted) s.memberships m (λ y. refl) found
              ∙ ap some
                  (rw (first_where-selects (is_member_of o user) s.memberships m found) refl));
      active = refl;
      role = refl;
      invites = ap (λ (x : State). x.invites) same;
      users = ap (λ (x : State). x.users) same;
    }

pub join-Joins :
    (invite : OrganizationInvite) (user : ℕ) (s : State)
    → Ensures (Joins invite.organization user (role_granted invite.role) s) (join invite user s)
unfolding join
join-Joins invite user s =
    let o = invite.organization in
    let role = role_granted invite.role in
    let P = Joins o user role s in
    elim (Option-cases (find_member o user s)) [
      | inl absent ↦
          rw (absent, join)
            (>>=-Ensures P (insert_membership (invited o user invite.role) s) _ (λ t inserted.
              let (_, few, same) =
                (insert_membership-Inserts (invited o user invite.role) s).value t inserted in
              ok-Ensures OrganizationError P _ (record {
                found =
                    ap (first_where (is_member_of o user)) (ap (λ (x : State). x.memberships) same)
                    ∙ first_where-cons (is_member_of o user) (invited o user invite.role)
                        s.memberships (ground arith);
                active = refl;
                role = refl;
                invites = ap (λ (x : State). x.invites) same;
                users = ap (λ (x : State). x.users) same;
              })))
      | inr (m, found) ↦
          rw (found, join)
            (if-Ensures P (not (is_active m.status) || not (same_role m.role role)) _ _
              (λ differs. >>=-Ensures P (save_membership o user (grant_role role) s) _ (λ t saved.
                ok-Ensures OrganizationError P _ (save-Joins o user role m s t found saved)))
              (λ alike. ok-Ensures OrganizationError P _ (record {
                found = found;
                active = ground (arith, alike);
                role = same_role_eq m.role role (ground (arith, alike));
                invites = refl;
                users = refl;
              })))
    ]

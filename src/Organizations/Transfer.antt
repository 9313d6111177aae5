-- ===== src/Organizations/Transfer.antt =====
-- Handing over ownership (src/apps/organizations/services/membership.py) succeeds: the demotion comes
-- first, so the index of one active owner lets both saves pass.
use roamkit_api.Base.{
  ℕ, ◌≡◌, ◌≢◌, refl, sym, ap, ◌∙◌, true, false, some, ◌==◌, ◌≤◌, arith, first_where, update_where,
  first_where-selects, ok,
}
use roamkit_api.Organizations.{
  Organization, Membership, MembershipRole, owner, State, is_active, is_open, is_owner, find_member,
  save_membership, is_attributed, has_id, active_owner_count, is_active_owner, is_member_of,
}
use roamkit_api.Organizations.Context.{
  permissions_for_role, resolve_organization_context, require_transfer_ownership,
}
use roamkit_api.Organizations.Members.{set_role, exchange_roles, transfer_body, transfer_ownership}
use roamkit_api.Organizations.Saves.{IsValid, Saves, find_member-key, table-Saves}
use roamkit_api.Organizations.MemberSteps.{set_role-KeepsKey}

abbrev written : ℕ → ℕ → (Membership → Membership) → State → State
written o u f s = record s { memberships = update_where (is_member_of o u) f s.memberships }

save_membership_fits :
    (o u : ℕ) (f : Membership → Membership) (s : State)
    → active_owner_count o (written o u f s).memberships ≤ 1
    → save_membership o u f s ≡ ok (written o u f s)
unfolding save_membership
save_membership_fits o u f s fits = ground (arith, fits)

module _ (o actor : ℕ) (mine target : Membership) (s : State) (v : IsValid s)
    (found : find_member o actor s ≡ some mine) (found' : find_member o target.user s ≡ some target)
    (owns : is_active_owner o mine ≡ true) (active : is_active target.status ≡ true)
    (apart : (target.user == actor) ≡ false) (one : active_owner_count o s.memberships ≡ 1) where
  abbrev demoted : State
  demoted = written o actor (set_role MembershipRole.admin) s

  abbrev handed_over : State
  handed_over = written o target.user (set_role owner) demoted

  first : Saves o actor mine (set_role MembershipRole.admin mine) s demoted
  first =
      table-Saves (set_role MembershipRole.admin) (set_role-KeepsKey MembershipRole.admin) o actor s
        mine v.unique found

  waits : find_member o target.user demoted ≡ some target
  waits = first.finds o target.user (ground (arith, apart)) ∙ found'

  second : Saves o target.user target (set_role owner target) demoted handed_over
  second =
      table-Saves (set_role owner) (set_role-KeepsKey owner) o target.user demoted target
        first.unique waits

  nobody : active_owner_count o demoted.memberships ≡ 0
  nobody = ground (arith, first.owners o, one, owns)

  only_target : active_owner_count o handed_over.memberships ≤ 1
  only_target = ground (arith, second.owners o, nobody)

  exchange_roles_succeeds :
      exchange_roles o actor target s ≡ ok (set_role owner target, handed_over)
  unfolding exchange_roles
  exchange_roles_succeeds =
      rw
        (
          save_membership_fits o actor (set_role MembershipRole.admin) s (omega (arith, nobody)),
          save_membership_fits o target.user (set_role owner) demoted only_target,
        )
        refl

  -- afterwards
  new_owner : find_member o target.user handed_over ≡ some (set_role owner target)
  new_owner = second.changed

  old_owner : find_member o actor handed_over ≡ some (set_role MembershipRole.admin mine)
  old_owner = second.finds o actor (ground (arith, apart)) ∙ first.changed

-- The guards before the exchange pass.
transfer_body_passes :
    (o actor user : ℕ) (org : Organization) (mine target : Membership) (s : State)
    → first_where (has_id o) s.organizations ≡ some org
    → is_open org.status ≡ true
    → find_member org.id actor s ≡ some mine
    → find_member org.id mine.user s ≡ some mine
    → is_owner mine.role ≡ true
    → is_active mine.status ≡ true
    → find_member org.id user s ≡ some target
    → is_active target.status ≡ true
    → target.user == mine.user ≡ false
    → is_attributed user org.id s ≡ false
    → transfer_body actor o user s ≡ exchange_roles org.id mine.user target s
unfolding transfer_body resolve_organization_context require_transfer_ownership
transfer_body_passes o actor user org mine target s exists open_ found again owns live found' active
      apart free =
    rw
      (exists, found, live, open_, permits mine.role owns, free, found', active, again, owns, apart)
      refl
  where
    permits :
        (role : MembershipRole)
        → is_owner role ≡ true
        → (permissions_for_role role).can_transfer_ownership ≡ true
    permits role h = ground (arith, h)

-- The active owner of an active organization hands it over to another active member who is no
-- customer of its channel, from a state with one active owner for each organization: the call
-- returns the new owner's membership, the new owner is an owner and the old one an admin.
pub transfer_ownership_hands_over :
    (o actor user : ℕ) (org : Organization) (mine target : Membership) (s : State)
    → IsValid s
    → first_where (has_id o) s.organizations ≡ some org
    → is_open org.status ≡ true
    → find_member o actor s ≡ some mine
    → is_active_owner o mine ≡ true
    → find_member o user s ≡ some target
    → is_active target.status ≡ true
    → user ≢ actor
    → is_attributed user o s ≡ false
    → (t : State) × (transfer_ownership actor o user s ≡ (ok (set_role owner target), t))
      × (find_member o user t ≡ some (set_role owner target))
      × (find_member o actor t ≡ some (set_role MembershipRole.admin mine))
unfolding transfer_ownership
transfer_ownership_hands_over o actor user org mine target s v exists open_ found owns found' active
      apart free =
    let same_id : o ≡ org.id =
      sym (ground (arith, first_where-selects (has_id o) s.organizations org exists)) in
    let (_, mine_user) = find_member-key o actor s mine found in
    let (_, target_user) = find_member-key o user s target found' in
    let at : (u : ℕ) → find_member o u s ≡ find_member org.id u s =
      λ u. ap (λ n. find_member n u s) same_id in
    let mine_here = sym (at actor) ∙ found in
    let mine_again : find_member org.id mine.user s ≡ some mine =
      ap (λ u. find_member org.id u s) mine_user ∙ mine_here in
    let target_here = sym (at user) ∙ found' in
    let target_again : find_member org.id target.user s ≡ some target =
      ap (λ u. find_member org.id u s) target_user ∙ target_here in
    let other : target.user == mine.user ≡ false = ground (arith, target_user, mine_user, apart) in
    let owns_here : is_active_owner org.id mine ≡ true =
      ap (λ n. is_active_owner n mine) (sym same_id) ∙ owns in
    let one : active_owner_count org.id s.memberships ≡ 1 =
      v.one_owner org.id org
        (ap (λ n. first_where (has_id n) s.organizations) (sym same_id) ∙ exists) in
    let t =
      handed_over org.id mine.user mine target s v mine_again target_again owns_here active other
        one in
    let passes =
      transfer_body_passes o actor user org mine target s exists open_ mine_here mine_again
        (ground (arith, owns)) (ground (arith, owns)) target_here active other
        (ap (λ n. is_attributed user n s) (sym same_id) ∙ free) in
    (
      t,
      rw
          (
            passes,
            exchange_roles_succeeds org.id mine.user mine target s v mine_again target_again
                owns_here active other one,
          )
          refl,
      ap (λ n. find_member n user t) same_id
          ∙ (ap (λ u. find_member org.id u t) (sym target_user)
              ∙ new_owner org.id mine.user mine target s v mine_again target_again owns_here active
                  other one),
      ap (λ n. find_member n actor t) same_id
          ∙ (ap (λ u. find_member org.id u t) (sym mine_user)
              ∙ old_owner org.id mine.user mine target s v mine_again target_again owns_here active
                  other one),
    )

-- ===== src/Organizations/Ownership.antt =====
-- What the steps of the services of src/apps/organizations keep: one active owner for each
-- organization, and the authority of its managers.
use roamkit_api.Base.{
  ℕ, ◌≡◌, ◌⊎◌, inl, inr, refl, sym, ap, ◌∙◌, true, false, none, some, List, ◌∷◌, ◌==◌, ◌≤◌, arith,
  first_where, update_where, count_where, AreUnique, count_where-found, Bool-cases, Option-cases,
  first_where-update_none, one_if, ==_refl, first_where-cons_other,
}
use mathlib.Core.Path.{subst}
use roamkit_api.Organizations.{
  Organization, Membership, MembershipRole, owner, InviteRole, State, is_active, is_owner,
  find_member, has_id, active_owner_count, is_active_owner, is_member_of,
}
use roamkit_api.Organizations.Members.{set_role, save_status}
use roamkit_api.Organizations.Invites.{role_granted}
use roamkit_api.Organizations.Accepting.{grant_role}
use roamkit_api.Organizations.Saves.{
  IsValid, IsSingle, Saves, find_member-key, Saves-IsValid, Saves-IsSingle, same_member,
}
use roamkit_api.Organizations.Steps.{
  Step, files, hands_over, alters, sets_status, founds, joins, rejoins, founder,
}

exchanged :
    (o a : ℕ) (mine target : Membership) (s demoted promoted : State)
    → find_member o a s ≡ some mine
    → is_active_owner o mine ≡ true
    → find_member o target.user s ≡ some target
    → is_active target.status ≡ true
    → (target.user == a) ≡ false
    → Saves o a mine (set_role MembershipRole.admin mine) s demoted
    → Saves o target.user target (set_role owner target) demoted promoted
    → (pk : ℕ) → active_owner_count pk s.memberships ≡ 1
    → active_owner_count pk promoted.memberships ≡ 1
exchanged o a mine target s demoted promoted h owns k active other first second pk one =
    elim (Bool-cases (o == pk)) [
      | inl here ↦
          ground (arith, here, first.owners pk, second.owners pk, found, key, key', owns, one)
      | inr there ↦ ground (arith, there, first.owners pk, second.owners pk, key, key', one)
    ]
  where
    found : one_if (is_active_owner pk target) ≤ active_owner_count pk demoted.memberships
    found =
        count_where-found (is_member_of o target.user) (is_active_owner pk) demoted.memberships
          target (first.finds o target.user (ground (arith, other)) ∙ k)

    key : (mine.organization ≡ o) × (mine.user ≡ a)
    key = find_member-key o a s mine h

    key' : (target.organization ≡ o) × (target.user ≡ target.user)
    key' = find_member-key o target.user s target k

-- The organizations after a change of one's status are the ones before.
same_ids :
    (o pk : ℕ) (org : Organization) (f : Organization → Organization) (rows : List Organization)
    → ((x : Organization) → (f x).id ≡ x.id)
    → first_where (has_id pk) (update_where (has_id o) f rows) ≡ some org
    → (x : Organization) × (first_where (has_id pk) rows ≡ some x)
same_ids o pk org f rows keeps h = elim (Option-cases (first_where (has_id pk) rows)) [
  | inr (x, found) ↦ (x, found)
  | inl absent ↦ absurd (
      missing (
        sym (
          first_where-update_none (has_id pk) (has_id o) f rows (λ y. ap (λ n. n == pk) (keeps y))
            absent)
        ∙ h))
]
  where
    missing : none ≡ some org → ⊥
    missing e = cc

pub granted_no_owner : (role : InviteRole) → is_owner (role_granted role) ≡ false
granted_no_owner role = ground arith

-- With at most one active owner before, whoever hands over was the only one.
handed_over :
    (o a : ℕ) (mine target : Membership) (s demoted promoted : State)
    → find_member o a s ≡ some mine
    → is_active_owner o mine ≡ true
    → find_member o target.user s ≡ some target
    → is_active target.status ≡ true
    → (target.user == a) ≡ false
    → Saves o a mine (set_role MembershipRole.admin mine) s demoted
    → Saves o target.user target (set_role owner target) demoted promoted
    → (pk : ℕ) → active_owner_count pk s.memberships ≤ 1
    → active_owner_count pk promoted.memberships ≤ 1
handed_over o a mine target s demoted promoted h owns k active other first second pk few =
    elim (Bool-cases (o == pk)) [
      | inl here ↦
          let same : o ≡ pk = ground (arith, here) in
          let held : one_if (is_active_owner pk mine) ≤ active_owner_count pk s.memberships =
            count_where-found (is_member_of o a) (is_active_owner pk) s.memberships mine h in
          let one : active_owner_count pk s.memberships ≡ 1 =
            omega
              (arith, few, held, ap one_if (ap (λ n. is_active_owner n mine) (sym same) ∙ owns)) in
          omega (
            arith,
            exchanged o a mine target s demoted promoted h owns k active other first second pk one,
          )
      | inr there ↦ ground (arith, there, first.owners pk, second.owners pk, key, key', few)
    ]
  where
    key : (mine.organization ≡ o) × (mine.user ≡ a)
    key = find_member-key o a s mine h

    key' : (target.organization ≡ o) × (target.user ≡ target.user)
    key' = find_member-key o target.user s target k

module _ (actor : ℕ) (s : State) (v : IsSingle s) where
  pub Step-IsSingle : (t : State) → Step actor s t → IsSingle t
  unfolding AreUnique count_where first_where
  Step-IsSingle t (files _ alike same) = record {
    unique = subst (AreUnique same_member) (sym same) v.unique;
    few = λ pk o h.
        subst (λ rows. active_owner_count pk rows ≤ 1) (sym same)
          (v.few pk o (ap (first_where (has_id pk)) (sym alike.organizations) ∙ h));
  }
  Step-IsSingle t (hands_over o mine target demoted _ h owns k active other free first second) =
      record {
        unique = second.unique;
        few = λ pk org found.
            handed_over o actor mine target s demoted t h owns k active other first second pk (
              v.few pk org (
                ap (first_where (has_id pk))
                  (sym (second.alike.organizations ∙ first.alike.organizations))
                ∙ found));
      }
  Step-IsSingle t (alters o target target' _ m found common common' free saves) =
      Saves-IsSingle o target.user target target' s t saves common' v
  Step-IsSingle t (sets_status o mine status _ found owns orgs same c a) = record {
    unique = subst (AreUnique same_member) (sym same) v.unique;
    few = λ pk org h.
        let (x, before) =
          same_ids o pk org (save_status status) s.organizations (λ y. refl)
            (ap (first_where (has_id pk)) (sym orgs) ∙ h) in
        subst (λ rows. active_owner_count pk rows ≤ 1) (sym same) (v.few pk x before);
  }
  Step-IsSingle t (founds org _ absent few free orgs same c a) = record {
    unique = subst (AreUnique same_member) (sym same) (absent, v.unique);
    few = λ pk x h.
        subst (λ rows. active_owner_count pk rows ≤ 1) (sym same)
          (founded pk x (ap (first_where (has_id pk)) (sym orgs) ∙ h) (Bool-cases (org.id == pk)));
  }
    where
      founded :
          (pk : ℕ) (x : Organization)
          → first_where (has_id pk) (org ∷ s.organizations) ≡ some x
          → ((org.id == pk) ≡ true) ⊎ ((org.id == pk) ≡ false)
          → active_owner_count pk (founder org.id actor ∷ s.memberships) ≤ 1
      founded pk x h (inl here) =
          let same_id : org.id ≡ pk = ground (arith, here) in
          subst (λ n. active_owner_count n (founder org.id actor ∷ s.memberships) ≤ 1) same_id few
      founded pk x h (inr there) = ground (
        arith,
        there,
        v.few pk x (sym (first_where-cons_other (has_id pk) org s.organizations there) ∙ h),
      )
  Step-IsSingle t (joins o role _ absent free alike same) = record {
    unique = subst (AreUnique same_member) (sym same) (absent, v.unique);
    few = λ pk x h.
        subst (λ rows. active_owner_count pk rows ≤ 1) (sym same)
          (ground (
            arith,
            granted_no_owner role,
            v.few pk x (ap (first_where (has_id pk)) (sym alike.organizations) ∙ h),
          ));
  }
  Step-IsSingle t (rejoins o role m _ found common free saves) =
      Saves-IsSingle o actor m (grant_role (role_granted role) m) s t saves
        (λ pk. ground (arith, granted_no_owner role)) v

module _ (actor : ℕ) (s : State) (v : IsValid s) where
  pub Step-IsValid : (t : State) → Step actor s t → IsValid t
  unfolding AreUnique count_where first_where
  Step-IsValid t (files _ alike same) = record {
    unique = subst (AreUnique same_member) (sym same) v.unique;
    one_owner = λ pk o h.
        ap (active_owner_count pk) same
        ∙ v.one_owner pk o (ap (first_where (has_id pk)) (sym alike.organizations) ∙ h);
  }
  Step-IsValid t (hands_over o mine target demoted _ h owns k active other free first second) =
      record {
        unique = second.unique;
        one_owner = λ pk org found.
            exchanged o actor mine target s demoted t h owns k active other first second pk (
              v.one_owner pk org (
                ap (first_where (has_id pk))
                  (sym (second.alike.organizations ∙ first.alike.organizations))
                ∙ found));
      }
  Step-IsValid t (alters o target target' _ m found common common' free saves) =
      Saves-IsValid o target.user target target' s t saves (λ pk. common pk ∙ sym (common' pk)) v
  Step-IsValid t (sets_status o mine status _ found owns orgs same c a) = record {
    unique = subst (AreUnique same_member) (sym same) v.unique;
    one_owner = λ pk org h.
        let (x, before) =
          same_ids o pk org (save_status status) s.organizations (λ y. refl)
            (ap (first_where (has_id pk)) (sym orgs) ∙ h) in
        ap (active_owner_count pk) same ∙ v.one_owner pk x before;
  }
  Step-IsValid t (founds org _ absent few free orgs same c a) = record {
    unique = subst (AreUnique same_member) (sym same) (absent, v.unique);
    one_owner = λ pk x h.
        ap (active_owner_count pk) same
        ∙ founded pk x (ap (first_where (has_id pk)) (sym orgs) ∙ h) (Bool-cases (org.id == pk));
  }
    where
      founded :
          (pk : ℕ) (x : Organization)
          → first_where (has_id pk) (org ∷ s.organizations) ≡ some x
          → ((org.id == pk) ≡ true) ⊎ ((org.id == pk) ≡ false)
          → active_owner_count pk (founder org.id actor ∷ s.memberships) ≡ 1
      founded pk x h (inl here) =
          let same_id : org.id ≡ pk = ground (arith, here) in
          subst (λ n. active_owner_count n (founder org.id actor ∷ s.memberships) ≡ 1) same_id
            (ground (arith, few, ==_refl org.id))
      founded pk x h (inr there) = ground (
        arith,
        there,
        v.one_owner pk x (sym (first_where-cons_other (has_id pk) org s.organizations there) ∙ h),
      )
  Step-IsValid t (joins o role _ absent free alike same) = record {
    unique = subst (AreUnique same_member) (sym same) (absent, v.unique);
    one_owner = λ pk x h.
        ap (active_owner_count pk) same
        ∙ ground (
          arith,
          granted_no_owner role,
          v.one_owner pk x (ap (first_where (has_id pk)) (sym alike.organizations) ∙ h),
        );
  }
  Step-IsValid t (rejoins o role m _ found common free saves) =
      Saves-IsValid o actor m (grant_role (role_granted role) m) s t saves
        (λ pk. common pk ∙ ground (arith, granted_no_owner role)) v

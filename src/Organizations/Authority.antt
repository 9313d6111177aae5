-- ===== src/Organizations/Authority.antt =====
-- Whose doing a change of a membership is: the services of src/apps/organizations touch another
-- user's membership only for a manager, and an owner's never, save by handing ownership over.
use roamkit_api.Base.{
  ℕ, ◌≡◌, ◌≢◌, ◌⊎◌, inl, inr, sym, ap, ◌∙◌, true, false, some, ◌==◌, ◌&&◌, arith, first_where,
  Bool-cases, first_where-cons_other,
}
use mathlib.Core.Path.{subst}
use roamkit_api.Organizations.{Membership, owner, State, find_member, is_active_owner, is_member_of}
use roamkit_api.Organizations.Members.{set_role}
use roamkit_api.Organizations.Saves.{find_member-key}
use roamkit_api.Organizations.Steps.{
  Step, files, hands_over, alters, sets_status, founds, joins, rejoins, Manages, founder, invited,
}

owner-Manages :
    (o actor : ℕ) (mine : Membership) (s : State)
    → find_member o actor s ≡ some mine
    → is_active_owner o mine ≡ true
    → Manages actor o s
owner-Manages o actor mine s found owns = record {
  row = mine;
  found = found;
  active = ground (arith, owns);
  can_manage_members = ground (arith, owns);
}

-- What a step does to the membership of another user.
pub data Touches (actor o user : ℕ) (s t : State) : Type 0 where
  keeps : find_member o user t ≡ find_member o user s → Touches actor o user s t
  promotes :
      (m : Membership)
      → Manages actor o s
      → find_member o user t ≡ some m
      → is_active_owner o m ≡ true
      → Touches actor o user s t
  changes :
      (m : Membership)
      → Manages actor o s
      → find_member o user s ≡ some m
      → is_active_owner o m ≡ false
      → Touches actor o user s t

module _ (actor o user : ℕ) (s : State) (other : user ≢ actor) where
  not_actor : user == actor ≡ false
  not_actor = ground (arith, other)

  not_here : (o' : ℕ) → o == o' && user == actor ≡ false
  not_here o' = ground (arith, other)

  at_key : (o' u : ℕ) → o == o' && user == u ≡ true → (o ≡ o') × (user ≡ u)
  at_key o' u here = ground (arith, here)

  pub Step-Touches : (t : State) → Step actor s t → Touches actor o user s t
  Step-Touches t (files _ alike same) = keeps (ap (first_where (is_member_of o user)) same)
  Step-Touches t (hands_over o' mine target demoted _ found owns k active apart free first second) =
      elim (Bool-cases (o == o' && user == target.user)) [
        | inr elsewhere ↦ keeps (second.finds o user elsewhere ∙ first.finds o user (not_here o'))
        | inl here ↦
            let (same, same_user) = at_key o' target.user here in
            promotes (set_role owner target)
              (subst (λ n. Manages actor n s) (sym same) (owner-Manages o' actor mine s found owns))
              (ap (λ n. find_member n user t) same
                ∙ (ap (λ u. find_member o' u t) same_user ∙ second.changed))
              (ground (arith, same, active, find_member-key o' target.user s target k))
      ]
  Step-Touches t (alters o' target target' _ manager found common common' free saves) =
      elim (Bool-cases (o == o' && user == target.user)) [
        | inr elsewhere ↦ keeps (saves.finds o user elsewhere)
        | inl here ↦
            let (same, same_user) = at_key o' target.user here in
            changes target (subst (λ n. Manages actor n s) (sym same) manager)
              (ap (λ n. find_member n user s) same
                ∙ (ap (λ u. find_member o' u s) same_user ∙ found))
              (common o)
      ]
  Step-Touches t (sets_status o' mine status _ found owns orgs same c a) =
      keeps (ap (first_where (is_member_of o user)) same)
  Step-Touches t (founds org _ absent few free orgs same c a) = keeps (
      ap (first_where (is_member_of o user)) same
      ∙ first_where-cons_other (is_member_of o user) (founder org.id actor) s.memberships
          (ground (arith, other)))
  Step-Touches t (joins o' role _ absent free alike same) = keeps (
      ap (first_where (is_member_of o user)) same
      ∙ first_where-cons_other (is_member_of o user) (invited o' actor role) s.memberships
          (ground (arith, other)))
  Step-Touches t (rejoins o' role m _ found common free saves) =
      keeps (saves.finds o user (not_here o'))

  pub Step-Manages :
      (t : State)
      → Step actor s t
      → (find_member o user t ≡ find_member o user s) ⊎ Manages actor o s
  Step-Manages t step = by_case (Step-Touches t step)
    where
      by_case :
          Touches actor o user s t
          → (find_member o user t ≡ find_member o user s) ⊎ Manages actor o s
      by_case (keeps same) = inl same
      by_case (promotes m manager found owns) = inr manager
      by_case (changes m manager found common) = inr manager

  pub Step-keeps_owner :
      (t : State) (m : Membership)
      → Step actor s t
      → find_member o user s ≡ some m
      → is_active_owner o m ≡ true
      → (m' : Membership) × (find_member o user t ≡ some m') × (is_active_owner o m' ≡ true)
  Step-keeps_owner t m step found owns = by_case (Step-Touches t step)
    where
      no_owner : false ≡ true → ⊥
      no_owner h = cc

      by_case :
          Touches actor o user s t
          → (m' : Membership) × (find_member o user t ≡ some m') × (is_active_owner o m' ≡ true)
      by_case (keeps same) = (m, same ∙ found, owns)
      by_case (promotes m' manager found' owns') = (m', found', owns')
      by_case (changes x manager found' common) =
          let row : x ≡ m = ground (arith, sym found' ∙ found) in
          absurd (no_owner (sym common ∙ (ap (is_active_owner o) row ∙ owns)))

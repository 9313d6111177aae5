-- ===== src/Organizations/Separation.antt =====
-- The self-referral guard of src/apps/billing/services/partner_self_referral.py at work: no customer
-- of a team's channel is an active member of the team.
use roamkit_api.Base.{
  ℕ, ◌≡◌, ◌⊎◌, inl, inr, refl, sym, ap, ◌∙◌, true, false, some, ◌∷◌, arith, first_where, Bool-cases,
  first_where-cons_other, List,
}
use roamkit_api.Organizations.{
  Membership, MembershipRole, owner, State, is_active, find_member, is_member_of, is_attributed,
}
use roamkit_api.Organizations.Members.{set_role}
use roamkit_api.Organizations.Invites.{role_granted}
use roamkit_api.Organizations.Accepting.{grant_role}
use roamkit_api.Organizations.Saves.{Saves-row}
use roamkit_api.Organizations.Steps.{
  Step, files, hands_over, alters, sets_status, founds, joins, rejoins, founder, invited,
}

abbrev pub IsSeparate : State → Type 0
IsSeparate s =
    (o u : ℕ) (m : Membership)
    → find_member o u s ≡ some m
    → is_active m.status ≡ true
    → is_attributed u o s ≡ false

is_attributed-alike :
    (o u : ℕ) (s t : State)
    → t.channels ≡ s.channels
    → t.attributions ≡ s.attributions
    → is_attributed u o t ≡ is_attributed u o s
unfolding is_attributed
is_attributed-alike o u s t c a = rw (c, a) refl

-- The first of the rows, or one of the others.
cons-row :
    (o u : ℕ) (m x : Membership) (rows : List Membership)
    → first_where (is_member_of o u) (x ∷ rows) ≡ some m
    → ((x.organization ≡ o) × (x.user ≡ u)) ⊎ (first_where (is_member_of o u) rows ≡ some m)
cons-row o u m x rows h = elim (Bool-cases (is_member_of o u x)) [
  | inl hit ↦ inl (ground (arith, hit))
  | inr miss ↦ inr (sym (first_where-cons_other (is_member_of o u) x rows miss) ∙ h)
]

module _ (actor : ℕ) (s : State) (v : IsSeparate s) where
  moved :
      (o u o' u' : ℕ)
      → o ≡ o'
      → u ≡ u'
      → is_attributed u' o' s ≡ false
      → is_attributed u o s ≡ false
  moved o u o' u' e k h = ap (λ w. is_attributed w o s) k ∙ (ap (λ n. is_attributed u' n s) e ∙ h)

  pub Step-IsSeparate : (t : State) → Step actor s t → IsSeparate t
  Step-IsSeparate t (files _ alike same) o u m h active =
      is_attributed-alike o u s t alike.channels alike.attributions
      ∙ v o u m (ap (first_where (is_member_of o u)) (sym same) ∙ h) active
  Step-IsSeparate t
        (hands_over o' mine target demoted _ found owns k active' apart free first second) o u m h
        active =
      is_attributed-alike o u s t (second.alike.channels ∙ first.alike.channels)
        (second.alike.attributions ∙ first.alike.attributions)
      ∙ by_case (Saves-row o' target.user o u target _ m demoted t second h)
    where
      before :
          ((o ≡ o') × (u ≡ actor) × (m ≡ set_role MembershipRole.admin mine))
            ⊎ (find_member o u s ≡ some m)
          → is_attributed u o s ≡ false
      before (inl (e, k, same)) =
          moved o u o' actor e k (v o' actor mine found (ground (arith, owns)))
      before (inr same) = v o u m same active

      by_case :
          ((o ≡ o') × (u ≡ target.user) × (m ≡ set_role owner target))
            ⊎ (find_member o u demoted ≡ some m)
          → is_attributed u o s ≡ false
      by_case (inl (e, k, same)) = moved o u o' target.user e k free
      by_case (inr same) = before (Saves-row o' actor o u mine _ m s demoted first same)
  Step-IsSeparate t (alters o' target target' _ manager found common common' free saves) o u m h
        active =
      is_attributed-alike o u s t saves.alike.channels saves.alike.attributions
      ∙ by_case (Saves-row o' target.user o u target target' m s t saves h)
    where
      by_case :
          ((o ≡ o') × (u ≡ target.user) × (m ≡ target')) ⊎ (find_member o u s ≡ some m)
          → is_attributed u o s ≡ false
      by_case (inl (e, k, same)) =
          moved o u o' target.user e k
            (free (ap (λ (x : Membership). is_active x.status) (sym same) ∙ active))
      by_case (inr same) = v o u m same active
  Step-IsSeparate t (sets_status o' mine status _ found owns orgs same c a) o u m h active =
      is_attributed-alike o u s t c a
      ∙ v o u m (ap (first_where (is_member_of o u)) (sym same) ∙ h) active
  Step-IsSeparate t (founds org _ absent few free orgs same c a) o u m h active =
      is_attributed-alike o u s t c a
      ∙ by_case (
          cons-row o u m (founder org.id actor) s.memberships
            (ap (first_where (is_member_of o u)) (sym same) ∙ h))
    where
      by_case :
          ((org.id ≡ o) × (actor ≡ u)) ⊎ (find_member o u s ≡ some m) → is_attributed u o s ≡ false
      by_case (inl (e, k)) = moved o u org.id actor (sym e) (sym k) free
      by_case (inr old) = v o u m old active
  Step-IsSeparate t (joins o' role _ absent free alike same) o u m h active =
      is_attributed-alike o u s t alike.channels alike.attributions
      ∙ by_case (
          cons-row o u m (invited o' actor role) s.memberships
            (ap (first_where (is_member_of o u)) (sym same) ∙ h))
    where
      by_case :
          ((o' ≡ o) × (actor ≡ u)) ⊎ (find_member o u s ≡ some m) → is_attributed u o s ≡ false
      by_case (inl (e, k)) = moved o u o' actor (sym e) (sym k) free
      by_case (inr old) = v o u m old active
  Step-IsSeparate t (rejoins o' role x _ found common free saves) o u m h active =
      is_attributed-alike o u s t saves.alike.channels saves.alike.attributions
      ∙ by_case (Saves-row o' actor o u x _ m s t saves h)
    where
      by_case :
          ((o ≡ o') × (u ≡ actor) × (m ≡ grant_role (role_granted role) x))
            ⊎ (find_member o u s ≡ some m)
          → is_attributed u o s ≡ false
      by_case (inl (e, k, same)) = moved o u o' actor e k free
      by_case (inr old) = v o u m old active

-- ===== src/Organizations/Saves.antt =====
-- What saving a membership (src/apps/organizations/services/membership.py) does to the table:
-- its keys, and the owners of each organization.
use roamkit_api.Base.{
  ℕ, ◌≡◌, refl, sym, ap, ◌∙◌, Bool, true, false, some, ◌+◌, ◌≤◌, arith, ◌==◌, leb, first_where,
  update_where, AreUnique, one_if, count_where-update_where, AreUnique-update_where,
  first_where-update_where, first_where-selects, first_where-update_other, ◌&&◌, Ensures,
  if-Ensures, ok-Ensures, err-Ensures, ◌⊎◌, Bool-cases, inl, inr, ok,
}
use mathlib.Core.Path.{subst}
use roamkit_api.Organizations.{
  Organization, Membership, State, OrganizationError, is_active_owner, active_owner_count,
  is_member_of, find_member, save_membership, has_id,
}

abbrev pub same_member : Membership → Membership → Bool
same_member x y = is_member_of x.organization x.user y

-- One row for a user in an organization, and exactly one active owner of each organization.
pub record IsValid (s : State) : Type 0 where
  pub unique : AreUnique same_member s.memberships
  pub one_owner :
      (pk : ℕ) (o : Organization)
      → first_where (has_id pk) s.organizations ≡ some o
      → active_owner_count pk s.memberships ≡ 1

-- One row for a user in an organization, and at most one active owner of each organization.
pub record IsSingle (s : State) : Type 0 where
  pub unique : AreUnique same_member s.memberships
  pub few :
      (pk : ℕ) (o : Organization)
      → first_where (has_id pk) s.organizations ≡ some o
      → active_owner_count pk s.memberships ≤ 1

pub IsValid-IsSingle : (s : State) → IsValid s → IsSingle s
IsValid-IsSingle s v = record {
  unique = v.unique;
  few = λ pk o h. omega (arith, v.one_owner pk o h);
}

pub record KeepsKey (f : Membership → Membership) : Type 0 where
  pub organization : (m : Membership) → (f m).organization ≡ m.organization
  pub user : (m : Membership) → (f m).user ≡ m.user

-- What decides about teams and their customers, besides the memberships.
pub record AreAlike (s t : State) : Type 0 where
  pub organizations : t.organizations ≡ s.organizations
  pub channels : t.channels ≡ s.channels
  pub attributions : t.attributions ≡ s.attributions

-- The row `m` of `s` is the row `m'` of `t`, and all else is as it was.
pub record Saves (o u : ℕ) (m m' : Membership) (s t : State) : Type 0 where
  pub unique : AreUnique same_member t.memberships
  pub owners :
      (pk : ℕ)
      → active_owner_count pk t.memberships + one_if (is_active_owner pk m)
        ≡ active_owner_count pk s.memberships + one_if (is_active_owner pk m')
  pub alike : AreAlike s t
  pub changed : find_member o u t ≡ some m'
  pub finds : (o' u' : ℕ) → o' == o && u' == u ≡ false → find_member o' u' t ≡ find_member o' u' s

pub find_member-key :
    (o u : ℕ) (s : State) (m : Membership)
    → find_member o u s ≡ some m
    → (m.organization ≡ o) × (m.user ≡ u)
find_member-key o u s m h = ground (arith, first_where-selects (is_member_of o u) s.memberships m h)

-- The row is found under its own key.
pub find_member_self :
    (o u : ℕ) (s : State) (m : Membership)
    → find_member o u s ≡ some m
    → find_member o m.user s ≡ some m
find_member_self o u s m h = ap (λ w. find_member o w s) (find_member-key o u s m h).1 ∙ h

same_key :
    (o u : ℕ) (y z : Membership)
    → is_member_of o u y ≡ true
    → same_member y z ≡ false
    → is_member_of o u z ≡ false
same_key o u y z h k = ground (arith, h, k)

apart :
    (o u o' u' : ℕ) (y : Membership)
    → o' == o && u' == u ≡ false
    → is_member_of o' u' y ≡ true
    → is_member_of o u y ≡ false
apart o u o' u' y other hit = ground (arith, other, hit)

pub save_membership-Writes :
    (o u : ℕ) (f : Membership → Membership) (s : State)
    → Ensures
        (λ (t : State).
          t ≡ record s { memberships = update_where (is_member_of o u) f s.memberships })
        (save_membership o u f s)
unfolding save_membership
save_membership-Writes o u f s =
    let P = λ (t : State).
      t ≡ record s { memberships = update_where (is_member_of o u) f s.memberships } in
    if-Ensures P (leb (active_owner_count o (update_where (is_member_of o u) f s.memberships)) 1) _
      _ (λ fits. ok-Ensures OrganizationError P _ refl) (λ full. err-Ensures P _)

module _ (f : Membership → Membership) (keeps : KeepsKey f) where
  keeps_key : (o u : ℕ) (y : Membership) → is_member_of o u (f y) ≡ is_member_of o u y
  keeps_key o u y = rw (keeps.organization y, keeps.user y) refl

  keeps_same : (y z : Membership) → same_member (f y) z ≡ same_member y z
  keeps_same y z = rw (keeps.organization y, keeps.user y) refl

  -- The table that a save leaves.
  pub table-Saves :
      (o u : ℕ) (s : State) (m : Membership)
      → AreUnique same_member s.memberships
      → find_member o u s ≡ some m
      → Saves o u m
          (f m)
          s
          (record s { memberships = update_where (is_member_of o u) f s.memberships })
  table-Saves o u s m unique found = record {
    unique =
        AreUnique-update_where same_member (is_member_of o u) f s.memberships
          (λ y z. keeps_key y.organization y.user z) keeps_same unique;
    owners = λ pk.
        count_where-update_where same_member (is_member_of o u) (is_active_owner pk) f s.memberships
          m (same_key o u) unique found;
    alike = record { organizations = refl; channels = refl; attributions = refl };
    changed =
        first_where-update_where (is_member_of o u) (is_member_of o u) f s.memberships m
          (keeps_key o u) found
        ∙ ap some (rw (first_where-selects (is_member_of o u) s.memberships m found) refl);
    finds = λ o' u' other.
        first_where-update_other (is_member_of o' u') (is_member_of o u) f s.memberships
          (keeps_key o' u') (λ y hit. apart o u o' u' y other hit);
  }

  pub save_membership-Saves :
      (o u : ℕ) (s : State) (m : Membership)
      → AreUnique same_member s.memberships
      → find_member o u s ≡ some m
      → Ensures (λ (t : State). Saves o u m (f m) s t) (save_membership o u f s)
  save_membership-Saves o u s m unique found = record {
    value = λ t h.
        subst (Saves o u m (f m) s) (sym ((save_membership-Writes o u f s).value t h))
          (table-Saves o u s m unique found);
  }

  pub saved-Saves :
      (o u : ℕ) (s t : State) (m : Membership)
      → AreUnique same_member s.memberships
      → find_member o u s ≡ some m
      → save_membership o u f s ≡ ok t
      → Saves o m.user m (f m) s t
  saved-Saves o u s t m unique found saved =
      (save_membership-Saves o m.user s m unique (find_member_self o u s m found)).value t
        (ap (λ w. save_membership o w f s) (find_member-key o u s m found).1 ∙ saved)

-- A change that keeps who is an active owner keeps the table valid.
pub Saves-IsValid :
    (o u : ℕ) (m m' : Membership) (s t : State)
    → Saves o u m m' s t
    → ((pk : ℕ) → is_active_owner pk m ≡ is_active_owner pk m')
    → IsValid s
    → IsValid t
Saves-IsValid o u m m' s t saves same v = record {
  unique = saves.unique;
  one_owner = λ pk o h. omega (
    arith,
    saves.owners pk,
    ap one_if (same pk),
    v.one_owner pk o (ap (first_where (has_id pk)) (sym saves.alike.organizations) ∙ h),
  );
}

-- A change that makes no active owner adds none.
pub Saves-IsSingle :
    (o u : ℕ) (m m' : Membership) (s t : State)
    → Saves o u m m' s t
    → ((pk : ℕ) → is_active_owner pk m' ≡ false)
    → IsSingle s
    → IsSingle t
Saves-IsSingle o u m m' s t saves common v = record {
  unique = saves.unique;
  few = λ pk o h. omega (
    arith,
    saves.owners pk,
    ap one_if (common pk),
    v.few pk o (ap (first_where (has_id pk)) (sym saves.alike.organizations) ∙ h),
  );
}

-- A row after a save is the saved one, or was there before.
pub Saves-row :
    (o u o' u' : ℕ) (m m' x : Membership) (s t : State)
    → Saves o u m m' s t
    → find_member o' u' t ≡ some x
    → ((o' ≡ o) × (u' ≡ u) × (x ≡ m')) ⊎ (find_member o' u' s ≡ some x)
Saves-row o u o' u' m m' x s t saves h = elim (Bool-cases (o' == o && u' == u)) [
  | inr elsewhere ↦ inr (sym (saves.finds o' u' elsewhere) ∙ h)
  | inl here ↦
      let (same, same_user) : (o' ≡ o) × (u' ≡ u) = ground (arith, here) in
      let again : find_member o u t ≡ some x =
        ap (λ w. find_member o w t) (sym same_user)
        ∙ (ap (λ n. find_member n u' t) (sym same) ∙ h) in
      inl (same, same_user, ground (arith, sym again ∙ saves.changed))
]

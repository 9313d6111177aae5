-- ===== src/Organizations/JoinSteps.antt =====
-- Accepting an invite (src/apps/organizations/services/invites.py) makes one step or none.
use roamkit_api.Base.{
  ℕ, ◌≡◌, inl, inr, refl, ap, false, not, ◌||◌, none, some, sym, ◌∙◌, List, String, ◌==◌, leb,
  arith, first_where, is_none, Ensures, if-Ensures, >>=-Ensures, raise_if-Ensures, or_raise-Ensures,
  ok-Ensures, err-Ensures, atomic-state, if-state, Option-cases, ◌&&◌, str_eq,
}
use roamkit_api.Organizations.{
  Membership, MembershipRole, State, OrganizationError, is_active, is_open, is_owner, find_member,
  save_membership, is_attributed, has_id, OrganizationInvite, User,
}
use roamkit_api.Organizations.Members.{insert_membership}
use roamkit_api.Organizations.Invites.{
  Texts, role_granted, has_token, is_pending, is_accepted, is_revoked_invite, is_expired,
  normalize_invite_email,
}
use roamkit_api.Organizations.Accepting.{
  join, grant_role, same_role, accept_pending, accept_again, accept_locked, accept_invite,
  expire_invite, InviteAcceptResult, is_accepted_by,
}
use roamkit_api.Organizations.Saves.{IsSingle, KeepsKey, Saves-IsSingle, save_membership-Saves}
use roamkit_api.Organizations.Steps.{Step, joins, rejoins, invited, Step-with_invites}
use roamkit_api.Organizations.MemberSteps.{nothing}
use roamkit_api.Organizations.Ownership.{Step-IsSingle, granted_no_owner}
use roamkit_api.Organizations.FoundingSteps.{insert_membership-Inserts}

grant_role-KeepsKey : (r : MembershipRole) → KeepsKey (grant_role r)
grant_role-KeepsKey r = record { organization = λ m. refl; user = λ m. refl }

-- Joining, by a user who is not the active owner.
join-Step :
    (invite : OrganizationInvite) (user : ℕ) (s : State)
    → IsSingle s
    → ((m : Membership)
        → find_member invite.organization user s ≡ some m
        → is_owner m.role && is_active m.status ≡ false)
    → is_attributed user invite.organization s ≡ false
    → Ensures (λ (p : Membership × State). Step user s p.1) (join invite user s)
unfolding join
join-Step invite user s v owns free =
    let P = λ (p : Membership × State). Step user s p.1 in
    elim (Option-cases (find_member invite.organization user s)) [
      | inl absent ↦
          rw (absent, join)
            (>>=-Ensures P (insert_membership (invited invite.organization user invite.role) s) _
              (λ t inserted.
                let (_, few, same) =
                  (insert_membership-Inserts (invited invite.organization user invite.role) s).value
                    t inserted in
                ok-Ensures OrganizationError P _ (
                  joins invite.organization invite.role t absent free
                    (record {
                      organizations = ap (λ (x : State). x.organizations) same;
                      channels = ap (λ (x : State). x.channels) same;
                      attributions = ap (λ (x : State). x.attributions) same;
                    })
                    (ap (λ (x : State). x.memberships) same))))
      | inr (m, found) ↦
          rw (found, join)
            (if-Ensures P
              (not (is_active m.status) || not (same_role m.role (role_granted invite.role))) _ _
              (λ differs.
                >>=-Ensures P
                  (save_membership invite.organization user (grant_role (role_granted invite.role))
                    s)
                  _
                  (λ t saved. ok-Ensures OrganizationError P _ (
                    rejoins invite.organization invite.role m t found
                      (λ pk. ground (arith, owns m found)) free
                      ((save_membership-Saves (grant_role (role_granted invite.role))
                          (grant_role-KeepsKey _) invite.organization user s m v.unique found).value
                        t saved))))
              (λ same. ok-Ensures OrganizationError P _ (nothing user s)))
    ]

-- Whoever accepts is not the active owner of the organization that the invite is for.
abbrev pub Disowns : OrganizationInvite → ℕ → State → Type 0
Disowns invite user s =
    (m : Membership)
    → find_member invite.organization user s ≡ some m
    → is_owner m.role && is_active m.status ≡ false

-- Joining, by any user whose state `s` has at most one active owner of each organization.
join-IsSingle :
    (invite : OrganizationInvite) (user : ℕ) (s : State)
    → IsSingle s
    → is_attributed user invite.organization s ≡ false
    → Ensures (λ (p : Membership × State). IsSingle p.1) (join invite user s)
unfolding join
join-IsSingle invite user s v free =
    let P = λ (p : Membership × State). IsSingle p.1 in
    elim (Option-cases (find_member invite.organization user s)) [
      | inl absent ↦
          let steps =
            join-Step invite user s v (λ m found. absurd (no_row m (sym absent ∙ found))) free in
          record { value = λ p h. Step-IsSingle user s v p.1 (steps.value p h) }
      | inr (m, found) ↦
          rw (found, join)
            (if-Ensures P
              (not (is_active m.status) || not (same_role m.role (role_granted invite.role))) _ _
              (λ differs.
                >>=-Ensures P
                  (save_membership invite.organization user (grant_role (role_granted invite.role))
                    s)
                  _
                  (λ t saved. ok-Ensures OrganizationError P _ (
                    Saves-IsSingle invite.organization user m
                      (grant_role (role_granted invite.role) m) s t
                      ((save_membership-Saves (grant_role (role_granted invite.role))
                          (grant_role-KeepsKey _) invite.organization user s m v.unique found).value
                        t saved)
                      (λ pk. ground (arith, granted_no_owner invite.role)) v)))
              (λ same. ok-Ensures OrganizationError P _ v))
    ]
  where
    no_row : (m : Membership) → none ≡ some m → ⊥
    no_row m e = cc

-- What joining ensures, the acceptance ensures, if it holds before and does not look at the invites.
module _ (texts : Texts) (now : ℕ) (actor : User) (s : State) (Q : State → Type 0) (idle : Q s)
    (filed : (t : State) (rows : List OrganizationInvite)
      → Q t
      → Q (record t { invites = rows })) where
  pending_ends :
      (invite : OrganizationInvite)
      → (is_attributed actor.id invite.organization s ≡ false
          → Ensures (λ (p : Membership × State). Q p.1) (join invite actor.id s))
      → Ensures
          (λ (p : InviteAcceptResult × State). Q p.1)
          (accept_pending texts now actor invite s)
  unfolding accept_pending
  pending_ends invite joined_ends =
      let P = λ (p : InviteAcceptResult × State). Q p.1 in
      raise_if-Ensures P (not (is_pending invite.status)) _ _ (λ pending.
        or_raise-Ensures P (first_where (has_id invite.organization) s.organizations) _ _
          (λ org found. raise_if-Ensures P (not (is_open org.status)) _ _ (λ open_.
            raise_if-Ensures P
              (not (str_eq (normalize_invite_email texts now actor.email) invite.email_normalized))
              _ _
              (λ same.
                raise_if-Ensures P (is_attributed actor.id invite.organization s) _ _ (λ free.
                  >>=-Ensures P (join invite actor.id s) _ (λ joined h.
                    ok-Ensures OrganizationError P _
                      (filed joined.1 _ ((joined_ends free).value joined h))))))))

  again_ends :
      (invite : OrganizationInvite)
      → Ensures (λ (p : InviteAcceptResult × State). Q p.1) (accept_again texts now actor invite s)
  unfolding accept_again
  again_ends invite =
      let P = λ (p : InviteAcceptResult × State). Q p.1 in
      if-Ensures P (is_accepted_by actor.id invite) _ _
        (λ mine.
          or_raise-Ensures P (find_member invite.organization actor.id s) _ _
            (λ m found. ok-Ensures OrganizationError P _ idle))
        (λ other. err-Ensures P _)

  expire_ends : (invite : OrganizationInvite) → Q (expire_invite texts now invite s).1
  unfolding expire_invite
  expire_ends invite =
      if-state Q (is_pending invite.status) _ _ (λ pending. filed s _ idle) (λ other. idle)

  locked_ends :
      (invite : OrganizationInvite)
      → (is_attributed actor.id invite.organization s ≡ false
          → Ensures (λ (p : Membership × State). Q p.1) (join invite actor.id s))
      → Q (accept_locked texts now actor invite s).1
  unfolding accept_locked
  locked_ends invite joined_ends =
      if-state Q (is_accepted invite.status) _ _
        (λ a. atomic-state Q s (accept_again texts now actor invite s) idle (again_ends invite))
        (λ a.
          if-state Q (is_revoked_invite invite.status) _ _ (λ b. idle)
            (λ b.
              if-state Q (is_expired invite.status || leb invite.expires_at now) _ _
                (λ c. expire_ends invite)
                (λ c.
                  atomic-state Q s (accept_pending texts now actor invite s) idle
                    (pending_ends invite joined_ends))))

  accept_ends :
      (raw_token : String)
      → ((i : OrganizationInvite)
          → first_where (has_token (texts.digest (texts.strip raw_token))) s.invites ≡ some i
          → is_attributed actor.id i.organization s ≡ false
          → Ensures (λ (p : Membership × State). Q p.1) (join i actor.id s))
      → Q (accept_invite texts now actor raw_token s).1
  unfolding accept_invite
  accept_ends raw_token joined_ends =
      if-state Q (str_eq raw_token "" || str_eq (texts.strip raw_token) "") _ _ (λ blank. idle)
        (λ given.
          if-state Q (is_none (first_where (λ (u : User). u.id == actor.id) s.users)) _ _
            (λ missing. idle)
            (λ known.
              elim (Option-cases
                (first_where (has_token (texts.digest (texts.strip raw_token))) s.invites)) [
                  | inl absent ↦ rw (absent, accept_invite) idle
                  | inr (i, found) ↦ rw (found, accept_invite) (locked_ends i (joined_ends i found))
                ]))

module _ (texts : Texts) (now : ℕ) (actor : User) (raw_token : String) (s : State)
    (v : IsSingle s) where
  pub accept_invite-Step :
      ((i : OrganizationInvite)
        → first_where (has_token (texts.digest (texts.strip raw_token))) s.invites ≡ some i
        → Disowns i actor.id s)
      → Step actor.id s (accept_invite texts now actor raw_token s).1
  accept_invite-Step owns =
      accept_ends texts now actor s (Step actor.id s) (nothing actor.id s)
        (λ t rows. Step-with_invites actor.id s t rows) raw_token
        (λ i found. join-Step i actor.id s v (owns i found))

  -- An acceptance by anybody makes no second active owner.
  pub accept_invite-IsSingle : IsSingle (accept_invite texts now actor raw_token s).1
  accept_invite-IsSingle =
      accept_ends texts now actor s IsSingle v
        (λ t rows w. record { unique = w.unique; few = w.few }) raw_token
        (λ i found. join-IsSingle i actor.id s v)

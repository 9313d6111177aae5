-- ===== src/Organizations/Acceptance.antt =====
-- What accepting an invite (src/apps/organizations/services/invites.py) means, and that it happens
-- once.
use roamkit_api.Base.{
  true_of_not, ℕ, ◌≡◌, ◌⊎◌, inl, inr, refl, sym, ap, ◌∙◌, true, false, not, ◌||◌, some, String,
  str_eq, eq_iff, leb, ◌==◌, arith, first_where, update_where, first_where-update_where, Ensures,
  if-Ensures, >>=-Ensures, raise_if-Ensures, or_raise-Ensures, ok-Ensures, err-Ensures, Returns,
  if-Returns, err-Returns, atomic-Returns, Result, ok, err, Option-cases, Bool-cases, is_none,
  ==_refl, if◌then◌else◌,
}
use mathlib.Core.Path.{subst}
use roamkit_api.Organizations.{
  Organization, Membership, OrganizationInvite, User, State, OrganizationError, invite_invalid,
  is_active, is_open, find_member, is_attributed, has_id,
}
use roamkit_api.Organizations.Invites.{
  Texts, role_granted, has_token, has_invite_id, is_pending, is_accepted, is_revoked_invite,
  is_expired, normalize_invite_email,
}
use roamkit_api.Organizations.Accepting.{
  join, set_accepted, accept_pending, accept_again, accept_locked, accept_invite,
  InviteAcceptResult, is_accepted_by, expire_invite,
}
use roamkit_api.Organizations.Joining.{join-Joins}

module _ (texts : Texts) (now : ℕ) where
  -- An invite that is accepted for the first time.
  pub record Accepts (actor : User) (i : OrganizationInvite) (s : State)
      (p : InviteAcceptResult × State) : Type 0 where
    pub pending : is_pending i.status ≡ true
    pub organization :
        (org : Organization) × (first_where (has_id i.organization) s.organizations ≡ some org)
        × (is_open org.status ≡ true)
    pub email : normalize_invite_email texts now actor.email ≡ i.email_normalized
    pub no_customer : is_attributed actor.id i.organization s ≡ false
    pub member : find_member i.organization actor.id p.1 ≡ some p.0.membership
    pub active : is_active p.0.membership.status ≡ true
    pub role : p.0.membership.role ≡ role_granted i.role
    pub invite : p.0.invite ≡ set_accepted actor.id now i
    pub first_time : p.0.already_accepted ≡ false
    pub invites :
        p.1.invites ≡ update_where (has_invite_id i.id) (set_accepted actor.id now) s.invites
    pub users : p.1.users ≡ s.users

  accept_pending-Accepts :
      (actor : User) (i : OrganizationInvite) (s : State)
      → Ensures (Accepts actor i s) (accept_pending texts now actor i s)
  unfolding accept_pending
  accept_pending-Accepts actor i s =
      let P = Accepts actor i s in
      raise_if-Ensures P (not (is_pending i.status)) _ _ (λ pending.
        or_raise-Ensures P (first_where (has_id i.organization) s.organizations) _ _ (λ org found.
          raise_if-Ensures P (not (is_open org.status)) _ _ (λ open_.
            raise_if-Ensures P
              (not (str_eq (normalize_invite_email texts now actor.email) i.email_normalized)) _ _
              (λ same. raise_if-Ensures P (is_attributed actor.id i.organization s) _ _ (λ free.
                >>=-Ensures P (join i actor.id s) _ (λ joined h.
                  let j = (join-Joins i actor.id s).value joined h in
                  ok-Ensures OrganizationError P _ (record {
                    pending = true_of_not _ pending;
                    organization = (org, found, true_of_not _ open_);
                    email =
                        (eq_iff (normalize_invite_email texts now actor.email) i.email_normalized).0
                          (true_of_not _ same);
                    no_customer = free;
                    member = j.found;
                    active = j.active;
                    role = j.role;
                    invite = refl;
                    first_time = refl;
                    invites =
                        ap (update_where (has_invite_id i.id) (set_accepted actor.id now))
                          j.invites;
                    users = j.users;
                  })))))))

  accept_again-Returns :
      (actor : User) (i : OrganizationInvite) (s : State)
      → Ensures
          (λ (p : InviteAcceptResult × State). p.0.already_accepted ≡ true)
          (accept_again texts now actor i s)
  unfolding accept_again
  accept_again-Returns actor i s =
      let P = λ (p : InviteAcceptResult × State). p.0.already_accepted ≡ true in
      if-Ensures P (is_accepted_by actor.id i) _ _
        (λ mine.
          or_raise-Ensures P (find_member i.organization actor.id s) _ _
            (λ m found. ok-Ensures OrganizationError P _ refl))
        (λ other. err-Ensures P _)

  -- A first acceptance is one of an unexpired invite that the token names; otherwise it is a replay.
  abbrev IsFirst : User → OrganizationInvite → State → InviteAcceptResult × State → Type 0
  IsFirst actor i s p =
      (p.0.already_accepted ≡ true) ⊎ (Accepts actor i s p × (leb i.expires_at now ≡ false))

  accept_locked-IsFirst :
      (actor : User) (i : OrganizationInvite) (s : State)
      → Returns (IsFirst actor i s) (accept_locked texts now actor i s)
  unfolding accept_locked expire_invite
  accept_locked-IsFirst actor i s =
      let P = IsFirst actor i s in
      if-Returns P (is_accepted i.status) _ _
        (λ a.
          atomic-Returns P s (accept_again texts now actor i s)
            (weaken (accept_again texts now actor i s) (accept_again-Returns actor i s)))
        (λ a.
          if-Returns P (is_revoked_invite i.status) _ _ (λ b. err-Returns P _ s)
            (λ b.
              if-Returns P (is_expired i.status || leb i.expires_at now) _ _
                (λ c.
                  if-Returns P (is_pending i.status) _ _ (λ d. err-Returns P _ _)
                    (λ d. err-Returns P _ s))
                (λ c. atomic-Returns P s (accept_pending texts now actor i s) (record {
                  value =
                      λ p h. inr ((accept_pending-Accepts actor i s).value p h, ground (arith, c));
                }))))
    where
      weaken :
          (r : Result OrganizationError (InviteAcceptResult × State))
          → Ensures (λ (p : InviteAcceptResult × State). p.0.already_accepted ≡ true) r
          → Ensures (IsFirst actor i s) r
      weaken r e = record { value = λ p h. inl (e.value p h) }

  abbrev token_of : String → String
  token_of raw_token = texts.digest (texts.strip raw_token)

  abbrev Named : String → User → State → InviteAcceptResult × State → Type 0
  Named raw_token actor s p =
      (str_eq raw_token "" || str_eq (texts.strip raw_token) "" ≡ false)
      × (i : OrganizationInvite) × (first_where (has_token (token_of raw_token)) s.invites ≡ some i)
      × IsFirst actor i s p

  accept_invite-Named :
      (actor : User) (raw_token : String) (s : State)
      → Returns (Named raw_token actor s) (accept_invite texts now actor raw_token s)
  unfolding accept_invite
  accept_invite-Named actor raw_token s =
      let P = Named raw_token actor s in
      if-Returns P (str_eq raw_token "" || str_eq (texts.strip raw_token) "") _ _
        (λ blank. err-Returns P _ s)
        (λ given.
          if-Returns P (is_none (first_where (λ (u : User). u.id == actor.id) s.users)) _ _
            (λ missing. err-Returns P _ s)
            (λ known. elim (Option-cases (first_where (has_token (token_of raw_token)) s.invites)) [
              | inl absent ↦ rw (absent, accept_invite) (err-Returns P _ s)
              | inr (i, found) ↦
                  rw (found, accept_invite)
                    (record {
                      value =
                          λ r t h. (given, i, found, (accept_locked-IsFirst actor i s).value r t h);
                    })
            ]))

  -- A call that accepts an invite for the first time accepts the one whose token it carries: that
  -- invite was pending and not expired, its organization active, its address the user's, and the
  -- user no customer of the organization's channel; the user's membership of the organization is
  -- then active with the invite's role, and of the invites only this one has changed, to accepted by
  -- this user at this instant.
  pub accept_invite-Accepts :
      (actor : User) (raw_token : String) (s t : State) (r : InviteAcceptResult)
      → accept_invite texts now actor raw_token s ≡ (ok r, t)
      → r.already_accepted ≡ false
      → (i : OrganizationInvite) × (first_where (has_token (token_of raw_token)) s.invites ≡ some i)
        × Accepts actor i s (r, t)
        × (leb i.expires_at now ≡ false)
  accept_invite-Accepts actor raw_token s t r h first =
      by_case ((accept_invite-Named actor raw_token s).value r t h)
    where
      no_replay : false ≡ true → ⊥
      no_replay e = cc

      by_case :
          Named raw_token actor s (r, t)
          → (i : OrganizationInvite) × (first_where (has_token (token_of raw_token)) s.invites
              ≡ some i)
            × Accepts actor i s (r, t)
            × (leb i.expires_at now ≡ false)
      by_case (given, i, found, inl replay) = absurd (no_replay (sym first ∙ replay))
      by_case (given, i, found, inr (a, unexpired)) = (i, found, a, unexpired)

module _ (texts : Texts) (now later : ℕ) (actor other : User) where
  -- The call of another user, or the same, with an invite that the actor has accepted.
  spent :
      (i : OrganizationInvite) (m : Membership) (t : State)
      → find_member i.organization actor.id t ≡ some m
      → accept_locked texts later other (set_accepted actor.id now i) t ≡ (
        if actor.id == other.id
            then ok (record {
              membership = m;
              invite = set_accepted actor.id now i;
              already_accepted = true;
            })
            else err (invite_invalid "Invite has already been accepted."),
        t,
      )
  unfolding accept_locked accept_again
  spent i m t found = elim (Bool-cases (actor.id == other.id)) [
    | inr apart ↦ rw apart refl
    | inl same ↦
        let same_user : other.id ≡ actor.id = ground (arith, same) in
        let again : find_member i.organization other.id t ≡ some m =
          ap (λ u. find_member i.organization u t) same_user ∙ found in
        rw (same, again) refl
  ]

-- After a first acceptance the token is spent: a call with it by a known user, at any instant, leaves
-- the state as it is; it returns the same membership and invite, as a replay, to the acceptor, and
-- refuses everybody else.
pub accept_invite_once :
    (texts : Texts) (now later : ℕ) (actor other : User) (raw_token : String) (s t : State)
    (r : InviteAcceptResult)
    → accept_invite texts now actor raw_token s ≡ (ok r, t)
    → r.already_accepted ≡ false
    → is_none (first_where (λ (u : User). u.id == other.id) s.users) ≡ false
    → accept_invite texts later other raw_token t ≡ (
      if actor.id == other.id
          then ok (record { membership = r.membership; invite = r.invite; already_accepted = true })
          else err (invite_invalid "Invite has already been accepted."),
      t,
    )
unfolding accept_invite
accept_invite_once texts now later actor other raw_token s t r h first known =
    let (given, _, _, _) = (accept_invite-Named texts now actor raw_token s).value r t h in
    let (i, found, a, unexpired) = accept_invite-Accepts texts now actor raw_token s t r h first in
    let token = has_token (texts.digest (texts.strip raw_token)) in
    let now_found : first_where token t.invites ≡ some (set_accepted actor.id now i) =
      ap (first_where token) a.invites
      ∙ (first_where-update_where token (has_invite_id i.id) (set_accepted actor.id now) s.invites i
            (λ y. refl) found
          ∙ ap some (rw (==_refl i.id) refl)) in
    let still_known : is_none (first_where (λ (u : User). u.id == other.id) t.users) ≡ false =
      ap (λ rows. is_none (first_where (λ (u : User). u.id == other.id) rows)) a.users ∙ known in
    subst
      (λ x. accept_invite texts later other raw_token t ≡ (
        if actor.id == other.id
            then ok (record { membership = r.membership; invite = x; already_accepted = true })
            else err (invite_invalid "Invite has already been accepted."),
        t,
      ))
      (sym a.invite)
      (rw (given, still_known, now_found, accept_invite)
        (spent texts now later actor other i r.membership t a.member))

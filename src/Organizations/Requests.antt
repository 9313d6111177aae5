-- ===== src/Organizations/Requests.antt =====
-- Sequences of requests to the services of src/apps/organizations, in any order and by anybody.
use roamkit_api.Base.{ℕ, ◌≡◌, ◌≢◌, ◌⊎◌, true, false, some, List, [], ◌∷◌, String, first_where}
use roamkit_api.Organizations.{
  OrganizationStatus, OrganizationInvite, Membership, State, User, find_member, is_attributed,
  is_active_owner,
}
use roamkit_api.Organizations.Members.{
  transfer_ownership, set_member_role, revoke_membership, set_organization_status,
  create_organization,
}
use roamkit_api.Organizations.Invites.{Texts, has_token, create_invite, revoke_invite}
use roamkit_api.Organizations.Accepting.{accept_invite}
use roamkit_api.Organizations.Saves.{IsValid, IsSingle, IsValid-IsSingle}
use roamkit_api.Organizations.Steps.{Step, Manages}
use roamkit_api.Organizations.MemberSteps.{
  transfer_ownership-Step, set_member_role-Step, revoke_membership-Step,
}
use roamkit_api.Organizations.StatusSteps.{set_organization_status-Step}
use roamkit_api.Organizations.JoinSteps.{Disowns, accept_invite-Step}
use roamkit_api.Organizations.FoundingSteps.{create_organization-Step}
use roamkit_api.Organizations.InviteSteps.{create_invite-Step, revoke_invite-Step}
use roamkit_api.Organizations.Ownership.{Step-IsValid}
use roamkit_api.Organizations.Authority.{Step-Manages, Step-keeps_owner}
use roamkit_api.Organizations.Separation.{IsSeparate, Step-IsSeparate}

-- A request with its instant, new keys and tokens. The first number is the acting user's key, but
-- for `accepts`, which has the user's row.
pub data TeamRequest : Type 0 where
  transfers : (actor organization_id new_owner : ℕ) → TeamRequest
  sets_role : (actor organization_id user : ℕ) (role : String) → TeamRequest
  revokes : (actor organization_id user : ℕ) → TeamRequest
  sets_organization : (actor organization_id : ℕ) (status : String) → TeamRequest
  creates : (actor pk account : ℕ) (name : String) (status : OrganizationStatus) → TeamRequest
  invites_to : (actor organization_id now pk ttl : ℕ) (token email role : String) → TeamRequest
  revokes_invite : (actor organization_id now pk : ℕ) → TeamRequest
  accepts : (actor : User) (now : ℕ) (raw_token : String) → TeamRequest

abbrev pub actor_of : TeamRequest → ℕ
actor_of (transfers actor organization_id new_owner) = actor
actor_of (sets_role actor organization_id user role) = actor
actor_of (revokes actor organization_id user) = actor
actor_of (sets_organization actor organization_id status) = actor
actor_of (creates actor pk account name status) = actor
actor_of (invites_to actor organization_id now pk ttl token email role) = actor
actor_of (revokes_invite actor organization_id now pk) = actor
actor_of (accepts actor now raw_token) = actor.id

module _ (texts : Texts) where
  -- The state that a request leaves, whether it succeeds or not.
  unfoldable pub perform : TeamRequest → State → State
  perform (transfers actor organization_id new_owner) s =
      (transfer_ownership actor organization_id new_owner s).1
  perform (sets_role actor organization_id user role) s =
      (set_member_role actor organization_id user role s).1
  perform (revokes actor organization_id user) s =
      (revoke_membership actor organization_id user s).1
  perform (sets_organization actor organization_id status) s =
      (set_organization_status actor organization_id status s).1
  perform (creates actor pk account name status) s =
      (create_organization texts.strip pk account name actor status s).1
  perform (invites_to actor organization_id now pk ttl token email role) s =
      (create_invite texts now token pk ttl actor organization_id email role s).1
  perform (revokes_invite actor organization_id now pk) s =
      (revoke_invite now actor organization_id pk s).1
  perform (accepts actor now raw_token) s = (accept_invite texts now actor raw_token s).1

  unfoldable pub run : List TeamRequest → State → State
  unfolding perform
  run [] s = s
  run (r ∷ rest) s = run rest (perform r s)

  -- Who accepts an invite does not own its organization, and the key of a new organization is not
  -- that of a channel whose customer the founder is.
  abbrev pub IsFair : TeamRequest → State → Type 0
  IsFair (accepts actor now raw_token) s =
      (i : OrganizationInvite)
      → first_where (has_token (texts.digest (texts.strip raw_token))) s.invites ≡ some i
      → Disowns i actor.id s
  IsFair (creates actor pk account name status) s = is_attributed actor pk s ≡ false
  IsFair (transfers actor organization_id new_owner) s = Unit
  IsFair (sets_role actor organization_id user role) s = Unit
  IsFair (revokes actor organization_id user) s = Unit
  IsFair (sets_organization actor organization_id status) s = Unit
  IsFair (invites_to actor organization_id now pk ttl token email role) s = Unit
  IsFair (revokes_invite actor organization_id now pk) s = Unit

  abbrev pub AreFair : List TeamRequest → State → Type 0
  AreFair [] s = Unit
  AreFair (r ∷ rest) s = IsFair r s × AreFair rest (perform r s)

  perform-Step :
      (r : TeamRequest) (s : State) → IsSingle s → IsFair r s → Step (actor_of r) s (perform r s)
  unfolding perform
  perform-Step (transfers actor organization_id new_owner) s v fair =
      transfer_ownership-Step actor organization_id s v new_owner
  perform-Step (sets_role actor organization_id user role) s v fair =
      set_member_role-Step actor organization_id s v user role
  perform-Step (revokes actor organization_id user) s v fair =
      revoke_membership-Step actor organization_id s v user
  perform-Step (sets_organization actor organization_id status) s v fair =
      set_organization_status-Step actor organization_id s status
  perform-Step (creates actor pk account name status) s v fair =
      create_organization-Step texts.strip pk account name actor status s fair
  perform-Step (invites_to actor organization_id now pk ttl token email role) s v fair =
      create_invite-Step texts now token pk ttl actor organization_id email role s
  perform-Step (revokes_invite actor organization_id now pk) s v fair =
      revoke_invite-Step now actor organization_id pk s
  perform-Step (accepts actor now raw_token) s v fair =
      accept_invite-Step texts now actor raw_token s v fair

  -- The key of a new organization is not that of a channel whose customer the founder is.
  abbrev pub IsNew : TeamRequest → State → Type 0
  IsNew (accepts actor now raw_token) s = Unit
  IsNew (creates actor pk account name status) s = is_attributed actor pk s ≡ false
  IsNew (transfers actor organization_id new_owner) s = Unit
  IsNew (sets_role actor organization_id user role) s = Unit
  IsNew (revokes actor organization_id user) s = Unit
  IsNew (sets_organization actor organization_id status) s = Unit
  IsNew (invites_to actor organization_id now pk ttl token email role) s = Unit
  IsNew (revokes_invite actor organization_id now pk) s = Unit

  abbrev pub AreNew : List TeamRequest → State → Type 0
  AreNew [] s = Unit
  AreNew (r ∷ rest) s = IsNew r s × AreNew rest (perform r s)

  -- From a state in which a user has one membership in an organization at most and every
  -- organization has exactly one active owner, a sequence of requests leads to such a state if
  -- whoever accepts an invite in it is not then the active owner of its organization and no founder
  -- is a customer of a channel of the organization that is created. An active owner who accepts an
  -- invite to the own organization takes the role of the invite, and this is excluded.
  pub run-IsValid :
      (rs : List TeamRequest) (s : State) → AreFair rs s → IsValid s → IsValid (run rs s)
  unfolding run
  run-IsValid [] s fair v = v
  run-IsValid (r ∷ rest) s (fair, later) v =
      run-IsValid rest (perform r s) later
        (Step-IsValid (actor_of r) s v (perform r s) (perform-Step r s (IsValid-IsSingle s v) fair))

  -- From a state in which a user has one membership in an organization at most, every organization
  -- has exactly one active owner and no active member of an organization is a customer of its
  -- channel, any sequence of requests leads to a state in which no active member of an organization
  -- is a customer of its channel, where whoever accepts an invite is not then the active owner of its
  -- organization and no founder is a customer of a channel of the organization that is created.
  pub run-IsSeparate :
      (rs : List TeamRequest) (s : State)
      → AreFair rs s
      → IsValid s
      → IsSeparate s
      → IsSeparate (run rs s)
  unfolding run
  run-IsSeparate [] s fair v separate = separate
  run-IsSeparate (r ∷ rest) s (fair, later) v separate =
      let step = perform-Step r s (IsValid-IsSingle s v) fair in
      run-IsSeparate rest (perform r s) later (Step-IsValid (actor_of r) s v (perform r s) step)
        (Step-IsSeparate (actor_of r) s separate (perform r s) step)

  -- A request in a state with one membership of a user in an organization at most and exactly one
  -- active owner for each organization leaves the membership of every user but the acting one as it
  -- was, unless the acting user is an active member of that organization whose role manages members;
  -- whoever accepts an invite is not the active owner of its organization, and no founder a customer
  -- of a channel of the organization that is created.
  pub perform-Manages :
      (r : TeamRequest) (s : State) (o user : ℕ)
      → IsValid s
      → IsFair r s
      → user ≢ actor_of r
      → (find_member o user (perform r s) ≡ find_member o user s) ⊎ Manages (actor_of r) o s
  perform-Manages r s o user v fair other =
      Step-Manages (actor_of r) o user s other (perform r s)
        (perform-Step r s (IsValid-IsSingle s v) fair)

  -- A request in a state with one membership of a user in an organization at most and exactly one
  -- active owner for each organization leaves an active owner other than the acting user an active
  -- owner; whoever accepts an invite is not the active owner of its organization, and no founder a
  -- customer of a channel of the organization that is created.
  pub perform_keeps_owner :
      (r : TeamRequest) (s : State) (o user : ℕ) (m : Membership)
      → IsValid s
      → IsFair r s
      → user ≢ actor_of r
      → find_member o user s ≡ some m
      → is_active_owner o m ≡ true
      → (m' : Membership) × (find_member o user (perform r s) ≡ some m')
        × (is_active_owner o m' ≡ true)
  perform_keeps_owner r s o user m v fair other found owns =
      Step-keeps_owner (actor_of r) o user s other (perform r s) m
        (perform-Step r s (IsValid-IsSingle s v) fair) found owns

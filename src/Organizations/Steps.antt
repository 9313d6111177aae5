-- ===== src/Organizations/Steps.antt =====
-- The changes that the services of src/apps/organizations can make to the members of the
-- organizations, as a step relation.
use roamkit_api.Base.{ℕ, ◌≡◌, true, false, some, none, List, ◌∷◌, ◌≤◌, update_where, ◌==◌}
use roamkit_api.Organizations.{
  Organization, OrganizationStatus, Membership, MembershipRole, owner, InviteRole,
  OrganizationInvite, State, is_active, is_active_owner, active_owner_count, find_member,
  is_attributed, has_id,
}
use roamkit_api.Partner.{MembershipStatus}
use roamkit_api.Organizations.Context.{permissions_for_role}
use roamkit_api.Organizations.Members.{set_role, save_status}
use roamkit_api.Organizations.Invites.{role_granted}
use roamkit_api.Organizations.Accepting.{grant_role}
use roamkit_api.Organizations.Saves.{AreAlike, Saves}

-- The user is an active member of the organization, with a role that manages members.
pub record Manages (user organization : ℕ) (s : State) : Type 0 where
  pub row : Membership
  pub found : find_member organization user s ≡ some row
  pub active : is_active row.status ≡ true
  pub can_manage_members : (permissions_for_role row.role).can_manage_members ≡ true

abbrev pub founder : ℕ → ℕ → Membership
founder pk user = record {
  organization = pk;
  user = user;
  role = owner;
  status = MembershipStatus.active;
}

abbrev pub invited : ℕ → ℕ → InviteRole → Membership
invited organization user role = record {
  organization = organization;
  user = user;
  role = role_granted role;
  status = MembershipStatus.active;
}

pub data Step (actor : ℕ) (s : State) : State → Type 0 where
  -- at most invites and users change
  files : (t : State) → AreAlike s t → t.memberships ≡ s.memberships → Step actor s t
  -- the owner hands over to another active member
  hands_over :
      (o : ℕ) (mine target : Membership) (demoted promoted : State)
      → find_member o actor s ≡ some mine
      → is_active_owner o mine ≡ true
      → find_member o target.user s ≡ some target
      → is_active target.status ≡ true
      → (target.user == actor) ≡ false
      → is_attributed target.user o s ≡ false
      → Saves o actor mine (set_role MembershipRole.admin mine) s demoted
      → Saves o target.user target (set_role owner target) demoted promoted
      → Step actor s promoted
  -- a manager gives a role to a member who is no owner, or revokes the membership
  alters :
      (o : ℕ) (target target' : Membership) (t : State)
      → Manages actor o s
      → find_member o target.user s ≡ some target
      → ((pk : ℕ) → is_active_owner pk target ≡ false)
      → ((pk : ℕ) → is_active_owner pk target' ≡ false)
      → (is_active target'.status ≡ true → is_attributed target.user o s ≡ false)
      → Saves o target.user target target' s t
      → Step actor s t
  -- the owner suspends, archives or reopens the organization
  sets_status :
      (o : ℕ) (mine : Membership) (status : OrganizationStatus) (t : State)
      → find_member o actor s ≡ some mine
      → is_active_owner o mine ≡ true
      → t.organizations ≡ update_where (has_id o) (save_status status) s.organizations
      → t.memberships ≡ s.memberships
      → t.channels ≡ s.channels
      → t.attributions ≡ s.attributions
      → Step actor s t
  founds :
      (org : Organization) (t : State)
      → find_member org.id actor s ≡ none
      → active_owner_count org.id (founder org.id actor ∷ s.memberships) ≤ 1
      → is_attributed actor org.id s ≡ false
      → t.organizations ≡ org ∷ s.organizations
      → t.memberships ≡ founder org.id actor ∷ s.memberships
      → t.channels ≡ s.channels
      → t.attributions ≡ s.attributions
      → Step actor s t
  -- an invited user becomes a member, or takes the role of the invite
  joins :
      (o : ℕ) (role : InviteRole) (t : State)
      → find_member o actor s ≡ none
      → is_attributed actor o s ≡ false
      → AreAlike s t
      → t.memberships ≡ invited o actor role ∷ s.memberships
      → Step actor s t
  rejoins :
      (o : ℕ) (role : InviteRole) (m : Membership) (t : State)
      → find_member o actor s ≡ some m
      → ((pk : ℕ) → is_active_owner pk m ≡ false)
      → is_attributed actor o s ≡ false
      → Saves o actor m (grant_role (role_granted role) m) s t
      → Step actor s t

AreAlike-with_invites :
    (s t : State) (rows : List OrganizationInvite)
    → AreAlike s t
    → AreAlike s (record t { invites = rows })
AreAlike-with_invites s t rows alike = record {
  organizations = alike.organizations;
  channels = alike.channels;
  attributions = alike.attributions;
}

-- Steps do not look at the invites.
Saves-with_invites :
    (o u : ℕ) (m m' : Membership) (s t : State) (rows : List OrganizationInvite)
    → Saves o u m m' s t
    → Saves o u m m' s (record t { invites = rows })
Saves-with_invites o u m m' s t rows saves = record {
  unique = saves.unique;
  owners = saves.owners;
  alike = AreAlike-with_invites s t rows saves.alike;
  changed = saves.changed;
  finds = saves.finds;
}

pub Step-with_invites :
    (actor : ℕ) (s t : State) (rows : List OrganizationInvite)
    → Step actor s t
    → Step actor s (record t { invites = rows })
Step-with_invites actor s t rows (files _ alike same) =
    files _ (AreAlike-with_invites s t rows alike) same
Step-with_invites actor s t rows (hands_over o mine target demoted _ a b c d e f g h) =
    hands_over o mine target demoted _ a b c d e f g
      (Saves-with_invites o target.user target (set_role owner target) demoted t rows h)
Step-with_invites actor s t rows (alters o target target' _ a b c d e saves) =
    alters o target target' _ a b c d e
      (Saves-with_invites o target.user target target' s t rows saves)
Step-with_invites actor s t rows (sets_status o mine status _ a b c d e f) =
    sets_status o mine status _ a b c d e f
Step-with_invites actor s t rows (founds org _ a b c d e f g) = founds org _ a b c d e f g
Step-with_invites actor s t rows (joins o role _ a b alike d) =
    joins o role _ a b (AreAlike-with_invites s t rows alike) d
Step-with_invites actor s t rows (rejoins o role m _ a b c saves) =
    rejoins o role m _ a b c
      (Saves-with_invites o actor m (grant_role (role_granted role) m) s t rows saves)

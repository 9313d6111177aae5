-- ===== src/Organizations.antt =====
-- Organizations, their members and their invites: the rows of src/apps/organizations/models.py. A
-- membership is known by its organization and its user, which are unique together. Time stamps that
-- nothing reads are left out.
pub mod Context
pub mod Members
pub mod Invites
pub mod Accepting
pub mod Entry
pub mod Saves
pub mod Steps
pub mod MemberSteps
pub mod StatusSteps
pub mod FoundingSteps
pub mod JoinSteps
pub mod InviteSteps
pub mod Ownership
pub mod Authority
pub mod Separation
pub mod Requests
pub mod Joining
pub mod Acceptance
pub mod Transfer
pub mod Bindings
pub mod Devices
pub mod DeviceTable
pub mod DeviceTrail
pub mod DeviceEnds
pub mod DeviceRun
pub mod Credentials
use roamkit_api.Base.{
  ℕ, Bool, true, false, Option, none, some, List, String, ◌==◌, ◌&&◌, str_eq, leb, if◌then◌else◌,
  Result, ok, err, first_where, update_where, count_where,
}
use roamkit_api.Ledger.{Bank}
use roamkit_api.Partner.{
  PartnerChannel, CustomerAttribution, ChannelKind, team, individual, MembershipStatus,
}

pub data OrganizationStatus : Type 0 where
  active suspended archived : OrganizationStatus

pub data MembershipRole : Type 0 where
  owner admin member viewer : MembershipRole

pub record Organization : Type 0 where
  pub id : ℕ
  pub name : String
  pub status : OrganizationStatus
  pub account : ℕ

pub record Membership : Type 0 where
  pub organization : ℕ
  pub user : ℕ
  pub role : MembershipRole
  pub status : MembershipStatus

-- An invite grants any role but the owner's.
pub data InviteRole : Type 0 where
  admin member viewer : InviteRole

pub data InviteStatus : Type 0 where
  pending accepted revoked expired : InviteStatus

pub record OrganizationInvite : Type 0 where
  pub id : ℕ
  pub organization : ℕ
  pub email : String
  pub email_normalized : String
  pub role : InviteRole
  pub status : InviteStatus
  pub token_hash : String
  pub expires_at : ℕ
  pub invited_by : ℕ
  pub accepted_by : Option ℕ
  pub accepted_at : Option ℕ
  pub revoked_at : Option ℕ

pub record User : Type 0 where
  pub id : ℕ
  pub email : String

pub record State : Type 0 where
  pub bank : Bank
  pub organizations : List Organization
  pub memberships : List Membership
  pub invites : List OrganizationInvite
  pub users : List User
  pub channels : List PartnerChannel
  pub attributions : List CustomerAttribution

-- src/apps/organizations/exceptions.py, and the exceptions of the frameworks.
pub data OrganizationError : Type 0 where
  not_found permission_denied last_owner does_not_exist value_error data_error : OrganizationError
  not_allowed invite_conflict invite_invalid : String → OrganizationError
  integrity : String → OrganizationError

abbrev pub is_active : MembershipStatus → Bool
is_active MembershipStatus.active = true
is_active MembershipStatus.suspended = false
is_active MembershipStatus.revoked = false

abbrev pub is_open : OrganizationStatus → Bool
is_open OrganizationStatus.active = true
is_open OrganizationStatus.suspended = false
is_open OrganizationStatus.archived = false

abbrev pub is_owner : MembershipRole → Bool
is_owner owner = true
is_owner MembershipRole.admin = false
is_owner MembershipRole.member = false
is_owner MembershipRole.viewer = false

abbrev pub has_id : ℕ → Organization → Bool
has_id pk o = o.id == pk

abbrev pub is_member_of : ℕ → ℕ → Membership → Bool
is_member_of organization user m = m.organization == organization && m.user == user

-- The rows that the partial index of one active owner holds.
abbrev pub is_active_owner : ℕ → Membership → Bool
is_active_owner organization m =
    m.organization == organization && (is_owner m.role && is_active m.status)

-- `_active_owner_count`
abbrev pub active_owner_count : ℕ → List Membership → ℕ
active_owner_count organization rows = count_where (is_active_owner organization) rows

abbrev pub find_member : ℕ → ℕ → State → Option Membership
find_member organization user s = first_where (is_member_of organization user) s.memberships

-- Saving some columns of one membership, under the index of one active owner.
unfoldable pub save_membership :
    ℕ → ℕ → (Membership → Membership) → State → Result OrganizationError State
save_membership organization user f s =
    let rows = update_where (is_member_of organization user) f s.memberships in
    if leb (active_owner_count organization rows) 1
    then ok (record s { memberships = rows })
    else err (integrity "organizations_membership_one_active_owner")

abbrev is_team_channel : ℕ → PartnerChannel → Bool
is_team_channel organization c = is_team c.kind && is_some_of organization c.organization
  where
    is_team : ChannelKind → Bool
    is_team team = true
    is_team individual = false

    is_some_of : ℕ → Option ℕ → Bool
    is_some_of n none = false
    is_some_of n (some k) = k == n

abbrev is_customer_of : ℕ → ℕ → CustomerAttribution → Bool
is_customer_of user channel a = a.user == user && a.partner_channel == channel

-- `ensure_active_membership_allowed` of src/apps/billing/services/partner_self_referral.py: whether
-- it raises. An organization has one channel at most, so the order of the channels does not count.
unfoldable pub is_attributed : ℕ → ℕ → State → Bool
is_attributed user organization s = elim (first_where (is_team_channel organization) s.channels) [
  | none ↦ false
  | some c ↦ elim (first_where (is_customer_of user c.id) s.attributions) [
    | none ↦ false
    | some a ↦ true
  ]
]

-- ===== src/Partner.antt =====
-- The partner channel's rows: src/apps/billing/partner_channel.py, and of
-- src/apps/organizations/models.py what the accrual reads. Percentages are whole hundredths, as
-- their columns `Decimal(5, 2)` hold them; prices and shares are in the ledger's units.
pub mod Settlement
pub mod Margin
pub mod Share
pub mod Accrual
pub mod Commission
use roamkit_api.Base.{
  ℕ, Bool, true, false, Option, none, some, List, [], ◌∷◌, String, ◌==◌, ◌&&◌, str_eq,
  if◌then◌else◌,
}
use roamkit_api.Base.Int.{ℤ}
use roamkit_api.Ledger.{Bank}

pub data ChannelKind : Type 0 where
  individual team : ChannelKind

pub record PartnerChannel : Type 0 where
  pub id : ℕ
  pub kind : ChannelKind
  pub owner_user : Option ℕ
  pub organization : Option ℕ
  pub revenue_share_percent : ℤ
  pub is_active : Bool

pub record CustomerAttribution : Type 0 where
  pub id : ℕ
  pub user : ℕ
  pub partner_channel : ℕ

pub data MembershipStatus : Type 0 where
  active suspended revoked : MembershipStatus

pub record Membership : Type 0 where
  pub organization : ℕ
  pub user : ℕ
  pub status : MembershipStatus

pub record Organization : Type 0 where
  pub id : ℕ
  pub account : ℕ

pub data SourceType : Type 0 where
  order topup subscription : SourceType

abbrev pub source_value : SourceType → String
source_value order = "order"
source_value topup = "topup"
source_value subscription = "subscription"

pub record PartnerMarginAccrual : Type 0 where
  pub id : ℕ
  pub partner_channel : ℕ
  pub customer_user : ℕ
  pub customer_user_id_snapshot : ℕ
  pub customer_attribution : ℕ
  pub source_type : SourceType
  pub source_id : String
  pub list_price : ℤ
  pub net_price : ℤ
  pub margin : ℤ
  pub revenue_share_percent : ℤ
  pub partner_share : ℤ
  pub ledger_entry : ℕ

-- The tables that an accrual reads and writes.
pub record Store : Type 0 where
  pub bank : Bank
  pub channels : List PartnerChannel
  pub attributions : List CustomerAttribution
  pub memberships : List Membership
  pub organizations : List Organization
  pub accruals : List PartnerMarginAccrual

-- `PartnerChannel.objects.get(pk=pk)`
unfoldable pub get_channel : ℕ → List PartnerChannel → Option PartnerChannel
get_channel pk [] = none
get_channel pk (c ∷ rows) = if c.id == pk then some c else get_channel pk rows

-- `CustomerAttribution.objects.filter(user_id=user).first()`
unfoldable pub find_attribution : ℕ → List CustomerAttribution → Option CustomerAttribution
find_attribution user [] = none
find_attribution user (a ∷ rows) = if a.user == user then some a else find_attribution user rows

-- `source_type` compared as the texts that the column holds.
abbrev pub is_source : SourceType → String → PartnerMarginAccrual → Bool
is_source source_type source_id a =
    str_eq (source_value a.source_type) (source_value source_type) && str_eq a.source_id source_id

-- `PartnerMarginAccrual.objects.filter(source_type=…, source_id=…).first()`
unfoldable pub find_accrual :
    SourceType → String → List PartnerMarginAccrual → Option PartnerMarginAccrual
find_accrual source_type source_id [] = none
find_accrual source_type source_id (a ∷ rows) =
    if is_source source_type source_id a then some a else find_accrual source_type source_id rows

is_active_status : MembershipStatus → Bool
is_active_status active = true
is_active_status suspended = false
is_active_status revoked = false

-- `Membership.objects.filter(organization_id=…, user_id=…, status=ACTIVE).exists()`
unfoldable pub has_active_membership : ℕ → ℕ → List Membership → Bool
unfolding is_active_status
has_active_membership organization user [] = false
has_active_membership organization user (m ∷ rows) =
    if m.organization == organization && (m.user == user && is_active_status m.status)
    then true
    else has_active_membership organization user rows

unfoldable pub get_organization : ℕ → List Organization → Option Organization
get_organization pk [] = none
get_organization pk (o ∷ rows) = if o.id == pk then some o else get_organization pk rows

-- `Organization.objects.filter(account_id=account).first()`; `account.organization` is that row.
unfoldable pub organization_of_account : ℕ → List Organization → Option Organization
organization_of_account account [] = none
organization_of_account account (o ∷ rows) =
    if o.account == account then some o else organization_of_account account rows

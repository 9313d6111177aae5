-- ===== src/Voucher.antt =====
-- Vouchers: the rows of src/apps/billing/models.py that a redemption reads and writes. Amounts are in
-- the ledger's units and instants in any one unit. The issuer, revocation and audit columns, which
-- no redemption reads, are left out.
pub mod Codes
pub mod Redeem
pub mod Outcomes
pub mod Once
pub mod Limits
pub mod Issue
use roamkit_api.Base.{
  ℕ, ◌+◌, Bool, true, false, Option, none, some, List, [], ◌∷◌, String, ◌==◌, ◌&&◌, str_eq, ltb,
  leb, if◌then◌else◌,
}
use roamkit_api.Base.Int.{ℤ}
use roamkit_api.Ledger.{Bank}

pub data RewardType : Type 0 where
  fixed_credit percent_bonus free_subscription free_topup : RewardType

pub data RedemptionMode : Type 0 where
  shared unique : RedemptionMode

pub data VoucherStatus : Type 0 where
  created active redeemed expired revoked : VoucherStatus

pub data CampaignStatus : Type 0 where
  draft active expired revoked : CampaignStatus

pub record Voucher : Type 0 where
  pub id : ℕ
  pub code : String
  pub redemption_mode : RedemptionMode
  pub reward_type : RewardType
  pub credit_amount : ℤ
  pub status : VoucherStatus
  pub expires_at : Option ℕ

pub record VoucherCampaign : Type 0 where
  pub id : ℕ
  pub code : Option String
  pub redemption_mode : RedemptionMode
  pub reward_type : RewardType
  pub credit_amount : ℤ
  pub max_redemptions_total : Option ℕ
  pub max_redemptions_per_account : Option ℕ
  pub starts_at : Option ℕ
  pub expires_at : Option ℕ
  pub status : CampaignStatus

pub record VoucherRedemption : Type 0 where
  pub id : ℕ
  pub account : ℕ
  pub voucher : Option ℕ
  pub campaign : Option ℕ
  pub amount : ℤ
  pub ledger_entry_id : Option ℕ
  pub request_id : String
  pub redeemed_at : ℕ

pub record State : Type 0 where
  pub bank : Bank
  pub vouchers : List Voucher
  pub campaigns : List VoucherCampaign
  pub redemptions : List VoucherRedemption

abbrev pub is_unique : RedemptionMode → Bool
is_unique unique = true
is_unique shared = false

abbrev pub has_code : Option String → String → Bool
has_code none code = false
has_code (some c) code = str_eq c code

abbrev pub is_key : Option ℕ → ℕ → Bool
is_key none pk = false
is_key (some k) pk = k == pk

-- `Voucher.objects.filter(code=…, redemption_mode=UNIQUE).first()`
unfoldable pub find_voucher : String → List Voucher → Option Voucher
find_voucher code [] = none
find_voucher code (v ∷ rows) =
    if str_eq v.code code && is_unique v.redemption_mode then some v else find_voucher code rows

abbrev pub is_shared : RedemptionMode → Bool
is_shared unique = false
is_shared shared = true

-- `VoucherCampaign.objects.filter(code=…, redemption_mode=SHARED).first()`
unfoldable pub find_campaign : String → List VoucherCampaign → Option VoucherCampaign
find_campaign code [] = none
find_campaign code (c ∷ rows) =
    if has_code c.code code && is_shared c.redemption_mode then some c else find_campaign code rows

abbrev pub earlier : VoucherRedemption → Option VoucherRedemption → VoucherRedemption
earlier r none = r
earlier r (some first) = if ltb r.redeemed_at first.redeemed_at then r else first

-- `.order_by("redeemed_at").first()` of the redemptions of a voucher by an account
unfoldable pub first_of_voucher : ℕ → ℕ → List VoucherRedemption → Option VoucherRedemption
first_of_voucher voucher account [] = none
first_of_voucher voucher account (r ∷ rows) =
    let rest = first_of_voucher voucher account rows in
    if is_key r.voucher voucher && r.account == account then some (earlier r rest) else rest

-- The same of the redemptions of a campaign by an account
unfoldable pub first_of_campaign : ℕ → ℕ → List VoucherRedemption → Option VoucherRedemption
first_of_campaign campaign account [] = none
first_of_campaign campaign account (r ∷ rows) =
    let rest = first_of_campaign campaign account rows in
    if is_key r.campaign campaign && r.account == account then some (earlier r rest) else rest

-- `.filter(campaign=…, account=…).count()`
unfoldable pub count_of_account : ℕ → ℕ → List VoucherRedemption → ℕ
count_of_account campaign account [] = 0
count_of_account campaign account (r ∷ rows) =
    let rest = count_of_account campaign account rows in
    if is_key r.campaign campaign && r.account == account then rest + 1 else rest

-- `.filter(campaign=…).count()`
unfoldable pub count_of_campaign : ℕ → List VoucherRedemption → ℕ
count_of_campaign campaign [] = 0
count_of_campaign campaign (r ∷ rows) =
    let rest = count_of_campaign campaign rows in
    if is_key r.campaign campaign then rest + 1 else rest

abbrev pub mark_row : ℕ → Voucher → Voucher
mark_row pk v = if v.id == pk then record v { status = VoucherStatus.redeemed } else v

-- `mark_voucher_redeemed.save(…)`
unfoldable pub mark_redeemed : ℕ → List Voucher → List Voucher
mark_redeemed pk [] = []
mark_redeemed pk (v ∷ rows) = mark_row pk v ∷ mark_redeemed pk rows

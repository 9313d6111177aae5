-- ===== src/Pricing.antt =====
-- Pricing rows and value objects: src/apps/pricing/types.py, src/apps/pricing/models.py and
-- src/apps/pricing/hashing.py. Amounts that money_round has passed are in cents, percentages in
-- hundredths as their column `Decimal(5, 2)` holds them, instants in any one unit.
pub mod Resolve
pub mod Bounds
pub mod Snapshot
pub mod Quotes
use roamkit_api.Base.{
  ℕ, Bool, true, false, Option, none, some, String, ltb, leb, not, ◌&&◌, if◌then◌else◌,
}
use roamkit_api.Base.Int.{ℤ}
use roamkit_api.Money.{Finite, money_round}

pub data FloorPolicy : Type 0 where
  no_floor wholesale : FloorPolicy

pub record PricingProfile : Type 0 where
  pub id : ℕ
  pub name : String
  pub slug : String
  pub discount_percent : ℤ
  pub floor_policy : FloorPolicy
  pub version : ℕ
  pub is_active : Bool
  pub effective_from : Option ℕ
  pub effective_until : Option ℕ
  pub archived_at : Option ℕ

-- The account's key and its assigned profile are what pricing reads of an account.
pub record PricedAccount : Type 0 where
  pub id : ℕ
  pub pricing_profile : Option PricingProfile

pub record PricingContext : Type 0 where
  pub list_price : Finite
  pub net_price : Option Finite
  pub order_type : String
  pub timestamp : ℕ
  pub account : Option PricedAccount
  pub profile : Option PricingProfile

-- `OrderType`, `PricingReason`, `FloorReason`
abbrev pub package_order : String
package_order = "package"

abbrev pub topup_order : String
topup_order = "topup"

abbrev pub retail : String
retail = "retail"

abbrev pub pricing_profile : String
pricing_profile = "pricing_profile"

abbrev pub invalid_margin : String
invalid_margin = "invalid_margin"

abbrev pub no_floor_reason : String
no_floor_reason = "none"

abbrev pub discount : String
discount = "discount"

abbrev pub snapshot_schema_version : ℕ
snapshot_schema_version = 1

pub record PricingQuote : Type 0 where
  pub list_price : ℤ
  pub customer_price : ℤ
  pub discount_percent : ℤ
  pub pricing_reason : String
  pub floor_reason : String
  pub pricing_profile_id : Option ℕ
  pub pricing_profile_version : Option ℕ
  pub pricing_context_hash : String
  pub profile_slug : Option String
  pub profile_name : Option String
  pub snapshot_schema_version : ℕ

-- The fields that `pricing_context_hash` joins; SHA-256 of their text is a parameter, `digest`.
pub record Payload : Type 0 where
  pub flag_enabled : Bool
  pub account_id : Option ℕ
  pub profile_id : Option ℕ
  pub profile_version : Option ℕ
  pub list_price : ℤ
  pub net_price : Option ℤ
  pub order_type : String
  pub timestamp : ℕ

abbrev not_begun : Option ℕ → ℕ → Bool
not_begun none at_time = false
not_begun (some start) at_time = ltb at_time start

abbrev is_over : Option ℕ → ℕ → Bool
is_over none at_time = false
is_over (some end) at_time = leb end at_time

abbrev is_given : Option ℕ → Bool
is_given none = false
is_given (some n) = true

-- `_profile_is_effective`
unfoldable pub profile_is_effective : PricingProfile → ℕ → Bool
profile_is_effective p at_time =
    if is_given p.archived_at
    then false
    else if not p.is_active
    then false
    else if not_begun p.effective_from at_time
    then false
    else if is_over p.effective_until at_time
    then false
    else true

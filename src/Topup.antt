-- ===== src/Topup.antt =====
-- Top-ups of an eSIM: src/apps/esims/models.py and src/apps/esims/services/topup_service.py.
-- Amounts and wholesale prices are in the ledger's units, list prices in cents, as the columns
-- hold them; the prices of a package are whole cents. Of the pricing columns, `pricing` holds those
-- but the amount and the list price.
pub mod Spend
pub mod Purchase
pub mod Reservation
pub mod Refund
pub mod Invariant
pub mod Repeat
pub mod Fulfilment
use Prim.Native.String.{count}
use roamkit_api.Base.{
  ℕ, ◌+◌, ◌^◌, Bool, true, false, ◌&&◌, Option, none, some, List, [], ◌∷◌, String, str_eq, ◌==◌,
  ltb, leb, if◌then◌else◌,
}
use roamkit_api.Base.Int.{ℤ, pos, ◌*ℤ◌, abs}
use roamkit_api.Partner.{Store}
use roamkit_api.Partner.Margin.{AccrualError}
use roamkit_api.Ledger.Credit.{CreditError, amount_limit}
use roamkit_api.Pricing.{PricingProfile, Payload}
use roamkit_api.Pricing.Snapshot.{PricingSnapshot}
use roamkit_api.Esims.{Esim}

pub data Status : Type 0 where
  fulfilling fulfilled failed : Status

pub record Topup : Type 0 where
  pub id : ℕ
  pub account : ℕ
  pub esim : ℕ
  pub package_external_id : String
  pub amount : ℤ
  pub list_price_usd : ℤ
  pub net_price_usd : Option ℤ
  pub pricing : Option PricingSnapshot
  pub status : Status
  pub sequence : ℕ
  pub external_order_id : String
  pub idempotency_key : Option String

-- What a purchase reads of a provider's package.
pub record TopupPackage : Type 0 where
  pub external_id : String
  pub price_usd : ℤ
  pub net_price_usd : Option ℤ

pub record State : Type 0 where
  pub store : Store
  pub esims : List Esim
  pub topups : List Topup

-- The settings, the clock, Python's text of a primary key, the rows of pricing profiles, and the
-- hash of `pricing_context_hash`.
pub record Environment : Type 0 where
  pub billing_enabled : Bool
  pub pricing_profiles_enabled : Bool
  pub partner_channel_enabled : Bool
  pub now : ℕ
  pub str : ℕ → String
  pub profile_of : ℕ → Option PricingProfile
  pub digest : Payload → String

-- The exceptions; `invalid_operation` is that of rounding a price.
pub data TopupError : Type 0 where
  key_required ownership_changed listing_failed package_not_found billing_disabled : TopupError
  spend_in_progress esim_missing account_missing topup_missing : TopupError
  invalid_operation data_error transaction_aborted provider_fulfillment_failed : TopupError
  debit_failed refund_failed : CreditError → TopupError
  accrual_failed : AccrualError → TopupError
  no_source_id : TopupError

abbrev pub has_id : ℕ → Topup → Bool
has_id pk t = t.id == pk

abbrev is_text : Option String → String → Bool
is_text none key = false
is_text (some k) key = str_eq k key

abbrev pub has_key : String → Topup → Bool
has_key key t = is_text t.idempotency_key key

abbrev pub is_esim : ℕ → Esim → Bool
is_esim pk e = e.id == pk

abbrev pub ledger_units : ℤ → ℤ
ledger_units cents = cents *ℤ pos 10000

abbrev pub option_units : Option ℤ → Option ℤ
option_units none = none
option_units (some cents) = some (ledger_units cents)

abbrev column_fits : Option ℤ → Bool
column_fits none = true
column_fits (some z) = ltb (abs z) amount_limit

abbrev text_fits : Option String → ℕ → Bool
text_fits none limit = true
text_fits (some t) limit = leb (count t) limit

-- The widths of the columns that a purchase fills with values from outside.
unfoldable pub fits_columns : Topup → Bool
fits_columns t =
    ltb (abs t.amount) amount_limit
    && (ltb (abs t.list_price_usd) (10 ^ 10)
        && (column_fits t.net_price_usd
            && (leb (count t.package_external_id) 64 && text_fits t.idempotency_key 128)))

-- `Topup.save`: 1, or one more than the highest sequence of the eSIM.
abbrev max_of : ℕ → Option ℕ → ℕ
max_of n none = n
max_of n (some m) = if ltb m n then n else m

unfoldable pub highest_sequence : ℕ → List Topup → Option ℕ
highest_sequence pk [] = none
highest_sequence pk (t ∷ rows) =
    let rest = highest_sequence pk rows in
    if t.esim == pk then some (max_of t.sequence rest) else rest

abbrev after_highest : Option ℕ → ℕ
after_highest none = 1
after_highest (some n) = n + 1

unfoldable pub next_sequence : ℕ → List Topup → ℕ
unfolding highest_sequence
next_sequence pk rows = after_highest (highest_sequence pk rows)

unfoldable pub is_fulfilling : Status → Bool
is_fulfilling fulfilling = true
is_fulfilling fulfilled = false
is_fulfilling failed = false

unfoldable pub is_failed : Status → Bool
is_failed failed = true
is_failed fulfilling = false
is_failed fulfilled = false

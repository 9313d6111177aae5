-- ===== src/Pricing/Snapshot.antt =====
-- Snapshots of a quote: src/apps/pricing/snapshot.py, and the charges of src/apps/pricing/charge.py
-- that store them. An empty text stands for a missing one, as the columns of orders hold it.
use roamkit_api.Base.{
  ℕ, ◌<◌, ◌≡◌, ◌≢◌, Option, none, some, arith, Bool, false, String, Result, ok, err, if◌then◌else◌,
  str_eq, eq_iff, ◌==◌, not, ◌>>=◌,
}
use roamkit_api.Base.Int.{ℤ, pos, abs}
use roamkit_api.Money.{Finite, money_round, cents_places, precision_limit, quantize, scale}
use roamkit_api.Pricing.{
  PricingProfile, PricedAccount, PricingContext, PricingQuote, Payload, retail, no_floor_reason,
  package_order, topup_order,
}
use roamkit_api.Pricing
use roamkit_api.Pricing.Resolve.{resolve}

-- The pricing columns of an order or a top-up; `customer_price` is `retail_price_usd` of the one
-- and `amount` of the other.
pub record PricingSnapshot : Type 0 where
  pub list_price_usd : Option ℤ
  pub customer_price : Option ℤ
  pub discount_percent : Option ℤ
  pub pricing_reason : Option String
  pub floor_reason : Option String
  pub pricing_profile_id : Option ℕ
  pub pricing_profile_version : Option ℕ
  pub pricing_profile_slug : String
  pub pricing_profile_name : String
  pub pricing_context_hash : Option String
  pub snapshot_schema_version : Option ℕ

abbrev text_of : Option String → String
text_of none = ""
text_of (some t) = t

abbrev option_of : String → Option String
option_of t = if str_eq t "" then none else some t

-- `quote_to_order_snapshot_kwargs` and `quote_to_topup_snapshot_kwargs`
unfoldable pub quote_to_snapshot : PricingQuote → PricingSnapshot
quote_to_snapshot q = record {
  list_price_usd = some q.list_price;
  customer_price = some q.customer_price;
  discount_percent = some q.discount_percent;
  pricing_reason = some q.pricing_reason;
  floor_reason = some q.floor_reason;
  pricing_profile_id = q.pricing_profile_id;
  pricing_profile_version = q.pricing_profile_version;
  pricing_profile_slug = text_of q.profile_slug;
  pricing_profile_name = text_of q.profile_name;
  pricing_context_hash = some q.pricing_context_hash;
  snapshot_schema_version = some q.snapshot_schema_version;
}

pub data SnapshotError : Type 0 where
  prices_required hash_required invalid_operation : SnapshotError

abbrev or_text : Option String → String → String
or_text none default = default
or_text (some t) default = if str_eq t "" then default else t

abbrev or_number : Option ℕ → ℕ → ℕ
or_number none default = default
or_number (some n) default = if n == 0 then default else n

abbrev or_zero : Option ℤ → ℤ
or_zero none = pos 0
or_zero (some z) = z

-- `money_round` of a column of two places
unfoldable pub round_column : ℤ → Result SnapshotError ℤ
round_column z = elim (money_round (record { units = z; places = cents_places })) [
  | none ↦ err invalid_operation
  | some cents ↦ ok cents
]

unfoldable pub quote_from_columns :
    PricingSnapshot → ℤ → ℤ → String → Result SnapshotError PricingQuote
quote_from_columns s list customer context_hash = do
  list_price ← round_column list
  customer_price ← round_column customer
  discount_percent ← round_column (or_zero s.discount_percent)
  ok (record {
    list_price = list_price;
    customer_price = customer_price;
    discount_percent = discount_percent;
    pricing_reason = or_text s.pricing_reason retail;
    floor_reason = or_text s.floor_reason no_floor_reason;
    pricing_profile_id = s.pricing_profile_id;
    pricing_profile_version = s.pricing_profile_version;
    pricing_context_hash = context_hash;
    profile_slug = option_of s.pricing_profile_slug;
    profile_name = option_of s.pricing_profile_name;
    snapshot_schema_version = or_number s.snapshot_schema_version Pricing.snapshot_schema_version;
  })

unfoldable pub quote_with_hash :
    PricingSnapshot → ℤ → ℤ → Option String → Result SnapshotError PricingQuote
unfolding quote_from_columns
quote_with_hash s list customer none = err hash_required
quote_with_hash s list customer (some context_hash) =
    if str_eq context_hash ""
    then err hash_required
    else quote_from_columns s list customer context_hash

unfoldable pub quote_of_prices :
    PricingSnapshot → Option ℤ → Option ℤ → Result SnapshotError PricingQuote
unfolding quote_with_hash
quote_of_prices s none customer = err prices_required
quote_of_prices s (some list) none = err prices_required
quote_of_prices s (some list) (some customer) =
    quote_with_hash s list customer s.pricing_context_hash

-- `quote_from_snapshot`, which `quote_from_order` and `quote_from_topup` apply to a row
unfoldable pub quote_from_snapshot : PricingSnapshot → Result SnapshotError PricingQuote
unfolding quote_of_prices
quote_from_snapshot s = quote_of_prices s s.list_price_usd s.customer_price

-- `resolve_package_charge` and `resolve_topup_charge`: the charge in cents and the columns of the
-- row, empty where the profiles are off.
unfoldable pub resolve_charge :
    (Payload → String)
    → Bool
    → String
    → ℕ
    → PricedAccount
    → ℤ
    → Option ℤ
    → Option (ℤ × Option PricingSnapshot)
unfolding quote_to_snapshot
resolve_charge digest flag_enabled order_type now account price_usd net_price_usd =
    if not flag_enabled
    then some (price_usd, none)
    else elim (resolve digest flag_enabled (record {
      list_price = record { units = price_usd; places = cents_places };
      net_price = net_column net_price_usd;
      order_type = order_type;
      timestamp = now;
      account = some account;
      profile = account.pricing_profile;
    })) [ none ↦ none | some quote ↦ some (quote.customer_price, some (quote_to_snapshot quote)) ]
  where
    net_column : Option ℤ → Option Finite
    net_column none = none
    net_column (some z) = some (record { units = z; places = cents_places })

scale_one : (z : ℤ) → scale z 1 ≡ z
unfolding scale
scale_one z = ground arith

round_column_id : (z : ℤ) → abs z < precision_limit → round_column z ≡ ok z
unfolding round_column money_round quantize
round_column_id z h = rw (scale_one z, round_column) (ground (arith, h))

nonempty : (t : String) → t ≢ "" → str_eq t "" ≡ false
nonempty t h = ground (arith, eq_iff t "", h)

option_of-text_of : (o : Option String) → o ≢ some "" → option_of (text_of o) ≡ o
option_of-text_of none h = ground arith
option_of-text_of (some t) h = ground (arith, eq_iff t "", h)

-- A quote whose amounts have at most 28 digits and whose texts, where it has them, are not empty.
pub record IsStorable (q : PricingQuote) : Type 0 where
  pub listed : abs q.list_price < precision_limit
  pub charged : abs q.customer_price < precision_limit
  pub discounted : abs q.discount_percent < precision_limit
  pub hashed : q.pricing_context_hash ≢ ""
  pub reasoned : q.pricing_reason ≢ ""
  pub floored : q.floor_reason ≢ ""
  pub slug : q.profile_slug ≢ some ""
  pub name : q.profile_name ≢ some ""
  pub versioned : q.snapshot_schema_version ≢ 0

-- For a quote that the columns can hold, with texts that are not empty where it has them, the quote
-- that is rebuilt from the stored columns is the quote that was stored.
pub quote_from_snapshot-quote_to_snapshot :
    (q : PricingQuote) → IsStorable q → quote_from_snapshot (quote_to_snapshot q) ≡ ok q
unfolding quote_to_snapshot quote_from_snapshot
quote_from_snapshot-quote_to_snapshot q s = rw (nonempty q.pricing_context_hash s.hashed) (
    rw (round_column_id q.list_price s.listed, quote_from_columns)
      (rw (round_column_id q.customer_price s.charged) (
        rw (round_column_id q.discount_percent s.discounted) (
          rw (nonempty q.pricing_reason s.reasoned) (
            rw (nonempty q.floor_reason s.floored) (
              rw (option_of-text_of q.profile_slug s.slug, option_of)
                (rw (option_of-text_of q.profile_name s.name, option_of)
                  (ground (arith, s.versioned)))))))))

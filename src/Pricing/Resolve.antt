-- ===== src/Pricing/Resolve.antt =====
-- `PricingService.resolve` of src/apps/pricing/service.py, and the charges of
-- src/apps/pricing/charge.py. `none` stands for `decimal.InvalidOperation`, which rounding an amount
-- of 28 digits or more raises; warnings and metrics are left out.
use roamkit_api.Base.{ℕ, Bool, Option, none, some, String, not, if◌then◌else◌}
use roamkit_api.Base.Int.{ℤ, pos, ◌+ℤ◌, ◌-ℤ◌, ◌*ℤ◌, ltb_ℤ, leb_ℤ}
use roamkit_api.Money.{Finite, money_round}
use roamkit_api.Pricing.{
  FloorPolicy, no_floor, wholesale, PricingProfile, PricedAccount, PricingContext, PricingQuote,
  Payload, profile_is_effective, retail, pricing_profile, invalid_margin, no_floor_reason, discount,
  snapshot_schema_version,
}

abbrev profile_key : Option PricingProfile → Option ℕ
profile_key none = none
profile_key (some p) = some p.id

abbrev profile_version : Option PricingProfile → Option ℕ
profile_version none = none
profile_version (some p) = some p.version

abbrev account_key : Option PricedAccount → Option ℕ
account_key none = none
account_key (some a) = some a.id

abbrev assigned : Option PricedAccount → Option PricingProfile
assigned none = none
assigned (some a) = a.pricing_profile

-- `profile = ctx.profile`, or the account's
abbrev pub effective_profile : Option PricingProfile → Option PricedAccount → Option PricingProfile
effective_profile (some p) account = some p
effective_profile none account = assigned account

-- `_dec`, as cents
abbrev pub round_option : Option Finite → Option (Option ℤ)
round_option none = some none
round_option (some d) = elim (money_round d) [ none ↦ none | some z ↦ some (some z) ]

-- `_retail_quote`, with its default discount
abbrev pub retail_quote : ℤ → String → String → PricingQuote
retail_quote list_price context_hash reason = record {
  list_price = list_price;
  customer_price = list_price;
  discount_percent = pos 0;
  pricing_reason = reason;
  floor_reason = no_floor_reason;
  pricing_profile_id = none;
  pricing_profile_version = none;
  pricing_context_hash = context_hash;
  profile_slug = none;
  profile_name = none;
  snapshot_schema_version = snapshot_schema_version;
}

-- `_profile_quote`
abbrev pub profile_quote : ℤ → ℤ → ℤ → String → PricingProfile → String → PricingQuote
profile_quote list_price customer_price percent floor p context_hash = record {
  list_price = list_price;
  customer_price = customer_price;
  discount_percent = percent;
  pricing_reason = pricing_profile;
  floor_reason = floor;
  pricing_profile_id = some p.id;
  pricing_profile_version = some p.version;
  pricing_context_hash = context_hash;
  profile_slug = some p.slug;
  profile_name = some p.name;
  snapshot_schema_version = snapshot_schema_version;
}

-- `_legacy_percent_off_list`: two digits of the price, two of the percentage, two of the hundred.
unfoldable pub legacy_percent_off_list : ℤ → ℤ → Option ℤ
legacy_percent_off_list list_price percent =
    money_round (record { units = list_price *ℤ (pos 10000 -ℤ percent); places = 6 })

unfoldable pub max_ℤ : ℤ → ℤ → ℤ
max_ℤ a b = if ltb_ℤ a b then b else a

-- `_margin_share_customer`: net_price + margin * (100 - percent) / 100
unfoldable pub margin_share_customer : ℤ → ℤ → ℤ → Option ℤ
margin_share_customer list_price net_price percent =
    let margin = max_ℤ (pos 0) (list_price -ℤ net_price) in
    money_round
      (record { units = net_price *ℤ pos 10000 +ℤ margin *ℤ (pos 10000 -ℤ percent); places = 6 })

abbrev pub quote_at : ℤ → ℤ → PricingProfile → String → Option ℤ → Option PricingQuote
quote_at list_price percent p context_hash none = none
quote_at list_price percent p context_hash (some customer) =
    some (profile_quote list_price customer percent discount p context_hash)

-- The wholesale path, on the rounded net price.
unfoldable pub quote_wholesale : ℤ → ℤ → PricingProfile → String → ℤ → Option PricingQuote
unfolding margin_share_customer
quote_wholesale list_price percent p context_hash net_price =
    if ltb_ℤ list_price net_price
    then some (retail_quote list_price context_hash invalid_margin)
    else quote_at list_price percent p context_hash
        (margin_share_customer list_price net_price percent)

unfoldable pub quote_net : ℤ → ℤ → PricingProfile → String → Option ℤ → Option PricingQuote
unfolding quote_wholesale
quote_net list_price percent p context_hash none =
    some (retail_quote list_price context_hash retail)
quote_net list_price percent p context_hash (some net_price) =
    quote_wholesale list_price percent p context_hash net_price

unfoldable pub quote_floor :
    ℤ → ℤ → PricingProfile → String → Option ℤ → FloorPolicy → Option PricingQuote
unfolding quote_net legacy_percent_off_list
quote_floor list_price percent p context_hash net no_floor =
    quote_at list_price percent p context_hash (legacy_percent_off_list list_price percent)
quote_floor list_price percent p context_hash net wholesale =
    quote_net list_price percent p context_hash net

-- The effective profile's quote. `money_round` leaves hundredths as they are.
unfoldable pub quote_profile : ℤ → PricingProfile → String → Option ℤ → Option PricingQuote
unfolding quote_floor
quote_profile list_price p context_hash net =
    if leb_ℤ p.discount_percent (pos 0)
    then some (profile_quote list_price list_price (pos 0) no_floor_reason p context_hash)
    else quote_floor list_price p.discount_percent p context_hash net p.floor_policy

unfoldable pub quote_for : ℤ → Option PricingProfile → ℕ → String → Option ℤ → Option PricingQuote
unfolding quote_profile
quote_for list_price none at_time context_hash net =
    some (retail_quote list_price context_hash retail)
quote_for list_price (some p) at_time context_hash net =
    if not (profile_is_effective p at_time)
    then some (retail_quote list_price context_hash retail)
    else quote_profile list_price p context_hash net

module _ (digest : Payload → String) (flag_enabled : Bool) where
  -- `pricing_context_hash`, on the effective inputs
  abbrev pub pricing_context_hash : PricingContext → Option PricingProfile → ℤ → Option ℤ → String
  pricing_context_hash ctx p list_price net_price = digest (record {
    flag_enabled = flag_enabled;
    account_id = account_key ctx.account;
    profile_id = profile_key p;
    profile_version = profile_version p;
    list_price = list_price;
    net_price = net_price;
    order_type = ctx.order_type;
    timestamp = ctx.timestamp;
  })

  unfoldable pub resolve_rounded : PricingContext → ℤ → Option ℤ → Option PricingQuote
  unfolding quote_for
  resolve_rounded ctx list_price net_price =
      let p = effective_profile ctx.profile ctx.account in
      let context_hash = pricing_context_hash ctx p list_price net_price in
      if not flag_enabled
      then some (retail_quote list_price context_hash retail)
      else quote_for list_price p ctx.timestamp context_hash net_price

  unfoldable pub resolve : PricingContext → Option PricingQuote
  unfolding resolve_rounded
  resolve ctx = elim (money_round ctx.list_price) [
    | none ↦ none
    | some list_price ↦ elim (round_option ctx.net_price) [
      | none ↦ none
      | some net_price ↦ resolve_rounded ctx list_price net_price
    ]
  ]

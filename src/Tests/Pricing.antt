-- ===== src/Tests/Pricing.antt =====
-- Quotes for a package listed at 10.00 with a net price of 6.00.
use roamkit_api.Base.{◌≡◌, ◌≢◌, refl, true, false, none, some, String, arith, ok, eq_iff, str_eq}
use roamkit_api.Base.Int.{pos, ◌-ℤ◌, ◌+ℤ◌, ◌*ℤ◌}
use roamkit_api.Money.{half_up, money_round, quantize, rescale}
use roamkit_api.Pricing.{
  PricingProfile, PricingContext, PricingQuote, Payload, wholesale, package_order,
}
use roamkit_api.Pricing.Resolve.{
  margin_share_customer, resolve, effective_profile, profile_quote, max_ℤ, round_option,
}
use roamkit_api.Pricing.Quotes.{IsWithin, IsPercent, resolve_quotes, resolve_keeps_net}
use roamkit_api.Pricing.Snapshot.{
  quote_to_snapshot, quote_from_snapshot, IsStorable, quote_from_snapshot-quote_to_snapshot,
}

abbrev profile : PricingProfile
profile = record {
  id = 1;
  name = "Resellers";
  slug = "resellers";
  discount_percent = pos 2500;
  floor_policy = wholesale;
  version = 3;
  is_active = true;
  effective_from = some 5;
  effective_until = none;
  archived_at = none;
}

abbrev context : PricingContext
context = record {
  list_price = record { units = pos 1000; places = 2 };
  net_price = some (record { units = pos 600; places = 2 });
  order_type = package_order;
  timestamp = 9;
  account = none;
  profile = some profile;
}

abbrev digest : Payload → String
digest p = "h"

listed : money_round context.list_price ≡ some (pos 1000)
unfolding money_round quantize rescale
listed = refl

netted : round_option context.net_price ≡ some (some (pos 600))
unfolding money_round quantize rescale
netted = refl

range :
    (x : PricingProfile)
    → effective_profile context.profile context.account ≡ some x
    → IsPercent x.discount_percent
range x e = ground (arith, e)

floored :
    (x : PricingProfile)
    → effective_profile context.profile context.account ≡ some x
    → x.floor_policy ≡ wholesale
floored x e = ground (arith, e)

at_quarter : margin_share_customer (pos 1000) (pos 600) (pos 2500) ≡ some (pos 900)
unfolding margin_share_customer money_round quantize rescale half_up max_ℤ ◌-ℤ◌ ◌+ℤ◌ ◌*ℤ◌
at_quarter = refl

at_half : margin_share_customer (pos 1000) (pos 600) (pos 5000) ≡ some (pos 800)
unfolding margin_share_customer money_round quantize rescale half_up max_ℤ ◌-ℤ◌ ◌+ℤ◌ ◌*ℤ◌
at_half = refl

resolve_quotes_example : IsWithin 0 1000 (resolve digest true context)
resolve_quotes_example =
    resolve_quotes digest true context 1000 (some 600) listed netted (omega arith) range

resolve_keeps_net_example : IsWithin 600 1000 (resolve digest true context)
resolve_keeps_net_example =
    resolve_keeps_net digest true context 1000 (some 600) listed netted (omega arith) range 600 refl
      floored

abbrev quote : PricingQuote
quote = profile_quote (pos 1000) (pos 900) (pos 2500) "discount" profile "h"

quote-IsStorable : IsStorable quote
quote-IsStorable = record {
  listed = omega arith;
  charged = omega arith;
  discounted = omega arith;
  hashed = differs "h" "" refl;
  reasoned = differs "pricing_profile" "" refl;
  floored = differs "discount" "" refl;
  slug = λ e. differs "resellers" "" refl (ground (arith, e));
  name = λ e. differs "Resellers" "" refl (ground (arith, e));
  versioned = λ e. omega arith;
}
  where
    differs : (s t : String) → str_eq s t ≡ false → s ≢ t
    differs s t h = ground (arith, eq_iff s t, h)

quote_from_snapshot-quote_to_snapshot_example :
    quote_from_snapshot (quote_to_snapshot quote) ≡ ok quote
quote_from_snapshot-quote_to_snapshot_example =
    quote_from_snapshot-quote_to_snapshot quote quote-IsStorable

-- ===== src/Pricing/Quotes.antt =====
-- What a quote of src/apps/pricing/service.py promises, over all its branches.
use roamkit_api.Base.{
  ℕ, ◌≤◌, ◌<◌, ◌≡◌, refl, Option, none, some, arith, Bool, Bool-cases, inl, inr, ◌⊎◌, ltb,
  if◌then◌else◌, String,
}
use roamkit_api.Base.Int.{ℤ, pos, negsuc, ◌≤ℤ◌, ltb_ℤ, leb_ℤ}
use roamkit_api.Money.{money_round}
use roamkit_api.Pricing.{
  FloorPolicy, no_floor, wholesale, PricingProfile, PricingContext, PricingQuote, Payload,
  profile_is_effective,
}
use roamkit_api.Pricing.Resolve.{
  quote_wholesale, quote_net, quote_floor, quote_profile, quote_for, resolve_rounded, resolve,
  effective_profile, round_option,
}
use roamkit_api.Pricing.Bounds.{
  price_limit, margin_share_customer_bounds, legacy_percent_off_list_bounds,
}

-- There is a quote, for this list price, with a customer price from `low` to the list price.
pub record IsWithin (low list : ℕ) (o : Option PricingQuote) : Type 0 where
  pub quote : PricingQuote
  pub given : o ≡ some quote
  pub listed : quote.list_price ≡ pos list
  pub floor : pos low ≤ℤ quote.customer_price
  pub ceiling : quote.customer_price ≤ℤ pos list

abbrev pub lower_of : ℕ → ℕ → ℕ
lower_of m n = if ltb n m then n else m

-- The discount that the database's constraint admits.
abbrev pub IsPercent : ℤ → Type 0
IsPercent d = (pos 0 ≤ℤ d) × (d ≤ℤ pos 10000)

abbrev pub cents : Option ℕ → Option ℤ
cents none = none
cents (some n) = some (pos n)

percent_of : (d : ℤ) → IsPercent d → (k : ℕ) × (d ≡ pos k) × (k ≤ 10000)
percent_of (pos k) range = (k, refl, omega (arith, range.1))
percent_of (negsuc k) range = absurd (omega (arith, range.0))

module _ (low list : ℕ) (fits : list < price_limit) (below : low ≤ list)
    (context_hash : String) where
  wholesale-IsWithin :
      (percent : ℕ) (p : PricingProfile) (net : ℕ)
      → percent ≤ 10000
      → low ≤ net
      → IsWithin low list (quote_wholesale (pos list) (pos percent) p context_hash (pos net))
  unfolding quote_wholesale
  wholesale-IsWithin percent p net most over = elim (Bool-cases (ltb_ℤ (pos list) (pos net))) [
    | inl high ↦ rw high (record {
      quote = _;
      given = refl;
      listed = refl;
      floor = omega (arith, below);
      ceiling = omega arith;
    })
    | inr fine ↦
        let (e, _, _, lower, upper) =
          margin_share_customer_bounds list net percent fits (ground (arith, fine)) most in
        rw (fine, e)
          (record {
            quote = _;
            given = refl;
            listed = refl;
            floor = omega (arith, lower);
            ceiling = omega (arith, upper);
          })
  ]

  net-IsWithin :
      (percent : ℕ) (p : PricingProfile) (net : Option ℕ)
      → percent ≤ 10000
      → ((n : ℕ) → net ≡ some n → low ≤ n)
      → IsWithin low list (quote_net (pos list) (pos percent) p context_hash (cents net))
  unfolding quote_net
  net-IsWithin percent p none most over = record {
    quote = _;
    given = refl;
    listed = refl;
    floor = omega (arith, below);
    ceiling = omega arith;
  }
  net-IsWithin percent p (some n) most over = wholesale-IsWithin percent p n most (over n refl)

  floor-IsWithin :
      (percent : ℕ) (p : PricingProfile) (net : Option ℕ) (policy : FloorPolicy)
      → percent ≤ 10000
      → ((n : ℕ) → net ≡ some n → low ≤ n)
      → (policy ≡ wholesale) ⊎ (low ≡ 0)
      → IsWithin low list (quote_floor (pos list) (pos percent) p context_hash (cents net) policy)
  unfolding quote_floor
  floor-IsWithin percent p net wholesale most over kept = net-IsWithin percent p net most over
  floor-IsWithin percent p net no_floor most over (inl other) = cc
  floor-IsWithin percent p net no_floor most over (inr zero) =
      let (e, upper) = legacy_percent_off_list_bounds list percent fits most in
      rw e (record {
        quote = _;
        given = refl;
        listed = refl;
        floor = omega (arith, zero);
        ceiling = omega (arith, upper);
      })

  profile-IsWithin :
      (p : PricingProfile) (net : Option ℕ)
      → IsPercent p.discount_percent
      → ((n : ℕ) → net ≡ some n → low ≤ n)
      → (p.floor_policy ≡ wholesale) ⊎ (low ≡ 0)
      → IsWithin low list (quote_profile (pos list) p context_hash (cents net))
  unfolding quote_profile
  profile-IsWithin p net range over kept =
      let (percent, e, most) = percent_of p.discount_percent range in
      elim (Bool-cases (leb_ℤ p.discount_percent (pos 0))) [
        | inl free ↦ rw free (record {
          quote = _;
          given = refl;
          listed = refl;
          floor = omega (arith, below);
          ceiling = omega arith;
        })
        | inr share ↦ rw share (rw e (floor-IsWithin percent p net p.floor_policy most over kept))
      ]

  quote_for-IsWithin :
      (p : Option PricingProfile) (net : Option ℕ) (at_time : ℕ)
      → ((x : PricingProfile) → p ≡ some x → IsPercent x.discount_percent)
      → ((n : ℕ) → net ≡ some n → low ≤ n)
      → ((x : PricingProfile) → p ≡ some x → (x.floor_policy ≡ wholesale) ⊎ (low ≡ 0))
      → IsWithin low list (quote_for (pos list) p at_time context_hash (cents net))
  unfolding quote_for
  quote_for-IsWithin none net at_time range over kept = record {
    quote = _;
    given = refl;
    listed = refl;
    floor = omega (arith, below);
    ceiling = omega arith;
  }
  quote_for-IsWithin (some p) net at_time range over kept =
      elim (Bool-cases (profile_is_effective p at_time)) [
        | inr off ↦ rw off (record {
          quote = _;
          given = refl;
          listed = refl;
          floor = omega (arith, below);
          ceiling = omega arith;
        })
        | inl on ↦ rw on (profile-IsWithin p net (range p refl) over (kept p refl))
      ]

module _ (digest : Payload → String) (flag_enabled : Bool) (ctx : PricingContext) (list : ℕ)
    (net : Option ℕ) (listed : money_round ctx.list_price ≡ some (pos list))
    (netted : round_option ctx.net_price ≡ some (cents net)) (fits : list < price_limit)
    (range : (x : PricingProfile)
      → effective_profile ctx.profile ctx.account ≡ some x
      → IsPercent x.discount_percent) where
  resolve-IsWithin :
      (low : ℕ)
      → low ≤ list
      → ((n : ℕ) → net ≡ some n → low ≤ n)
      → ((x : PricingProfile)
          → effective_profile ctx.profile ctx.account ≡ some x
          → (x.floor_policy ≡ wholesale) ⊎ (low ≡ 0))
      → IsWithin low list (resolve digest flag_enabled ctx)
  unfolding resolve_rounded resolve
  resolve-IsWithin low below over kept =
      rw (listed, resolve)
        (rw (netted, resolve)
          (elim (Bool-cases flag_enabled) [
            | inr off ↦ rw off (record {
              quote = _;
              given = refl;
              listed = refl;
              floor = omega (arith, below);
              ceiling = omega arith;
            })
            | inl on ↦ rw on (
                quote_for-IsWithin low list fits below _ (effective_profile ctx.profile ctx.account)
                  net ctx.timestamp range over kept)
          ]))

  -- For a list price below 10 ^ 20 cents, a net price that is missing or not negative and a
  -- discount from 0 to 100 %, a quote is always given, for the rounded list price, and the
  -- customer's price is from 0 to that list price.
  pub resolve_quotes : IsWithin 0 list (resolve digest flag_enabled ctx)
  resolve_quotes = resolve-IsWithin 0 (omega arith) (λ n e. omega arith) (λ x e. inr refl)

  -- For a list price below 10 ^ 20 cents, a rounded net price that is not negative and an effective
  -- profile, if there is one, with a discount from 0 to 100 % and the wholesale floor, a quote is
  -- given for the list price, and the customer's price is at most the list price and at least the
  -- smaller of the net price and the list price: so it is below the net price only where the list
  -- price is, and is the list price there.
  pub resolve_keeps_net :
      (n : ℕ)
      → net ≡ some n
      → ((x : PricingProfile)
          → effective_profile ctx.profile ctx.account ≡ some x
          → x.floor_policy ≡ wholesale)
      → IsWithin (lower_of n list) list (resolve digest flag_enabled ctx)
  resolve_keeps_net n e kept =
      resolve-IsWithin (lower_of n list) (ground arith) (λ m e'. ground (arith, e, e'))
        (λ x h. inl (kept x h))

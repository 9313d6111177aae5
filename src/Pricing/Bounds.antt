-- ===== src/Pricing/Bounds.antt =====
-- The price that src/apps/pricing/service.py computes: rounding and bounds.
use native.Mathlib.Nat.{mul-le-mul_left}
use roamkit_api.Base.{ℕ, ◌+◌, ◌-◌, ◌*◌, ◌^◌, ◌≤◌, ◌<◌, ◌≡◌, some, arith}
use roamkit_api.Base.Int.{pos, ◌-ℤ◌, ◌+ℤ◌, ◌*ℤ◌}
use roamkit_api.Money.{half_up, money_round}
use roamkit_api.Money.Rounding.{half_up_near, half_up_mono, half_up_exact, rescale_finer}
use roamkit_api.Pricing.Resolve.{margin_share_customer, legacy_percent_off_list, max_ℤ}

-- Prices below 10 ^ 20 cents.
abbrev pub price_limit : ℕ
price_limit = 10 ^ 20

-- The exact discounted price, in millionths of a dollar.
abbrev pub shared_price : ℕ → ℕ → ℕ → ℕ
shared_price list net percent = net * 10000 + (list - net) * (10000 - percent)

shared_units :
    (list net percent : ℕ)
    → net ≤ list
    → percent ≤ 10000
    → pos net *ℤ pos 10000 +ℤ max_ℤ (pos 0) (pos list -ℤ pos net) *ℤ (pos 10000 -ℤ pos percent)
      ≡ pos (shared_price list net percent)
unfolding ◌*ℤ◌ ◌+ℤ◌ ◌-ℤ◌ max_ℤ
shared_units list net percent h k = ground arith

shared_le_list : (list net percent : ℕ) → net ≤ list → shared_price list net percent ≤ list * 10000
shared_le_list list net percent h =
    omega (arith, mul-le-mul_left {m = 10000 - percent} {n = 10000} (list - net) (omega arith))

-- With a list price below 10 ^ 20 cents, a net price of at most the list price and a discount of at
-- most 100 %, the customer's price under margin sharing is the exact share rounded to the nearest
-- cent, halves upwards; it is at least the net price and at most the list price.
pub margin_share_customer_bounds :
    (list net percent : ℕ)
    → list < price_limit
    → net ≤ list
    → percent ≤ 10000
    → let customer = half_up (shared_price list net percent) 10000 in
      (margin_share_customer (pos list) (pos net) (pos percent) ≡ some (pos customer))
      × (2 * (customer * 10000) ≤ 2 * shared_price list net percent + 10000)
      × (2 * shared_price list net percent < 2 * (customer * 10000) + 10001)
      × (net ≤ customer)
      × (customer ≤ list)
unfolding margin_share_customer money_round
margin_share_customer_bounds list net percent fits below most =
    let exact = shared_price list net percent in
    let near = half_up_near exact 10000 (omega arith) in
    let floor : net ≤ half_up exact 10000 =
      rw (half_up_exact net 10000 (omega arith)) at
        (half_up_mono (net * 10000) exact 10000 (omega arith) (omega arith)) in
    let ceiling : half_up exact 10000 ≤ list = rw (half_up_exact list 10000 (omega arith)) at (
      half_up_mono exact (list * 10000) 10000 (omega arith)
        (shared_le_list list net percent below)) in
    (
      rw (shared_units list net percent below most)
          (ground (arith, rescale_finer 2 exact 4, ceiling)),
      near.0,
      omega (arith, near.1),
      floor,
      ceiling,
    )

shared_antitone : (list net p q : ℕ) → p ≤ q → shared_price list net q ≤ shared_price list net p
shared_antitone list net p q h = grind arith

-- With a net price of at most the list price and discounts of at most 100 %, a larger discount
-- never raises the customer's price.
pub margin_share_customer_antitone :
    (list net p q a b : ℕ)
    → list < price_limit
    → net ≤ list
    → p ≤ q
    → q ≤ 10000
    → margin_share_customer (pos list) (pos net) (pos p) ≡ some (pos a)
    → margin_share_customer (pos list) (pos net) (pos q) ≡ some (pos b)
    → b ≤ a
margin_share_customer_antitone list net p q a b fits below less most ha hb =
    let (ea, _, _, _, _) = margin_share_customer_bounds list net p fits below (omega arith) in
    let (eb, _, _, _, _) = margin_share_customer_bounds list net q fits below most in
    let m =
      half_up_mono (shared_price list net q) (shared_price list net p) 10000 (omega arith)
        (shared_antitone list net p q less) in
    let a_is : half_up (shared_price list net p) 10000 ≡ a = ground (arith, ea, ha) in
    let b_is : half_up (shared_price list net q) 10000 ≡ b = ground (arith, eb, hb) in
    omega (arith, m, a_is, b_is)

legacy_units :
    (list percent : ℕ)
    → percent ≤ 10000
    → pos list *ℤ (pos 10000 -ℤ pos percent) ≡ pos (list * (10000 - percent))
unfolding ◌*ℤ◌ ◌-ℤ◌
legacy_units list percent k = ground arith

-- Percent off the list price is the exact discounted price rounded half up, and at most the list
-- price.
pub legacy_percent_off_list_bounds :
    (list percent : ℕ)
    → list < price_limit
    → percent ≤ 10000
    → let customer = half_up (list * (10000 - percent)) 10000 in
      (legacy_percent_off_list (pos list) (pos percent) ≡ some (pos customer)) × (customer ≤ list)
unfolding legacy_percent_off_list money_round
legacy_percent_off_list_bounds list percent fits most =
    let ceiling : half_up (list * (10000 - percent)) 10000 ≤ list =
      rw (half_up_exact list 10000 (omega arith)) at (
        half_up_mono (list * (10000 - percent)) (list * 10000) 10000 (omega arith) (grind arith)) in
    (
      rw (legacy_units list percent most)
          (ground (arith, rescale_finer 2 (list * (10000 - percent)) 4, ceiling)),
      ceiling,
    )

-- ===== src/Partner/Share.antt =====
-- The partner's share of a margin: `_price_skip` and the rounding of
-- src/apps/billing/services/partner_margin.py.
use roamkit_api.Base.{ℕ, ◌+◌, ◌*◌, ◌≤◌, ◌<◌, ◌≡◌, some, arith}
use roamkit_api.Base.Int.{pos, ◌*ℤ◌}
use roamkit_api.Money.{half_up}
use roamkit_api.Money.Rounding.{half_up_near, half_up_mono, half_up_exact, rescale_finer}
use roamkit_api.Ledger.Credit.{amount_limit}
use roamkit_api.Partner.Margin.{share_of}

pos-* : (a b : ℕ) → pos a *ℤ pos b ≡ pos (a * b)
unfolding ◌*ℤ◌
pos-* a b = ground arith

share_le : (margin percent : ℕ) → percent ≤ 10000 → half_up (margin * percent) 10000 ≤ margin
share_le margin percent most =
    rw (half_up_exact margin 10000 (omega arith)) at
      (half_up_mono (margin * percent) (margin * 10000) 10000 (omega arith) (grind arith))

-- For any margin that the columns hold and any percentage of at most 100, the share is the product
-- rounded to the nearest ledger unit, halves upwards: it never fails, is within half a unit of the
-- exact product, and is no more than the margin.
pub share_of_bounds :
    (margin percent : ℕ)
    → margin < amount_limit
    → percent ≤ 10000
    → let share = half_up (margin * percent) 10000 in
      (share_of (pos margin) (pos percent) ≡ some (pos share))
      × (2 * (share * 10000) ≤ 2 * (margin * percent) + 10000)
      × (2 * (margin * percent) < 2 * (share * 10000) + 10001)
      × (share ≤ margin)
unfolding share_of
share_of_bounds margin percent fits most =
    let near = half_up_near (margin * percent) 10000 (omega arith) in
    let less = share_le margin percent most in
    (
      rw pos-* (ground (arith, rescale_finer 6 (margin * percent) 4, less)),
      near.0,
      omega (arith, near.1),
      less,
    )

-- ===== src/Money.antt =====
-- Python's `Decimal` values as far as the money code uses them (`decimal` is not of this
-- repository: its documented results are written out here), and apps/pricing/money.py.
-- A finite decimal is `units` over 10 ^ `places`. Arithmetic on the code's columns stays far below
-- the 28 digits of the default context, so only `quantize` has to check that precision.
pub mod Rounding
use roamkit_api.Base.{
  ℕ, zero, suc, ◌+◌, ◌-◌, ◌*◌, ◌/◌, ◌^◌, Bool, Option, none, some, leb, ltb, if◌then◌else◌,
}
use roamkit_api.Base.Int.{ℤ, pos, negsuc, abs, neg}

pub record Finite : Type 0 where
  pub units : ℤ
  pub places : ℕ

pub data Decimal : Type 0 where
  finite : Finite → Decimal
  infinite : Bool → Decimal
  nan : Decimal

-- `ROUND_HALF_UP` on a magnitude: num / den to the nearest whole number, halves upwards.
unfoldable pub half_up : ℕ → ℕ → ℕ
half_up num den = (2 * num + den) / (2 * den)

-- `ROUND_HALF_UP` rounds halves away from zero.
unfoldable pub half_up_ℤ : ℤ → ℕ → ℤ
half_up_ℤ (pos n) den = pos (half_up n den)
half_up_ℤ (negsuc n) den = neg (pos (half_up (suc n) den))

unfoldable pub scale : ℤ → ℕ → ℤ
scale (pos n) k = pos (n * k)
scale (negsuc n) k = neg (pos (suc n * k))

-- The digits of a decimal as a whole number of 10 ^ -places units.
unfoldable pub rescale : ℕ → Finite → ℤ
unfolding half_up_ℤ scale
rescale p d =
    if leb d.places p
    then scale d.units (10 ^ (p - d.places))
    else half_up_ℤ d.units (10 ^ (d.places - p))

abbrev pub precision_limit : ℕ
precision_limit = 10 ^ 28

-- `value.quantize(quantum, rounding=ROUND_HALF_UP)`, `none` where it raises `InvalidOperation`
-- because the digits of the result pass the context's precision.
unfoldable pub quantize : ℕ → Finite → Option ℤ
unfolding rescale
quantize p d = let z = rescale p d in if ltb (abs z) precision_limit then some z else none

abbrev pub cents_places : ℕ
cents_places = 2

-- `money_round` of a finite amount, in cents.
unfoldable pub money_round : Finite → Option ℤ
unfolding quantize
money_round = quantize cents_places

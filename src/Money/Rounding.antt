-- ===== src/Money/Rounding.antt =====
-- Facts on rounding half up, for the quotients that the money code takes.
use native.Mathlib.Nat.{
  pow-suc, div-eq_of_lt-le, le-div_iff_mul-le, div-mul-le_self, lt-div-mul-add,
}
use roamkit_api.Base.{
  ℕ, zero, suc, ap, leb, true, false, ◌+◌, ◌-◌, ◌^◌, ◌*◌, ◌/◌, ◌≤◌, ◌<◌, ◌≡◌, arith,
}
use roamkit_api.Base.Int.{pos}
use roamkit_api.Money.{half_up, rescale}

-- The rounded quotient is within half a unit of the exact one.
pub half_up_near :
    (num den : ℕ)
    → 0 < den
    → (2 * (half_up num den * den) ≤ 2 * num + den)
      × (2 * num < 2 * (half_up num den * den) + den + 1)
unfolding half_up
half_up_near num den h = omega (
  arith,
  div-mul-le_self (2 * num + den) (2 * den),
  lt-div-mul-add {a = 2 * num + den} {b = 2 * den} (omega arith),
)

pub half_up_exact : (k den : ℕ) → 0 < den → half_up (k * den) den ≡ k
unfolding half_up
half_up_exact k den h = div-eq_of_lt-le {k = k} (2 * den) (omega arith) (omega arith)

pub half_up_mono : (a b den : ℕ) → 0 < den → a ≤ b → half_up a den ≤ half_up b den
unfolding half_up
half_up_mono a b den h l =
    (le-div_iff_mul-le {x = (2 * a + den) / (2 * den)} (omega arith)).1
      (omega (arith, div-mul-le_self (2 * a + den) (2 * den)))

pub pow_pos : (k : ℕ) → 0 < 10 ^ k
pow_pos zero = omega arith
pow_pos (suc k) = rw pow-suc (omega (arith, pow_pos k))

-- Digits past the wanted place are rounded away half up.
pub rescale_finer :
    (p n extra : ℕ)
    → rescale p (record { units = pos n; places = p + extra }) ≡ pos (half_up n (10 ^ extra))
unfolding rescale half_up
rescale_finer p n zero =
    let e : p - (p + 0) ≡ 0 = omega arith in
    let all : leb (p + 0) p ≡ true = ground arith in rw all (rw e (ap pos (omega arith)))
rescale_finer p n (suc extra) =
    let e : p + suc extra - p ≡ suc extra = omega arith in
    let finer : leb (p + suc extra) p ≡ false = ground arith in rw finer (rw e)

-- ===== src/Ledger/Amounts.antt =====
-- `CreditService._normalize_amount` and `_normalize_reference_type` of
-- src/apps/billing/services/credit.py: which arguments they accept, and as what.
use roamkit_api.Base.{ℕ, ◌+◌, ◌*◌, ◌^◌, ◌≤◌, ◌<◌, ◌≡◌, refl, some, arith, ok, err}
use roamkit_api.Base.Int.{ℤ, pos, negsuc}
use roamkit_api.Money.{finite, half_up, quantize}
use roamkit_api.Money.Rounding.{half_up_near, pow_pos, rescale_finer}
use roamkit_api.Ledger.{LedgerReferenceType, value, deposit}
use roamkit_api.Ledger.Credit.{
  normalize_amount, normalize_reference_type, invalid_operation, amount_limit, Movement, Checked,
  check_arguments,
}

-- An amount in ledger units that the column can hold is accepted as it is.
pub normalize_amount_exact :
    (n : ℕ)
    → 0 < n
    → n < amount_limit
    → normalize_amount (some (finite (record { units = pos n; places = 6 }))) ≡ ok (pos n)
unfolding normalize_amount quantize
normalize_amount_exact n p l = ground arith

-- An accepted amount with more digits than the ledger's six places becomes a whole number of units
-- within half a unit of it.
pub normalize_amount_near :
    (n extra : ℕ) (z : ℕ)
    → normalize_amount (some (finite (record { units = pos n; places = 6 + extra }))) ≡ ok (pos z)
    → (2 * (z * 10 ^ extra) ≤ 2 * n + 10 ^ extra) × (2 * n < 2 * (z * 10 ^ extra) + 10 ^ extra + 1)
unfolding normalize_amount quantize
normalize_amount_near n extra z h =
    let fine = half_up_near n (10 ^ extra) (pow_pos extra) in
    let same : half_up n (10 ^ extra) ≡ z = ground (arith, rescale_finer 6 n extra) in
    rw same at fine

-- A whole amount of 10 ^ 22 or more raises `decimal.InvalidOperation` in `quantize`, before the
-- test that would raise `InvalidAmountError`.
pub normalize_amount_escapes :
    (n : ℕ)
    → 10 ^ 22 ≤ n
    → normalize_amount (some (finite (record { units = pos n; places = 0 })))
      ≡ err invalid_operation
unfolding normalize_amount quantize
normalize_amount_escapes n h = ground arith

-- The text of every choice is accepted as that choice.
pub normalize_reference_type-value :
    (t : LedgerReferenceType) → normalize_reference_type (value t) ≡ ok t
unfolding normalize_reference_type
normalize_reference_type-value deposit = refl
normalize_reference_type-value _ = refl

-- An amount that is given in ledger units is charged as it is.
pub normalize_amount_units :
    (z r : ℤ) → normalize_amount (some (finite (record { units = z; places = 6 }))) ≡ ok r → r ≡ z
unfolding normalize_amount quantize
normalize_amount_units (pos n) r h = ground arith
normalize_amount_units (negsuc n) r h = ground arith

pub check_arguments_amount :
    (m : Movement) (checked : Checked)
    → check_arguments m ≡ ok checked
    → normalize_amount m.amount ≡ ok checked.amount
unfolding check_arguments
check_arguments_amount m checked h = ground arith

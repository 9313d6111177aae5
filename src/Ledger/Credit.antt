-- ===== src/Ledger/Credit.antt =====
-- `CreditService` of src/apps/billing/services/credit.py: `_apply` and its callers.
-- A transaction is a step on the bank. Between the test for an earlier entry and the insert, the
-- transactions of other requests may commit: `others` is what they do (the account row is locked).
use Prim.Native.String.{count}
use roamkit_api.Base.{
  ℕ, ◌+◌, ◌^◌, Bool, not, ◌&&◌, Option, none, some, ◌∷◌, String, str_eq, ltb, leb, if◌then◌else◌,
  Result, ok, err, ◌>>=◌, ◌>>◌, raise_if,
}
use roamkit_api.Base.Int.{ℤ, pos, negsuc, ◌+ℤ◌, ltb_ℤ, leb_ℤ, abs, neg}
use roamkit_api.Money.{Decimal, finite, infinite, nan, quantize}
use roamkit_api.Ledger.{
  Bank, Account, CreditLedgerEntry, LedgerReferenceType, get_account, find_key, update_accounts,
  value, deposit, order, topup, subscription, refund, admin_adjustment, voucher, partner_margin,
  partner_grant_out, partner_grant_in, partner_invite_bonus,
}

-- The exceptions that a call ends with. `invalid_operation` is `decimal.InvalidOperation`,
-- `data_error` the database's answer to a value that its column cannot hold.
pub data CreditError : Type 0 where
  insufficient_funds : ℤ → ℤ → CreditError
  invalid_amount invalid_reference_type key_required : CreditError
  invalid_operation does_not_exist data_error integrity_error : CreditError

abbrev pub money_places : ℕ
money_places = 6

-- 10 ^ 14 in units of 10 ^ -6
abbrev pub amount_limit : ℕ
amount_limit = 10 ^ 20

positive_in_range : ℤ → Result CreditError ℤ
positive_in_range q =
    if leb_ℤ q (pos 0)
    then err invalid_amount
    else if leb_ℤ (pos amount_limit) q
    then err invalid_amount
    else ok q

quantized_amount : Option ℤ → Result CreditError ℤ
unfolding positive_in_range
quantized_amount none = err invalid_operation
quantized_amount (some q) = positive_in_range q

-- The argument is what `Decimal(str(amount))` gives, `none` if it raises.
unfoldable pub normalize_amount : Option Decimal → Result CreditError ℤ
unfolding quantized_amount
normalize_amount none = err invalid_amount
normalize_amount (some (infinite _)) = err invalid_amount
normalize_amount (some nan) = err invalid_amount
normalize_amount (some (finite d)) = quantized_amount (quantize money_places d)

first_value : String → LedgerReferenceType → Result CreditError LedgerReferenceType
first_value text t = if str_eq (value t) text then ok t else err invalid_reference_type

or_else :
    Result CreditError LedgerReferenceType
    → Result CreditError LedgerReferenceType
    → Result CreditError LedgerReferenceType
or_else (ok t) r = ok t
or_else (err e) r = r

unfoldable pub normalize_reference_type : String → Result CreditError LedgerReferenceType
unfolding first_value or_else
normalize_reference_type text = or_else (first_value text deposit) (
    or_else (first_value text order) (
      or_else (first_value text topup) (
        or_else (first_value text subscription) (
          or_else (first_value text refund) (
            or_else (first_value text admin_adjustment) (
              or_else (first_value text voucher) (
                or_else (first_value text partner_margin) (
                  or_else (first_value text partner_grant_out) (
                    or_else (first_value text partner_grant_in)
                      (first_value text partner_invite_bonus))))))))))

-- The arguments of `credit` and `debit`.
pub record Movement : Type 0 where
  pub account : ℕ
  pub amount : Option Decimal
  pub reference_type : String
  pub reference_id : String
  pub idempotency_key : String

pub record Checked : Type 0 where
  pub amount : ℤ
  pub reference_type : LedgerReferenceType

-- The tests of `_apply` before its transaction.
unfoldable pub check_arguments : Movement → Result CreditError Checked
check_arguments m = do
  normalized ← normalize_amount m.amount
  ref_type ← normalize_reference_type m.reference_type
  raise_if (str_eq m.idempotency_key "") key_required
  ok (record { amount = normalized; reference_type = ref_type })

-- The columns of `CreditLedgerEntry`: Decimal(20, 6) and the lengths of its texts.
unfoldable pub fits_columns : CreditLedgerEntry → Bool
fits_columns e =
    ltb (abs e.balance_after) amount_limit
    && (leb (count e.reference_id) 64 && leb (count e.idempotency_key) 128)

abbrev pub max_version : ℕ
max_version = 2147483647

abbrev pub set_balance : ℤ → ℕ → Account → Account
set_balance balance version a = record a { balance = balance; version = version }

-- The writes of the transaction: the new entry, then the locked row.
unfoldable pub write_entry : Account → CreditLedgerEntry → Bank → Bank
write_entry locked entry b = record {
  accounts =
      update_accounts locked.id (set_balance entry.balance_after (locked.version + 1)) b.accounts;
  ledger = entry ∷ b.ledger;
}

abbrev pub Attempt : Type 0
Attempt = Result CreditError CreditLedgerEntry × Bank

-- An entry with the key has appeared: `IntegrityError`, and the handler returns that entry.
unfoldable pub insert_entry : Account → CreditLedgerEntry → Bank → Attempt
insert_entry locked entry b =
    if not (fits_columns entry)
    then (err data_error, b)
    else elim (find_key entry.idempotency_key b.ledger) [
      | some existing ↦ (ok existing, b)
      | none ↦
          if ltb max_version (locked.version + 1)
          then (err data_error, b)
          else (ok entry, write_entry locked entry b)
    ]

abbrev pub new_entry : ℕ → Account → ℤ → Checked → Movement → CreditLedgerEntry
new_entry entry_id locked delta checked m = record {
  id = entry_id;
  account = locked.id;
  delta = delta;
  balance_after = locked.balance +ℤ delta;
  reference_type = checked.reference_type;
  reference_id = m.reference_id;
  idempotency_key = m.idempotency_key;
}

-- No other transaction commits between a call's test of its key and its insert.
abbrev pub quiet : Bank → Bank
quiet b = b

module _ (others : Bank → Bank) (entry_id : ℕ) where
  unfoldable pub post_locked : Account → ℤ → Checked → Movement → Bank → Attempt
  unfolding insert_entry
  post_locked locked delta checked m b = elim (find_key m.idempotency_key b.ledger) [
    | some existing ↦ (ok existing, b)
    | none ↦
        if ltb_ℤ (locked.balance +ℤ delta) (pos 0)
        then (err (insufficient_funds locked.balance checked.amount), b)
        else insert_entry locked (new_entry entry_id locked delta checked m) (others b)
  ]

  unfoldable pub post : ℤ → Checked → Movement → Bank → Attempt
  unfolding post_locked
  post delta checked m b = elim (get_account m.account b.accounts) [
    | none ↦ (err does_not_exist, b)
    | some locked ↦ post_locked locked delta checked m b
  ]

  -- `_apply`
  unfoldable pub apply : ℤ → Movement → Bank → Attempt
  unfolding post
  apply sign m b = elim (check_arguments m) [
    | err e ↦ (err e, b)
    | ok checked ↦
        post (if ltb_ℤ (pos 0) sign then checked.amount else neg checked.amount) checked m b
  ]

  unfoldable pub credit : Movement → Bank → Attempt
  unfolding apply
  credit m b = apply (pos 1) m b

  unfoldable pub debit : Movement → Bank → Attempt
  unfolding apply
  debit m b = apply (negsuc 0) m b

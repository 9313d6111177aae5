-- ===== src/Tests/Ledger.antt =====
-- Credit, debit, audit and rebuild on a small bank.
use roamkit_api.Base.{◌+◌, ◌^◌, ◌≡◌, refl, none, some, [], ◌∷◌, arith, ok, err, ◌↔◌, All}
use roamkit_api.Base.Int.{pos, negsuc, ◌+ℤ◌, ◌≤ℤ◌}
use roamkit_api.Money.{finite, quantize, half_up}
use roamkit_api.Ledger.{
  Bank, Account, CreditLedgerEntry, personal, deposit, order, value, get_account, find_key,
  sum_delta, update_accounts,
}
use roamkit_api.Ledger.Credit.{
  Movement, Checked, quiet, apply, credit, debit, check_arguments, normalize_amount,
  invalid_operation, insufficient_funds, normalize_reference_type, fits_columns, write_entry,
}
use roamkit_api.Ledger.Invariant.{IsValid, apply-IsValid, quiet-IsIsolated}
use roamkit_api.Ledger.Effects.{apply_replay, debit_refused, apply-IsPosting, IsPosting}
use roamkit_api.Ledger.Amounts.{normalize_amount_escapes}
use roamkit_api.Reconcile.{find_drifts, rebuild_all, Rebuilt}
use roamkit_api.Reconcile.Drift.{find_drifts-Agrees}
use roamkit_api.Reconcile.Repair.{rebuild_all_repairs}

abbrev pub alice : Account
alice = record {
  id = 1;
  user = some 7;
  kind = personal;
  balance = pos 5_000_000;
  version = 1;
  pricing_profile = none;
}

abbrev pub opening : CreditLedgerEntry
opening = record {
  id = 11;
  account = 1;
  delta = pos 5_000_000;
  balance_after = pos 5_000_000;
  reference_type = deposit;
  reference_id = "d1";
  idempotency_key = "deposit:1";
}

abbrev pub bank : Bank
bank = record { accounts = alice ∷ []; ledger = opening ∷ [] }

pub bank-IsValid : IsValid bank
unfolding sum_delta find_key ◌+ℤ◌
bank-IsValid = ground arith

-- A purchase of 1.50.
abbrev purchase : Movement
purchase = record {
  account = 1;
  amount = some (finite (record { units = pos 150; places = 2 }));
  reference_type = value order;
  reference_id = "o1";
  idempotency_key = "order-debit:1";
}

purchase_debits :
    (debit quiet 12 purchase bank).1.accounts
    ≡ record alice { balance = pos 3_500_000; version = 2 } ∷ []
unfolding debit check_arguments normalize_amount quantize
    roamkit_api.Ledger.Credit.normalize_reference_type get_account find_key update_accounts
    roamkit_api.Ledger.Credit.fits_columns roamkit_api.Ledger.Credit.write_entry ◌+ℤ◌
purchase_debits = refl

apply-IsValid_example : IsValid (apply quiet 12 (negsuc 0) purchase bank).1
apply-IsValid_example =
    apply-IsValid quiet 12 (negsuc 0) purchase bank bank-IsValid
      (quiet-IsIsolated 1 bank bank-IsValid)

abbrev checked : Checked
checked = record { amount = pos 1_500_000; reference_type = order }

purchase_checked : check_arguments purchase ≡ ok checked
unfolding check_arguments normalize_amount normalize_reference_type quantize
purchase_checked = refl

alice_row : get_account 1 bank.accounts ≡ some alice
unfolding get_account
alice_row = refl

purchase_fresh : find_key "order-debit:1" bank.ledger ≡ none
unfolding find_key
purchase_fresh = refl

abbrev debit_entry : CreditLedgerEntry
debit_entry = record {
  id = 12;
  account = 1;
  delta = negsuc 1_499_999;
  balance_after = pos 3_500_000;
  reference_type = order;
  reference_id = "o1";
  idempotency_key = "order-debit:1";
}

purchase_posts : (apply quiet 12 (negsuc 0) purchase bank).0 ≡ ok debit_entry
unfolding apply check_arguments normalize_amount normalize_reference_type quantize get_account
    find_key fits_columns ◌+ℤ◌
purchase_posts = refl

apply-IsPosting_example :
    IsPosting quiet (negsuc 0) purchase bank debit_entry (apply quiet 12 (negsuc 0) purchase bank).1
apply-IsPosting_example =
    apply-IsPosting quiet 12 (negsuc 0) purchase bank debit_entry
      (quiet-IsIsolated 1 bank bank-IsValid) purchase_fresh purchase_posts

row_after :
    (a : Account) × (get_account 1 (apply quiet 12 (negsuc 0) purchase bank).1.accounts ≡ some a)
unfolding apply check_arguments normalize_amount normalize_reference_type quantize get_account
    find_key fits_columns write_entry update_accounts ◌+ℤ◌
row_after = (record alice { balance = pos 3_500_000; version = 2 }, refl)

-- A retry as a credit under the same key.
apply_replay_example :
    apply quiet 13 (pos 1) purchase (apply quiet 12 (negsuc 0) purchase bank).1
    ≡ (ok debit_entry, (apply quiet 12 (negsuc 0) purchase bank).1)
apply_replay_example =
    apply_replay quiet quiet 12 13 (negsuc 0) (pos 1) purchase purchase bank debit_entry checked
      row_after.0 purchase_posts refl purchase_checked row_after.1

abbrev dear : Movement
dear = record purchase { amount = some (finite (record { units = pos 6; places = 0 })) }

dear_checked : check_arguments dear ≡ ok (record checked { amount = pos 6_000_000 })
unfolding check_arguments normalize_amount normalize_reference_type quantize
dear_checked = refl

debit_refused_example :
    (debit quiet 12 dear bank ≡ (err (insufficient_funds (pos 5_000_000) (pos 6_000_000)), bank))
    ↔ (pos 5_000_000 +ℤ pos 1 ≤ℤ pos 6_000_000)
debit_refused_example =
    debit_refused quiet 12 dear bank (record checked { amount = pos 6_000_000 }) alice dear_checked
      alice_row purchase_fresh

normalize_amount_escapes_example :
    normalize_amount (some (finite (record { units = pos (10 ^ 22); places = 0 })))
    ≡ err invalid_operation
normalize_amount_escapes_example = normalize_amount_escapes (10 ^ 22) (omega arith)

half_accepted :
    normalize_amount (some (finite (record { units = pos 15; places = 6 + 1 }))) ≡ ok (pos 2)
unfolding normalize_amount quantize half_up
half_accepted = refl

-- A cache that has drifted from the ledger.
abbrev drifted : Bank
drifted = record bank { accounts = record alice { balance = pos 9 } ∷ [] }

find_drifts-Agrees_example :
    (find_drifts drifted ≡ [])
    ↔ All (λ (a : Account). a.balance ≡ sum_delta a.id drifted.ledger) drifted.accounts
find_drifts-Agrees_example = find_drifts-Agrees drifted

rebuild_all_repairs_example :
    ((s : Rebuilt) × ((rebuild_all drifted).0 ≡ ok s))
    × ((rebuild_all drifted).1.ledger ≡ drifted.ledger)
    × (find_drifts (rebuild_all drifted).1 ≡ [])
unfolding get_account
rebuild_all_repairs_example =
    rebuild_all_repairs drifted bank-IsValid.ledger (refl, tt) (omega arith, tt)

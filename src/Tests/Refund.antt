-- ===== src/Tests/Refund.antt =====
-- A purchase of 1.50 and its refund.
use roamkit_api.Base.{◌≡◌, ap, refl, none, some, arith, ok}
use Prim.Native.String.{count}
use roamkit_api.Base.Int.{pos, negsuc, ◌+ℤ◌}
use roamkit_api.Money.{finite, quantize}
use roamkit_api.Ledger.{CreditLedgerEntry, order, refund, value, get_account, find_key}
use roamkit_api.Ledger.Credit.{
  Movement, quiet, apply, credit, debit, check_arguments, normalize_amount,
  normalize_reference_type, fits_columns,
}
use roamkit_api.Ledger.Refund.{IsStorable, IsRefunded, refund_restores}
use roamkit_api.Tests.Ledger.{bank, alice, bank-IsValid}

abbrev charge : Movement
charge = record {
  account = 1;
  amount = some (finite (record { units = pos 150; places = 2 }));
  reference_type = value order;
  reference_id = "o1";
  idempotency_key = "order-debit:1";
}

abbrev back : Movement
back = record charge { reference_type = value refund; idempotency_key = "order-refund:1" }

abbrev entry : CreditLedgerEntry
entry = record {
  id = 12;
  account = 1;
  delta = negsuc 1_499_999;
  balance_after = pos 3_500_000;
  reference_type = order;
  reference_id = "o1";
  idempotency_key = "order-debit:1";
}

charge_posts : (debit quiet 12 charge bank).0 ≡ ok entry
unfolding debit apply check_arguments normalize_amount normalize_reference_type quantize get_account
    find_key fits_columns ◌+ℤ◌
charge_posts = refl

back-IsStorable : IsStorable back
back-IsStorable = record {
  key = λ p. omega (arith, ap count p);
  key_fits = omega arith;
  reference_fits = omega arith;
}

alice_row : get_account 1 bank.accounts ≡ some alice
unfolding get_account
alice_row = refl

fresh : find_key "order-debit:1" bank.ledger ≡ none
unfolding find_key
fresh = refl

fresh_refund : find_key "order-refund:1" bank.ledger ≡ none
unfolding find_key
fresh_refund = refl

refund_restores_example :
    (e' : CreditLedgerEntry) × ((credit quiet 13 back (debit quiet 12 charge bank).1).0 ≡ ok e')
    × IsRefunded bank 1 alice entry e' (credit quiet 13 back (debit quiet 12 charge bank).1).1
refund_restores_example =
    refund_restores 12 13 charge back refund bank alice entry bank-IsValid alice_row fresh refl refl
      refl back-IsStorable fresh_refund (λ p. omega (arith, ap count p)) (omega arith) charge_posts

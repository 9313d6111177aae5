-- ===== src/Tests/Topup.antt =====
-- A top-up of 4.50 on the store of the commission tests, by a customer with no partner.
use Prim.Native.String.{count}
use roamkit_api.Base.{◌≡◌, ap, refl, true, false, none, some, [], ◌∷◌, arith, ok, err, first_where}
use roamkit_api.Base.Int.{pos, neg, negsuc, ◌+ℤ◌, ◌*ℤ◌, ◌≤ℤ◌}
use roamkit_api.Money.{quantize}
use roamkit_api.Ledger.{CreditLedgerEntry, topup, get_account, find_key, update_accounts, Account}
use roamkit_api.Ledger.Credit.{
  apply, debit, quiet, check_arguments, normalize_amount, normalize_reference_type, fits_columns,
  write_entry,
}
use roamkit_api.Ledger.Effects.{Moves}
use roamkit_api.Ledger.Refund.{IsRefunded}
use roamkit_api.Partner.Margin.{accrue, skipped, flag_disabled}
use roamkit_api.Topup.{
  Topup, Status, TopupPackage, State, Environment, provider_fulfillment_failed, has_key,
  next_sequence, highest_sequence, is_fulfilling,
}
use roamkit_api.Topup
use roamkit_api.Topup.Spend.{
  Request, NewRows, Provider, reserved, set_status, set_fulfilled, with_bank, topup_debit,
  topup_refund, after_debit, create_and_debit, find_package, resolve_topup_charge, resolve_package,
}
use roamkit_api.Topup.Purchase.{reserve_locked, reserve_and_debit, spend_account, purchase}
use roamkit_api.Topup.Refund.{calm, IsAccepted, purchase_refunds}
use roamkit_api.Topup.Fulfilment.{purchase_delivers, accruing}
use roamkit_api.Topup.Repeat.{purchase_once}
use roamkit_api.Tests.Ledger.{bank, alice, bank-IsValid}
use roamkit_api.Tests.Partner.{store, text}
use roamkit_api.Tests.Esims.{esim}

abbrev state : State
state = record { store = store; esims = esim ∷ []; topups = [] }

abbrev env : Environment
env = record {
  billing_enabled = true;
  pricing_profiles_enabled = false;
  partner_channel_enabled = false;
  now = 5;
  str = text;
  profile_of = λ pk. none;
  digest = λ p. "";
}

abbrev offer : TopupPackage
offer = record { external_id = "p1"; price_usd = pos 450; net_price_usd = some (pos 300) }

abbrev refusing : Provider
refusing = record { list_topups = some (offer ∷ []); submit_topup = λ p. none }

abbrev delivering : Provider
delivering = record { list_topups = some (offer ∷ []); submit_topup = λ p. some "x1" }

abbrev request : Request
request = record { esim = esim; package_id = "p1"; idempotency_key = "k1"; account = none }

abbrev ids : NewRows
ids = record { topup = 61; debit = 62; refund = 63; accrual = record { accrual = 64; entry = 65 } }

abbrev row : Topup
row = record {
  id = 61;
  account = 1;
  esim = 9;
  package_external_id = "p1";
  amount = pos 4_500_000;
  list_price_usd = pos 450;
  net_price_usd = some (pos 3_000_000);
  pricing = none;
  status = Status.fulfilling;
  sequence = 1;
  external_order_id = "";
  idempotency_key = some "k1";
}

abbrev entry : CreditLedgerEntry
entry = record {
  id = 62;
  account = 1;
  delta = negsuc 4_499_999;
  balance_after = pos 500_000;
  reference_type = topup;
  reference_id = "1";
  idempotency_key = "topup-debit:1";
}

abbrev reserved_state : State
reserved_state = record (with_bank (debit quiet 62 (topup_debit env ids 1 row) bank).1 state) {
  topups = row ∷ [];
}

reserves :
    (provider : Provider)
    → reserve_and_debit env ids calm calm provider request 1 offer state
      ≡ (ok (reserved row entry), reserved_state)
unfolding first_where reserve_and_debit reserve_locked resolve_topup_charge create_and_debit
    after_debit topup_debit Topup.fits_columns next_sequence highest_sequence debit apply
    check_arguments normalize_amount normalize_reference_type quantize get_account find_key
    fits_columns write_entry update_accounts ◌+ℤ◌ ◌*ℤ◌
reserves provider = refl

accepts :
    (provider : Provider)
    → provider.list_topups ≡ some (offer ∷ [])
    → IsAccepted env ids calm provider request 1 offer row entry state reserved_state
unfolding spend_account resolve_package find_package
accepts provider given = record {
  key = λ p. omega (arith, ap count p);
  payer = refl;
  offered = rw given refl;
  done = reserves provider;
}

no_debit : find_key (topup_debit env ids 1 row).idempotency_key bank.ledger ≡ none
unfolding find_key topup_debit
no_debit = refl

no_refund : find_key (topup_refund env ids 1 row).idempotency_key bank.ledger ≡ none
unfolding find_key topup_refund
no_refund = refl

alice_row : get_account 1 bank.accounts ≡ some alice
unfolding get_account
alice_row = refl

purchase_refunds_example :
    let result = purchase env ids calm calm refusing request state in
    (result.0 ≡ err provider_fulfillment_failed)
    × (first_where (has_key "k1") result.1.topups ≡ some (set_status Status.failed row))
    × ((e' : CreditLedgerEntry) × IsRefunded bank 1 alice entry e' result.1.store.bank)
purchase_refunds_example =
    purchase_refunds env ids calm refusing request 1 offer row entry state reserved_state
      (accepts refusing refl) alice bank-IsValid (omega arith) no_debit no_refund alice_row
      (omega arith) refl

accrues :
    accruing env ids calm delivering request 1 offer row entry state reserved_state
      (accepts delivering refl)
      "x1"
      (skipped flag_disabled)
      reserved_state.store
    ≡ (ok (skipped flag_disabled), reserved_state.store)
unfolding accrue
accrues = refl

purchase_delivers_example :
    let result = purchase env ids calm calm delivering request state in
    (result.0 ≡ ok (set_fulfilled "x1" row))
    × (first_where (has_key "k1") result.1.topups ≡ some (set_fulfilled "x1" row))
    × (result.1.store ≡ reserved_state.store)
    × ((locked : Account) × (get_account 1 bank.accounts ≡ some locked)
        × (entry.delta ≡ neg (pos 4_500_000))
        × (pos 1 ≤ℤ pos 4_500_000)
        × (pos 4_500_000 ≤ℤ locked.balance)
        × Moves bank 1 locked entry (debit quiet 62 (topup_debit env ids 1 row) bank).1)
purchase_delivers_example =
    purchase_delivers env ids calm delivering request 1 offer row entry state reserved_state
      (accepts delivering refl) "x1" (skipped flag_disabled) reserved_state.store bank-IsValid
      no_debit refl (omega arith) accrues

delivered :
    purchase env ids calm calm delivering request state
    ≡ (ok (set_fulfilled "x1" row), (purchase env ids calm calm delivering request state).1)
delivered =
    ap (λ x. (x, (purchase env ids calm calm delivering request state).1))
      (purchase_delivers env ids calm delivering request 1 offer row entry state reserved_state
        (accepts delivering refl) "x1" (skipped flag_disabled) reserved_state.store bank-IsValid
        no_debit refl (omega arith) accrues).0

purchase_once_example :
    purchase env ids calm calm refusing request
      (purchase env ids calm calm delivering request state).1
    ≡ (ok (set_fulfilled "x1" row), (purchase env ids calm calm delivering request state).1)
purchase_once_example =
    purchase_once env env ids ids calm calm calm delivering refusing request request offer
      (set_fulfilled "x1" row) state (purchase env ids calm calm delivering request state).1
      delivered refl refl (accepts refusing refl).offered

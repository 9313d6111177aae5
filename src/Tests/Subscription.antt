-- ===== src/Tests/Subscription.antt =====
-- Renewals on the store of the commission tests: one subscription that is due, with no partner.
use roamkit_api.Base.{ℕ, ◌≡◌, refl, true, false, none, some, [], ◌∷◌, arith, ok}
use roamkit_api.Base.Int.{pos, negsuc, ◌+ℤ◌}
use roamkit_api.Money.{quantize}
use roamkit_api.Ledger.{CreditLedgerEntry, subscription, get_account, find_key, update_accounts}
use roamkit_api.Ledger.Credit.{
  apply, debit, check_arguments, normalize_amount, normalize_reference_type, fits_columns,
  write_entry,
}
use roamkit_api.Partner.Margin.{accrue, build_source_id}
use roamkit_api.Subscription.{
  update_subscriptions, set_cycle_status, Subscription, SubscriptionRenewalCycle, State, Settings,
  Outcome, Status, CycleStatus, get_subscription, find_cycle, is_active, is_renewed,
  get_or_create_renewal_cycle,
}
use roamkit_api.Subscription.Renewal.{
  set_status, RenewalIds, renew_one, renew_transaction, charge, renewal_key, renewal_movement,
  after_debit, advance, accrue_renewal, finish_accrual,
}
use roamkit_api.Subscription.Charge.{
  IsRenewal, charge-IsRenewal, charge_pauses, renew_transaction_once,
}
use roamkit_api.Subscription.Due.{
  renew_due, due_rows, is_due, due_ids, order_due, insert_due, count, Stats,
}
use roamkit_api.Tests.Ledger.{bank, alice, bank-IsValid}
use roamkit_api.Tests.Partner.{store, text}

abbrev plan : Subscription
plan = record {
  id = 5;
  account = 1;
  esim = 9;
  price_per_period = pos 2_000_000;
  next_billing_date = 100;
  status = Status.active;
}

abbrev cycle : SubscriptionRenewalCycle
cycle = record {
  subscription = 5;
  billing_date = 100;
  renewal_list_price_usd = pos 2_000_000;
  renewal_net_price_usd = some (pos 1_000_000);
  status = CycleStatus.pending;
}

abbrev state : State
state = record {
  store = store;
  subscriptions = plan ∷ [];
  cycles = cycle ∷ [];
  catalog = λ esim. (pos 2_000_000, some (pos 1_000_000));
}

abbrev settings : Settings
settings = record {
  billing_enabled = true;
  subscriptions_enabled = true;
  partner_channel_enabled = false;
}

abbrev ids : RenewalIds
ids = record { debit = 41; accrual = record { accrual = 42; entry = 43 } }

abbrev alone : State → State
alone s = s

abbrev entry : CreditLedgerEntry
entry = record {
  id = 41;
  account = 1;
  delta = negsuc 1_999_999;
  balance_after = pos 3_000_000;
  reference_type = subscription;
  reference_id = "1";
  idempotency_key = "subscription-renew:1:1";
}

charges : (charge text text ids settings plan cycle 100 state).0 ≡ ok (Outcome.renewed entry)
unfolding charge renewal_movement renewal_key after_debit advance accrue_renewal finish_accrual
    build_source_id accrue debit apply check_arguments normalize_amount normalize_reference_type
    quantize get_account find_key fits_columns write_entry update_accounts ◌+ℤ◌
charges = refl

fresh_key : find_key (renewal_key text text ids plan 100) bank.ledger ≡ none
unfolding renewal_key find_key
fresh_key = refl

charge-IsRenewal_example :
    IsRenewal text text ids plan cycle 100 entry state
      (charge text text ids settings plan cycle 100 state).1
charge-IsRenewal_example =
    charge-IsRenewal text text ids settings plan cycle 100 state entry bank-IsValid fresh_key
      charges

abbrev dear : Subscription
dear = record plan { price_per_period = pos 6_000_000 }

dear_checked :
    check_arguments (renewal_movement text text ids dear 100)
    ≡ ok (record { amount = pos 6_000_000; reference_type = subscription })
unfolding check_arguments normalize_amount normalize_reference_type quantize renewal_movement
dear_checked = refl

dear_fresh : find_key (renewal_key text text ids dear 100) bank.ledger ≡ none
unfolding renewal_key find_key
dear_fresh = refl

alice_row : get_account 1 bank.accounts ≡ some alice
unfolding get_account
alice_row = refl

charge_pauses_example :
    ((charge text text ids settings dear cycle 100 state).0 ≡ ok (Outcome.paused (pos 5_000_000)))
    × ((charge text text ids settings dear cycle 100 state).1.store ≡ store)
    × ((charge text text ids settings dear cycle 100 state).1.subscriptions
        ≡ update_subscriptions 5 (set_status Status.paused) (plan ∷ []))
    × ((charge text text ids settings dear cycle 100 state).1.cycles
        ≡ set_cycle_status 5 100 CycleStatus.paused (cycle ∷ []))
unfolding ◌+ℤ◌
charge_pauses_example =
    charge_pauses text text ids settings dear cycle 100 state
      (record { amount = pos 6_000_000; reference_type = subscription }) alice dear_checked
      alice_row dear_fresh (omega arith)

cycle_row : find_cycle 5 100 state.cycles ≡ some cycle
unfolding find_cycle
cycle_row = refl

plan_row : get_subscription 5 state.subscriptions ≡ some plan
unfolding get_subscription
plan_row = refl

renews : (renew_transaction text text ids settings 5 100 state).0 ≡ ok (Outcome.renewed entry)
unfolding renew_transaction find_cycle get_subscription is_active is_renewed charge renewal_movement
    renewal_key after_debit advance accrue_renewal finish_accrual build_source_id accrue debit apply
    check_arguments normalize_amount normalize_reference_type quantize get_account find_key
    fits_columns write_entry update_accounts ◌+ℤ◌
renews = refl

renew_transaction_once_example :
    renew_transaction text text ids settings 5 100
      (renew_transaction text text ids settings 5 100 state).1
    ≡ (ok Outcome.already_renewed, (renew_transaction text text ids settings 5 100 state).1)
renew_transaction_once_example =
    renew_transaction_once text text ids ids settings 5 100 state cycle plan entry cycle_row
      plan_row renews

abbrev fresh : ℕ → RenewalIds
fresh pk = ids

abbrev once : Stats
once = record { renewed = 1; paused = 0; skipped = 0 }

due_run : (renew_due text text fresh alone settings 101 state).0 ≡ ok once
unfolding renew_due due_ids due_rows is_due order_due insert_due count renew_one
    get_or_create_renewal_cycle renew_transaction find_cycle get_subscription is_active is_renewed
    charge renewal_movement renewal_key after_debit advance accrue_renewal finish_accrual
    build_source_id accrue debit apply check_arguments normalize_amount normalize_reference_type
    quantize get_account find_key fits_columns write_entry update_accounts ◌+ℤ◌
due_run = refl

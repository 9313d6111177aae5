-- ===== src/Subscription/Renewal.antt =====
-- `SubscriptionService.renew_one` of src/apps/billing/services/subscription.py. An error inside the
-- transaction rolls it back to the state that its locks found; the cycle stays.
use Prim.Native.String.{◌++◌}
use roamkit_api.Base.{
  ℕ, ◌+◌, not, Option, none, some, String, ◌==◌, ltb, if◌then◌else◌, Result, ok, err,
}
use roamkit_api.Money.{finite}
use roamkit_api.Ledger.{Bank, Account, CreditLedgerEntry, get_account, value}
use roamkit_api.Ledger
use roamkit_api.Ledger.Credit.{insufficient_funds, Movement, Attempt, quiet, debit, money_places}
use roamkit_api.Partner
use roamkit_api.Partner.{Store}
use roamkit_api.Partner.Margin.{Event, NewIds, Accruing, accrue, build_source_id}
use roamkit_api.Subscription.{
  Subscription, State, Settings, Status, SubscriptionRenewalCycle, CycleStatus, RenewalError,
  Outcome, Renewing, billing_disabled, subscriptions_disabled, cycle_missing, debit_failed,
  accrual_failed, no_source_id, period_days, get_subscription, update_subscriptions, find_cycle,
  set_cycle_status, get_or_create_renewal_cycle, is_active, is_renewed,
}

abbrev pub set_status : Status → Subscription → Subscription
set_status status x = record x { status = status }

abbrev pub set_next_date : ℕ → Subscription → Subscription
set_next_date date x = record x { next_billing_date = date }

abbrev pub user_of : Option Account → Option ℕ
user_of none = none
user_of (some a) = a.user

-- The keys of the rows that one renewal may insert.
pub record RenewalIds : Type 0 where
  pub debit : ℕ
  pub accrual : NewIds

-- The writes of a pause.
unfoldable pub pause : Subscription → ℕ → State → State
pause x date s = record s {
  subscriptions = update_subscriptions x.id (set_status Status.paused) s.subscriptions;
  cycles = set_cycle_status x.id date CycleStatus.paused s.cycles;
}

-- The writes of a renewal after its debit, before the accrual.
unfoldable pub advance : Subscription → ℕ → Bank → State → State
advance x date bank s = record s {
  store = record s.store { bank = bank };
  subscriptions = update_subscriptions x.id (set_next_date (date + period_days)) s.subscriptions;
  cycles = set_cycle_status x.id date CycleStatus.renewed s.cycles;
}

-- `s` is what the transaction found, `s'` what it has written before the accrual.
unfoldable pub finish_accrual : CreditLedgerEntry → State → State → Accruing → Renewing
finish_accrual entry s s' (ok a, store) = (ok (Outcome.renewed entry), record s' { store = store })
finish_accrual entry s s' (err e, store) = (err (accrual_failed e), s)

module _ (str iso : ℕ → String) (ids : RenewalIds) where
  unfoldable pub renewal_key : Subscription → ℕ → String
  renewal_key x date = "subscription-renew:" ++ (str x.id ++ (":" ++ iso date))

  unfoldable pub renewal_movement : Subscription → ℕ → Movement
  unfolding renewal_key
  renewal_movement x date = record {
    account = x.account;
    amount = some (finite (record { units = x.price_per_period; places = money_places }));
    reference_type = value Ledger.subscription;
    reference_id = str x.id;
    idempotency_key = renewal_key x date;
  }

  abbrev pub renewal_event : Subscription → SubscriptionRenewalCycle → String → Option ℕ → Event
  renewal_event x c source_id user = record {
    source_type = Partner.subscription;
    source_id = source_id;
    list_price = some c.renewal_list_price_usd;
    net_price = c.renewal_net_price_usd;
    customer = user;
  }

  unfoldable pub accrue_renewal :
      Settings
      → Subscription
      → SubscriptionRenewalCycle
      → ℕ
      → CreditLedgerEntry
      → State
      → State
      → Renewing
  unfolding finish_accrual build_source_id
  accrue_renewal settings x c date entry s s' =
      elim (build_source_id Partner.subscription (str x.id) (some (iso date))) [
        | none ↦ (err no_source_id, s)
        | some source_id ↦ finish_accrual entry s s' (
            accrue str ids.accrual
              (renewal_event x c source_id (user_of (get_account x.account s'.store.bank.accounts)))
              s'.store settings.partner_channel_enabled)
      ]

  -- The debit has been tried.
  unfoldable pub after_debit :
      Settings → Subscription → SubscriptionRenewalCycle → ℕ → State → Attempt → Renewing
  unfolding accrue_renewal advance pause
  after_debit settings x c date s (ok entry, bank) =
      accrue_renewal settings x c date entry s (advance x date bank s)
  after_debit settings x c date s (err (insufficient_funds balance required), bank) =
      (ok (Outcome.paused balance), pause x date s)
  after_debit settings x c date s (err e, bank) = (err (debit_failed e), s)

  unfoldable pub charge : Settings → Subscription → SubscriptionRenewalCycle → ℕ → State → Renewing
  unfolding renewal_movement after_debit
  charge settings x c date s =
      after_debit settings x c date s (debit quiet ids.debit (renewal_movement x date) s.store.bank)

  -- The tests on the locked rows.
  unfoldable pub renew_locked :
      Settings → ℕ → SubscriptionRenewalCycle → Subscription → State → Renewing
  unfolding charge
  renew_locked settings date c x s =
      if is_renewed c.status
      then (ok Outcome.already_renewed, s)
      else if not (is_active x.status)
      then (ok Outcome.skipped, s)
      else if not (x.next_billing_date == date)
      then (ok Outcome.skipped, s)
      else charge settings x c date s

  unfoldable pub renew_transaction : Settings → ℕ → ℕ → State → Renewing
  unfolding renew_locked
  renew_transaction settings pk date s = elim (find_cycle pk date s.cycles) [
    | none ↦ (err cycle_missing, s)
    | some c ↦ elim (get_subscription pk s.subscriptions) [
      | none ↦ (ok Outcome.skipped, s)
      | some x ↦ renew_locked settings date c x s
    ]
  ]

  module _ (others : State → State) (settings : Settings) (today : ℕ) (pk : ℕ) where
    unfoldable pub after_cycle : ℕ → Result RenewalError SubscriptionRenewalCycle × State → Renewing
    unfolding renew_transaction
    after_cycle date (err e, s) = (err e, s)
    after_cycle date (ok cycle, s) = renew_transaction settings pk date (others s)

    unfoldable pub renew_current : Subscription → State → Renewing
    unfolding after_cycle get_or_create_renewal_cycle
    renew_current x s =
        if not (is_active x.status)
        then (ok Outcome.skipped, s)
        else if ltb today x.next_billing_date
        then (ok Outcome.skipped, s)
        else after_cycle x.next_billing_date (get_or_create_renewal_cycle x x.next_billing_date s)

    unfoldable pub renew_one : State → Renewing
    unfolding renew_current
    renew_one s =
        if not settings.billing_enabled
        then (err billing_disabled, s)
        else if not settings.subscriptions_enabled
        then (err subscriptions_disabled, s)
        else elim (get_subscription pk s.subscriptions) [
          | none ↦ (ok Outcome.skipped, s)
          | some x ↦ renew_current x s
        ]

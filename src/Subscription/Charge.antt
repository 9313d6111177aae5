-- ===== src/Subscription/Charge.antt =====
-- What a renewal of src/apps/billing/services/subscription.py does: it charges the period's price
-- and moves the billing date, or it pauses and charges nothing; and a renewed cycle is not charged
-- again.
use roamkit_api.Base.{
  ℕ, ◌+◌, ◌≡◌, refl, none, some, List, [], ◌∷◌, String, arith, ok, err, ap, sym, ◌∙◌,
}
use roamkit_api.Base.Int.{pos, neg, ◌+ℤ◌, ◌≤ℤ◌}
use roamkit_api.Ledger.{Bank, Account, CreditLedgerEntry, get_account, find_key}
use roamkit_api.Ledger.Credit.{Attempt, quiet, debit, insufficient_funds, Checked, check_arguments}
use roamkit_api.Ledger.Invariant.{IsValid}
use roamkit_api.Ledger.Effects.{Moves, debit_moves, debit_refused}
use roamkit_api.Ledger.Amounts.{normalize_amount_units, check_arguments_amount}
use roamkit_api.Partner.Margin.{Accruing}
use roamkit_api.Subscription.{
  Subscription, State, Settings, Status, SubscriptionRenewalCycle, CycleStatus, Outcome, Renewing,
  is_renewed, get_subscription, update_subscriptions, update_subscription_row, find_cycle,
  set_cycle_status, period_days,
}
use roamkit_api.Subscription.Renewal.{
  RenewalIds, renewal_key, renewal_movement, after_debit, finish_accrual, charge, renew_locked,
  renew_transaction, set_next_date, set_status, pause, advance,
}
use roamkit_api.Subscription.Accrued.{IsAccrued, charge_accrues}

module _ (str iso : ℕ → String) (ids : RenewalIds) where
  -- What a renewal that reports `entry` has done from `s` to `s'`.
  pub record IsRenewal (x : Subscription) (c : SubscriptionRenewalCycle) (date : ℕ)
      (entry : CreditLedgerEntry) (s s' : State) : Type 0 where
    pub charged :
        (locked : Account) × (bank : Bank) × (get_account x.account s.store.bank.accounts
          ≡ some locked)
        × (entry.delta ≡ neg x.price_per_period)
        × (pos 1 ≤ℤ x.price_per_period)
        × (x.price_per_period ≤ℤ locked.balance)
        × Moves s.store.bank x.account locked entry bank
        × IsAccrued str iso ids x c date bank s.store s'.store
    pub dated :
        s'.subscriptions
        ≡ update_subscriptions x.id (set_next_date (date + period_days)) s.subscriptions
    pub closed : s'.cycles ≡ set_cycle_status x.id date CycleStatus.renewed s.cycles

module _ (str iso : ℕ → String) (ids : RenewalIds) (settings : Settings) where
  finished :
      (entry e : CreditLedgerEntry) (s s' : State) (a : Accruing)
      → (finish_accrual e s s' a).0 ≡ ok (Outcome.renewed entry)
      → (e ≡ entry)
        × ((finish_accrual e s s' a).1.subscriptions ≡ s'.subscriptions)
        × ((finish_accrual e s s' a).1.cycles ≡ s'.cycles)
  unfolding finish_accrual
  finished entry e s s' (ok a, store) h = ground arith
  finished entry e s s' (err x, store) h = cc

  charged_cases :
      (x : Subscription) (c : SubscriptionRenewalCycle) (date : ℕ) (s : State) (a : Attempt)
      (entry : CreditLedgerEntry)
      → (after_debit str iso ids settings x c date s a).0 ≡ ok (Outcome.renewed entry)
      → (a.0 ≡ ok entry)
        × ((after_debit str iso ids settings x c date s a).1.subscriptions
            ≡ update_subscriptions x.id (set_next_date (date + period_days)) s.subscriptions)
        × ((after_debit str iso ids settings x c date s a).1.cycles
            ≡ set_cycle_status x.id date CycleStatus.renewed s.cycles)
        × IsAccrued str iso ids x c date a.1 s.store
            (after_debit str iso ids settings x c date s a).1.store
  unfolding after_debit
  charged_cases x c date s (ok e, bank) entry h =
      let (same, subscriptions, cycles) = finished entry e s (advance x date bank s) _ h in
      (
        ap ok same,
        subscriptions,
        cycles,
        charge_accrues str iso ids settings x c date s e entry bank h,
      )
  charged_cases x c date s (err (insufficient_funds b r), bank) entry h = cc
  charged_cases x c date s (err _, bank) entry h = cc

  -- Under the invariant of the ledger, and with no earlier entry under the renewal's key, a charge
  -- that reports a renewal has debited exactly the period's price, which the balance covered, from
  -- the subscription's account; the store that it leaves has the bank after that debit, changed by
  -- nothing but the commission of this renewal, where one is earned; and it has set the next billing
  -- date thirty days on and marked the cycle renewed.
  pub charge-IsRenewal :
      (x : Subscription) (c : SubscriptionRenewalCycle) (date : ℕ) (s : State)
      (entry : CreditLedgerEntry)
      → IsValid s.store.bank
      → find_key (renewal_key str iso ids x date) s.store.bank.ledger ≡ none
      → (charge str iso ids settings x c date s).0 ≡ ok (Outcome.renewed entry)
      → IsRenewal str iso ids x c date entry s (charge str iso ids settings x c date s).1
  unfolding charge
  charge-IsRenewal x c date s entry v fresh h =
      let m = renewal_movement str iso ids x date in
      let (paid, subscriptions, cycles, accrued) =
        charged_cases x c date s (debit quiet ids.debit m s.store.bank) entry h in
      let (locked, row, delta, positive, covered, moves) =
        debit_moves ids.debit m x.price_per_period s.store.bank entry v fresh refl paid in
      record {
        charged = (
          locked,
          (debit quiet ids.debit m s.store.bank).1,
          row,
          delta,
          positive,
          covered,
          moves,
          accrued,
        );
        dated = subscriptions;
        closed = cycles;
      }

  -- With arguments that the ledger accepts, an account with too little balance for the price, and no
  -- earlier entry under the renewal's key, the charge pauses the subscription and its cycle, reports
  -- the balance, and leaves all the money alone.
  pub charge_pauses :
      (x : Subscription) (c : SubscriptionRenewalCycle) (date : ℕ) (s : State) (checked : Checked)
      (locked : Account)
      → check_arguments (renewal_movement str iso ids x date) ≡ ok checked
      → get_account x.account s.store.bank.accounts ≡ some locked
      → find_key (renewal_key str iso ids x date) s.store.bank.ledger ≡ none
      → locked.balance +ℤ pos 1 ≤ℤ x.price_per_period
      → let r = charge str iso ids settings x c date s in
        (r.0 ≡ ok (Outcome.paused locked.balance))
        × (r.1.store ≡ s.store)
        × (r.1.subscriptions ≡ update_subscriptions x.id (set_status Status.paused) s.subscriptions)
        × (r.1.cycles ≡ set_cycle_status x.id date CycleStatus.paused s.cycles)
  unfolding charge pause
  charge_pauses x c date s checked locked valid row fresh low =
      let m = renewal_movement str iso ids x date in
      let same : checked.amount ≡ x.price_per_period =
        normalize_amount_units x.price_per_period checked.amount
          (check_arguments_amount m checked valid) in
      let refused =
        (debit_refused quiet ids.debit m s.store.bank checked locked valid row fresh).1
          (rw same low) in
      rw (refused, after_debit) (refl, refl, refl, refl)

find_cycle-set_cycle_status :
    (pk date : ℕ) (status : CycleStatus) (rows : List SubscriptionRenewalCycle)
    (c : SubscriptionRenewalCycle)
    → find_cycle pk date rows ≡ some c
    → find_cycle pk date (set_cycle_status pk date status rows)
      ≡ some (record c { status = status })
unfolding find_cycle set_cycle_status
find_cycle-set_cycle_status pk date status [] c h = cc
find_cycle-set_cycle_status pk date status (x ∷ rows) c h =
    ground (arith, find_cycle-set_cycle_status pk date status rows c)

id-get_subscription :
    (pk : ℕ) (rows : List Subscription) (x : Subscription)
    → get_subscription pk rows ≡ some x
    → x.id ≡ pk
unfolding get_subscription
id-get_subscription pk [] x h = cc
id-get_subscription pk (y ∷ rows) x h = ground (arith, id-get_subscription pk rows x)

get_subscription-update :
    (pk k : ℕ) (f : Subscription → Subscription) (rows : List Subscription) (x : Subscription)
    → ((y : Subscription) → (f y).id ≡ y.id)
    → get_subscription pk rows ≡ some x
    → get_subscription pk (update_subscriptions k f rows) ≡ some (update_subscription_row k f x)
unfolding get_subscription update_subscriptions
get_subscription-update pk k f [] x keeps h = cc
get_subscription-update pk k f (y ∷ rows) x keeps h =
    ground (arith, keeps y, get_subscription-update pk k f rows x keeps)

module _ (str iso : ℕ → String) (ids ids' : RenewalIds) (settings : Settings) (pk date : ℕ) where
  -- A cycle that is marked renewed is left alone by every further transaction on its date.
  renewed_cycle_done :
      (s : State) (c : SubscriptionRenewalCycle) (x : Subscription)
      → find_cycle pk date s.cycles ≡ some c
      → c.status ≡ CycleStatus.renewed
      → get_subscription pk s.subscriptions ≡ some x
      → renew_transaction str iso ids' settings pk date s ≡ (ok Outcome.already_renewed, s)
  unfolding renew_transaction renew_locked is_renewed
  renewed_cycle_done s c x found closed row =
      rw (found, renew_transaction) (rw row (ground (arith, closed)))

  locked_renewal :
      (c : SubscriptionRenewalCycle) (x : Subscription) (s : State) (entry : CreditLedgerEntry)
      → (renew_locked str iso ids settings date c x s).0 ≡ ok (Outcome.renewed entry)
      → renew_locked str iso ids settings date c x s ≡ charge str iso ids settings x c date s
  unfolding renew_locked
  locked_renewal c x s entry h = ground arith

  transaction_rows :
      (s : State) (c : SubscriptionRenewalCycle) (x : Subscription)
      → find_cycle pk date s.cycles ≡ some c
      → get_subscription pk s.subscriptions ≡ some x
      → renew_transaction str iso ids settings pk date s
        ≡ renew_locked str iso ids settings date c x s
  unfolding renew_transaction
  transaction_rows s c x found row = rw (found, renew_transaction) (rw row)

  charge_done :
      (s : State) (c : SubscriptionRenewalCycle) (x : Subscription) (entry : CreditLedgerEntry)
      → find_cycle pk date s.cycles ≡ some c
      → get_subscription pk s.subscriptions ≡ some x
      → (charge str iso ids settings x c date s).0 ≡ ok (Outcome.renewed entry)
      → renew_transaction str iso ids' settings pk date (charge str iso ids settings x c date s).1
        ≡ (ok Outcome.already_renewed, (charge str iso ids settings x c date s).1)
  unfolding charge
  charge_done s c x entry found row h =
      let (_, subscriptions, cycles, _) =
        charged_cases str iso ids settings x c date s
          (debit quiet ids.debit (renewal_movement str iso ids x date) s.store.bank) entry h in
      let own : x.id ≡ pk = id-get_subscription pk s.subscriptions x row in
      renewed_cycle_done (charge str iso ids settings x c date s).1
        (record c { status = CycleStatus.renewed })
        (update_subscription_row x.id (set_next_date (date + period_days)) x)
        (rw cycles
          (rw own (find_cycle-set_cycle_status pk date CycleStatus.renewed s.cycles c found)))
        refl
        (rw subscriptions (
          get_subscription-update pk x.id (set_next_date (date + period_days)) s.subscriptions x
            (λ y. refl) row))

  -- Two transactions on one billing date charge once: after one that finds the cycle and the
  -- subscription and reports a renewal, the next reports that the cycle is done and changes
  -- nothing.
  pub renew_transaction_once :
      (s : State) (c : SubscriptionRenewalCycle) (x : Subscription) (entry : CreditLedgerEntry)
      → find_cycle pk date s.cycles ≡ some c
      → get_subscription pk s.subscriptions ≡ some x
      → (renew_transaction str iso ids settings pk date s).0 ≡ ok (Outcome.renewed entry)
      → renew_transaction str iso ids' settings pk date
          (renew_transaction str iso ids settings pk date s).1
        ≡ (ok Outcome.already_renewed, (renew_transaction str iso ids settings pk date s).1)
  renew_transaction_once s c x entry found row h =
      let start = transaction_rows s c x found row in
      let same = start ∙ locked_renewal c x s entry (ap (λ (r : Renewing). r.0) (sym start) ∙ h) in
      rw same (charge_done s c x entry found row (ap (λ (r : Renewing). r.0) (sym same) ∙ h))

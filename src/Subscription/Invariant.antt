-- ===== src/Subscription/Invariant.antt =====
-- A renewal of src/apps/billing/services/subscription.py keeps the invariant of the ledger.
use roamkit_api.Base.{
  ℕ, ◌≡◌, Bool, true, false, String, arith, Result, ok, err, ◌==◌, if◌then◌else◌, inl, inr,
  Option-cases, not, sym, ltb,
}
use mathlib.Core.Path.{subst}
use roamkit_api.Ledger.{CreditLedgerEntry, get_account}
use roamkit_api.Ledger.Credit.{Attempt, quiet, debit, insufficient_funds}
use roamkit_api.Ledger.Invariant.{IsValid, debit-IsValid}
use roamkit_api.Partner.{Store}
use roamkit_api.Partner.Margin.{Accruing, accrue}
use Prim.Native.String.{◌++◌}
use roamkit_api.Partner.Accrual.{accrue-IsValid}
use roamkit_api.Subscription.{
  Subscription, State, Settings, SubscriptionRenewalCycle, Outcome, Renewing, RenewalError,
  billing_disabled, subscriptions_disabled, is_renewed, is_active, get_subscription,
  get_or_create_renewal_cycle, find_cycle,
}
use roamkit_api.Subscription.Renewal.{
  RenewalIds, renewal_movement, after_debit, finish_accrual, charge, renew_locked,
  renew_transaction, renew_one, renew_current, after_cycle, pause, advance, renewal_event, user_of,
}

if-IsValid :
    (b : Bool) (r t : Renewing)
    → IsValid r.1.store.bank
    → IsValid t.1.store.bank
    → IsValid (if b then r else t).1.store.bank
if-IsValid true r t v w = v
if-IsValid false r t v w = w

finish_accrual-IsValid :
    (entry : CreditLedgerEntry) (s s' : State) (a : Accruing)
    → IsValid s.store.bank
    → IsValid a.1.bank
    → IsValid (finish_accrual entry s s' a).1.store.bank
unfolding finish_accrual
finish_accrual-IsValid entry s s' (ok a, store) v w = w
finish_accrual-IsValid entry s s' (err e, store) v w = v

module _ (str iso : ℕ → String) (ids : RenewalIds) (settings : Settings) where
  after_debit-IsValid :
      (x : Subscription) (c : SubscriptionRenewalCycle) (date : ℕ) (s : State) (a : Attempt)
      → IsValid s.store.bank
      → IsValid a.1
      → IsValid (after_debit str iso ids settings x c date s a).1.store.bank
  unfolding after_debit
  after_debit-IsValid x c date s (ok entry, bank) v w =
      let s' = advance x date bank s in
      let ev =
        renewal_event str iso ids x c (str x.id ++ (":" ++ iso date))
          (user_of (get_account x.account bank.accounts)) in
      finish_accrual-IsValid entry s s'
        (accrue str ids.accrual ev s'.store settings.partner_channel_enabled) v
        (accrue-IsValid str ids.accrual ev s'.store settings.partner_channel_enabled w)
  after_debit-IsValid x c date s (err (insufficient_funds b r), bank) v w = unfold pause in v
  after_debit-IsValid x c date s (err _, bank) v w = v

  charge-IsValid :
      (x : Subscription) (c : SubscriptionRenewalCycle) (date : ℕ) (s : State)
      → IsValid s.store.bank
      → IsValid (charge str iso ids settings x c date s).1.store.bank
  unfolding charge
  charge-IsValid x c date s v =
      after_debit-IsValid x c date s
        (debit quiet ids.debit (renewal_movement str iso ids x date) s.store.bank) v
        (debit-IsValid ids.debit (renewal_movement str iso ids x date) s.store.bank v)

  renew_locked-IsValid :
      (date : ℕ) (c : SubscriptionRenewalCycle) (x : Subscription) (s : State)
      → IsValid s.store.bank
      → IsValid (renew_locked str iso ids settings date c x s).1.store.bank
  unfolding renew_locked
  renew_locked-IsValid date c x s v =
      if-IsValid (is_renewed c.status) (ok Outcome.already_renewed, s) _ v
        (if-IsValid (not (is_active x.status)) (ok Outcome.skipped, s) _ v
          (if-IsValid (not (x.next_billing_date == date)) (ok Outcome.skipped, s) _ v
            (charge-IsValid x c date s v)))

  renew_transaction-IsValid :
      (pk date : ℕ) (s : State)
      → IsValid s.store.bank
      → IsValid (renew_transaction str iso ids settings pk date s).1.store.bank
  unfolding renew_transaction
  renew_transaction-IsValid pk date s v = elim (Option-cases (find_cycle pk date s.cycles)) [
    | inl missing ↦ rw (missing, renew_transaction) v
    | inr (c, opened) ↦ elim (Option-cases (get_subscription pk s.subscriptions)) [
      | inl missing ↦ rw (opened, renew_transaction) (rw missing v)
      | inr (x, row) ↦ rw (opened, renew_transaction) (rw (row) (renew_locked-IsValid date c x s v))
    ]
  ]

  module _ (others : State → State)
      (keeps : (t : State) → IsValid t.store.bank → IsValid (others t).store.bank) where
    after_cycle-IsValid :
        (today pk date : ℕ) (r : Result RenewalError SubscriptionRenewalCycle × State)
        → IsValid r.1.store.bank
        → IsValid (after_cycle str iso ids others settings today pk date r).1.store.bank
    unfolding after_cycle
    after_cycle-IsValid today pk date (err e, s) v = v
    after_cycle-IsValid today pk date (ok c, s) v =
        renew_transaction-IsValid pk date (others s) (keeps s v)

    store-cycle :
        (x : Subscription) (date : ℕ) (s : State)
        → (get_or_create_renewal_cycle x date s).1.store ≡ s.store
    unfolding get_or_create_renewal_cycle
    store-cycle x date s = ground arith

    renew_current-IsValid :
        (today pk : ℕ) (x : Subscription) (s : State)
        → IsValid s.store.bank
        → IsValid (renew_current str iso ids others settings today pk x s).1.store.bank
    unfolding renew_current
    renew_current-IsValid today pk x s v =
        if-IsValid (not (is_active x.status)) (ok Outcome.skipped, s) _ v
          (if-IsValid (ltb today x.next_billing_date) (ok Outcome.skipped, s) _ v
            (after_cycle-IsValid today pk x.next_billing_date
              (get_or_create_renewal_cycle x x.next_billing_date s)
              (subst (λ (t : Store). IsValid t.bank) (sym (store-cycle x x.next_billing_date s))
                v)))

    -- From a bank that keeps the invariant of the ledger a renewal keeps it, however it ends, if
    -- the transactions between its two locks do.
    pub renew_one-IsValid :
        (today pk : ℕ) (s : State)
        → IsValid s.store.bank
        → IsValid (renew_one str iso ids others settings today pk s).1.store.bank
    unfolding renew_one
    renew_one-IsValid today pk s v =
        if-IsValid (not settings.billing_enabled) (err billing_disabled, s) _ v
          (if-IsValid (not settings.subscriptions_enabled) (err subscriptions_disabled, s) _ v
            (elim (Option-cases (get_subscription pk s.subscriptions)) [
              | inl missing ↦ rw missing v
              | inr (x, row) ↦ rw row (renew_current-IsValid today pk x s v)
            ]))

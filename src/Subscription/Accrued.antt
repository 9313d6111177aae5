-- ===== src/Subscription/Accrued.antt =====
-- The accrual of a renewal of src/apps/billing/services/subscription.py: what it may add to the store
-- that the debit has left.
use Prim.Native.String.{◌++◌}
use roamkit_api.Base.{ℕ, ◌≡◌, refl, some, String, ok, err}
use roamkit_api.Ledger.{Bank, CreditLedgerEntry, get_account}
use mathlib.Core.Path.{subst}
use roamkit_api.Partner
use roamkit_api.Partner.{Store}
use roamkit_api.Partner.Margin.{Accruing, Accrued, accrue, build_source_id}
use roamkit_api.Partner.Accrual.{Accruals, accrue-Accruals}
use roamkit_api.Subscription.{Subscription, State, Settings, SubscriptionRenewalCycle, Outcome}
use roamkit_api.Subscription.Renewal.{
  RenewalIds, finish_accrual, accrue_renewal, renewal_event, user_of, advance,
}

module _ (str iso : ℕ → String) (ids : RenewalIds) where
  -- The store `t` is what the accrual for this renewal makes of `store` with the bank `bank`: that
  -- store itself, or that store with the commission credited and its row added.
  abbrev pub IsAccrued : Subscription → SubscriptionRenewalCycle → ℕ → Bank → Store → Store → Type 0
  IsAccrued x c date bank store t =
      (source_id : String) × (a : Accrued) × (build_source_id Partner.subscription (str x.id)
          (some (iso date))
        ≡ some source_id)
      × Accruals str ids.accrual
          (renewal_event str iso ids x c source_id (user_of (get_account x.account bank.accounts)))
          (record store { bank = bank }) (user_of (get_account x.account bank.accounts)) (ok a, t)

module _ (str iso : ℕ → String) (ids : RenewalIds) (settings : Settings) where
  finished_store :
      (entry e : CreditLedgerEntry) (s s' : State) (r : Accruing)
      → (finish_accrual e s s' r).0 ≡ ok (Outcome.renewed entry)
      → (a : Accrued) × (r ≡ (ok a, (finish_accrual e s s' r).1.store))
  unfolding finish_accrual
  finished_store entry e s s' (ok a, store) h = (a, refl)
  finished_store entry e s s' (err x, store) h = cc

  pub charge_accrues :
      (x : Subscription) (c : SubscriptionRenewalCycle) (date : ℕ) (s : State)
      (e entry : CreditLedgerEntry) (bank : Bank)
      → (accrue_renewal str iso ids settings x c date e s (advance x date bank s)).0
        ≡ ok (Outcome.renewed entry)
      → IsAccrued str iso ids x c date bank s.store
          (accrue_renewal str iso ids settings x c date e s (advance x date bank s)).1.store
  unfolding accrue_renewal advance build_source_id
  charge_accrues x c date s e entry bank h =
      let source_id = str x.id ++ (":" ++ iso date) in
      let user = user_of (get_account x.account bank.accounts) in
      let ev = renewal_event str iso ids x c source_id user in
      let store : Store = record s.store { bank = bank } in
      let r = accrue str ids.accrual ev store settings.partner_channel_enabled in
      let (a, done) = finished_store entry e s (advance x date bank s) r h in
      (
        source_id,
        a,
        refl,
        subst (Accruals str ids.accrual ev store user) done
            (accrue-Accruals str ids.accrual ev store settings.partner_channel_enabled),
      )

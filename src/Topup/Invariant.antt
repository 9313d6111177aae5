-- ===== src/Topup/Invariant.antt =====
-- A purchase of src/apps/esims/services/topup_service.py keeps the invariant of the ledger.
use Prim.Native.String.{count}
use roamkit_api.Base.{
  ℕ, Bool, true, false, not, String, str_eq, ◌==◌, Result, ok, err, if◌then◌else◌, inl, inr,
  Option-cases, Result-cases, first_where, leb,
}
use roamkit_api.Base.Int.{pos, leb_ℤ}
use roamkit_api.Ledger.Credit.{Attempt}
use roamkit_api.Ledger.Invariant.{IsValid, debit-IsValid, credit-IsValid}
use roamkit_api.Ledger.{get_account}
use roamkit_api.Partner.Margin.{Accruing}
use roamkit_api.Partner.Accrual.{accrue-IsValid}
use roamkit_api.Subscription.Renewal.{user_of}
use roamkit_api.Esims.{Esim}
use roamkit_api.Topup.{
  Topup, TopupPackage, TopupError, State, Environment, has_id, has_key, is_esim, fits_columns,
  is_failed,
}
use roamkit_api.Topup.Spend.{
  Request, NewRows, Provider, Reserving, reserved, replayed, topup_debit, topup_refund, after_debit,
  create_and_debit, set_fulfilled, resolve_package, resolve_topup_charge,
}
use roamkit_api.Topup.Purchase.{
  topup_event, after_refund, compensate_failed, after_accrual, accrue_topup, persist_fulfillment,
  after_compensation, reserve_locked, reserve_and_debit, fulfil, after_reservation, spend_account,
  purchase,
}

abbrev IsSound : {A : Type 0} → A × State → Type 0
IsSound r = IsValid r.1.store.bank

if-IsSound :
    {A : Type 0} (b : Bool) (r t : A × State) → IsSound r → IsSound t → IsSound (if b then r else t)
if-IsSound true r t v w = v
if-IsSound false r t v w = w

module _ (env : Environment) (ids : NewRows) where
  after_debit-IsSound :
      (t : Topup) (s : State) (a : Attempt)
      → IsValid s.store.bank
      → IsValid a.1
      → IsSound (after_debit env ids t s a)
  unfolding after_debit
  after_debit-IsSound t s (ok e, bank) v w = w
  after_debit-IsSound t s (err e, bank) v w = v

  create_and_debit-IsSound :
      (account : ℕ) (key : String) (t : Topup) (s : State)
      → IsValid s.store.bank
      → IsSound (create_and_debit env ids account key t s)
  unfolding create_and_debit
  create_and_debit-IsSound account key t s v =
      if-IsSound (not (fits_columns t)) _ _ v
        (elim (Option-cases (first_where (has_key key) s.topups)) [
          | inr (x, found) ↦ rw (found, create_and_debit) v
          | inl absent ↦
              rw (absent, create_and_debit)
                (if-IsSound (leb_ℤ t.amount (pos 0)) _ _ v (
                  after_debit-IsSound t s _ v
                    (debit-IsValid ids.debit (topup_debit env ids account t) s.store.bank v)))
        ])

  after_refund-IsSound :
      (t : Topup) (s : State) (a : Attempt)
      → IsValid s.store.bank
      → IsValid a.1
      → IsSound (after_refund env ids t s a)
  unfolding after_refund
  after_refund-IsSound t s (ok e, bank) v w = w
  after_refund-IsSound t s (err e, bank) v w = v

  compensate_failed-IsSound :
      (account : ℕ) (t : Topup) (s : State)
      → IsValid s.store.bank
      → IsSound (compensate_failed env ids account t s)
  unfolding compensate_failed
  compensate_failed-IsSound account t s v =
      elim (Option-cases (first_where (has_id t.id) s.topups)) [
        | inl absent ↦ rw (absent, compensate_failed) v
        | inr (x, found) ↦
            rw (found, compensate_failed)
              (if-IsSound (is_failed x.status) _ _ v (
                after_refund-IsSound x s _ v
                  (credit-IsValid ids.refund (topup_refund env ids account x) s.store.bank v)))
      ]

  after_compensation-IsSound :
      (r : Result TopupError (Unit {0}) × State)
      → IsSound r
      → IsSound (after_compensation env ids r)
  unfolding after_compensation
  after_compensation-IsSound (ok done, s) v = v
  after_compensation-IsSound (err e, s) v = v

  after_accrual-IsSound :
      (t : Topup) (s s' : State) (a : Accruing)
      → IsValid s.store.bank
      → IsValid a.1.bank
      → IsSound (after_accrual env ids t s s' a)
  unfolding after_accrual
  after_accrual-IsSound t s s' (ok a, store) v w = w
  after_accrual-IsSound t s s' (err e, store) v w = v

  accrue_topup-IsSound :
      (t : Topup) (s s' : State)
      → IsValid s.store.bank
      → IsValid s'.store.bank
      → IsSound (accrue_topup env ids t s s')
  unfolding accrue_topup
  accrue_topup-IsSound t s s' v w = after_accrual-IsSound t s s' _ v (
      accrue-IsValid env.str ids.accrual
        (topup_event env ids t (env.str t.id)
          (user_of (get_account t.account s'.store.bank.accounts)))
        s'.store env.partner_channel_enabled w)

  persist_fulfillment-IsSound :
      (t : Topup) (external_order_id : String) (s : State)
      → IsValid s.store.bank
      → IsSound (persist_fulfillment env ids t external_order_id s)
  unfolding persist_fulfillment
  persist_fulfillment-IsSound t external_order_id s v =
      if-IsSound (not (leb (count external_order_id) 64)) _ _ v
        (elim (Option-cases (first_where (has_id t.id) s.topups)) [
          | inl absent ↦ rw (absent, persist_fulfillment) v
          | inr (x, found) ↦
              rw (found, persist_fulfillment)
                (accrue_topup-IsSound (set_fulfilled external_order_id t) s _ v v)
        ])

  module _ (others meanwhile : State → State) (provider : Provider) (r : Request)
      (keeps : (s : State) → IsValid s.store.bank → IsValid (others s).store.bank)
      (keeps' : (s : State) → IsValid s.store.bank → IsValid (meanwhile s).store.bank) where
    reserve_locked-IsSound :
        (account : ℕ) (offer : TopupPackage) (locked : Esim) (s : State)
        → IsValid s.store.bank
        → IsSound (reserve_locked env ids others meanwhile provider r account offer locked s)
    unfolding reserve_locked
    reserve_locked-IsSound account offer locked s v =
        if-IsSound (not (locked.account == account)) _ _ v
          (elim (Result-cases (resolve_topup_charge env ids account offer s)) [
            | inr (x, bad) ↦ rw (bad, reserve_locked) v
            | inl (charge, priced) ↦
                rw (priced, reserve_locked)
                  (create_and_debit-IsSound account r.idempotency_key _ (others s) (keeps s v))
          ])

    reserve_and_debit-IsSound :
        (account : ℕ) (offer : TopupPackage) (s : State)
        → IsValid s.store.bank
        → IsSound (reserve_and_debit env ids others meanwhile provider r account offer s)
    unfolding reserve_and_debit
    reserve_and_debit-IsSound account offer s v =
        if-IsSound (not env.billing_enabled) _ _ v
          (elim (Option-cases (first_where (has_key r.idempotency_key) s.topups)) [
            | inr (x, found) ↦ rw (found, reserve_and_debit) v
            | inl absent ↦ elim (Option-cases (first_where (is_esim r.esim.id) s.esims)) [
              | inl missing ↦ rw (absent, reserve_and_debit) (rw missing v)
              | inr (x, row) ↦
                  rw (absent, reserve_and_debit)
                    (rw row (reserve_locked-IsSound account offer x s v))
            ]
          ])

    fulfil-IsSound :
        (account : ℕ) (offer : TopupPackage) (t : Topup) (s : State)
        → IsValid s.store.bank
        → IsSound (fulfil env ids others meanwhile provider r account offer t s)
    unfolding fulfil
    fulfil-IsSound account offer t s v =
        elim (Option-cases (provider.submit_topup offer.external_id)) [
          | inl refused ↦
              rw (refused, fulfil)
                (after_compensation-IsSound _
                  (compensate_failed-IsSound account t (meanwhile s) (keeps' s v)))
          | inr (x, done) ↦
              rw (done, fulfil) (persist_fulfillment-IsSound t x (meanwhile s) (keeps' s v))
        ]

    after_reservation-IsSound :
        (account : ℕ) (offer : TopupPackage) (a : Reserving)
        → IsSound a
        → IsSound (after_reservation env ids others meanwhile provider r account offer a)
    unfolding after_reservation
    after_reservation-IsSound account offer (err e, s) v = v
    after_reservation-IsSound account offer (ok (replayed t), s) v = v
    after_reservation-IsSound account offer (ok (reserved t e), s) v =
        fulfil-IsSound account offer t s v

    -- From a bank that keeps the invariant of the ledger the purchase of a top-up keeps it, however
    -- it ends, if the transactions that commit while it runs do.
    pub purchase-IsValid :
        (s : State)
        → IsValid s.store.bank
        → IsValid (purchase env ids others meanwhile provider r s).1.store.bank
    unfolding purchase
    purchase-IsValid s v =
        if-IsSound (str_eq r.idempotency_key "") _ _ v
          (elim (Result-cases (spend_account env ids others meanwhile provider r r.account s)) [
            | inr (x, bad) ↦ rw (bad, purchase) v
            | inl (account, payer) ↦
                elim (Result-cases (resolve_package r.package_id provider.list_topups)) [
                  | inr (x, bad) ↦ rw (payer, purchase) (rw bad v)
                  | inl (offer, given) ↦
                      rw (payer, purchase)
                        (rw given (
                          after_reservation-IsSound account offer _
                            (reserve_and_debit-IsSound account offer s v)))
                ]
          ])

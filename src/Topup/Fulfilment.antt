-- ===== src/Topup/Fulfilment.antt =====
-- A top-up of src/apps/esims/services/topup_service.py that the provider delivers is fulfilled and
-- has been paid once.
use Prim.Native.String.{count}
use roamkit_api.Base.{
  ℕ, ◌≤◌, ◌≡◌, true, none, some, ◌∷◌, String, eq_iff, arith, ok, leb, first_where, update_where,
  first_where-cons, first_where-update_where, refl, ap, ◌∙◌,
}
use roamkit_api.Base.Int.{neg, pos, ◌≤ℤ◌}
use roamkit_api.Ledger.{Bank, Account, CreditLedgerEntry, get_account, find_key}
use roamkit_api.Ledger.Credit.{quiet, debit}
use roamkit_api.Ledger.Invariant.{IsValid}
use roamkit_api.Ledger.Effects.{Moves, debit_moves}
use roamkit_api.Partner.{Store}
use roamkit_api.Partner.Margin.{Accrued, Accruing, accrue}
use roamkit_api.Subscription.Renewal.{user_of}
use roamkit_api.Topup.{Topup, TopupPackage, State, Environment, has_id, has_key}
use roamkit_api.Topup.Spend.{Request, NewRows, Provider, set_fulfilled, with_bank, topup_debit}
use roamkit_api.Topup.Purchase.{
  topup_event, after_accrual, accrue_topup, persist_fulfillment, fulfil, purchase,
}
use roamkit_api.Topup.Reservation.{reserve_and_debit-IsReserved}
use roamkit_api.Topup.Refund.{calm, IsAccepted, purchase_fulfils}

module _ (env : Environment) (ids : NewRows) (others : State → State) (provider : Provider)
    (r : Request) (account : ℕ) (offer : TopupPackage) (t : Topup) (e : CreditLedgerEntry)
    (s s1 : State) (accepted : IsAccepted env ids others provider r account offer t e s s1)
    (external_order_id : String) (a : Accrued) (store : Store) where
  abbrev paid_bank : Bank
  paid_bank = (debit quiet ids.debit (topup_debit env ids account t) (others s).store.bank).1

  abbrev reserved_state : State
  reserved_state = record (with_bank paid_bank (others s)) { topups = t ∷ (others s).topups }

  -- What the accrual of the commission is asked for, and where.
  abbrev pub accruing : Accruing
  accruing =
      accrue env.str ids.accrual
        (topup_event env ids (set_fulfilled external_order_id t) (env.str t.id)
          (user_of (get_account t.account paid_bank.accounts)))
        (record (others s).store { bank = paid_bank }) env.partner_channel_enabled

  abbrev fulfilled_state : State
  fulfilled_state = record reserved_state {
    topups = update_where (has_id t.id) (set_fulfilled external_order_id) (t ∷ (others s).topups);
  }

  persist_reserved :
      count external_order_id ≤ 64
      → accruing ≡ (ok a, store)
      → persist_fulfillment env ids t external_order_id reserved_state
        ≡ (ok (set_fulfilled external_order_id t), record fulfilled_state { store = store })
  unfolding persist_fulfillment accrue_topup after_accrual
  persist_reserved fit accrued =
      let listed : first_where (has_id t.id) (t ∷ (others s).topups) ≡ some t =
        first_where-cons (has_id t.id) t (others s).topups (ground arith) in
      let short : leb (count external_order_id) 64 ≡ true = ground (arith, fit) in
      rw short (
        rw (listed, persist_fulfillment)
          (ap
            (after_accrual env ids (set_fulfilled external_order_id t) reserved_state
              fulfilled_state)
            accrued))

  fulfilled_purchase :
      provider.submit_topup offer.external_id ≡ some external_order_id
      → count external_order_id ≤ 64
      → accruing ≡ (ok a, store)
      → purchase env ids others calm provider r s
        ≡ (ok (set_fulfilled external_order_id t), record fulfilled_state { store = store })
  unfolding fulfil
  fulfilled_purchase done fit accrued =
      let found =
        reserve_and_debit-IsReserved env ids others calm provider r account offer t e s s1
          accepted.done in
      purchase_fulfils env ids others provider r account offer t e s s1 accepted
      ∙ ap (fulfil env ids others calm provider r account offer t) found.reservation.state
      ∙ rw (done, fulfil) (persist_reserved fit accrued)

  -- A purchase has reserved `t` and debited its account, on a bank that keeps the invariant of the
  -- ledger and has no entry under the debit's key, while nothing else commits between that and the
  -- provider's answer. If the provider delivers, with an order key of at most 64 characters, and the
  -- accrual of the commission returns, then the purchase returns the top-up, and the row under the
  -- request's key is fulfilled; the account has paid exactly the top-up's amount, which was positive
  -- and within its balance, before the accrual made its own changes.
  pub purchase_delivers :
      IsValid (others s).store.bank
      → find_key (topup_debit env ids account t).idempotency_key (others s).store.bank.ledger ≡ none
      → provider.submit_topup offer.external_id ≡ some external_order_id
      → count external_order_id ≤ 64
      → accruing ≡ (ok a, store)
      → let result = purchase env ids others calm provider r s in
        (result.0 ≡ ok (set_fulfilled external_order_id t))
        × (first_where (has_key r.idempotency_key) result.1.topups
            ≡ some (set_fulfilled external_order_id t))
        × (result.1.store ≡ store)
        × ((locked : Account) × (get_account account (others s).store.bank.accounts ≡ some locked)
            × (e.delta ≡ neg t.amount)
            × (pos 1 ≤ℤ t.amount)
            × (t.amount ≤ℤ locked.balance)
            × Moves (others s).store.bank account locked e paid_bank)
  unfolding topup_debit
  purchase_delivers valid new done fit accrued =
      let found =
        reserve_and_debit-IsReserved env ids others calm provider r account offer t e s s1
          accepted.done in
      let key : t.idempotency_key ≡ some r.idempotency_key =
        ap (λ (x : Topup). x.idempotency_key) found.created in
      let keyed =
        first_where-cons (has_key r.idempotency_key) t (others s).topups
          (ground (arith, key, eq_iff r.idempotency_key r.idempotency_key)) in
      let row =
        first_where-update_where (has_key r.idempotency_key) (has_id t.id)
          (set_fulfilled external_order_id) (t ∷ (others s).topups) t (λ y. refl) keyed in
      rw (fulfilled_purchase done fit accrued) (
        refl,
        row ∙ ground arith,
        refl,
        debit_moves ids.debit (topup_debit env ids account t) t.amount (others s).store.bank e valid
            new refl found.reservation.paid,
      )

-- ===== src/Topup/Purchase.antt =====
-- `TopupService.purchase` of src/apps/esims/services/topup_service.py. Its transactions are the
-- reservation with the debit, then, once the provider has answered, the refund or the fulfilment.
-- `others` is what other transactions commit between the reservation's test of the key and its
-- insert, `meanwhile` what they commit while the provider is asked. What the provider answers is a
-- parameter; the events that are published follow from the rows.
use Prim.Native.String.{count}
use roamkit_api.Base.{
  ℕ, Bool, not, ◌&&◌, Option, none, some, String, str_eq, ◌==◌, leb, if◌then◌else◌, Result, ok, err,
  first_where, update_where,
}
use roamkit_api.Ledger.{get_account}
use roamkit_api.Ledger.Credit.{Attempt, quiet, credit}
use roamkit_api.Partner
use roamkit_api.Partner.Margin.{Event, Accruing, accrue, build_source_id}
use roamkit_api.Subscription.Renewal.{user_of}
use roamkit_api.Esims.{Esim}
use roamkit_api.Topup.{
  Topup, Status, TopupPackage, State, Environment, TopupError, key_required, ownership_changed,
  billing_disabled, esim_missing, topup_missing, data_error, provider_fulfillment_failed,
  refund_failed, accrual_failed, no_source_id, has_id, has_key, is_esim, ledger_units, is_failed,
}
use roamkit_api.Topup.Spend.{
  NewRows, Provider, Purchasing, Request, Reserving, create_and_debit, new_topup, replay_existing,
  replayed, reserved, resolve_package, resolve_topup_charge, set_fulfilled, set_status,
  topup_refund, with_bank,
}

module _ (env : Environment) (ids : NewRows) where
  -- `_compensate_failed`
  unfoldable pub after_refund : Topup → State → Attempt → Result TopupError (Unit {0}) × State
  after_refund t s (err e, bank) = (err (refund_failed e), s)
  after_refund t s (ok entry, bank) = (
    ok tt,
    record (with_bank bank s) {
      topups = update_where (has_id t.id) (set_status Status.failed) s.topups;
    },
  )

  unfoldable pub compensate_failed : ℕ → Topup → State → Result TopupError (Unit {0}) × State
  unfolding after_refund topup_refund
  compensate_failed account t s = elim (first_where (has_id t.id) s.topups) [
    | none ↦ (err topup_missing, s)
    | some locked ↦
        if is_failed locked.status
        then (ok tt, s)
        else after_refund locked s
            (credit quiet ids.refund (topup_refund env ids account locked) s.store.bank)
  ]

  abbrev pub topup_event : Topup → String → Option ℕ → Event
  topup_event t source_id user = record {
    source_type = Partner.topup;
    source_id = source_id;
    list_price = some (ledger_units t.list_price_usd);
    net_price = t.net_price_usd;
    customer = user;
  }

  unfoldable pub after_accrual : Topup → State → State → Accruing → Purchasing
  after_accrual t s s' (err e, store) = (err (accrual_failed e), s)
  after_accrual t s s' (ok a, store) = (ok t, record s' { store = store })

  unfoldable pub accrue_topup : Topup → State → State → Purchasing
  unfolding after_accrual build_source_id
  accrue_topup t s s' = elim (build_source_id Partner.topup (env.str t.id) none) [
    | none ↦ (err no_source_id, s)
    | some source_id ↦ after_accrual t s s' (
        accrue env.str ids.accrual
          (topup_event t source_id (user_of (get_account t.account s'.store.bank.accounts)))
          s'.store env.partner_channel_enabled)
  ]

  -- `_persist_fulfillment`: a text that its column cannot hold, or a failing accrual, undoes the
  -- transaction and leaves the top-up as it was reserved.
  unfoldable pub persist_fulfillment : Topup → String → State → Purchasing
  unfolding accrue_topup
  persist_fulfillment t external_order_id s =
      if not (leb (count external_order_id) 64)
      then (err data_error, s)
      else elim (first_where (has_id t.id) s.topups) [
        | none ↦ (err topup_missing, s)
        | some row ↦ accrue_topup (set_fulfilled external_order_id t) s (record s {
          topups = update_where (has_id t.id) (set_fulfilled external_order_id) s.topups;
        })
      ]

  -- The refund is done, or has raised its own exception.
  unfoldable pub after_compensation : Result TopupError (Unit {0}) × State → Purchasing
  after_compensation (err e, s) = (err e, s)
  after_compensation (ok done, s) = (err provider_fulfillment_failed, s)

  module _ (others meanwhile : State → State) (provider : Provider) (r : Request) where
    unfoldable pub reserve_locked : ℕ → TopupPackage → Esim → State → Reserving
    unfolding resolve_topup_charge create_and_debit
    reserve_locked account package_ locked s =
        if not (locked.account == account)
        then (err ownership_changed, s)
        else elim (resolve_topup_charge env ids account package_ s) [
          | err e ↦ (err e, s)
          | ok charge ↦
              create_and_debit env ids account r.idempotency_key
                (new_topup env ids r account package_ charge (others s)) (others s)
        ]

    -- `_reserve_and_debit`
    unfoldable pub reserve_and_debit : ℕ → TopupPackage → State → Reserving
    unfolding reserve_locked
    reserve_and_debit account package_ s =
        if not env.billing_enabled
        then (err billing_disabled, s)
        else elim (first_where (has_key r.idempotency_key) s.topups) [
          | some existing ↦ (replay_existing existing, s)
          | none ↦ elim (first_where (is_esim r.esim.id) s.esims) [
            | none ↦ (err esim_missing, s)
            | some locked ↦ reserve_locked account package_ locked s
          ]
        ]

    -- The provider is asked on the reserved top-up.
    unfoldable pub fulfil : ℕ → TopupPackage → Topup → State → Purchasing
    unfolding after_compensation compensate_failed persist_fulfillment
    fulfil account package_ t s = elim (provider.submit_topup package_.external_id) [
      | none ↦ after_compensation (compensate_failed account t (meanwhile s))
      | some external_order_id ↦ persist_fulfillment t external_order_id (meanwhile s)
    ]

    unfoldable pub after_reservation : ℕ → TopupPackage → Reserving → Purchasing
    unfolding fulfil
    after_reservation account package_ (err e, s) = (err e, s)
    after_reservation account package_ (ok (replayed t), s) = (ok t, s)
    after_reservation account package_ (ok (reserved t entry), s) = fulfil account package_ t s

    abbrev exists_key : Option Topup → Bool
    exists_key none = Bool.false
    exists_key (some t) = Bool.true

    -- The account that pays.
    unfoldable pub spend_account : Option ℕ → State → Result TopupError ℕ
    spend_account none s = ok r.esim.account
    spend_account (some account) s =
        if not (account == r.esim.account)
          && not (exists_key (first_where (has_key r.idempotency_key) s.topups))
        then err ownership_changed
        else ok account

    unfoldable pub purchase : State → Purchasing
    unfolding spend_account reserve_and_debit after_reservation
    purchase s =
        if str_eq r.idempotency_key ""
        then (err key_required, s)
        else elim (spend_account r.account s) [
          | err e ↦ (err e, s)
          | ok account ↦ elim (resolve_package r.package_id provider.list_topups) [
            | err e ↦ (err e, s)
            | ok package_ ↦
                after_reservation account package_ (reserve_and_debit account package_ s)
          ]
        ]

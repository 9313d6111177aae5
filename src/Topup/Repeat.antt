-- ===== src/Topup/Repeat.antt =====
-- A purchase of src/apps/esims/services/topup_service.py that is sent again.
use Prim.Native.String.{count}
use roamkit_api.Base.{
  ℕ, ◌≡◌, ◌≢◌, true, false, Option, none, some, List, ◌∷◌, String, str_eq, ◌==◌, arith, ok, err,
  Result, first_where, update_where, first_where-cons, first_where-update_where, Bool-cases,
  Option-cases, Result-cases, inl, inr, refl, ◌∙◌, ap, eq_iff, leb,
}
use roamkit_api.Base.Int.{pos, leb_ℤ}
use roamkit_api.Ledger.Credit.{Attempt, quiet, debit}
use roamkit_api.Partner.Margin.{Accruing}
use roamkit_api.Topup.{
  Topup, TopupPackage, TopupError, State, Environment, has_id, has_key, is_esim, fits_columns,
  is_fulfilling,
}
use roamkit_api.Topup.Spend.{
  Request, NewRows, Provider, replayed, reserved, Reserving, replay_existing, topup_debit,
  after_debit, create_and_debit, set_fulfilled, resolve_package, resolve_topup_charge, new_topup,
}
use roamkit_api.Topup.Purchase.{
  after_accrual, accrue_topup, persist_fulfillment, after_compensation, reserve_locked,
  reserve_and_debit, fulfil, after_reservation, spend_account, compensate_failed, purchase,
}
use roamkit_api.Topup.Refund.{calm}
use roamkit_api.Topup.Reservation.{reserve_and_debit-IsReserved}

-- The row under the key is settled: it is `t`, and is not being fulfilled.
pub record IsSettled (key : String) (t : Topup) (s : State) : Type 0 where
  pub found : first_where (has_key key) s.topups ≡ some t
  pub settled : is_fulfilling t.status ≡ false

module _ (env : Environment) (ids : NewRows) (others meanwhile : State → State)
    (provider : Provider) (r : Request) (offer : TopupPackage) (t : Topup) (s : State)
    (row : IsSettled r.idempotency_key t s) (key : r.idempotency_key ≢ "")
    (on : env.billing_enabled ≡ true)
    (offered : resolve_package r.package_id provider.list_topups ≡ ok offer) where
  payer_of_existing :
      (a : Option ℕ)
      → (account : ℕ) × (spend_account env ids others meanwhile provider r a s ≡ ok account)
  unfolding spend_account
  payer_of_existing none = (r.esim.account, refl)
  payer_of_existing (some a) = (
    a,
    elim (Bool-cases (a == r.esim.account)) [
      | inl own ↦ rw own refl
      | inr other ↦ rw other (rw (row.found, spend_account) refl)
    ],
  )

  reserve_replays :
      (account : ℕ)
      → reserve_and_debit env ids others meanwhile provider r account offer s ≡ (ok (replayed t), s)
  unfolding reserve_and_debit replay_existing
  reserve_replays account = rw on (rw (row.found, reserve_and_debit) (rw row.settled refl))

  pub settled_replays : purchase env ids others meanwhile provider r s ≡ (ok t, s)
  unfolding purchase after_reservation
  settled_replays =
      let filled : str_eq r.idempotency_key "" ≡ false =
        ground (arith, eq_iff r.idempotency_key "", key) in
      let (account, payer) = payer_of_existing r.account in
      rw (filled, purchase)
        (rw (payer, purchase)
          (rw (offered, purchase) (rw (reserve_replays account, after_reservation) refl)))

replay_existing-IsSettled :
    (key : String) (x t : Topup) (s s' : State)
    → first_where (has_key key) s.topups ≡ some x
    → ◌≡◌ {A = Reserving} (replay_existing x, s) (ok (replayed t), s')
    → IsSettled key t s'
unfolding replay_existing
replay_existing-IsSettled key x t s s' found h = elim (Bool-cases (is_fulfilling x.status)) [
  | inl busy ↦ cc
  | inr settled ↦
      let (same, state) : (x ≡ t) × (s ≡ s') = ground (arith, h, settled) in
      record { found = rw (← state) (rw (← same) found); settled = rw (← same) settled }
]

module _ (env : Environment) (ids : NewRows) (others : State → State) (provider : Provider)
    (r : Request) (t : Topup) where
  create_and_debit-IsSettled :
      (account : ℕ) (x : Topup) (s s' : State)
      → create_and_debit env ids account r.idempotency_key x s ≡ (ok (replayed t), s')
      → IsSettled r.idempotency_key t s'
  unfolding create_and_debit after_debit
  create_and_debit-IsSettled account x s s' h = elim (Bool-cases (fits_columns x)) [
    | inr bad ↦ cc
    | inl fit ↦ elim (Option-cases (first_where (has_key r.idempotency_key) s.topups)) [
      | inr (y, found) ↦ cc
      | inl absent ↦ elim (Bool-cases (leb_ℤ x.amount (pos 0))) [
        | inl low ↦ cc
        | inr positive ↦
            not_replayed (debit quiet ids.debit (topup_debit env ids account x) s.store.bank)
              (ground (arith, h))
      ]
    ]
  ]
    where
      not_replayed :
          (a : Attempt)
          → after_debit env ids x s a ≡ (ok (replayed t), s')
          → IsSettled r.idempotency_key t s'
      not_replayed (ok e, bank) h = cc
      not_replayed (err e, bank) h = cc

  reserve_and_debit-IsSettled :
      (account : ℕ) (offer : TopupPackage) (s s' : State)
      → reserve_and_debit env ids others calm provider r account offer s ≡ (ok (replayed t), s')
      → IsSettled r.idempotency_key t s'
  unfolding reserve_and_debit reserve_locked
  reserve_and_debit-IsSettled account offer s s' h = elim (Bool-cases env.billing_enabled) [
    | inr off ↦ cc
    | inl on ↦ elim (Option-cases (first_where (has_key r.idempotency_key) s.topups)) [
      | inr (y, found) ↦
          replay_existing-IsSettled r.idempotency_key y t s s' found (ground (arith, h))
      | inl absent ↦ elim (Option-cases (first_where (is_esim r.esim.id) s.esims)) [
        | inl missing ↦ cc
        | inr (locked, row) ↦ elim (Bool-cases (locked.account == account)) [
          | inr other ↦ cc
          | inl own ↦ elim (Result-cases (resolve_topup_charge env ids account offer s)) [
            | inr (y, bad) ↦ cc
            | inl (charge, priced) ↦
                create_and_debit-IsSettled account
                  (new_topup env ids r account offer charge (others s)) (others s) s'
                  (ground (arith, h))
          ]
        ]
      ]
    ]
  ]

  after_accrual-IsFulfilled :
      (x : Topup) (s s' s'' : State) (a : Accruing)
      → after_accrual env ids x s s' a ≡ (ok t, s'')
      → (t ≡ x) × (s''.topups ≡ s'.topups)
  unfolding after_accrual
  after_accrual-IsFulfilled x s s' s'' (ok a, store) h = ground (arith, h)
  after_accrual-IsFulfilled x s s' s'' (err e, store) h = cc

  accrue_topup-IsFulfilled :
      (x : Topup) (s s' s'' : State)
      → accrue_topup env ids x s s' ≡ (ok t, s'')
      → (t ≡ x) × (s''.topups ≡ s'.topups)
  unfolding accrue_topup
  accrue_topup-IsFulfilled x s s' s'' h = after_accrual-IsFulfilled x s s' s'' _ h

  -- The fulfilled row of a top-up that has just been reserved under the key.
  persist_fulfillment-IsSettled :
      (x : Topup) (rows : List Topup) (external_order_id : String) (s s' : State)
      → s.topups ≡ x ∷ rows
      → x.idempotency_key ≡ some r.idempotency_key
      → persist_fulfillment env ids x external_order_id s ≡ (ok t, s')
      → IsSettled r.idempotency_key t s'
  unfolding persist_fulfillment is_fulfilling
  persist_fulfillment-IsSettled x rows external_order_id s s' table key h =
      elim (Bool-cases (leb (count external_order_id) 64)) [
        | inr long ↦ cc
        | inl fit ↦
            let listed : first_where (has_id x.id) s.topups ≡ some x =
              rw table (first_where-cons (has_id x.id) x rows (ground arith)) in
            let keyed : first_where (has_key r.idempotency_key) s.topups ≡ some x = rw table (
              first_where-cons (has_key r.idempotency_key) x rows
                (ground (arith, key, eq_iff r.idempotency_key r.idempotency_key))) in
            let (same, kept) =
              accrue_topup-IsFulfilled (set_fulfilled external_order_id x) s
                (record s {
                  topups = update_where (has_id x.id) (set_fulfilled external_order_id) s.topups;
                })
                s' (ground (arith, h, listed, fit)) in
            record {
              found = rw kept (
                  first_where-update_where (has_key r.idempotency_key) (has_id x.id)
                    (set_fulfilled external_order_id) s.topups x (λ y. refl) keyed
                  ∙ ground (arith, same));
              settled = rw same refl;
            }
      ]

  after_compensation_raises :
      (a : Result TopupError (Unit {0}) × State) (s' : State)
      → ¬ after_compensation env ids a ≡ (ok t, s')
  unfolding after_compensation
  after_compensation_raises (ok done, s) s' h = cc
  after_compensation_raises (err e, s) s' h = cc

  after_reservation-IsSettled :
      (account : ℕ) (offer : TopupPackage) (s s' : State) (a : Reserving)
      → reserve_and_debit env ids others calm provider r account offer s ≡ a
      → after_reservation env ids others calm provider r account offer a ≡ (ok t, s')
      → IsSettled r.idempotency_key t s'
  unfolding after_reservation fulfil
  after_reservation-IsSettled account offer s s' (err e, s1) reservation h = cc
  after_reservation-IsSettled account offer s s' (ok (replayed x), s1) reservation h =
      reserve_and_debit-IsSettled account offer s s' (reservation ∙ ground (arith, h))
  after_reservation-IsSettled account offer s s' (ok (reserved x e), s1) reservation h =
      let found =
        reserve_and_debit-IsReserved env ids others calm provider r account offer x e s s1
          reservation in
      elim (Option-cases (provider.submit_topup offer.external_id)) [
        | inl refused ↦ absurd (
            after_compensation_raises (compensate_failed env ids account x s1) s'
              (ground (arith, h, refused)))
        | inr (external_order_id, done) ↦
            persist_fulfillment-IsSettled x (others s).topups external_order_id s1 s'
              (ap (λ (z : State). z.topups) found.reservation.state)
              (ap (λ (z : Topup). z.idempotency_key) found.created) (ground (arith, h, done))
      ]

  pub purchase-IsSettled :
      (s s' : State)
      → purchase env ids others calm provider r s ≡ (ok t, s')
      → IsSettled r.idempotency_key t s'
  unfolding purchase
  purchase-IsSettled s s' h = elim (Bool-cases (str_eq r.idempotency_key "")) [
    | inl empty ↦ cc
    | inr filled ↦ elim (Result-cases (spend_account env ids others calm provider r r.account s)) [
      | inr (x, bad) ↦ cc
      | inl (account, payer) ↦
          elim (Result-cases (resolve_package r.package_id provider.list_topups)) [
            | inr (x, bad) ↦ cc
            | inl (offer, offered) ↦
                after_reservation-IsSettled account offer s s' _ refl (ground (arith, h))
          ]
    ]
  ]

-- A purchase that returns a top-up has been given a key.
key_of_purchase :
    (env : Environment) (ids : NewRows) (others : State → State) (provider : Provider) (r : Request)
    (t : Topup) (s s' : State)
    → purchase env ids others calm provider r s ≡ (ok t, s')
    → r.idempotency_key ≢ ""
unfolding purchase
key_of_purchase env ids others provider r t s s' h =
    elim (Bool-cases (str_eq r.idempotency_key "")) [
      | inl empty ↦ cc
      | inr filled ↦ λ p. ground (arith, filled, eq_iff r.idempotency_key "", p)
    ]

-- Once a purchase has returned a top-up, with nothing else committing while the provider was asked,
-- every further purchase under its key, of whatever other content, that names a package the provider
-- lists, with billing enabled, returns the same top-up and changes nothing.
pub purchase_once :
    (env env' : Environment) (ids ids' : NewRows) (others others' meanwhile' : State → State)
    (provider provider' : Provider) (r r' : Request) (offer : TopupPackage) (t : Topup)
    (s s' : State)
    → purchase env ids others calm provider r s ≡ (ok t, s')
    → r'.idempotency_key ≡ r.idempotency_key
    → env'.billing_enabled ≡ true
    → resolve_package r'.package_id provider'.list_topups ≡ ok offer
    → purchase env' ids' others' meanwhile' provider' r' s' ≡ (ok t, s')
purchase_once env env' ids ids' others others' meanwhile' provider provider' r r' offer t s s' first
      same on offered =
    settled_replays env' ids' others' meanwhile' provider' r' offer t s'
      (rw same (purchase-IsSettled env ids others provider r t s s' first))
      (rw same (key_of_purchase env ids others provider r t s s' first)) on offered

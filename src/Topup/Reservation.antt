-- ===== src/Topup/Reservation.antt =====
-- What the reservation of src/apps/esims/services/topup_service.py has done when it has debited an
-- account.
use roamkit_api.Base.{
  ℕ, ◌≡◌, false, Option, none, some, ◌∷◌, String, ◌==◌, arith, ok, err, first_where, Bool-cases,
  Option-cases, Result-cases, inl, inr,
}
use roamkit_api.Base.Int.{ℤ, pos, leb_ℤ}
use roamkit_api.Ledger.{CreditLedgerEntry}
use roamkit_api.Ledger.Credit.{Attempt, quiet, debit}
use roamkit_api.Pricing.Snapshot.{PricingSnapshot}
use roamkit_api.Esims.{Esim}
use roamkit_api.Topup.{
  Topup, TopupPackage, State, Environment, has_key, is_esim, fits_columns, is_fulfilling,
}
use roamkit_api.Topup.Spend.{
  Request, NewRows, Provider, reserved, Reserving, replay_existing, with_bank, new_topup,
  topup_debit, after_debit, create_and_debit, resolve_topup_charge,
}
use roamkit_api.Topup.Purchase.{reserve_locked, reserve_and_debit}

-- From the state `s`, as the other transactions left it, the reservation of `t` has debited the
-- account and added the row, and has come to the state `s'`.
pub record IsReservation (env : Environment) (ids : NewRows) (account : ℕ) (key : String)
    (t : Topup) (e : CreditLedgerEntry) (s s' : State) : Type 0 where
  pub absent : first_where (has_key key) s.topups ≡ none
  pub paid : (debit quiet ids.debit (topup_debit env ids account t) s.store.bank).0 ≡ ok e
  pub positive : leb_ℤ t.amount (pos 0) ≡ false
  pub state :
      s'
      ≡ record (with_bank
          (debit quiet ids.debit (topup_debit env ids account t) s.store.bank).1
          s) { topups = t ∷ s.topups }

module _ (env : Environment) (ids : NewRows) (t : Topup) (e : CreditLedgerEntry) where
  not_reserved :
      (x : Topup) (s s' : State)
      → ¬ ◌≡◌ {A = Reserving} (replay_existing x, s) (ok (reserved t e), s')
  unfolding replay_existing
  not_reserved x s s' h = elim (Bool-cases (is_fulfilling x.status)) [ inl on ↦ cc | inr off ↦ cc ]

  after_debit-reserved :
      (x : Topup) (s s' : State) (a : Attempt)
      → after_debit env ids x s a ≡ (ok (reserved t e), s')
      → (t ≡ x) × (a.0 ≡ ok e) × (s' ≡ record (with_bank a.1 s) { topups = x ∷ s.topups })
  unfolding after_debit
  after_debit-reserved x s s' (err er, bank) h = cc
  after_debit-reserved x s s' (ok en, bank) h = ground arith

module _ (env : Environment) (ids : NewRows) (account : ℕ) (key : String) where
  create_and_debit-IsReservation :
      (t t' : Topup) (e : CreditLedgerEntry) (s s' : State)
      → create_and_debit env ids account key t s ≡ (ok (reserved t' e), s')
      → (t' ≡ t) × IsReservation env ids account key t e s s'
  unfolding create_and_debit
  create_and_debit-IsReservation t t' e s s' h = elim (Bool-cases (fits_columns t)) [
    | inr bad ↦ cc
    | inl fit ↦ elim (Option-cases (first_where (has_key key) s.topups)) [
      | inr (x, found) ↦ cc
      | inl absent ↦ elim (Bool-cases (leb_ℤ t.amount (pos 0))) [
        | inl low ↦ cc
        | inr positive ↦
            let done : after_debit env ids t s
                  (debit quiet ids.debit (topup_debit env ids account t) s.store.bank)
                ≡ (ok (reserved t' e), s') =
              ground (arith, h) in
            let (same, paid, state) = after_debit-reserved env ids t' e t s s' _ done in
            (same, record { absent = absent; paid = paid; positive = positive; state = state })
      ]
    ]
  ]

-- What `_reserve_and_debit` has found when it has reserved `t` under a new key: the eSIM belongs to
-- the paying account, and the top-up is that of the package at the price of now.
pub record IsReserved (env : Environment) (ids : NewRows) (others : State → State) (r : Request)
    (account : ℕ) (offer : TopupPackage) (t : Topup) (e : CreditLedgerEntry) (s s' : State)
    : Type 0 where
  pub unused : first_where (has_key r.idempotency_key) s.topups ≡ none
  pub locked : Esim
  pub row : first_where (is_esim r.esim.id) s.esims ≡ some locked
  pub owned : locked.account ≡ account
  pub charge : ℤ × Option PricingSnapshot
  pub priced : resolve_topup_charge env ids account offer s ≡ ok charge
  pub created : t ≡ new_topup env ids r account offer charge (others s)
  pub reservation : IsReservation env ids account r.idempotency_key t e (others s) s'

module _ (env : Environment) (ids : NewRows) (others meanwhile : State → State)
    (provider : Provider) (r : Request) (account : ℕ) (offer : TopupPackage) where
  abbrev reserve : State → Reserving
  reserve s = reserve_and_debit env ids others meanwhile provider r account offer s

  locked-IsReserved :
      (locked : Esim) (t : Topup) (e : CreditLedgerEntry) (s s' : State)
      → first_where (has_key r.idempotency_key) s.topups ≡ none
      → first_where (is_esim r.esim.id) s.esims ≡ some locked
      → reserve_locked env ids others meanwhile provider r account offer locked s
        ≡ (ok (reserved t e), s')
      → IsReserved env ids others r account offer t e s s'
  unfolding reserve_locked
  locked-IsReserved locked t e s s' unused row h = elim (Bool-cases (locked.account == account)) [
    | inr other ↦ cc
    | inl own ↦ elim (Result-cases (resolve_topup_charge env ids account offer s)) [
      | inr (x, bad) ↦ cc
      | inl (charge, priced) ↦
          let x = new_topup env ids r account offer charge (others s) in
          let (same, reservation) =
            create_and_debit-IsReservation env ids account r.idempotency_key x t e (others s) s'
              (ground (arith, h)) in
          record {
            unused = unused;
            locked = locked;
            row = row;
            owned = ground (arith, own);
            charge = charge;
            priced = priced;
            created = same;
            reservation = rw same reservation;
          }
    ]
  ]

  pub reserve_and_debit-IsReserved :
      (t : Topup) (e : CreditLedgerEntry) (s s' : State)
      → reserve s ≡ (ok (reserved t e), s')
      → IsReserved env ids others r account offer t e s s'
  unfolding reserve_and_debit
  reserve_and_debit-IsReserved t e s s' h = elim (Bool-cases env.billing_enabled) [
    | inr off ↦ cc
    | inl on ↦ elim (Option-cases (first_where (has_key r.idempotency_key) s.topups)) [
      | inr (x, found) ↦ absurd (not_reserved env ids t e x s s' (ground (arith, h)))
      | inl unused ↦ elim (Option-cases (first_where (is_esim r.esim.id) s.esims)) [
        | inl missing ↦ cc
        | inr (locked, row) ↦ locked-IsReserved locked t e s s' unused row (ground (arith, h))
      ]
    ]
  ]

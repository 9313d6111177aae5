-- ===== src/Topup/Refund.antt =====
-- A top-up of src/apps/esims/services/topup_service.py that the provider refuses is paid back.
use Prim.Native.String.{count}
use text.Mathlib.TextLemmas.{length-append}
use roamkit_api.Base.{
  ℕ, ◌+◌, ◌≤◌, ◌≡◌, ◌≢◌, false, none, some, List, ◌∷◌, String, str_eq, eq_iff, arith, ok, err,
  first_where, update_where, first_where-cons, first_where-update_where, refl, ap, ◌∙◌,
}
use roamkit_api.Ledger.{Bank, Account, CreditLedgerEntry, get_account, find_key, refund}
use roamkit_api.Ledger.Credit.{Attempt, quiet, debit, credit, max_version}
use roamkit_api.Ledger.Invariant.{IsValid}
use roamkit_api.Ledger.Refund.{IsStorable, IsRefunded, refund_restores}
use roamkit_api.Topup.{
  Topup, Status, TopupPackage, State, Environment, has_id, has_key, is_failed,
  provider_fulfillment_failed,
}
use roamkit_api.Topup.Spend.{
  Request, NewRows, Provider, reserved, set_status, with_bank, topup_debit, topup_refund,
  resolve_package,
}
use roamkit_api.Topup.Purchase.{
  compensate_failed, after_refund, after_compensation, fulfil, after_reservation, spend_account,
  reserve_and_debit, purchase,
}
use roamkit_api.Topup.Reservation.{reserve_and_debit-IsReserved}

-- Nothing else commits while the provider is asked.
abbrev pub calm : State → State
calm s = s

module _ (env : Environment) (ids : NewRows) (account : ℕ) (t : Topup)
    (short : count (env.str t.id) ≤ 64) where
  topup_refund-IsStorable : IsStorable (topup_refund env ids account t)
  unfolding topup_refund
  topup_refund-IsStorable = record {
    key = λ p. omega (arith, length-append "topup-refund:" (env.str t.id), ap count p);
    key_fits = omega (arith, length-append "topup-refund:" (env.str t.id), short);
    reference_fits = short;
  }

  refund_key_new :
      (topup_refund env ids account t).idempotency_key
      ≢ (topup_debit env ids account t).idempotency_key
  unfolding topup_refund topup_debit
  refund_key_new p = omega (
    arith,
    length-append "topup-refund:" (env.str t.id),
    length-append "topup-debit:" (env.str t.id),
    ap count p,
  )

  -- The refund of a top-up that stands first in its table and is not failed yet.
  compensate_failed_pays :
      (rows : List Topup) (s : State) (e' : CreditLedgerEntry)
      → s.topups ≡ t ∷ rows
      → t.status ≡ Status.fulfilling
      → (credit quiet ids.refund (topup_refund env ids account t) s.store.bank).0 ≡ ok e'
      → compensate_failed env ids account t s
        ≡ after_refund env ids t s
            (credit quiet ids.refund (topup_refund env ids account t) s.store.bank)
  unfolding compensate_failed is_failed
  compensate_failed_pays rows s e' table status paid =
      let found : first_where (has_id t.id) s.topups ≡ some t =
        rw table (first_where-cons (has_id t.id) t rows (ground arith)) in
      rw (found, compensate_failed) (rw status refl)

  after_refund_paid :
      (s : State) (a : Attempt) (e' : CreditLedgerEntry)
      → a.0 ≡ ok e'
      → after_compensation env ids (after_refund env ids t s a) ≡ (
        err provider_fulfillment_failed,
        record (with_bank a.1 s) {
          topups = update_where (has_id t.id) (set_status Status.failed) s.topups;
        },
      )
  unfolding after_compensation after_refund
  after_refund_paid s (ok e, bank) e' h = refl
  after_refund_paid s (err x, bank) e' h = cc

  marked_failed :
      (key : String) (rows : List Topup)
      → t.idempotency_key ≡ some key
      → first_where (has_key key) (update_where (has_id t.id) (set_status Status.failed) (t ∷ rows))
        ≡ some (set_status Status.failed t)
  marked_failed key rows h =
      first_where-update_where (has_key key) (has_id t.id) (set_status Status.failed) (t ∷ rows) t
        (λ y. refl) (first_where-cons (has_key key) t rows (ground (arith, h, eq_iff key key)))
      ∙ ground arith

-- A request that has come to the reservation of a top-up for `offer`, paid from `account`.
pub record IsAccepted (env : Environment) (ids : NewRows) (others : State → State)
    (provider : Provider) (r : Request) (account : ℕ) (offer : TopupPackage) (t : Topup)
    (e : CreditLedgerEntry) (s s1 : State) : Type 0 where
  pub key : r.idempotency_key ≢ ""
  pub payer : spend_account env ids others calm provider r r.account s ≡ ok account
  pub offered : resolve_package r.package_id provider.list_topups ≡ ok offer
  pub done :
      reserve_and_debit env ids others calm provider r account offer s ≡ (ok (reserved t e), s1)

module _ (env : Environment) (ids : NewRows) (others : State → State) (provider : Provider)
    (r : Request) (account : ℕ) (offer : TopupPackage) (t : Topup) (e : CreditLedgerEntry)
    (s s1 : State) (accepted : IsAccepted env ids others provider r account offer t e s s1) where
  pub purchase_fulfils :
      purchase env ids others calm provider r s
      ≡ fulfil env ids others calm provider r account offer t s1
  unfolding purchase after_reservation
  purchase_fulfils =
      let not_empty : str_eq r.idempotency_key "" ≡ false =
        ground (arith, eq_iff r.idempotency_key "", accepted.key) in
      rw (not_empty, purchase)
        (rw (accepted.payer, purchase)
          (rw (accepted.offered, purchase) (rw (accepted.done, after_reservation) refl)))

  abbrev paid_bank : Bank
  paid_bank = (debit quiet ids.debit (topup_debit env ids account t) (others s).store.bank).1

  abbrev reserved_state : State
  reserved_state = record (with_bank paid_bank (others s)) { topups = t ∷ (others s).topups }

  abbrev refunded : Attempt
  refunded = credit quiet ids.refund (topup_refund env ids account t) paid_bank

  refused_purchase :
      (e' : CreditLedgerEntry)
      → count (env.str t.id) ≤ 64
      → provider.submit_topup offer.external_id ≡ none
      → refunded.0 ≡ ok e'
      → purchase env ids others calm provider r s ≡ (
        err provider_fulfillment_failed,
        record (with_bank refunded.1 reserved_state) {
          topups = update_where (has_id t.id) (set_status Status.failed) (t ∷ (others s).topups);
        },
      )
  unfolding fulfil
  refused_purchase e' short refused posted =
      let found =
        reserve_and_debit-IsReserved env ids others calm provider r account offer t e s s1
          accepted.done in
      let fresh_status : t.status ≡ Status.fulfilling =
        ap (λ (x : Topup). x.status) found.created in
      let compensated =
        compensate_failed_pays env ids account t short (others s).topups reserved_state e' refl
          fresh_status posted in
      purchase_fulfils
      ∙ rw (refused, fulfil)
          (rw found.reservation.state (
            ap (after_compensation env ids) compensated
            ∙ after_refund_paid env ids account t short reserved_state refunded e' posted))

  -- A purchase has reserved `t` and debited its account, on a bank that keeps the invariant of the
  -- ledger, while nothing else commits between that and the provider's answer. If the two ledger keys
  -- of the top-up are new, the text of its key has at most 64 characters, and the account's version
  -- has room for two more, then a refusal of the provider makes the purchase fail with
  -- `provider_fulfillment_failed`, marks the row under the request's key failed, and leaves every
  -- account as it was, this one but for its version, with the debit and its refund in the ledger.
  pub purchase_refunds :
      (locked : Account)
      → IsValid (others s).store.bank
      → count (env.str t.id) ≤ 64
      → find_key (topup_debit env ids account t).idempotency_key (others s).store.bank.ledger ≡ none
      → find_key (topup_refund env ids account t).idempotency_key (others s).store.bank.ledger
        ≡ none
      → get_account account (others s).store.bank.accounts ≡ some locked
      → locked.version + 2 ≤ max_version
      → provider.submit_topup offer.external_id ≡ none
      → let result = purchase env ids others calm provider r s in
        (result.0 ≡ err provider_fulfillment_failed)
        × (first_where (has_key r.idempotency_key) result.1.topups
            ≡ some (set_status Status.failed t))
        × ((e' : CreditLedgerEntry) × IsRefunded
              (others s).store.bank
              account
              locked
              e
              e'
              result.1.store.bank)
  unfolding topup_debit topup_refund
  purchase_refunds locked valid short new new' row room refused =
      let found =
        reserve_and_debit-IsReserved env ids others calm provider r account offer t e s s1
          accepted.done in
      let (e', posted, restored) =
        refund_restores ids.debit ids.refund (topup_debit env ids account t)
          (topup_refund env ids account t) refund (others s).store.bank locked e valid row new refl
          refl refl (topup_refund-IsStorable env ids account t short) new'
          (refund_key_new env ids account t short) room found.reservation.paid in
      rw (refused_purchase e' short refused posted) (
        refl,
        marked_failed env ids account t short r.idempotency_key (others s).topups
            (ap (λ (x : Topup). x.idempotency_key) found.created),
        (e', restored),
      )

-- ===== src/Deposit/Duplicate.antt =====
-- A transaction that src/apps/billing/services/deposit_verification.py has credited is not credited
-- again.
use roamkit_api.Base.{
  ℕ, ◌≡◌, ◌⊎◌, refl, ap, ◌∙◌, true, false, Option, none, some, List, [], ◌∷◌, String, arith, eq_iff,
  ok, err, inl, inr, Bool-cases, first_where, first_where-narrower,
}
use roamkit_api.Base.Int.{ℤ}
use roamkit_api.Deposit.{
  PaymentMethod, DepositRequest, Status, completed, pending, failed, State, duplicate_transaction,
  has_key, has_hash, same_hash, is_completed, is_failed, failed_with_hash, completed_with_hash,
}
use roamkit_api.Deposit.Completion.{Environment}
use roamkit_api.Deposit.Verification.{
  Request, new_deposit, create_pending_deposit, after_create, verify_existing, verify_new,
  verify_checked, check_request, verify,
}
use roamkit_api.Deposit.Rows.{AreDistinct}

not_failed : (status : Status) → is_completed status ≡ true → is_failed status ≡ false
unfolding is_completed is_failed
not_failed completed h = refl
not_failed pending h = cc
not_failed failed h = cc

same_hash-some : (o : Option String) (h : String) → same_hash o (some h) ≡ true → o ≡ some h
same_hash-some none h p = cc
same_hash-some (some k) h p = ground (arith, eq_iff k h, p)

-- The only row of the transaction is completed.
settled_rows :
    (h : String) (rows : List DepositRequest) (old : DepositRequest)
    → AreDistinct rows
    → first_where (has_hash (some h)) rows ≡ some old
    → is_completed old.status ≡ true
    → (first_where (failed_with_hash (some h)) rows ≡ none)
      × (first_where (completed_with_hash (some h)) rows ≡ some old)
unfolding AreDistinct first_where failed_with_hash completed_with_hash
settled_rows h [] old d found done = cc
settled_rows h (x ∷ rows) old d found done = elim (Bool-cases (has_hash (some h) x)) [
  | inl hit ↦
      let same : x ≡ old = ground (arith, found, hit) in
      let done' : is_completed x.status ≡ true =
        ap (λ (y : DepositRequest). is_completed y.status) same ∙ done in
      let alone : first_where (has_hash (some h)) rows ≡ none =
        d.1 h (same_hash-some x.tx_hash h hit) in
      (
        rw hit (
            rw (not_failed x.status done') (
              first_where-narrower (failed_with_hash (some h)) (has_hash (some h)) rows
                (λ y p. rw p refl) alone)),
        rw hit (rw done' (ap some same)),
      )
  | inr miss ↦
      let (no_failed, row) = settled_rows h rows old d.2 (ground (arith, found, miss)) done in
      (rw miss no_failed, rw miss row)
]

-- In a table where no two deposits share a key or a transaction's hash, and whose deposit of the
-- transaction `h` is completed, a request for `h` with accepted arguments, of whatever account and
-- amount, under a new idempotency key or under that deposit's, is refused as a duplicate or answered
-- with that deposit, and changes nothing.
pub verify_duplicate :
    (env : Environment) (entry_id pk : ℕ) (others meanwhile : State → State) (r : Request)
    (amount : ℤ) (method : PaymentMethod) (h : String) (old : DepositRequest) (s : State)
    → AreDistinct s.deposits
    → first_where (has_hash (some h)) s.deposits ≡ some old
    → is_completed old.status ≡ true
    → check_request env entry_id others meanwhile pk r
      ≡ ok (amount, new_deposit env entry_id others meanwhile r method amount h pk)
    → (first_where (has_key r.idempotency_key) s.deposits ≡ none)
      ⊎ (first_where (has_key r.idempotency_key) s.deposits ≡ some old)
    → let result = verify env entry_id others meanwhile pk r s in
      (result ≡ (err duplicate_transaction, s)) ⊎ (result ≡ (ok old, s))
unfolding verify verify_checked verify_new create_pending_deposit after_create verify_existing
verify_duplicate env entry_id pk others meanwhile r amount method h old s distinct found done
      accepted key =
    let (no_failed, row) = settled_rows h s.deposits old distinct found done in
    elim key [
      | inl absent ↦ inl (
          rw (accepted, verify)
            (rw (absent, verify_checked)
              (rw (no_failed, verify_new) (rw (row, create_pending_deposit) refl))))
      | inr own ↦ inr (rw (accepted, verify) (rw (own, verify_checked) (rw done refl)))
    ]

-- ===== src/Deposit/Verified.antt =====
-- `verify` and `reverify` of src/apps/billing/services/deposit_verification.py keep the deposits and
-- the ledger in step.
use Prim.Native.String.{count}
use roamkit_api.Base.{
  ℕ, ◌≡◌, refl, sym, not, none, some, ◌∷◌, String, arith, str_eq, ◌==◌, leb, Bool-cases,
  Option-cases, Result-cases, inl, inr, ok, err, first_where, first_where-selects,
}
use mathlib.Core.Path.{subst}
use roamkit_api.Base.Int.{ℤ, eqb_ℤ}
use roamkit_api.Ledger.{find_key}
use roamkit_api.Deposit.{
  DepositRequest, Status, State, missing_tx_hash, verification_failed, has_id, has_key, has_hash,
  no_hash, is_completed, is_failed, failed_with_hash, completed_with_hash,
}
use roamkit_api.Deposit.Completion.{Environment, Verifying, update_deposit}
use roamkit_api.Deposit.Verification.{
  Request, recover, reopen, verify_pending, then_verify, recover_locked, recover_failed_deposit,
  insert_deposit, create_pending_deposit, after_create, retry_failed, verify_existing, verify_new,
  verify_checked, check_request, verify, reverify_locked, reverify,
}
use roamkit_api.Deposit.Rows.{AreDistinct}
use roamkit_api.Deposit.Invariant.{
  deposit_key, IsSound, locked_key, update_deposit-IsSound, fail_with-IsSound, if-IsSound,
}
use roamkit_api.Deposit.Credited.{IsInjective, after_fetch-IsSound}

-- The key `pk` is new to the rows and to the ledger.
pub record IsNew (str : ℕ → String) (pk : ℕ) (s : State) : Type 0 where
  pub row : first_where (has_id pk) s.deposits ≡ none
  pub entry : find_key (deposit_key str pk) s.bank.ledger ≡ none

insert-IsSound :
    (str : ℕ → String) (d : DepositRequest) (s : State)
    → IsSound str s
    → IsNew str d.id s
    → d.status ≡ Status.pending
    → first_where (has_hash d.tx_hash) s.deposits ≡ none
    → IsSound str (record s { deposits = d ∷ s.deposits })
unfolding AreDistinct
insert-IsSound str d s sound new status no_other = record {
  valid = sound.valid;
  distinct = (new.row, (λ h e. rw e at no_other), sound.distinct);
  credited = (rw status new.entry, sound.credited);
}

module _ (env : Environment) (entry_id : ℕ) (distinct : IsInjective env.str)
    (others meanwhile : State → State)
    (keeps : (s : State) → IsSound env.str s → IsSound env.str (others s))
    (keeps' : (s : State) → IsSound env.str s → IsSound env.str (meanwhile s)) where
  verify_pending-IsSound :
      (d : DepositRequest) (s : State)
      → IsSound env.str s
      → IsSound env.str (verify_pending env entry_id others meanwhile d s).1
  unfolding verify_pending
  verify_pending-IsSound d s sound = elim (Option-cases d.tx_hash) [
    | inl missing ↦
        rw (missing, verify_pending)
          (fail_with-IsSound env.str d.id missing_tx_hash (verification_failed missing_tx_hash) s
            sound)
    | inr (h, given) ↦
        rw (given, verify_pending)
          (if-IsSound env.str (str_eq h "") _ _
            (fail_with-IsSound env.str d.id missing_tx_hash (verification_failed missing_tx_hash) s
              sound)
            (after_fetch-IsSound env entry_id distinct d (meanwhile s) (env.fetch_usdt_transfer h)
              (keeps' s sound)))
  ]

  then_verify-IsSound :
      (r : Verifying)
      → IsSound env.str r.1
      → IsSound env.str (then_verify env entry_id others meanwhile r).1
  unfolding then_verify
  then_verify-IsSound (ok d, s) sound = verify_pending-IsSound d s sound
  then_verify-IsSound (err e, s) sound = sound

  recover_locked-IsSound :
      (r : Request) (amount : ℤ) (locked : DepositRequest) (s : State)
      → IsSound env.str s
      → first_where (has_id locked.id) s.deposits ≡ some locked
      → IsSound env.str (recover_locked env entry_id others meanwhile r amount locked s).1
  unfolding recover_locked
  recover_locked-IsSound r amount locked s sound row =
      elim (Bool-cases (is_completed locked.status)) [
        | inl done ↦ rw done sound
        | inr open_ ↦ rw open_ (
            if-IsSound env.str (not (is_failed locked.status)) _ _ sound (
              if-IsSound env.str (not (locked.account == r.account)) _ _ sound (
                if-IsSound env.str (not (leb (count r.idempotency_key) 128)) _ _ sound (
                  if-IsSound env.str (not _) _ _ sound (
                    update_deposit-IsSound env.str locked.id (recover amount r.idempotency_key) s
                      locked (record { id = λ d. refl; tx_hash = λ d. refl }) sound row
                      (locked_key env.str locked.id s locked sound row open_))))))
      ]

  recover_failed_deposit-IsSound :
      (r : Request) (amount : ℤ) (d : DepositRequest) (s : State)
      → IsSound env.str s
      → IsSound env.str (recover_failed_deposit env entry_id others meanwhile r amount d s).1
  unfolding recover_failed_deposit
  recover_failed_deposit-IsSound r amount d s sound =
      if-IsSound env.str (not (d.account == r.account)) _ _ sound (
        if-IsSound env.str (no_hash d.tx_hash) _ _ sound
          (elim (Option-cases (first_where (has_id d.id) (others s).deposits)) [
            | inl missing ↦ rw (missing, recover_failed_deposit) (keeps s sound)
            | inr (locked, row) ↦
                let same : locked.id ≡ d.id =
                  ground
                    (arith, first_where-selects (has_id d.id) (others s).deposits locked row) in
                rw (row, recover_failed_deposit)
                  (recover_locked-IsSound r amount locked (others s) (keeps s sound) (
                    subst (λ k. first_where (has_id k) (others s).deposits ≡ some locked) (sym same)
                      row))
          ]))

  retry_failed-IsSound :
      (r : Request) (amount : ℤ) (d : DepositRequest) (s : State)
      → IsSound env.str s
      → IsSound env.str (retry_failed env entry_id others meanwhile r amount d s).1
  unfolding retry_failed
  retry_failed-IsSound r amount d s sound =
      if-IsSound env.str (eqb_ℤ d.amount_requested amount) _ _ sound (
        then_verify-IsSound (recover_failed_deposit env entry_id others meanwhile r amount d s)
          (recover_failed_deposit-IsSound r amount d s sound))

  verify_existing-IsSound :
      (r : Request) (amount : ℤ) (d : DepositRequest) (s : State)
      → IsSound env.str s
      → IsSound env.str (verify_existing env entry_id others meanwhile r amount d s).1
  unfolding verify_existing
  verify_existing-IsSound r amount d s sound =
      if-IsSound env.str (is_completed d.status) _ _ sound (
        if-IsSound env.str (is_failed d.status) _ _
          (if-IsSound env.str (not (d.account == r.account)) _ _ sound
            (retry_failed-IsSound r amount d s sound))
          (verify_pending-IsSound d s sound))

  after_create-IsSound :
      (r : Verifying)
      → IsSound env.str r.1
      → IsSound env.str (after_create env entry_id others meanwhile r).1
  unfolding after_create
  after_create-IsSound (err e, s) sound = sound
  after_create-IsSound (ok d, s) sound =
      if-IsSound env.str (is_completed d.status) _ _ sound
        (if-IsSound env.str (is_failed d.status) _ _ sound (verify_pending-IsSound d s sound))

  insert_deposit-IsSound :
      (d : DepositRequest) (s : State)
      → IsSound env.str s
      → IsNew env.str d.id s
      → d.status ≡ Status.pending
      → IsSound env.str (insert_deposit env entry_id others meanwhile d s).1
  unfolding insert_deposit
  insert_deposit-IsSound d s sound new status =
      if-IsSound env.str (not (leb (count d.idempotency_key) 128)) _ _ sound
        (elim (Option-cases (first_where (has_key d.idempotency_key) s.deposits)) [
          | inr (x, raced) ↦ rw (raced, insert_deposit) sound
          | inl no_key ↦ elim (Option-cases (first_where (has_hash d.tx_hash) s.deposits)) [
            | inr (x, other) ↦ rw (no_key, insert_deposit) (rw other sound)
            | inl no_other ↦
                rw (no_key, insert_deposit)
                  (rw no_other (insert-IsSound env.str d s sound new status no_other))
          ]
        ])

  module _ (pk : ℕ) (new : (s : State) → IsNew env.str pk s → IsNew env.str pk (others s)) where
    create_pending_deposit-IsSound :
        (d : DepositRequest) (s : State)
        → IsSound env.str s
        → IsNew env.str pk s
        → d.id ≡ pk
        → d.status ≡ Status.pending
        → IsSound env.str (create_pending_deposit env entry_id others meanwhile d s).1
    unfolding create_pending_deposit
    create_pending_deposit-IsSound d s sound fresh same status =
        elim (Option-cases (first_where (completed_with_hash d.tx_hash) s.deposits)) [
          | inr (x, done) ↦ rw (done, create_pending_deposit) sound
          | inl open_ ↦
              rw (open_, create_pending_deposit)
                (insert_deposit-IsSound d (others s) (keeps s sound)
                  (subst (λ k. IsNew env.str k (others s)) (sym same) (new s fresh)) status)
        ]

    verify_new-IsSound :
        (r : Request) (amount : ℤ) (d : DepositRequest) (s : State)
        → IsSound env.str s
        → IsNew env.str pk s
        → d.id ≡ pk
        → d.status ≡ Status.pending
        → IsSound env.str (verify_new env entry_id others meanwhile r amount d s).1
    unfolding verify_new
    verify_new-IsSound r amount d s sound fresh same status =
        elim (Option-cases (first_where (failed_with_hash d.tx_hash) s.deposits)) [
          | inr (old, found) ↦
              rw (found, verify_new)
                (if-IsSound env.str (not (old.account == r.account)) _ _ sound
                  (retry_failed-IsSound r amount old s sound))
          | inl none_failed ↦
              rw (none_failed, verify_new)
                (after_create-IsSound (create_pending_deposit env entry_id others meanwhile d s)
                  (create_pending_deposit-IsSound d s sound fresh same status))
        ]

    verify_checked-IsSound :
        (r : Request) (amount : ℤ) (d : DepositRequest) (s : State)
        → IsSound env.str s
        → IsNew env.str pk s
        → d.id ≡ pk
        → d.status ≡ Status.pending
        → IsSound env.str (verify_checked env entry_id others meanwhile r amount d s).1
    unfolding verify_checked
    verify_checked-IsSound r amount d s sound fresh same status =
        elim (Option-cases (first_where (has_key r.idempotency_key) s.deposits)) [
          | inr (x, found) ↦ rw (found, verify_checked) (verify_existing-IsSound r amount x s sound)
          | inl absent ↦
              rw (absent, verify_checked) (verify_new-IsSound r amount d s sound fresh same status)
        ]

    check_request_row :
        (r : Request) (checked : ℤ × DepositRequest)
        → check_request env entry_id others meanwhile pk r ≡ ok checked
        → (checked.1.id ≡ pk) × (checked.1.status ≡ Status.pending)
    unfolding check_request
    check_request_row r checked h = ground (arith, h)

    -- If the ledger keeps its invariant, no two deposits share a key or a transaction's hash, and each
    -- completed deposit, and no other, stands in the ledger under its key, with its credited amount
    -- and its account, then all this still holds after `verify`, however it ends: provided that
    -- different keys have different texts, that the key for a new deposit is new, and that the
    -- transactions of others, while it runs, keep all this too.
    pub verify-IsSound :
        (r : Request) (s : State)
        → IsSound env.str s
        → IsNew env.str pk s
        → IsSound env.str (verify env entry_id others meanwhile pk r s).1
    unfolding verify
    verify-IsSound r s sound fresh =
        elim (Result-cases (check_request env entry_id others meanwhile pk r)) [
          | inr (e, bad) ↦ rw (bad, verify) sound
          | inl (checked, good) ↦
              let (same, status) = check_request_row r checked good in
              rw (good, verify)
                (verify_checked-IsSound r checked.0 checked.1 s sound fresh same status)
        ]

  reverify_locked-IsSound :
      (locked : DepositRequest) (s : State)
      → IsSound env.str s
      → first_where (has_id locked.id) s.deposits ≡ some locked
      → IsSound env.str (reverify_locked env entry_id others meanwhile locked s).1
  unfolding reverify_locked
  reverify_locked-IsSound locked s sound row = elim (Bool-cases (is_completed locked.status)) [
    | inl done ↦ rw done sound
    | inr open_ ↦ rw open_ (
        if-IsSound env.str (is_failed locked.status) _ _
          (if-IsSound env.str (no_hash locked.tx_hash) _ _ sound (
            verify_pending-IsSound (reopen locked) (update_deposit locked.id reopen s) (
              update_deposit-IsSound env.str locked.id reopen s locked
                (record { id = λ d. refl; tx_hash = λ d. refl }) sound row
                (locked_key env.str locked.id s locked sound row open_))))
          (verify_pending-IsSound locked s sound))
  ]

  -- `reverify` keeps the same, on the same conditions but those on a new key.
  pub reverify-IsSound :
      (pk : ℕ) (s : State)
      → IsSound env.str s
      → IsSound env.str (reverify env entry_id others meanwhile pk s).1
  unfolding reverify
  reverify-IsSound pk s sound =
      if-IsSound env.str (not env.billing_enabled) _ _ sound
        (elim (Option-cases (first_where (has_id pk) s.deposits)) [
          | inl missing ↦ rw (missing, reverify) sound
          | inr (locked, row) ↦
              let same : locked.id ≡ pk =
                ground (arith, first_where-selects (has_id pk) s.deposits locked row) in
              rw (row, reverify)
                (reverify_locked-IsSound locked s sound
                  (subst (λ k. first_where (has_id k) s.deposits ≡ some locked) (sym same) row))
        ])

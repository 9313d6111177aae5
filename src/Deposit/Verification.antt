-- ===== src/Deposit/Verification.antt =====
-- `DepositVerificationService` of src/apps/billing/services/deposit_verification.py, for accounts
-- that are not on the wallet's money path. `others` is what other transactions commit between the
-- first reading of the rows and the transaction that follows it, `meanwhile` what they commit while
-- the chain is asked.
use Prim.Native.String.{◌++◌, count}
use roamkit_api.Base.{
  ℕ, Bool, not, ◌&&◌, Option, none, some, ◌∷◌, String, str_eq, ◌==◌, leb, if◌then◌else◌, Result, ok,
  err, ◌>>=◌, ◌>>◌, raise_if, first_where,
}
use roamkit_api.Base.Int.{ℤ, eqb_ℤ}
use roamkit_api.Money.{Decimal}
use roamkit_api.Ledger.Credit.{CreditError, normalize_amount}
use roamkit_api.Deposit.{
  PaymentMethod, wallet_connect, cex_manual, Status, no_failure, missing_tx_hash, DepositRequest,
  State, DepositError, billing_disabled, key_required, unknown_method, invalid_hash,
  duplicate_transaction, hash_required, no_hash, deposit_missing, data_error, integrity_error,
  verification_failed, credit_failed, has_id, has_key, has_hash, is_completed, is_failed,
  failed_with_hash, completed_with_hash,
}
use roamkit_api.Deposit.Completion.{
  HashOps, Environment, Verifying, update_deposit, fail_with, is_missing, after_fetch,
}

-- `amount_requested` is what `Decimal(str(…))` gives, `none` if it raises.
pub record Request : Type 0 where
  pub account : ℕ
  pub tx_hash : String
  pub payment_method : String
  pub amount_requested : Option Decimal
  pub idempotency_key : String

unfoldable pub normalize_payment_method : String → Result DepositError PaymentMethod
normalize_payment_method text =
    if str_eq text "wallet_connect"
    then ok wallet_connect
    else if str_eq text "cex_manual"
    then ok cex_manual
    else err unknown_method

abbrev with_prefix : Bool → String → String
with_prefix given text = if given then text else "0x" ++ text

-- `_normalize_tx_hash`
unfoldable pub normalize_tx_hash : HashOps → String → Result DepositError String
normalize_tx_hash ops raw = do
  let text = with_prefix (ops.starts_0x (ops.strip_lower raw)) (ops.strip_lower raw)
  raise_if (not (count text == 66)) invalid_hash
  raise_if (not (ops.is_hexadecimal text)) invalid_hash
  ok text

abbrev pub reopen : DepositRequest → DepositRequest
reopen d = record d { status = Status.pending; failure_reason = no_failure }

abbrev pub recover : ℤ → String → DepositRequest → DepositRequest
recover amount key d = record (reopen d) { amount_requested = amount; idempotency_key = key }

module _ (env : Environment) (entry_id : ℕ) (others meanwhile : State → State) where
  -- `_verify_pending_legacy`
  unfoldable pub verify_pending : DepositRequest → State → Verifying
  unfolding after_fetch
  verify_pending d s = elim (d.tx_hash) [
    | none ↦ fail_with d.id missing_tx_hash (verification_failed missing_tx_hash) s
    | some h ↦
        if str_eq h ""
        then fail_with d.id missing_tx_hash (verification_failed missing_tx_hash) s
        else after_fetch env entry_id d (meanwhile s) (env.fetch_usdt_transfer h)
  ]

  -- A step that ends with a pending deposit goes on with its verification.
  unfoldable pub then_verify : Verifying → Verifying
  unfolding verify_pending
  then_verify (err e, s) = (err e, s)
  then_verify (ok d, s) = verify_pending d s

  unfoldable pub recover_locked : Request → ℤ → DepositRequest → State → Verifying
  recover_locked r amount locked s =
      if is_completed locked.status
      then (ok locked, s)
      else if not (is_failed locked.status)
      then (ok locked, s)
      else if not (locked.account == r.account)
      then (err duplicate_transaction, s)
      else if not (leb (count r.idempotency_key) 128)
      then (err data_error, s)
      else if not (
          is_missing
            (first_where (λ x. has_key r.idempotency_key x && not (x.id == locked.id)) s.deposits))
      then (err integrity_error, s)
      else (
        ok (recover amount r.idempotency_key locked),
        update_deposit locked.id (recover amount r.idempotency_key) s,
      )

  -- `_recover_failed_deposit`
  unfoldable pub recover_failed_deposit : Request → ℤ → DepositRequest → State → Verifying
  unfolding recover_locked
  recover_failed_deposit r amount d s =
      if not (d.account == r.account)
      then (err duplicate_transaction, s)
      else if no_hash d.tx_hash
      then (err hash_required, s)
      else elim (first_where (has_id d.id) (others s).deposits) [
        | none ↦ (err deposit_missing, others s)
        | some locked ↦ recover_locked r amount locked (others s)
      ]

  abbrev pub new_deposit : Request → PaymentMethod → ℤ → String → ℕ → DepositRequest
  new_deposit r method amount h pk = record {
    id = pk;
    account = r.account;
    amount_requested = amount;
    amount_credited = none;
    payment_method = method;
    tx_hash = some h;
    idempotency_key = r.idempotency_key;
    status = Status.pending;
    failure_reason = no_failure;
  }

  -- The insert, on what the other transactions left.
  unfoldable pub insert_deposit : DepositRequest → State → Verifying
  insert_deposit d s =
      if not (leb (count d.idempotency_key) 128)
      then (err data_error, s)
      else elim (first_where (has_key d.idempotency_key) s.deposits) [
        | some raced ↦ (ok raced, s)
        | none ↦ elim (first_where (has_hash d.tx_hash) s.deposits) [
          | some other ↦ (err duplicate_transaction, s)
          | none ↦ (ok d, record s { deposits = d ∷ s.deposits })
        ]
      ]

  -- `_create_pending_deposit`
  unfoldable pub create_pending_deposit : DepositRequest → State → Verifying
  unfolding insert_deposit
  create_pending_deposit d s = elim (first_where (completed_with_hash d.tx_hash) s.deposits) [
    | some done ↦ (err duplicate_transaction, s)
    | none ↦ insert_deposit d (others s)
  ]

  unfoldable pub after_create : Verifying → Verifying
  unfolding verify_pending
  after_create (err e, s) = (err e, s)
  after_create (ok d, s) =
      if is_completed d.status
      then (ok d, s)
      else if is_failed d.status
      then (ok d, s)
      else verify_pending d s

  -- A failed deposit is answered as it is, unless the amount has been corrected.
  unfoldable pub retry_failed : Request → ℤ → DepositRequest → State → Verifying
  unfolding then_verify recover_failed_deposit
  retry_failed r amount d s =
      if eqb_ℤ d.amount_requested amount
      then (ok d, s)
      else then_verify (recover_failed_deposit r amount d s)

  unfoldable pub verify_existing : Request → ℤ → DepositRequest → State → Verifying
  unfolding retry_failed
  verify_existing r amount d s =
      if is_completed d.status
      then (ok d, s)
      else if is_failed d.status
      then (if not (d.account == r.account) then (ok d, s) else retry_failed r amount d s)
      else verify_pending d s

  unfoldable pub verify_new : Request → ℤ → DepositRequest → State → Verifying
  unfolding retry_failed after_create create_pending_deposit
  verify_new r amount d s = elim (first_where (failed_with_hash d.tx_hash) s.deposits) [
    | some old ↦
        if not (old.account == r.account)
        then (err duplicate_transaction, s)
        else retry_failed r amount old s
    | none ↦ after_create (create_pending_deposit d s)
  ]

  unfoldable pub verify_checked : Request → ℤ → DepositRequest → State → Verifying
  unfolding verify_existing verify_new
  verify_checked r amount d s = elim (first_where (has_key r.idempotency_key) s.deposits) [
    | some existing ↦ verify_existing r amount existing s
    | none ↦ verify_new r amount d s
  ]

  abbrev accepted_amount : Result CreditError ℤ → Result DepositError ℤ
  accepted_amount (ok amount) = ok amount
  accepted_amount (err e) = err (credit_failed e)

  -- The tests of the arguments: the amount, and the row that may be inserted.
  unfoldable pub check_request : ℕ → Request → Result DepositError (ℤ × DepositRequest)
  check_request pk r = do
    raise_if (not env.billing_enabled) billing_disabled
    raise_if (str_eq r.idempotency_key "") key_required
    method ← normalize_payment_method r.payment_method
    amount ← accepted_amount (normalize_amount r.amount_requested)
    h ← normalize_tx_hash env.hashes r.tx_hash
    ok (amount, new_deposit r method amount h pk)

  unfoldable pub verify : ℕ → Request → State → Verifying
  unfolding verify_checked check_request
  verify pk r s = elim (check_request pk r) [
    | err e ↦ (err e, s)
    | ok checked ↦ verify_checked r checked.0 checked.1 s
  ]

  unfoldable pub reverify_locked : DepositRequest → State → Verifying
  unfolding verify_pending
  reverify_locked locked s =
      if is_completed locked.status
      then (ok locked, s)
      else if is_failed locked.status
      then (if no_hash locked.tx_hash
          then (err hash_required, s)
          else verify_pending (reopen locked) (update_deposit locked.id reopen s))
      else verify_pending locked s

  unfoldable pub reverify : ℕ → State → Verifying
  unfolding reverify_locked
  reverify pk s =
      if not env.billing_enabled
      then (err billing_disabled, s)
      else elim (first_where (has_id pk) s.deposits) [
        | none ↦ (err deposit_missing, s)
        | some locked ↦ reverify_locked locked s
      ]

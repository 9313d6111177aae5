-- ===== src/Deposit/Completion.antt =====
-- The tests of a transfer and the completion or failure of a deposit, of
-- src/apps/billing/services/deposit_verification.py. The chain's answers are a parameter, and so are
-- Python's operations on texts. The comparison in the shadow of the wallet, which changes no
-- deposit, is left out.
use Prim.Native.String.{◌++◌}
use roamkit_api.Base.{
  ℕ, Bool, not, ◌&&◌, Option, none, some, String, str_eq, ◌==◌, ltb, if◌then◌else◌, Result, ok, err,
  first_where, update_where,
}
use roamkit_api.Base.Int.{ℤ, eqb_ℤ}
use roamkit_api.Money.{finite}
use roamkit_api.Ledger.{value, deposit}
use roamkit_api.Ledger.Credit.{Movement, Attempt, quiet, credit, money_places}
use roamkit_api.Deposit.{
  Status, FailureReason, no_failure, not_verified, rpc_error, transaction_status, amount_mismatch,
  DepositRequest, State, DepositError, duplicate_transaction, deposit_missing, verification_failed,
  rpc_failed, insufficient_confirmations, mismatch, credit_failed, has_id, is_completed, is_failed,
  completed_with_hash,
}

-- What the service uses of a transfer on the chain.
pub record TransferResult : Type 0 where
  pub status : String
  pub confirmations : ℕ
  pub amount : ℤ

pub data Fetched : Type 0 where
  transferred : TransferResult → Fetched
  transfer_not_found chain_rpc_error provider_error : String → Fetched

-- `strip` with `lower`, `startswith("0x")`, and whether `int(text, 16)` reads the text.
pub record HashOps : Type 0 where
  pub strip_lower : String → String
  pub starts_0x : String → Bool
  pub is_hexadecimal : String → Bool

pub record Environment : Type 0 where
  pub billing_enabled : Bool
  pub min_confirmations : ℕ
  pub str : ℕ → String
  pub hashes : HashOps
  pub fetch_usdt_transfer : String → Fetched

abbrev pub Verifying : Type 0
Verifying = Result DepositError DepositRequest × State

abbrev pub set_failed : FailureReason → DepositRequest → DepositRequest
set_failed reason d = record d { status = Status.failed; failure_reason = reason }

abbrev pub set_completed : ℤ → DepositRequest → DepositRequest
set_completed amount d = record d {
  amount_credited = some amount;
  status = Status.completed;
  failure_reason = no_failure;
}

abbrev pub update_deposit : ℕ → (DepositRequest → DepositRequest) → State → State
update_deposit pk f s = record s { deposits = update_where (has_id pk) f s.deposits }

-- `_mark_failed`
unfoldable pub mark_failed : ℕ → FailureReason → State → Verifying
mark_failed pk reason s = elim (first_where (has_id pk) s.deposits) [
  | none ↦ (err deposit_missing, s)
  | some locked ↦
      if is_completed locked.status
      then (ok locked, s)
      else (ok (set_failed reason locked), update_deposit pk (set_failed reason) s)
]

-- The deposit is marked, then the call raises.
unfoldable pub raise_after : DepositError → Verifying → Verifying
raise_after e (err e', s) = (err e', s)
raise_after e (ok d, s) = (err e, s)

unfoldable pub fail_with : ℕ → FailureReason → DepositError → State → Verifying
unfolding mark_failed raise_after
fail_with pk reason e s = raise_after e (mark_failed pk reason s)

unfoldable pub is_other_completed : DepositRequest → DepositRequest → Bool
is_other_completed locked d = completed_with_hash locked.tx_hash d && not (d.id == locked.id)

abbrev pub is_missing : Option DepositRequest → Bool
is_missing none = Bool.true
is_missing (some d) = Bool.false

module _ (env : Environment) (entry_id : ℕ) where
  unfoldable pub deposit_movement : ℤ → DepositRequest → Movement
  deposit_movement amount d = record {
    account = d.account;
    amount = some (finite (record { units = amount; places = money_places }));
    reference_type = value deposit;
    reference_id = env.str d.id;
    idempotency_key = "deposit:" ++ env.str d.id;
  }

  unfoldable pub after_credit : ℤ → DepositRequest → State → Attempt → Verifying
  after_credit amount locked s (err e, bank) = (err (credit_failed e), s)
  after_credit amount locked s (ok entry, bank) = (
    ok (set_completed amount locked),
    update_deposit locked.id (set_completed amount) (record s { bank = bank }),
  )

  -- `_complete`: the failure that it saves on a second deposit of the same transaction is rolled
  -- back by the exception that follows.
  unfoldable pub complete_locked : ℤ → DepositRequest → State → Verifying
  unfolding after_credit deposit_movement
  complete_locked amount locked s =
      if is_completed locked.status
      then (ok locked, s)
      else if is_failed locked.status
      then (ok locked, s)
      else if not (is_missing (first_where (is_other_completed locked) s.deposits))
      then (err duplicate_transaction, s)
      else after_credit amount locked s
          (credit quiet entry_id (deposit_movement amount locked) s.bank)

  unfoldable pub complete : ℤ → ℕ → State → Verifying
  unfolding complete_locked
  complete amount pk s = elim (first_where (has_id pk) s.deposits) [
    | none ↦ (err deposit_missing, s)
    | some locked ↦ complete_locked amount locked s
  ]

  -- `_apply_transfer_gates`
  unfoldable pub apply_transfer_gates : DepositRequest → TransferResult → State → Verifying
  unfolding fail_with complete
  apply_transfer_gates d transfer s =
      if not (str_eq transfer.status "success")
      then fail_with d.id (transaction_status transfer.status)
          (verification_failed (transaction_status transfer.status)) s
      else if ltb transfer.confirmations env.min_confirmations
      then (err (insufficient_confirmations transfer.confirmations env.min_confirmations), s)
      else if not (eqb_ℤ transfer.amount d.amount_requested)
      then fail_with d.id (amount_mismatch transfer.amount d.amount_requested)
          (mismatch transfer.amount d.amount_requested) s
      else complete transfer.amount d.id s

  unfoldable pub after_fetch : DepositRequest → State → Fetched → Verifying
  unfolding apply_transfer_gates
  after_fetch d s (transferred transfer) = apply_transfer_gates d transfer s
  after_fetch d s (transfer_not_found text) =
      fail_with d.id (not_verified text) (verification_failed (not_verified text)) s
  after_fetch d s (chain_rpc_error text) = fail_with d.id (rpc_error text) (rpc_failed text) s
  after_fetch d s (provider_error text) =
      fail_with d.id (not_verified text) (verification_failed (not_verified text)) s

-- ===== src/Deposit.antt =====
-- Deposits: `DepositRequest` of src/apps/billing/models.py. Amounts are in the ledger's units. The
-- raw answer of the chain and the time of the verification are left out; a failure's text is told by
-- what it says.
pub mod Completion
pub mod Verification
pub mod Rows
pub mod Invariant
pub mod Credited
pub mod Verified
pub mod Payment
pub mod Duplicate
use roamkit_api.Base.{ℕ, Bool, true, false, ◌&&◌, Option, none, some, List, String, str_eq, ◌==◌}
use roamkit_api.Base.Int.{ℤ}
use roamkit_api.Ledger.{Bank}
use roamkit_api.Ledger.Credit.{CreditError}

pub data PaymentMethod : Type 0 where
  wallet_connect cex_manual : PaymentMethod

pub data Status : Type 0 where
  pending completed failed : Status

-- `_mark_failed`'s reasons; `no_failure` is the empty text.
pub data FailureReason : Type 0 where
  no_failure missing_tx_hash : FailureReason
  not_verified rpc_error transaction_status : String → FailureReason
  amount_mismatch : ℤ → ℤ → FailureReason

pub record DepositRequest : Type 0 where
  pub id : ℕ
  pub account : ℕ
  pub amount_requested : ℤ
  pub amount_credited : Option ℤ
  pub payment_method : PaymentMethod
  pub tx_hash : Option String
  pub idempotency_key : String
  pub status : Status
  pub failure_reason : FailureReason

pub record State : Type 0 where
  pub bank : Bank
  pub deposits : List DepositRequest

pub data DepositError : Type 0 where
  billing_disabled key_required unknown_method invalid_hash hash_required : DepositError
  duplicate_transaction deposit_missing data_error integrity_error : DepositError
  verification_failed : FailureReason → DepositError
  rpc_failed : String → DepositError
  insufficient_confirmations : ℕ → ℕ → DepositError
  mismatch : ℤ → ℤ → DepositError
  credit_failed : CreditError → DepositError

abbrev pub has_id : ℕ → DepositRequest → Bool
has_id pk d = d.id == pk

abbrev pub has_key : String → DepositRequest → Bool
has_key key d = str_eq d.idempotency_key key

-- `tx_hash=…` in a query, where a missing hash is compared by `IS NULL`
abbrev pub same_hash : Option String → Option String → Bool
same_hash none none = true
same_hash none (some h) = false
same_hash (some h) none = false
same_hash (some h) (some h') = str_eq h h'

abbrev pub has_hash : Option String → DepositRequest → Bool
has_hash h d = same_hash d.tx_hash h

unfoldable pub is_completed : Status → Bool
is_completed completed = true
is_completed pending = false
is_completed failed = false

unfoldable pub is_failed : Status → Bool
is_failed failed = true
is_failed pending = false
is_failed completed = false

unfoldable pub failed_with_hash : Option String → DepositRequest → Bool
unfolding is_failed
failed_with_hash h d = has_hash h d && is_failed d.status

unfoldable pub completed_with_hash : Option String → DepositRequest → Bool
unfolding is_completed
completed_with_hash h d = has_hash h d && is_completed d.status

-- A hash that Python takes for false.
abbrev pub no_hash : Option String → Bool
no_hash none = true
no_hash (some h) = str_eq h ""

-- ===== src/Reconcile.antt =====
-- Balance reconcile and rebuild: src/apps/billing/services/reconcile.py, with `ledger_sum` and
-- `rebuild_balance_from_ledger` of src/apps/billing/services/credit.py. Log lines and the published
-- `BalanceDriftDetected` events carry the drifts that `find_drifts` returns.
pub mod Drift
pub mod Repair
use roamkit_api.Base.{
  ℕ, zero, suc, ◌+◌, Bool, true, false, Option, none, some, List, [], ◌∷◌, ltb, leb, length,
  if◌then◌else◌, Result, ok, err,
}
use roamkit_api.Base.Int.{ℤ, pos, ltb_ℤ, eqb_ℤ, abs, ◌-ℤ◌}
use roamkit_api.Ledger.{Bank, Account, CreditLedgerEntry, get_account, update_accounts, sum_delta}
use roamkit_api.Ledger.Credit.{
  CreditError, does_not_exist, data_error, integrity_error, set_balance, amount_limit, max_version,
}

-- `ledger_sum`: zero where the account has no entry.
unfoldable pub ledger_sum : Account → Bank → ℤ
unfolding sum_delta
ledger_sum a b = sum_delta a.id b.ledger

pub record BalanceDrift : Type 0 where
  pub account_id : ℕ
  pub cached_balance : ℤ
  pub ledger_sum : ℤ

unfoldable pub drift : BalanceDrift → ℤ
drift d = d.cached_balance -ℤ d.ledger_sum

-- The loop of `find_drifts` over the account rows.
unfoldable pub drifts_of : List Account → Bank → List BalanceDrift
unfolding ledger_sum
drifts_of [] b = []
drifts_of (a ∷ rows) b =
    let rest = drifts_of rows b in
    if eqb_ℤ a.balance (ledger_sum a b)
    then rest
    else record { account_id = a.id; cached_balance = a.balance; ledger_sum = ledger_sum a b }
      ∷ rest

unfoldable pub find_drifts : Bank → List BalanceDrift
unfolding drifts_of
find_drifts b = drifts_of b.accounts b

pub record Reconciled : Type 0 where
  pub checked : ℕ
  pub drifts : ℕ

-- `ReconcileService.reconcile`; it writes nothing.
unfoldable pub reconcile : Bank → Reconciled
unfolding find_drifts
reconcile b = record { checked = length b.accounts; drifts = length (find_drifts b) }

-- Saving a repaired balance: the check constraint on the balance, then the width of the columns.
unfoldable pub save_balance : Account → ℤ → Bank → Result CreditError ℤ × Bank
save_balance locked expected b =
    if ltb_ℤ expected (pos 0)
    then (err integrity_error, b)
    else if leb amount_limit (abs expected)
    then (err data_error, b)
    else if ltb max_version (locked.version + 1)
    then (err data_error, b)
    else (
      ok expected,
      record b {
        accounts = update_accounts locked.id (set_balance expected (locked.version + 1)) b.accounts;
      },
    )

unfoldable pub rebuild_locked : Account → Bank → Result CreditError ℤ × Bank
unfolding ledger_sum save_balance
rebuild_locked locked b =
    if eqb_ℤ locked.balance (ledger_sum locked b)
    then (ok (ledger_sum locked b), b)
    else save_balance locked (ledger_sum locked b) b

-- `rebuild_balance_from_ledger`
unfoldable pub rebuild_balance_from_ledger : Account → Bank → Result CreditError ℤ × Bank
unfolding rebuild_locked
rebuild_balance_from_ledger a b = elim (get_account a.id b.accounts) [
  | none ↦ (err does_not_exist, b)
  | some locked ↦ rebuild_locked locked b
]

pub record Rebuilt : Type 0 where
  pub checked : ℕ
  pub repaired : ℕ

unfoldable pub count_repair : ℤ → ℤ → Rebuilt → Rebuilt
count_repair before after r = record {
  checked = r.checked + 1;
  repaired = if eqb_ℤ before after then r.repaired else r.repaired + 1;
}

-- The loop of `rebuild_all`: an exception ends it, and what was repaired before stays.
unfoldable pub rebuild_rows : List Account → Rebuilt → Bank → Result CreditError Rebuilt × Bank
unfolding count_repair
rebuild_rows [] stats b = (ok stats, b)
rebuild_rows (a ∷ rows) stats b =
    let (r, b') = rebuild_balance_from_ledger a b in
    elim r [
      | ok after ↦ rebuild_rows rows (count_repair a.balance after stats) b'
      | err e ↦ (err e, b')
    ]

unfoldable pub rebuild_all : Bank → Result CreditError Rebuilt × Bank
unfolding rebuild_rows
rebuild_all b = rebuild_rows b.accounts (record { checked = 0; repaired = 0 }) b

-- `rebuild_one`
unfoldable pub rebuild_one : Account → Bank → Result CreditError ℤ × Bank
unfolding rebuild_balance_from_ledger
rebuild_one a b = rebuild_balance_from_ledger a b

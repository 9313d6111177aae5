-- ===== src/Deposit/Invariant.antt =====
-- The deposits of src/apps/billing/services/deposit_verification.py against the ledger: a deposit is
-- completed exactly when it has been credited.
use Prim.Native.String.{◌++◌}
use roamkit_api.Base.{
  ℕ, ◌≡◌, if◌then◌else◌, refl, Bool, true, false, none, some, List, String, All, Bool-cases,
  Option-cases, inl, inr, ok, err, first_where,
}
use roamkit_api.Ledger.{CreditLedgerEntry, find_key}
use roamkit_api.Ledger.Invariant.{IsValid}
use roamkit_api.Deposit.{
  DepositRequest, Status, pending, completed, failed, State, FailureReason, DepositError, has_id,
  is_completed,
}
use roamkit_api.Deposit.Completion.{
  Verifying, set_failed, update_deposit, mark_failed, raise_after, fail_with,
}
use roamkit_api.Deposit.Rows.{
  AreDistinct, Keeps, AreDistinct-update_where, All-update_distinct, All-first_where,
}

abbrev pub deposit_key : (ℕ → String) → ℕ → String
deposit_key str pk = "deposit:" ++ str pk

-- A completed deposit stands in the ledger under its key, with the amount that it tells and its
-- account; any other deposit does not.
abbrev pub CreditOf : (ℕ → String) → List CreditLedgerEntry → DepositRequest → Status → Type 0
CreditOf str ledger d completed =
    (e : CreditLedgerEntry) × (find_key (deposit_key str d.id) ledger ≡ some e)
    × (d.amount_credited ≡ some e.delta)
    × (e.account ≡ d.account)
CreditOf str ledger d pending = find_key (deposit_key str d.id) ledger ≡ none
CreditOf str ledger d failed = find_key (deposit_key str d.id) ledger ≡ none

abbrev pub IsCredited : (ℕ → String) → List CreditLedgerEntry → DepositRequest → Type 0
IsCredited str ledger d = CreditOf str ledger d d.status

-- The ledger is sound, a key and a transaction stand once, and deposits are credited as they say.
pub record IsSound (str : ℕ → String) (s : State) : Type 0 where
  pub valid : IsValid s.bank
  pub distinct : AreDistinct s.deposits
  pub credited : All (IsCredited str s.bank.ledger) s.deposits

module _ (str : ℕ → String) where
  open_key :
      (ledger : List CreditLedgerEntry) (d : DepositRequest) (status : Status)
      → is_completed status ≡ false
      → CreditOf str ledger d status
      → find_key (deposit_key str d.id) ledger ≡ none
  unfolding is_completed
  open_key ledger d completed h c = cc
  open_key ledger d pending h c = c
  open_key ledger d failed h c = c

  pub locked_key :
      (pk : ℕ) (s : State) (locked : DepositRequest)
      → IsSound str s
      → first_where (has_id pk) s.deposits ≡ some locked
      → is_completed locked.status ≡ false
      → find_key (deposit_key str locked.id) s.bank.ledger ≡ none
  locked_key pk s locked sound row open_ = open_key s.bank.ledger locked locked.status open_ (
      All-first_where (IsCredited str s.bank.ledger) (has_id pk) s.deposits locked sound.credited
        row)

  -- A change of the locked row that leaves its key and its hash, and the ledger.
  pub update_deposit-IsSound :
      (pk : ℕ) (f : DepositRequest → DepositRequest) (s : State) (locked : DepositRequest)
      → Keeps f
      → IsSound str s
      → first_where (has_id pk) s.deposits ≡ some locked
      → IsCredited str s.bank.ledger (f locked)
      → IsSound str (update_deposit pk f s)
  update_deposit-IsSound pk f s locked keeps sound row hit = record {
    valid = sound.valid;
    distinct = AreDistinct-update_where pk f s.deposits keeps sound.distinct;
    credited =
        All-update_distinct pk f (IsCredited str s.bank.ledger) (IsCredited str s.bank.ledger)
          s.deposits locked sound.distinct row hit (λ x c other. c) sound.credited;
  }

  mark_failed-IsSound :
      (pk : ℕ) (reason : FailureReason) (s : State)
      → IsSound str s
      → IsSound str (mark_failed pk reason s).1
  unfolding mark_failed
  mark_failed-IsSound pk reason s sound = elim (Option-cases (first_where (has_id pk) s.deposits)) [
    | inl missing ↦ rw (missing, mark_failed) sound
    | inr (locked, row) ↦ elim (Bool-cases (is_completed locked.status)) [
      | inl done ↦ rw (row, mark_failed) (rw done sound)
      | inr open_ ↦
          rw (row, mark_failed)
            (rw open_ (
              update_deposit-IsSound pk (set_failed reason) s locked
                (record { id = λ d. refl; tx_hash = λ d. refl }) sound row
                (locked_key pk s locked sound row open_)))
    ]
  ]

  raise_after-IsSound :
      (e : DepositError) (r : Verifying) → IsSound str r.1 → IsSound str (raise_after e r).1
  unfolding raise_after
  raise_after-IsSound e (ok d, s) sound = sound
  raise_after-IsSound e (err x, s) sound = sound

  pub fail_with-IsSound :
      (pk : ℕ) (reason : FailureReason) (e : DepositError) (s : State)
      → IsSound str s
      → IsSound str (fail_with pk reason e s).1
  unfolding fail_with
  fail_with-IsSound pk reason e s sound =
      raise_after-IsSound e (mark_failed pk reason s) (mark_failed-IsSound pk reason s sound)

  pub if-IsSound :
      (b : Bool) (r t : Verifying)
      → IsSound str r.1
      → IsSound str t.1
      → IsSound str (if b then r else t).1
  if-IsSound true r t v w = v
  if-IsSound false r t v w = w

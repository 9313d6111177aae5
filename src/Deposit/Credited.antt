-- ===== src/Deposit/Credited.antt =====
-- The completion of a deposit of src/apps/billing/services/deposit_verification.py credits it, and
-- keeps the deposits and the ledger in step.
use package.text.Mathlib.TextLemmas.{append_cancel_left}
use mathlib.Core.Path.{subst}
use roamkit_api.Base.{
  ℕ, ◌≡◌, ◌≢◌, refl, sym, ap, ◌∙◌, not, none, some, List, ◌∷◌, String, arith, Bool-cases,
  Option-cases, inl, inr, ok, err, first_where, first_where-selects, str_eq, eq_iff, ltb,
}
use roamkit_api.Base.Int.{ℤ, pos, eqb_ℤ}
use roamkit_api.Ledger.{Bank, CreditLedgerEntry, find_key}
use roamkit_api.Ledger.Credit.{Movement, Attempt, quiet, credit}
use roamkit_api.Ledger.Invariant.{credit-IsValid}
use roamkit_api.Ledger.Effects.{credit_moves}
use roamkit_api.Ledger.Rows.{find_key-cons_self}
use roamkit_api.Ledger.Refund.{key_of_entry}
use roamkit_api.Deposit.{
  DepositRequest, Status, pending, completed, failed, State, transaction_status, amount_mismatch,
  not_verified, rpc_error, verification_failed, mismatch, rpc_failed, has_id, is_completed,
  is_failed,
}
use roamkit_api.Deposit.Completion.{
  Environment, TransferResult, Fetched, transferred, transfer_not_found, chain_rpc_error,
  provider_error, set_completed, update_deposit, is_other_completed, is_missing, deposit_movement,
  after_credit, complete_locked, complete, apply_transfer_gates, after_fetch,
}
use roamkit_api.Deposit.Rows.{AreDistinct-update_where, All-update_distinct}
use roamkit_api.Deposit.Invariant.{
  deposit_key, CreditOf, IsCredited, IsSound, locked_key, fail_with-IsSound, if-IsSound,
}

unfoldable pub IsInjective : (ℕ → String) → Type 0
IsInjective str = (a b : ℕ) → str a ≡ str b → a ≡ b

find_key-cons_other :
    (key : String) (e : CreditLedgerEntry) (rows : List CreditLedgerEntry)
    → key ≢ e.idempotency_key
    → find_key key (e ∷ rows) ≡ find_key key rows
unfolding find_key
find_key-cons_other key e rows other = ground (arith, eq_iff e.idempotency_key key)

key_of_credit :
    (entry_id : ℕ) (m : Movement) (b : Bank) (e : CreditLedgerEntry)
    → (credit quiet entry_id m b).0 ≡ ok e
    → e.idempotency_key ≡ m.idempotency_key
unfolding credit
key_of_credit entry_id m b e paid = key_of_entry quiet entry_id (pos 1) m b e paid

-- A new entry under another key leaves the credit of a deposit.
CreditOf-cons :
    (str : ℕ → String) (e : CreditLedgerEntry) (rows : List CreditLedgerEntry) (d : DepositRequest)
    (status : Status)
    → deposit_key str d.id ≢ e.idempotency_key
    → CreditOf str rows d status
    → CreditOf str (e ∷ rows) d status
CreditOf-cons str e rows d completed other (x, found, amount, owner) =
    (x, find_key-cons_other (deposit_key str d.id) e rows other ∙ found, amount, owner)
CreditOf-cons str e rows d pending other c =
    find_key-cons_other (deposit_key str d.id) e rows other ∙ c
CreditOf-cons str e rows d failed other c =
    find_key-cons_other (deposit_key str d.id) e rows other ∙ c

module _ (env : Environment) (entry_id : ℕ) (distinct : IsInjective env.str) where
  other_key : (a b : ℕ) → a ≢ b → deposit_key env.str a ≢ deposit_key env.str b
  unfolding IsInjective
  other_key a b other p =
      other (distinct a b (append_cancel_left "deposit:" (env.str a) (env.str b) p))

  -- The state after the credit of the locked deposit.
  credited-IsSound :
      (amount : ℤ) (s : State) (locked : DepositRequest) (e : CreditLedgerEntry)
      → IsSound env.str s
      → first_where (has_id locked.id) s.deposits ≡ some locked
      → find_key (deposit_key env.str locked.id) s.bank.ledger ≡ none
      → (credit quiet entry_id (deposit_movement env entry_id amount locked) s.bank).0 ≡ ok e
      → IsSound env.str (
          update_deposit locked.id (set_completed amount) (record s {
            bank = (credit quiet entry_id (deposit_movement env entry_id amount locked) s.bank).1;
          }))
  unfolding deposit_movement
  credited-IsSound amount s locked e sound row fresh paid =
      let m = deposit_movement env entry_id amount locked in
      let (account, found, delta, positive, moves) =
        credit_moves entry_id m amount s.bank e sound.valid fresh refl paid in
      let own : e.idempotency_key ≡ deposit_key env.str locked.id =
        key_of_credit entry_id m s.bank e paid in
      record {
        valid = credit-IsValid entry_id m s.bank sound.valid;
        distinct =
            AreDistinct-update_where locked.id (set_completed amount) s.deposits
              (record { id = λ d. refl; tx_hash = λ d. refl }) sound.distinct;
        credited =
            All-update_distinct locked.id (set_completed amount) (IsCredited env.str s.bank.ledger)
              (IsCredited env.str (credit quiet entry_id m s.bank).1.ledger) s.deposits locked
              sound.distinct row
              (
                e,
                rw moves.entry (
                    subst (λ k. find_key k (e ∷ s.bank.ledger) ≡ some e) own
                      (find_key-cons_self e s.bank.ledger)),
                ap some (sym delta),
                moves.owner,
              )
              (λ x c other. rw moves.entry (
                CreditOf-cons env.str e s.bank.ledger x x.status
                  (λ p. other_key x.id locked.id other (p ∙ own)) c))
              sound.credited;
      }

  after_credit-IsSound :
      (amount : ℤ) (s : State) (locked : DepositRequest) (a : Attempt)
      → IsSound env.str s
      → ((e : CreditLedgerEntry)
          → a.0 ≡ ok e
          → IsSound env.str
              (update_deposit locked.id (set_completed amount) (record s { bank = a.1 })))
      → IsSound env.str (after_credit env entry_id amount locked s a).1
  unfolding after_credit
  after_credit-IsSound amount s locked (ok e, bank) sound then_ = then_ e refl
  after_credit-IsSound amount s locked (err x, bank) sound then_ = sound

  complete_locked-IsSound :
      (amount : ℤ) (s : State) (locked : DepositRequest)
      → IsSound env.str s
      → first_where (has_id locked.id) s.deposits ≡ some locked
      → IsSound env.str (complete_locked env entry_id amount locked s).1
  unfolding complete_locked
  complete_locked-IsSound amount s locked sound row =
      elim (Bool-cases (is_completed locked.status)) [
        | inl done ↦ rw done sound
        | inr open_ ↦ rw open_ (
            if-IsSound env.str (is_failed locked.status) _ _ sound (
              if-IsSound env.str
                (not (is_missing (first_where (is_other_completed locked) s.deposits))) _ _ sound
                (after_credit-IsSound amount s locked _ sound (λ e paid.
                  credited-IsSound amount s locked e sound row
                    (locked_key env.str locked.id s locked sound row open_) paid))))
      ]

  complete-IsSound :
      (amount : ℤ) (pk : ℕ) (s : State)
      → IsSound env.str s
      → IsSound env.str (complete env entry_id amount pk s).1
  unfolding complete
  complete-IsSound amount pk s sound = elim (Option-cases (first_where (has_id pk) s.deposits)) [
    | inl missing ↦ rw (missing, complete) sound
    | inr (locked, row) ↦
        let same : locked.id ≡ pk =
          ground (arith, first_where-selects (has_id pk) s.deposits locked row) in
        rw (row, complete)
          (complete_locked-IsSound amount s locked sound
            (subst (λ k. first_where (has_id k) s.deposits ≡ some locked) (sym same) row))
  ]

  apply_transfer_gates-IsSound :
      (d : DepositRequest) (transfer : TransferResult) (s : State)
      → IsSound env.str s
      → IsSound env.str (apply_transfer_gates env entry_id d transfer s).1
  unfolding apply_transfer_gates
  apply_transfer_gates-IsSound d transfer s sound =
      if-IsSound env.str (not (str_eq transfer.status "success")) _ _
        (fail_with-IsSound env.str d.id (transaction_status transfer.status)
          (verification_failed (transaction_status transfer.status)) s sound)
        (if-IsSound env.str (ltb transfer.confirmations env.min_confirmations) _ _ sound (
          if-IsSound env.str (not (eqb_ℤ transfer.amount d.amount_requested)) _ _
            (fail_with-IsSound env.str d.id (amount_mismatch transfer.amount d.amount_requested)
              (mismatch transfer.amount d.amount_requested) s sound)
            (complete-IsSound transfer.amount d.id s sound)))

  pub after_fetch-IsSound :
      (d : DepositRequest) (s : State) (answer : Fetched)
      → IsSound env.str s
      → IsSound env.str (after_fetch env entry_id d s answer).1
  unfolding after_fetch
  after_fetch-IsSound d s (transferred transfer) sound =
      apply_transfer_gates-IsSound d transfer s sound
  after_fetch-IsSound d s (transfer_not_found t) sound =
      fail_with-IsSound env.str d.id (not_verified t) (verification_failed (not_verified t)) s sound
  after_fetch-IsSound d s (chain_rpc_error t) sound =
      fail_with-IsSound env.str d.id (rpc_error t) (rpc_failed t) s sound
  after_fetch-IsSound d s (provider_error t) sound =
      fail_with-IsSound env.str d.id (not_verified t) (verification_failed (not_verified t)) s sound

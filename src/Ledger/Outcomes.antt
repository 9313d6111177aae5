-- ===== src/Ledger/Outcomes.antt =====
-- The ways in which `_apply` ends, each with the bank that it leaves: the other theorems on credit
-- and debit are by cases on this family.
use roamkit_api.Base.{
  ℕ, ◌+◌, ◌≡◌, true, false, none, some, arith, Option-cases, Bool-cases, Result-cases, ok, err, ltb,
  if◌then◌else◌, inl, inr,
}
use roamkit_api.Base.Int.{ℤ, pos, ◌+ℤ◌, ltb_ℤ, neg}
use roamkit_api.Ledger.{Bank, Account, CreditLedgerEntry, get_account, find_key}
use roamkit_api.Ledger.Credit.{
  CreditError, insufficient_funds, does_not_exist, data_error, Movement, Checked, Attempt,
  check_arguments, fits_columns, max_version, new_entry, write_entry, insert_entry, post_locked,
  post, apply,
}

-- `delta` of a call with this sign
abbrev pub signed : ℤ → ℤ → ℤ
signed sign amount = if ltb_ℤ (pos 0) sign then amount else neg amount

module _ (others : Bank → Bank) (entry_id : ℕ) (sign : ℤ) (m : Movement) (b : Bank) where
  -- What holds when the transaction has come to its insert.
  pub record Reaches (locked : Account) (checked : Checked) : Type 0 where
    pub arguments : check_arguments m ≡ ok checked
    pub account : get_account m.account b.accounts ≡ some locked
    pub fresh : find_key m.idempotency_key b.ledger ≡ none
    pub funded : ltb_ℤ (locked.balance +ℤ signed sign checked.amount) (pos 0) ≡ false

  abbrev pub entry_of : Account → Checked → CreditLedgerEntry
  entry_of locked checked = new_entry entry_id locked (signed sign checked.amount) checked m

  pub data Applied (r : Attempt) : Type 0 where
    refused : (e : CreditError) → check_arguments m ≡ err e → r ≡ (err e, b) → Applied r
    no_account : get_account m.account b.accounts ≡ none → r ≡ (err does_not_exist, b) → Applied r
    replayed :
        (checked : Checked) (locked : Account) (existing : CreditLedgerEntry)
        → check_arguments m ≡ ok checked
        → get_account m.account b.accounts ≡ some locked
        → find_key m.idempotency_key b.ledger ≡ some existing
        → r ≡ (ok existing, b)
        → Applied r
    short :
        (checked : Checked) (locked : Account)
        → check_arguments m ≡ ok checked
        → get_account m.account b.accounts ≡ some locked
        → find_key m.idempotency_key b.ledger ≡ none
        → ltb_ℤ (locked.balance +ℤ signed sign checked.amount) (pos 0) ≡ true
        → r ≡ (err (insufficient_funds locked.balance checked.amount), b)
        → Applied r
    unstorable :
        (checked : Checked) (locked : Account)
        → Reaches locked checked
        → r ≡ (err data_error, others b)
        → Applied r
    raced :
        (checked : Checked) (locked : Account) (existing : CreditLedgerEntry)
        → Reaches locked checked
        → find_key m.idempotency_key (others b).ledger ≡ some existing
        → r ≡ (ok existing, others b)
        → Applied r
    posted :
        (checked : Checked) (locked : Account)
        → Reaches locked checked
        → find_key m.idempotency_key (others b).ledger ≡ none
        → fits_columns (entry_of locked checked) ≡ true
        → ltb max_version (locked.version + 1) ≡ false
        → r
          ≡ (ok (entry_of locked checked), write_entry locked (entry_of locked checked) (others b))
        → Applied r

  insert_entry-Applied :
      (checked : Checked) (locked : Account)
      → Reaches locked checked
      → Applied (insert_entry locked (entry_of locked checked) (others b))
  unfolding insert_entry
  insert_entry-Applied checked locked reaches =
      elim (Bool-cases (fits_columns (entry_of locked checked))) [
        | inr no_fit ↦ unstorable checked locked reaches (ground arith)
        | inl fit ↦ elim (Option-cases (find_key m.idempotency_key (others b).ledger)) [
          | inr (existing, found) ↦ raced checked locked existing reaches found (ground arith)
          | inl absent ↦ elim (Bool-cases (ltb max_version (locked.version + 1))) [
            | inl full ↦ unstorable checked locked reaches (ground arith)
            | inr room ↦ posted checked locked reaches absent fit room (ground arith)
          ]
        ]
      ]

  post_locked-Applied :
      (checked : Checked) (locked : Account)
      → check_arguments m ≡ ok checked
      → get_account m.account b.accounts ≡ some locked
      → Applied (post_locked others entry_id locked (signed sign checked.amount) checked m b)
  unfolding post_locked
  post_locked-Applied checked locked valid row =
      elim (Option-cases (find_key m.idempotency_key b.ledger)) [
        | inr (existing, found) ↦
            replayed checked locked existing valid row found (rw (found, post_locked))
        | inl absent ↦
            elim (Bool-cases (ltb_ℤ (locked.balance +ℤ signed sign checked.amount) (pos 0))) [
              | inl low ↦
                  short checked locked valid row absent low (rw (absent, post_locked) (rw low))
              | inr enough ↦
                  rw (absent, post_locked)
                    (rw enough (
                      insert_entry-Applied checked locked (record {
                        arguments = valid;
                        account = row;
                        fresh = absent;
                        funded = enough;
                      })))
            ]
      ]

  pub apply-Applied : Applied (apply others entry_id sign m b)
  unfolding apply post
  apply-Applied = elim (Result-cases (check_arguments m)) [
    | inr (e, bad) ↦ refused e bad (rw (bad, apply))
    | inl (checked, valid) ↦ elim (Option-cases (get_account m.account b.accounts)) [
      | inl missing ↦ no_account missing (rw (valid, apply) (rw (missing, post)))
      | inr (locked, row) ↦
          rw (valid, apply) (rw (row, post) (post_locked-Applied checked locked valid row))
    ]
  ]

-- ===== src/Ledger/Effects.antt =====
-- What a posting does to the balances, that a key is posted once, and when a debit is refused.
use roamkit_api.Base.{
  ℕ, ◌+◌, ◌≡◌, ◌≢◌, refl, sym, ◌∙◌, ap, true, none, some, ◌∷◌, arith, ok, err, ◌↔◌, inl, inr,
  Bool-cases,
}
use roamkit_api.Base.Int.{ℤ, pos, negsuc, ◌+ℤ◌, ◌≤ℤ◌, ltb_ℤ, nonneg_of_not_ltb, neg, ltb_ℤ}
use roamkit_api.Ledger.{Bank, Account, CreditLedgerEntry, get_account, find_key}
use roamkit_api.Ledger.Credit.{
  Movement, Checked, check_arguments, set_balance, write_entry, apply, Attempt, credit, debit,
  insufficient_funds, post, post_locked, insert_entry, quiet, money_places,
}
use roamkit_api.Ledger.Rows.{
  id-get_account, get_account-update_accounts, get_account-update_ne, find_key-cons_self,
}
use roamkit_api.Ledger.Outcomes.{
  Applied, refused, no_account, replayed, short, unstorable, raced, posted, apply-Applied, entry_of,
  signed,
}
use roamkit_api.Ledger.Invariant.{IsValid, IsIsolated, quiet-IsIsolated, check_arguments_pos}
use roamkit_api.Ledger.Amounts.{normalize_amount_units, check_arguments_amount}
use roamkit_api.Money.{finite}

module _ (others : Bank → Bank) (entry_id : ℕ) (sign : ℤ) (m : Movement) (b : Bank) where
  stored_entry_cases :
      (r : Attempt) (e : CreditLedgerEntry)
      → Applied others entry_id sign m b r
      → r.0 ≡ ok e
      → find_key m.idempotency_key r.1.ledger ≡ some e
  unfolding write_entry
  stored_entry_cases r e (refused x bad p) h = cc
  stored_entry_cases r e (no_account missing p) h = cc
  stored_entry_cases r e (replayed checked locked existing valid row found p) h = ground arith
  stored_entry_cases r e (short checked locked valid row fresh low p) h = cc
  stored_entry_cases r e (unstorable checked locked reaches p) h = cc
  stored_entry_cases r e (raced checked locked existing reaches found p) h = ground arith
  stored_entry_cases r e (posted checked locked reaches fresh fit room p) h = ground (
    arith,
    find_key-cons_self (entry_of others entry_id sign m b locked checked) (others b).ledger,
  )

  -- Whatever entry a call returns stands in the ledger under the call's key.
  pub stored_entry :
      (e : CreditLedgerEntry)
      → (apply others entry_id sign m b).0 ≡ ok e
      → find_key m.idempotency_key (apply others entry_id sign m b).1.ledger ≡ some e
  stored_entry e h =
      stored_entry_cases (apply others entry_id sign m b) e (apply-Applied others entry_id sign m b)
        h

-- A call whose key has an entry returns that entry and changes nothing, whatever else it asks.
pub apply_found :
    (others : Bank → Bank) (entry_id : ℕ) (sign : ℤ) (m : Movement) (b : Bank) (checked : Checked)
    (locked : Account) (e : CreditLedgerEntry)
    → check_arguments m ≡ ok checked
    → get_account m.account b.accounts ≡ some locked
    → find_key m.idempotency_key b.ledger ≡ some e
    → apply others entry_id sign m b ≡ (ok e, b)
unfolding apply post post_locked
apply_found others entry_id sign m b checked locked e valid row found =
    rw (valid, apply) (rw (row, post) (rw (found, post_locked)))

-- What a posting of `e` to the account of `m` has done to the bank `b`.
pub record Moves (b : Bank) (pk : ℕ) (locked : Account) (e : CreditLedgerEntry) (b' : Bank)
    : Type 0 where
  pub moved :
      get_account pk b'.accounts
      ≡ some (set_balance (locked.balance +ℤ e.delta) (locked.version + 1) locked)
  pub entry : b'.ledger ≡ e ∷ b.ledger
  pub owner : e.account ≡ pk
  pub after : e.balance_after ≡ locked.balance +ℤ e.delta
  pub rest : (k : ℕ) → k ≢ pk → get_account k b'.accounts ≡ get_account k b.accounts

write_entry-Moves :
    (pk : ℕ) (locked : Account) (e : CreditLedgerEntry) (b : Bank)
    → get_account pk b.accounts ≡ some locked
    → e.account ≡ locked.id
    → e.balance_after ≡ locked.balance +ℤ e.delta
    → Moves b pk locked e (write_entry locked e b)
unfolding write_entry
write_entry-Moves pk locked e b row own after =
    let same : locked.id ≡ pk = id-get_account pk b.accounts locked row in
    record {
      moved =
          rw
            (get_account-update_accounts pk locked.id
              (set_balance e.balance_after (locked.version + 1)) b.accounts (λ a. refl))
            (rw row (ground arith));
      entry = refl;
      owner = own ∙ same;
      after = after;
      rest = λ k other.
          get_account-update_ne k locked.id (set_balance e.balance_after (locked.version + 1))
            b.accounts (λ a. refl) (λ p. other (p ∙ same));
    }

-- The call on the bank `b` has posted `e` to what the other transactions left, as `b'` shows.
abbrev pub IsPosting : (Bank → Bank) → ℤ → Movement → Bank → CreditLedgerEntry → Bank → Type 0
IsPosting others sign m b e b' =
    (checked : Checked) × (locked : Account) × (check_arguments m ≡ ok checked)
    × (get_account m.account b.accounts ≡ some locked)
    × (e.delta ≡ signed sign checked.amount)
    × (pos 0 ≤ℤ (locked.balance +ℤ e.delta))
    × Moves (others b) m.account locked e b'

module _ (others : Bank → Bank) (entry_id : ℕ) (sign : ℤ) (m : Movement) (b : Bank) where
  IsPosting-cases :
      (r : Attempt) (e : CreditLedgerEntry)
      → IsIsolated others m.account b
      → find_key m.idempotency_key (others b).ledger ≡ none
      → Applied others entry_id sign m b r
      → r.0 ≡ ok e
      → IsPosting others sign m b e r.1
  IsPosting-cases r e iso new (refused x bad p) h = cc
  IsPosting-cases r e iso new (no_account missing p) h = cc
  IsPosting-cases r e iso new (replayed checked locked existing valid row found p) h =
      cc (iso.kept m.idempotency_key existing found)
  IsPosting-cases r e iso new (short checked locked valid row fresh low p) h = cc
  IsPosting-cases r e iso new (unstorable checked locked reaches p) h = cc
  IsPosting-cases r e iso new (raced checked locked existing reaches found p) h = cc
  IsPosting-cases r e iso new (posted checked locked reaches fresh fit room p) h =
      let same : entry_of others entry_id sign m b locked checked ≡ e = ground arith in
      (
        checked,
        locked,
        reaches.arguments,
        reaches.account,
        ap (λ x. x.delta) (sym same),
        rw (← same) (nonneg_of_not_ltb _ reaches.funded),
        rw p (
            rw (← same) (
              write_entry-Moves m.account locked (entry_of others entry_id sign m b locked checked)
                (others b) (iso.locked_row ∙ reaches.account) refl refl)),
      )

  -- A call that returns an entry under a key that is new to the bank which the other transactions
  -- left, while they leave the locked account and all entries alone, has moved the balance of its
  -- account by the normalized amount, with the sign of the call, to a balance that is not negative;
  -- it has raised the version by one, and added that entry and nothing else.
  pub apply-IsPosting :
      (e : CreditLedgerEntry)
      → IsIsolated others m.account b
      → find_key m.idempotency_key (others b).ledger ≡ none
      → (apply others entry_id sign m b).0 ≡ ok e
      → IsPosting others sign m b e (apply others entry_id sign m b).1
  apply-IsPosting e iso new h =
      IsPosting-cases (apply others entry_id sign m b) e iso new
        (apply-Applied others entry_id sign m b) h

-- Once a call has returned an entry, every later call with its key whose arguments are accepted and
-- whose account exists, of any sign, amount and account, returns that entry and changes nothing.
pub apply_replay :
    (others others' : Bank → Bank) (entry_id entry_id' : ℕ) (sign sign' : ℤ) (m m' : Movement)
    (b : Bank) (e : CreditLedgerEntry) (checked' : Checked) (locked' : Account)
    → (apply others entry_id sign m b).0 ≡ ok e
    → m'.idempotency_key ≡ m.idempotency_key
    → check_arguments m' ≡ ok checked'
    → get_account m'.account (apply others entry_id sign m b).1.accounts ≡ some locked'
    → apply others' entry_id' sign' m' (apply others entry_id sign m b).1
      ≡ (ok e, (apply others entry_id sign m b).1)
apply_replay others others' entry_id entry_id' sign sign' m m' b e checked' locked' h same valid
      row =
    apply_found others' entry_id' sign' m' (apply others entry_id sign m b).1 checked' locked' e
      valid row (rw same (stored_entry others entry_id sign m b e h))

insert_entry-funded :
    (locked : Account) (e : CreditLedgerEntry) (b b' : Bank) (x y : ℤ)
    → insert_entry locked e b ≢ (err (insufficient_funds x y), b')
unfolding insert_entry
insert_entry-funded locked e b b' x y = ground arith

short_iff : (x a : ℤ) → (ltb_ℤ (x +ℤ neg a) (pos 0) ≡ true) ↔ (x +ℤ pos 1 ≤ℤ a)
unfolding ◌+ℤ◌
short_iff x a = ground arith

-- A debit with accepted arguments, on an account that exists and under a new key, is refused for
-- lack of funds, with the balance and the amount in the error and the bank unchanged, exactly when
-- the balance is below the amount.
pub debit_refused :
    (others : Bank → Bank) (entry_id : ℕ) (m : Movement) (b : Bank) (checked : Checked)
    (locked : Account)
    → check_arguments m ≡ ok checked
    → get_account m.account b.accounts ≡ some locked
    → find_key m.idempotency_key b.ledger ≡ none
    → (debit others entry_id m b ≡ (err (insufficient_funds locked.balance checked.amount), b))
      ↔ (locked.balance +ℤ pos 1 ≤ℤ checked.amount)
unfolding debit
debit_refused others entry_id m b checked locked valid row fresh =
    rw (valid, apply)
      (rw (row, post)
        (rw (fresh, post_locked)
          (elim (Bool-cases (ltb_ℤ (locked.balance +ℤ neg checked.amount) (pos 0))) [
            | inl low ↦ rw low (λ _. (short_iff locked.balance checked.amount).0 low, λ _. refl)
            | inr enough ↦ rw enough (
              λ h. absurd (insert_entry-funded _ _ _ _ _ _ h),
              λ low. cc ((short_iff locked.balance checked.amount).1 low),
            )
          ])))

-- A new entry of a call in ledger units, with no other transaction about.
module _ (entry_id : ℕ) (m : Movement) (units : ℤ) (b : Bank) (e : CreditLedgerEntry)
    (valid : IsValid b) (fresh : find_key m.idempotency_key b.ledger ≡ none)
    (given : m.amount ≡ some (finite (record { units = units; places = money_places }))) where
  pub credit_moves :
      (credit quiet entry_id m b).0 ≡ ok e
      → (locked : Account) × (get_account m.account b.accounts ≡ some locked)
        × (e.delta ≡ units)
        × (pos 1 ≤ℤ units)
        × Moves b m.account locked e (credit quiet entry_id m b).1
  unfolding credit
  credit_moves h =
      let (checked, locked, arguments, row, delta, nonneg, moves) =
        apply-IsPosting quiet entry_id (pos 1) m b e (quiet-IsIsolated m.account b valid) fresh h in
      let same : checked.amount ≡ units =
        normalize_amount_units units checked.amount
          (rw given at (check_arguments_amount m checked arguments)) in
      (locked, row, delta ∙ same, rw same at (check_arguments_pos m checked arguments), moves)

  pub debit_moves :
      (debit quiet entry_id m b).0 ≡ ok e
      → (locked : Account) × (get_account m.account b.accounts ≡ some locked)
        × (e.delta ≡ neg units)
        × (pos 1 ≤ℤ units)
        × (units ≤ℤ locked.balance)
        × Moves b m.account locked e (debit quiet entry_id m b).1
  unfolding debit
  debit_moves h =
      let (checked, locked, arguments, row, delta, nonneg, moves) =
        apply-IsPosting quiet entry_id (negsuc 0) m b e (quiet-IsIsolated m.account b valid) fresh
          h in
      let same : checked.amount ≡ units =
        normalize_amount_units units checked.amount
          (rw given at (check_arguments_amount m checked arguments)) in
      let out : e.delta ≡ neg units = delta ∙ ap (λ z. neg z) same in
      (
        locked,
        row,
        out,
        rw same at (check_arguments_pos m checked arguments),
        covers locked units (rw out at nonneg),
        moves,
      )
    where
      covers : (locked : Account) (u : ℤ) → pos 0 ≤ℤ (locked.balance +ℤ neg u) → u ≤ℤ locked.balance
      covers locked u n = unfold ◌+ℤ◌ in ground arith

-- ===== src/Ledger/Invariant.antt =====
-- The invariant of the ledger, and that `_apply` keeps it in every way that it ends:
-- each cached balance is the sum of the account's entries and is not negative, each entry holds the
-- running balance of its account, and no idempotency key stands on two entries.
use roamkit_api.Base.{
  ℕ, ◌+◌, ◌<◌, ◌≡◌, ◌≢◌, refl, sym, ◌∙◌, ap, true, false, Option, none, some, List, [], ◌∷◌, String,
  arith, ok, All,
}
use roamkit_api.Base.Int.{ℤ, pos, negsuc, ◌+ℤ◌, ◌≤ℤ◌, ltb_ℤ, int_laws, abs}
use roamkit_api.Money.{Decimal, finite, infinite, nan}
use roamkit_api.Ledger.{Bank, Account, CreditLedgerEntry, get_account, find_key, sum_delta}
use roamkit_api.Ledger.Credit.{
  Movement, Checked, check_arguments, normalize_amount, set_balance, write_entry, apply, Attempt,
  quiet, credit, debit, amount_limit, fits_columns,
}
use roamkit_api.Ledger.Rows.{
  id-get_account, All-get_account, All-update_accounts, sum_delta-cons_self, sum_delta-cons_ne,
}
use roamkit_api.Ledger.Outcomes.{
  Applied, refused, no_account, replayed, short, unstorable, raced, posted, apply-Applied, entry_of,
  signed,
}

abbrev pub IsChained : List CreditLedgerEntry → Type 0
IsChained [] = Unit
IsChained (e ∷ rows) =
    (find_key e.idempotency_key rows ≡ none)
    × (e.balance_after ≡ e.delta +ℤ sum_delta e.account rows)
    × (pos 0 ≤ℤ e.balance_after)
    × (e.delta ≢ pos 0)
    × (abs e.balance_after < amount_limit)
    × IsChained rows

abbrev pub IsBalanced : List CreditLedgerEntry → Account → Type 0
IsBalanced ledger a = (a.balance ≡ sum_delta a.id ledger) × (pos 0 ≤ℤ a.balance)

pub record IsValid (b : Bank) : Type 0 where
  pub accounts : All (IsBalanced b.ledger) b.accounts
  pub ledger : IsChained b.ledger

-- What the database grants about the transactions that commit while this one holds its row lock:
-- they keep the invariant and all entries, and touch neither the locked row nor its entries.
pub record IsIsolated (others : Bank → Bank) (pk : ℕ) (b : Bank) : Type 0 where
  pub valid : IsValid (others b)
  pub locked_row : get_account pk (others b).accounts ≡ get_account pk b.accounts
  pub locked_sum : sum_delta pk (others b).ledger ≡ sum_delta pk b.ledger
  pub kept :
      (key : String) (e : CreditLedgerEntry)
      → find_key key b.ledger ≡ some e
      → find_key key (others b).ledger ≡ some e

-- An amount that `_normalize_amount` accepts is at least one unit.
pub normalize_amount_pos : (a : Option Decimal) (z : ℤ) → normalize_amount a ≡ ok z → pos 1 ≤ℤ z
unfolding normalize_amount
normalize_amount_pos none z h = cc
normalize_amount_pos (some (finite d)) z h = ground arith
normalize_amount_pos (some (infinite s)) z h = cc
normalize_amount_pos (some nan) z h = cc

pub check_arguments_pos :
    (m : Movement) (checked : Checked) → check_arguments m ≡ ok checked → pos 1 ≤ℤ checked.amount
unfolding check_arguments
check_arguments_pos m checked h = ground (arith, normalize_amount_pos m.amount checked.amount)

signed_nonzero : (sign amount : ℤ) → pos 1 ≤ℤ amount → signed sign amount ≢ pos 0
signed_nonzero sign amount h = ground arith

-- A stored balance fits its column.
fits_columns-abs :
    (e : CreditLedgerEntry) → fits_columns e ≡ true → abs e.balance_after < amount_limit
unfolding fits_columns
fits_columns-abs e h = ground arith

posted_row :
    (locked : Account) (e : CreditLedgerEntry) (ledger : List CreditLedgerEntry) (a : Account)
    → a.id ≡ e.account
    → e.balance_after ≡ e.delta +ℤ sum_delta e.account ledger
    → pos 0 ≤ℤ e.balance_after
    → IsBalanced (e ∷ ledger) (set_balance e.balance_after (locked.version + 1) a)
posted_row locked e ledger a same after nonneg =
    (ground (arith, sum_delta-cons_self a.id e ledger), nonneg)

other_row :
    (e : CreditLedgerEntry) (ledger : List CreditLedgerEntry) (a : Account)
    → e.account ≢ a.id
    → IsBalanced ledger a
    → IsBalanced (e ∷ ledger) a
other_row e ledger a other bal = (ground (arith, sum_delta-cons_ne a.id e ledger), bal.1)

pub write_entry-IsValid :
    (locked : Account) (e : CreditLedgerEntry) (b : Bank)
    → IsValid b
    → e.account ≡ locked.id
    → e.balance_after ≡ e.delta +ℤ sum_delta e.account b.ledger
    → pos 0 ≤ℤ e.balance_after
    → e.delta ≢ pos 0
    → abs e.balance_after < amount_limit
    → find_key e.idempotency_key b.ledger ≡ none
    → IsValid (write_entry locked e b)
unfolding write_entry
write_entry-IsValid locked e b v own after nonneg moves fits fresh = record {
  accounts =
      All-update_accounts (IsBalanced b.ledger) (IsBalanced (e ∷ b.ledger)) locked.id
        (set_balance e.balance_after (locked.version + 1)) b.accounts
        (λ a bal same. posted_row locked e b.ledger a (same ∙ sym own) after nonneg)
        (λ a bal other. other_row e b.ledger a (λ p. other (sym p ∙ own)) bal) v.accounts;
  ledger = (fresh, after, nonneg, moves, fits, v.ledger);
}

module _ (others : Bank → Bank) (entry_id : ℕ) (sign : ℤ) (m : Movement) (b : Bank) where
  -- What the new entry needs of the bank that it is written to.
  pub locked_balance :
      (locked : Account)
      → IsValid b
      → get_account m.account b.accounts ≡ some locked
      → IsIsolated others m.account b
      → (locked.id ≡ m.account) × (locked.balance ≡ sum_delta locked.id (others b).ledger)
  locked_balance locked v row iso =
      let own : locked.id ≡ m.account = id-get_account m.account b.accounts locked row in
      (
        own,
        (All-get_account (IsBalanced b.ledger) m.account b.accounts locked v.accounts row).0
            ∙ ap (λ k. sum_delta k b.ledger) own
            ∙ sym iso.locked_sum
            ∙ ap (λ k. sum_delta k (others b).ledger) (sym own),
      )

  Applied-IsValid :
      (r : Attempt)
      → IsValid b
      → IsIsolated others m.account b
      → Applied others entry_id sign m b r
      → IsValid r.1
  Applied-IsValid r v iso (refused e bad p) = rw p v
  Applied-IsValid r v iso (no_account missing p) = rw p v
  Applied-IsValid r v iso (replayed checked locked existing valid row found p) = rw p v
  Applied-IsValid r v iso (short checked locked valid row fresh low p) = rw p v
  Applied-IsValid r v iso (unstorable checked locked reaches p) = rw p iso.valid
  Applied-IsValid r v iso (raced checked locked existing reaches found p) = rw p iso.valid
  Applied-IsValid r v iso (posted checked locked reaches fresh fit room p) =
      let (own, bal) = locked_balance locked v reaches.account iso in
      rw p (
        write_entry-IsValid locked (entry_of others entry_id sign m b locked checked) (others b)
          iso.valid refl (rw (← bal) (omega int_laws)) (nonneg locked checked reaches.funded)
          (signed_nonzero sign checked.amount (check_arguments_pos m checked reaches.arguments))
          (fits_columns-abs (entry_of others entry_id sign m b locked checked) fit) fresh)
    where
      nonneg :
          (locked : Account) (checked : Checked)
          → ltb_ℤ (locked.balance +ℤ signed sign checked.amount) (pos 0) ≡ false
          → pos 0 ≤ℤ (locked.balance +ℤ signed sign checked.amount)
      nonneg locked checked funded = ground arith

  -- From a bank that keeps the invariant, with other transactions that leave the locked account and
  -- all entries alone and keep the invariant too, `_apply` keeps it, whether it posts, replays,
  -- raises or loses a race.
  pub apply-IsValid :
      IsValid b → IsIsolated others m.account b → IsValid (apply others entry_id sign m b).1
  apply-IsValid v iso =
      Applied-IsValid (apply others entry_id sign m b) v iso
        (apply-Applied others entry_id sign m b)

pub quiet-IsIsolated : (pk : ℕ) (b : Bank) → IsValid b → IsIsolated quiet pk b
quiet-IsIsolated pk b v = record {
  valid = v;
  locked_row = refl;
  locked_sum = refl;
  kept = λ key e h. h;
}

pub credit-IsValid :
    (entry_id : ℕ) (m : Movement) (b : Bank) → IsValid b → IsValid (credit quiet entry_id m b).1
unfolding credit
credit-IsValid entry_id m b v =
    apply-IsValid quiet entry_id (pos 1) m b v (quiet-IsIsolated m.account b v)

pub debit-IsValid :
    (entry_id : ℕ) (m : Movement) (b : Bank) → IsValid b → IsValid (debit quiet entry_id m b).1
unfolding debit
debit-IsValid entry_id m b v =
    apply-IsValid quiet entry_id (negsuc 0) m b v (quiet-IsIsolated m.account b v)

-- ===== src/Ledger/Rows.antt =====
-- Facts on the tables: what a lookup, an update of one account row and a new entry do to each other.
use roamkit_api.Base.{
  ℕ, ◌≡◌, ◌≢◌, refl, none, some, List, [], ◌∷◌, String, arith, eq_iff, ◌==◌, All, ◌⊎◌, inl, inr,
  true, false, Bool-cases,
}
use mathlib.Core.Path.{subst}
use roamkit_api.Base.Int.{◌+ℤ◌}
use roamkit_api.Ledger.{
  Account, CreditLedgerEntry, get_account, update_row, update_accounts, find_key, sum_delta,
}

pub id-get_account :
    (pk : ℕ) (rows : List Account) (a : Account) → get_account pk rows ≡ some a → a.id ≡ pk
unfolding get_account
id-get_account pk [] a h = cc
id-get_account pk (x ∷ rows) a h = ground (arith, id-get_account pk rows a)

pub All-get_account :
    (P : Account → Type 0) (pk : ℕ) (rows : List Account) (a : Account)
    → All P rows
    → get_account pk rows ≡ some a
    → P a
unfolding get_account
All-get_account P pk [] a all h = cc
All-get_account P pk (x ∷ rows) a all h = elim (Bool-cases (x.id == pk)) [
  | inl found ↦ subst P (ground arith) all.0
  | inr other ↦ All-get_account P pk rows a all.1 (rw other at h)
]

-- A row of the updated table is a row of the old one, changed if it has the key.
pub All-update_accounts :
    (P Q : Account → Type 0) (pk : ℕ) (f : Account → Account) (rows : List Account)
    → ((a : Account) → P a → a.id ≡ pk → Q (f a))
    → ((a : Account) → P a → a.id ≢ pk → Q a)
    → All P rows
    → All Q (update_accounts pk f rows)
unfolding update_accounts
All-update_accounts P Q pk f [] hit miss all = tt
All-update_accounts P Q pk f (x ∷ rows) hit miss all =
    (head (Bool-cases (x.id == pk)), All-update_accounts P Q pk f rows hit miss all.1)
  where
    head : ((x.id == pk) ≡ true) ⊎ ((x.id == pk) ≡ false) → Q (update_row pk f x)
    head (inl found) = rw found (hit x all.0 (ground arith))
    head (inr other) = rw other (miss x all.0 (ground arith))

pub get_account-update_accounts :
    (k pk : ℕ) (f : Account → Account) (rows : List Account)
    → ((a : Account) → (f a).id ≡ a.id)
    → get_account k (update_accounts pk f rows)
      ≡ elim (get_account k rows) [ none ↦ none | some a ↦ some (update_row pk f a) ]
unfolding get_account update_accounts
get_account-update_accounts k pk f [] keeps = refl
get_account-update_accounts k pk f (x ∷ rows) keeps =
    ground (arith, keeps x, get_account-update_accounts k pk f rows keeps)

pub key-find_key :
    (key : String) (rows : List CreditLedgerEntry) (e : CreditLedgerEntry)
    → find_key key rows ≡ some e
    → e.idempotency_key ≡ key
unfolding find_key
key-find_key key [] e h = cc
key-find_key key (x ∷ rows) e h =
    ground (arith, eq_iff x.idempotency_key key, key-find_key key rows e)

pub find_key-cons_self :
    (e : CreditLedgerEntry) (rows : List CreditLedgerEntry)
    → find_key e.idempotency_key (e ∷ rows) ≡ some e
unfolding find_key
find_key-cons_self e rows = ground (arith, eq_iff e.idempotency_key e.idempotency_key)

pub sum_delta-cons_self :
    (pk : ℕ) (e : CreditLedgerEntry) (rows : List CreditLedgerEntry)
    → e.account ≡ pk
    → sum_delta pk (e ∷ rows) ≡ e.delta +ℤ sum_delta pk rows
unfolding sum_delta
sum_delta-cons_self pk e rows h = ground arith

pub sum_delta-cons_ne :
    (pk : ℕ) (e : CreditLedgerEntry) (rows : List CreditLedgerEntry)
    → e.account ≢ pk
    → sum_delta pk (e ∷ rows) ≡ sum_delta pk rows
unfolding sum_delta
sum_delta-cons_ne pk e rows h = ground arith

pub get_account-update_ne :
    (k pk : ℕ) (f : Account → Account) (rows : List Account)
    → ((a : Account) → (f a).id ≡ a.id)
    → k ≢ pk
    → get_account k (update_accounts pk f rows) ≡ get_account k rows
unfolding get_account update_accounts
get_account-update_ne k pk f [] keeps other = refl
get_account-update_ne k pk f (x ∷ rows) keeps other =
    ground (arith, keeps x, get_account-update_ne k pk f rows keeps other)

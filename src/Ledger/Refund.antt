-- ===== src/Ledger/Refund.antt =====
-- When a credit is certain to be posted, and that a refund undoes a debit.
use Prim.Native.String.{count}
use roamkit_api.Base.{
  ℕ, ◌+◌, ◌≤◌, ◌<◌, ◌≡◌, ◌≢◌, ◌∙◌, ap, true, false, none, some, ◌∷◌, List, String, arith, ok,
  eq_iff,
}
use mathlib.Core.Path.{subst}
use roamkit_api.Base.Int.{ℤ, pos, negsuc, ◌+ℤ◌, ◌≤ℤ◌, ltb_ℤ, neg, abs}
use roamkit_api.Ledger.{
  Bank, Account, CreditLedgerEntry, LedgerReferenceType, get_account, find_key, value,
}
use roamkit_api.Ledger.Credit.{
  Movement, Checked, check_arguments, set_balance, write_entry, apply, Attempt, credit, debit, post,
  post_locked, insert_entry, new_entry, quiet, normalize_amount, fits_columns, amount_limit,
  max_version,
}
use roamkit_api.Ledger.Rows.{All-get_account, key-find_key}
use roamkit_api.Ledger.Invariant.{IsValid, IsBalanced, debit-IsValid, quiet-IsIsolated}
use roamkit_api.Ledger.Amounts.{normalize_reference_type-value, check_arguments_amount}
use roamkit_api.Ledger.Effects.{Moves, apply-IsPosting, stored_entry}
use roamkit_api.Reconcile.Drift.{sum_delta_bounds}

-- A movement whose texts fit the columns of the entry, under a key that is not empty.
pub record IsStorable (m : Movement) : Type 0 where
  pub key : m.idempotency_key ≢ ""
  pub key_fits : count m.idempotency_key ≤ 128
  pub reference_fits : count m.reference_id ≤ 64

pub valid_arguments :
    (m : Movement) (t : LedgerReferenceType) (amount : ℤ)
    → IsStorable m
    → m.reference_type ≡ value t
    → normalize_amount m.amount ≡ ok amount
    → check_arguments m ≡ ok (record { amount = amount; reference_type = t })
unfolding check_arguments
valid_arguments m t amount s type accepted =
    rw (accepted, type)
      (rw (normalize_reference_type-value t) (ground (arith, eq_iff m.idempotency_key "", s.key)))

-- A new entry that fits is written.
insert_entry_writes :
    (locked : Account) (e : CreditLedgerEntry) (b : Bank)
    → fits_columns e ≡ true
    → find_key e.idempotency_key b.ledger ≡ none
    → locked.version + 1 ≤ max_version
    → insert_entry locked e b ≡ (ok e, write_entry locked e b)
unfolding insert_entry
insert_entry_writes locked e b fit fresh room =
    rw fit (rw (fresh, insert_entry) (ground (arith, room)))

fits_new :
    (entry_id : ℕ) (m : Movement) (checked : Checked) (locked : Account)
    → IsStorable m
    → abs (locked.balance +ℤ checked.amount) < amount_limit
    → fits_columns (new_entry entry_id locked checked.amount checked m) ≡ true
unfolding fits_columns
fits_new entry_id m checked locked s fits = ground (arith, s.key_fits, s.reference_fits, fits)

not_low : (z : ℤ) → pos 0 ≤ℤ z → ltb_ℤ z (pos 0) ≡ false
not_low z h = ground arith

-- A credit under a new key to an account that has room for it is posted.
pub credit_posts :
    (entry_id : ℕ) (m : Movement) (b : Bank) (checked : Checked) (locked : Account)
    → check_arguments m ≡ ok checked
    → IsStorable m
    → get_account m.account b.accounts ≡ some locked
    → find_key m.idempotency_key b.ledger ≡ none
    → pos 0 ≤ℤ (locked.balance +ℤ checked.amount)
    → abs (locked.balance +ℤ checked.amount) < amount_limit
    → locked.version + 1 ≤ max_version
    → (credit quiet entry_id m b).0 ≡ ok (new_entry entry_id locked checked.amount checked m)
unfolding credit
credit_posts entry_id m b checked locked valid s row fresh nonneg fits room =
    let e = new_entry entry_id locked checked.amount checked m in
    rw (valid, apply)
      (rw (row, post)
        (rw (fresh, post_locked)
          (rw (not_low (locked.balance +ℤ checked.amount) nonneg) (
            ap (λ (x : Attempt). x.0)
              (insert_entry_writes locked e b (fits_new entry_id m checked locked s fits) fresh
                room)))))

pub bounded_balance :
    (b : Bank) (pk : ℕ) (locked : Account)
    → IsValid b
    → get_account pk b.accounts ≡ some locked
    → (pos 0 ≤ℤ locked.balance) × (abs locked.balance < amount_limit)
bounded_balance b pk locked v row =
    let balanced = All-get_account (IsBalanced b.ledger) pk b.accounts locked v.accounts row in
    (balanced.1, rw balanced.0 (sum_delta_bounds locked.id b.ledger v.ledger).1)

back : (x a : ℤ) → x +ℤ neg a +ℤ a ≡ x
unfolding ◌+ℤ◌
back x a = ground arith

-- What a debit and its refund leave of the bank `b`: the account as it was, but for its version.
pub record IsRefunded (b : Bank) (pk : ℕ) (locked : Account) (e e' : CreditLedgerEntry) (b' : Bank)
    : Type 0 where
  pub account : get_account pk b'.accounts ≡ some (record locked { version = locked.version + 2 })
  pub rest : (k : ℕ) → k ≢ pk → get_account k b'.accounts ≡ get_account k b.accounts
  pub ledger : b'.ledger ≡ e' ∷ e ∷ b.ledger

pub find_key-cons_ne :
    (key : String) (e : CreditLedgerEntry) (rows : List CreditLedgerEntry)
    → key ≢ e.idempotency_key
    → find_key key rows ≡ none
    → find_key key (e ∷ rows) ≡ none
unfolding find_key
find_key-cons_ne key e rows other h = ground (arith, eq_iff e.idempotency_key key)

module _ (id' : ℕ) (m' : Movement) (b b1 : Bank) (pk : ℕ) (locked : Account) (e : CreditLedgerEntry)
    (checked : Checked) (valid : IsValid b) (row : get_account pk b.accounts ≡ some locked)
    (valid1 : IsValid b1) (moves : Moves b pk locked e b1) (out : e.delta ≡ neg checked.amount)
    (same : m'.account ≡ pk) (arguments : check_arguments m' ≡ ok checked)
    (storable : IsStorable m') (fresh : find_key m'.idempotency_key b.ledger ≡ none)
    (other_key : m'.idempotency_key ≢ e.idempotency_key)
    (room : locked.version + 2 ≤ max_version) where
  fresh1 : find_key m'.idempotency_key b1.ledger ≡ none
  fresh1 = rw moves.entry (find_key-cons_ne m'.idempotency_key e b.ledger other_key fresh)

  abbrev after : Account
  after = set_balance (locked.balance +ℤ e.delta) (locked.version + 1) locked

  row1 : get_account m'.account b1.accounts ≡ some after
  row1 = rw same moves.moved

  restored : after.balance +ℤ checked.amount ≡ locked.balance
  restored = rw out (back locked.balance checked.amount)

  refund_posts : (e' : CreditLedgerEntry) × ((credit quiet id' m' b1).0 ≡ ok e')
  refund_posts =
      let (nonneg, bounded) = bounded_balance b pk locked valid row in
      (
        new_entry id' after checked.amount checked m',
        credit_posts id' m' b1 checked after arguments storable row1 fresh1 (rw restored nonneg)
            (rw restored bounded) (omega arith),
      )

  Moves-IsRefunded :
      (e' : CreditLedgerEntry) (b2 : Bank)
      → e'.delta ≡ checked.amount
      → Moves b1 pk after e' b2
      → IsRefunded b pk locked e e' b2
  Moves-IsRefunded e' b2 delta moves' =
      let same_balance : after.balance +ℤ e'.delta ≡ locked.balance = rw delta restored in
      record {
        account =
            moves'.moved
            ∙ ap (λ z. some (set_balance z (locked.version + 1 + 1) locked)) same_balance
            ∙ ap (λ n. some (set_balance locked.balance n locked)) (omega arith);
        rest = λ k other. moves'.rest k other ∙ moves.rest k other;
        ledger = moves'.entry ∙ ap (λ rows. e' ∷ rows) moves.entry;
      }

  after_refund :
      (e' : CreditLedgerEntry)
      → (apply quiet id' (pos 1) m' b1).0 ≡ ok e'
      → IsRefunded b pk locked e e' (apply quiet id' (pos 1) m' b1).1
  after_refund e' posted =
      let (checked', locked', arguments', row', delta, nonneg, moves') =
        apply-IsPosting quiet id' (pos 1) m' b1 e' (quiet-IsIsolated m'.account b1 valid1) fresh1
          posted in
      let same_checked : checked' ≡ checked = ground (arith, arguments, arguments') in
      let same_row : locked' ≡ after = ground (arith, row1, row') in
      let moved : Moves b1 pk after e' (apply quiet id' (pos 1) m' b1).1 =
        subst (λ k. Moves b1 k after e' (apply quiet id' (pos 1) m' b1).1) same
          (subst (λ l. Moves b1 m'.account l e' (apply quiet id' (pos 1) m' b1).1) same_row
            moves') in
      Moves-IsRefunded e' (apply quiet id' (pos 1) m' b1).1
        (delta ∙ ap (λ c. c.amount) same_checked) moved

-- The key under which `apply` has stored its entry is the call's.
pub key_of_entry :
    (others : Bank → Bank) (entry_id : ℕ) (sign : ℤ) (m : Movement) (b : Bank)
    (e : CreditLedgerEntry)
    → (apply others entry_id sign m b).0 ≡ ok e
    → e.idempotency_key ≡ m.idempotency_key
key_of_entry others entry_id sign m b e h =
    key-find_key m.idempotency_key (apply others entry_id sign m b).1.ledger e
      (stored_entry others entry_id sign m b e h)

module _ (id id' : ℕ) (m m' : Movement) (t : LedgerReferenceType) (b : Bank) (locked : Account)
    (e : CreditLedgerEntry) (valid : IsValid b)
    (row : get_account m.account b.accounts ≡ some locked)
    (fresh : find_key m.idempotency_key b.ledger ≡ none) (same_account : m'.account ≡ m.account)
    (same_amount : m'.amount ≡ m.amount) (type : m'.reference_type ≡ value t)
    (storable : IsStorable m') (fresh' : find_key m'.idempotency_key b.ledger ≡ none)
    (other_key : m'.idempotency_key ≢ m.idempotency_key) (room : locked.version + 2 ≤ max_version)
    (debited : (debit quiet id m b).0 ≡ ok e) where
  -- A debit of a valid bank under a new key that has posted the entry `e` is undone by a credit of
  -- the same amount to the same account, under a further new key and with a listed reference type, if
  -- the texts of that credit fit their columns and the account's version has room for two more: the credit is posted, and the
  -- two leave every account as it was, except that this account's version is two higher, and two
  -- more entries in the ledger.
  pub refund_restores :
      (e' : CreditLedgerEntry) × ((credit quiet id' m' (debit quiet id m b).1).0 ≡ ok e')
      × IsRefunded b m.account locked e e' (credit quiet id' m' (debit quiet id m b).1).1
  unfolding debit credit
  refund_restores =
      let (checked, locked', arguments, row', delta, nonneg, moves) =
        apply-IsPosting quiet id (negsuc 0) m b e (quiet-IsIsolated m.account b valid) fresh
          debited in
      let same_row : locked' ≡ locked = ground (arith, row, row') in
      let moved : Moves b m.account locked e (debit quiet id m b).1 =
        subst (λ l. Moves b m.account l e (debit quiet id m b).1) same_row moves in
      let checked1 : Checked = record { amount = checked.amount; reference_type = t } in
      let arguments' : check_arguments m' ≡ ok checked1 =
        valid_arguments m' t checked.amount storable type
          (ap normalize_amount same_amount ∙ check_arguments_amount m checked arguments) in
      let other : m'.idempotency_key ≢ e.idempotency_key =
        λ p. other_key (p ∙ key_of_entry quiet id (negsuc 0) m b e debited) in
      let valid1 : IsValid (debit quiet id m b).1 = debit-IsValid id m b valid in
      let (e', posted) =
        refund_posts id' m' b (debit quiet id m b).1 m.account locked e checked1 valid row valid1
          moved delta same_account arguments' storable fresh' other room in
      (
        e',
        posted,
        after_refund id' m' b (debit quiet id m b).1 m.account locked e checked1 valid row valid1
            moved delta same_account arguments' storable fresh' other room e' posted,
      )

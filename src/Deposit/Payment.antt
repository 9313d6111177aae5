-- ===== src/Deposit/Payment.antt =====
-- A transfer that meets the tests of src/apps/billing/services/deposit_verification.py is credited.
use Prim.Native.String.{count}
use text.Mathlib.TextLemmas.{length-append}
use mathlib.Core.Path.{subst}
use roamkit_api.Base.{
  ℕ, ◌+◌, ◌≤◌, ◌<◌, ◌≡◌, ◌≢◌, refl, ap, ◌∙◌, true, false, none, some, ◌∷◌, String, arith, str_eq,
  eq_iff, leb, ltb, ok, err, first_where, first_where-cons, first_where-narrower,
  first_where-cons_other, update_where,
}
use roamkit_api.Base.Int.{ℤ, pos, ◌+ℤ◌, ◌≤ℤ◌, abs, eqb_ℤ}
use roamkit_api.Ledger.{Account, CreditLedgerEntry, get_account, find_key, deposit}
use roamkit_api.Ledger.Credit.{
  Attempt, Checked, quiet, credit, check_arguments, new_entry, amount_limit, max_version,
}
use roamkit_api.Ledger.Invariant.{IsValid}
use roamkit_api.Ledger.Amounts.{normalize_amount_exact}
use roamkit_api.Ledger.Effects.{Moves, credit_moves}
use roamkit_api.Ledger.Refund.{IsStorable, valid_arguments, credit_posts, bounded_balance}
use roamkit_api.Deposit.{
  PaymentMethod, DepositRequest, Status, State, has_id, has_key, has_hash, is_completed, is_failed,
  failed_with_hash, completed_with_hash,
}
use roamkit_api.Deposit.Completion.{
  Environment, TransferResult, Fetched, transferred, set_completed, is_other_completed,
  deposit_movement, after_credit, complete_locked, complete, apply_transfer_gates, after_fetch,
}
use roamkit_api.Deposit.Verification.{
  Request, verify_pending, new_deposit, insert_deposit, create_pending_deposit, after_create,
  verify_new, verify_checked, check_request, verify,
}
use roamkit_api.Deposit.Rows.{update_where-absent}
use roamkit_api.Deposit.Invariant.{deposit_key}

-- Nothing else commits while the call runs.
abbrev pub calm : State → State
calm s = s

module _ (env : Environment) (entry_id : ℕ) (n : ℕ) (d : DepositRequest) (s : State)
    (positive : 0 < n) (small : n < amount_limit) (short : count (env.str d.id) ≤ 64) where
  deposit_movement-IsStorable : IsStorable (deposit_movement env entry_id (pos n) d)
  unfolding deposit_movement
  deposit_movement-IsStorable = record {
    key = λ p. omega (arith, length-append "deposit:" (env.str d.id), ap count p);
    key_fits = omega (arith, length-append "deposit:" (env.str d.id), short);
    reference_fits = short;
  }

  abbrev checked : Checked
  checked = record { amount = pos n; reference_type = deposit }

  deposit_accepted : check_arguments (deposit_movement env entry_id (pos n) d) ≡ ok checked
  unfolding deposit_movement
  deposit_accepted =
      valid_arguments (deposit_movement env entry_id (pos n) d) deposit (pos n)
        deposit_movement-IsStorable refl (normalize_amount_exact n positive small)

  enough : (z : ℤ) → pos 0 ≤ℤ z → pos 0 ≤ℤ (z +ℤ pos n)
  unfolding ◌+ℤ◌
  enough z h = ground arith

  deposit_posts :
      (a : Account)
      → IsValid s.bank
      → get_account d.account s.bank.accounts ≡ some a
      → find_key (deposit_key env.str d.id) s.bank.ledger ≡ none
      → abs (a.balance +ℤ pos n) < amount_limit
      → a.version + 1 ≤ max_version
      → (credit quiet entry_id (deposit_movement env entry_id (pos n) d) s.bank).0
        ≡ ok (new_entry entry_id a (pos n) checked (deposit_movement env entry_id (pos n) d))
  unfolding deposit_movement
  deposit_posts a valid row fresh fits room =
      credit_posts entry_id (deposit_movement env entry_id (pos n) d) s.bank checked a
        deposit_accepted deposit_movement-IsStorable row fresh
        (enough a.balance (bounded_balance s.bank d.account a valid row).0) fits room

module _ (env : Environment) (entry_id : ℕ) (amount : ℤ) (d : DepositRequest) (s : State)
    (pending : d.status ≡ Status.pending) (no_row : first_where (has_id d.id) s.deposits ≡ none)
    (no_hash : first_where (has_hash d.tx_hash) s.deposits ≡ none) where
  abbrev inserted : State
  inserted = record s { deposits = d ∷ s.deposits }

  abbrev posting : Attempt
  posting = credit quiet entry_id (deposit_movement env entry_id amount d) s.bank

  unsettled : (is_completed d.status ≡ false) × (is_failed d.status ≡ false)
  unfolding is_completed is_failed
  unsettled = (ap is_completed pending, ap is_failed pending)

  alone : first_where (is_other_completed d) (d ∷ s.deposits) ≡ none
  unfolding is_other_completed completed_with_hash
  alone =
      first_where-cons_other (is_other_completed d) d s.deposits (ground (arith, unsettled.0))
      ∙ first_where-narrower (is_other_completed d) (has_hash d.tx_hash) s.deposits
          (λ y h. rw h refl) no_hash

  complete-inserted :
      complete env entry_id amount d.id inserted
      ≡ after_credit env entry_id amount d inserted posting
  unfolding complete complete_locked
  complete-inserted =
      rw (first_where-cons (has_id d.id) d s.deposits (ground arith), complete)
        (rw (unsettled.0) (rw (unsettled.1) (rw (alone, complete_locked) refl)))

  abbrev paid : State
  paid = record { bank = posting.1; deposits = set_completed amount d ∷ s.deposits }

  update_inserted :
      update_where (has_id d.id) (set_completed amount) (d ∷ s.deposits)
      ≡ set_completed amount d ∷ s.deposits
  unfolding update_where
  update_inserted =
      let hit : has_id d.id d ≡ true = ground arith in
      rw (hit, update_where)
        (ap (λ rows. set_completed amount d ∷ rows)
          (update_where-absent d.id (set_completed amount) s.deposits no_row))

  after_credit_paid :
      (a : Attempt) (e : CreditLedgerEntry)
      → a.0 ≡ ok e
      → after_credit env entry_id amount d inserted a ≡ (
        ok (set_completed amount d),
        record { bank = a.1; deposits = set_completed amount d ∷ s.deposits },
      )
  unfolding after_credit
  after_credit_paid (ok x, bank) e h = rw update_inserted refl
  after_credit_paid (err x, bank) e h = cc

  fetched :
      (t : TransferResult) (e : CreditLedgerEntry)
      → t.status ≡ "success"
      → env.min_confirmations ≤ t.confirmations
      → t.amount ≡ amount
      → d.amount_requested ≡ amount
      → posting.0 ≡ ok e
      → after_fetch env entry_id d inserted (transferred t) ≡ (ok (set_completed amount d), paid)
  unfolding after_fetch apply_transfer_gates
  fetched t e success confirmed same asked posted =
      let success' : str_eq t.status "success" ≡ true =
        ground (arith, success, eq_iff t.status "success") in
      let confirmed' : ltb t.confirmations env.min_confirmations ≡ false =
        ground (arith, confirmed) in
      let same' : eqb_ℤ t.amount d.amount_requested ≡ true = ground (arith, same, asked) in
      rw success' (
        rw confirmed' (
          rw same' (
            ap (λ z. complete env entry_id z d.id inserted) same
            ∙ complete-inserted
            ∙ after_credit_paid posting e posted)))

  pending_fetches :
      (h : String) (f : Fetched)
      → d.tx_hash ≡ some h
      → h ≢ ""
      → env.fetch_usdt_transfer h ≡ f
      → verify_pending env entry_id calm calm d inserted ≡ after_fetch env entry_id d inserted f
  unfolding verify_pending
  pending_fetches h f hash not_empty answer =
      let filled : str_eq h "" ≡ false = ground (arith, eq_iff h "", not_empty) in
      ground (arith, hash, filled, answer)

  verified :
      (r : Request) (h : String) (t : TransferResult) (e : CreditLedgerEntry)
      → d.tx_hash ≡ some h
      → h ≢ ""
      → d.idempotency_key ≡ r.idempotency_key
      → count r.idempotency_key ≤ 128
      → first_where (has_key r.idempotency_key) s.deposits ≡ none
      → env.fetch_usdt_transfer h ≡ transferred t
      → t.status ≡ "success"
      → env.min_confirmations ≤ t.confirmations
      → t.amount ≡ amount
      → d.amount_requested ≡ amount
      → posting.0 ≡ ok e
      → verify_checked env entry_id calm calm r amount d s ≡ (ok (set_completed amount d), paid)
  unfolding verify_checked verify_new create_pending_deposit insert_deposit after_create
      verify_pending failed_with_hash completed_with_hash
  verified r h t e hash not_empty key width no_key answer success confirmed same asked posted =
      let no_failed : first_where (failed_with_hash d.tx_hash) s.deposits ≡ none =
        first_where-narrower (failed_with_hash d.tx_hash) (has_hash d.tx_hash) s.deposits
          (λ y p. rw p refl) no_hash in
      let no_completed : first_where (completed_with_hash d.tx_hash) s.deposits ≡ none =
        first_where-narrower (completed_with_hash d.tx_hash) (has_hash d.tx_hash) s.deposits
          (λ y p. rw p refl) no_hash in
      let fits : leb (count d.idempotency_key) 128 ≡ true = ground (arith, key, width) in
      let no_key' : first_where (has_key d.idempotency_key) s.deposits ≡ none = rw key no_key in
      rw (no_key, verify_checked)
        (rw (no_failed, verify_new)
          (rw (no_completed, create_pending_deposit)
            (rw fits (
              rw (no_key', insert_deposit)
                (rw (no_hash, insert_deposit)
                  (rw (unsettled.0) (
                    rw (unsettled.1) (
                      pending_fetches h (transferred t) hash not_empty answer
                      ∙ fetched t e success confirmed same asked posted))))))))

-- A transfer of `n` units to be credited: the request has been accepted for a new deposit of that
-- amount, whose keys and hash are new, and the chain answers with that amount, confirmed.
pub record IsConfirmed (env : Environment) (entry_id pk n : ℕ) (method : PaymentMethod) (h : String)
    (r : Request) (t : TransferResult) (s : State) : Type 0 where
  pub accepted :
      check_request env entry_id calm calm pk r
      ≡ ok (pos n, new_deposit env entry_id calm calm r method (pos n) h pk)
  pub width : count r.idempotency_key ≤ 128
  pub no_key : first_where (has_key r.idempotency_key) s.deposits ≡ none
  pub no_row : first_where (has_id pk) s.deposits ≡ none
  pub no_hash : first_where (has_hash (some h)) s.deposits ≡ none
  pub not_empty : h ≢ ""
  pub answer : env.fetch_usdt_transfer h ≡ transferred t
  pub success : t.status ≡ "success"
  pub confirmed : env.min_confirmations ≤ t.confirmations
  pub amount : t.amount ≡ pos n

-- With no other transaction about, a valid bank, an account that has room for the amount and one more
-- version, texts of keys of at most 64 characters and a new key in the ledger, a request whose
-- arguments are accepted for a new deposit of `n` units, positive and within the ledger's limit,
-- under a new idempotency key and for a transaction that no deposit has, which the chain answers
-- with success, enough confirmations and this amount, is completed: the call returns the deposit,
-- which is the only new row, and exactly `n` units have been credited to the request's account.
pub verify_credits :
    (env : Environment) (entry_id pk n : ℕ) (method : PaymentMethod) (h : String) (r : Request)
    (t : TransferResult) (s : State) (a : Account)
    → IsConfirmed env entry_id pk n method h r t s
    → 0 < n
    → n < amount_limit
    → count (env.str pk) ≤ 64
    → IsValid s.bank
    → get_account r.account s.bank.accounts ≡ some a
    → find_key (deposit_key env.str pk) s.bank.ledger ≡ none
    → abs (a.balance +ℤ pos n) < amount_limit
    → a.version + 1 ≤ max_version
    → let d = set_completed (pos n) (new_deposit env entry_id calm calm r method (pos n) h pk) in
      let result = verify env entry_id calm calm pk r s in
      (result.0 ≡ ok d)
      × (result.1.deposits ≡ d ∷ s.deposits)
      × ((e : CreditLedgerEntry) × (e.delta ≡ pos n) × Moves s.bank r.account a e result.1.bank)
unfolding verify deposit_movement
verify_credits env entry_id pk n method h r t s a c positive small short valid row fresh fits room =
    let d = new_deposit env entry_id calm calm r method (pos n) h pk in
    let posted =
      deposit_posts env entry_id n d s positive small short a valid row fresh fits room in
    let (locked, found, delta, more, moves) =
      credit_moves entry_id (deposit_movement env entry_id (pos n) d) (pos n) s.bank _ valid fresh
        refl posted in
    let done =
      verified env entry_id (pos n) d s refl c.no_row c.no_hash r h t _ refl c.not_empty refl
        c.width c.no_key c.answer c.success c.confirmed c.amount refl posted in
    let m = deposit_movement env entry_id (pos n) d in
    let e = new_entry entry_id a (pos n) (record { amount = pos n; reference_type = deposit }) m in
    let same : locked ≡ a = ground (arith, row, found) in
    let moved : Moves s.bank r.account a e (credit quiet entry_id m s.bank).1 =
      subst (λ x. Moves s.bank r.account x e (credit quiet entry_id m s.bank).1) same moves in
    rw (c.accepted, verify) (rw done (refl, refl, (e, delta, moved)))

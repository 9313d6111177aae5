-- ===== src/Reconcile/Repair.antt =====
-- The rebuild of src/apps/billing/services/reconcile.py makes the drift report empty.
use roamkit_api.Base.{
  ℕ, ◌+◌, ◌≤◌, ◌≡◌, ◌≢◌, refl, sym, ap, ◌∙◌, Bool, true, false, ◌||◌, some, List, [], ◌∷◌, arith,
  ok, All, ◌==◌, ◌⊎◌, inl, inr, Bool-cases,
}
use mathlib.Core.Path.{subst}
use roamkit_api.Base.Int.{eqb_ℤ, eqb_ℤ_iff}
use roamkit_api.Ledger.{
  Bank, Account, CreditLedgerEntry, get_account, update_row, update_accounts, sum_delta,
}
use roamkit_api.Ledger.Credit.{set_balance, max_version}
use roamkit_api.Ledger.Rows.{
  id-get_account, All-get_account, All-update_accounts, get_account-update_accounts,
}
use roamkit_api.Ledger.Invariant.{IsChained}
use roamkit_api.Reconcile.{
  ledger_sum, find_drifts, save_balance, rebuild_balance_from_ledger, rebuild_locked, rebuild_rows,
  rebuild_all, count_repair, Rebuilt,
}
use roamkit_api.Reconcile.Drift.{Agrees, sum_delta_bounds, find_drifts-Agrees, All-map}

-- A primary key finds its row.
abbrev pub IsKeyed : List Account → Type 0
IsKeyed accounts = All (λ a. get_account a.id accounts ≡ some a) accounts

abbrev Listed : List Account → Account → Type 0
Listed accounts x = (l : Account) × (get_account x.id accounts ≡ some l)

abbrev has_id : ℕ → List Account → Bool
has_id k [] = false
has_id k (a ∷ rows) = k == a.id || has_id k rows

-- What the loop still owes to a row of the table, when `rest` is left of the snapshot.
abbrev Covered : List CreditLedgerEntry → List Account → Account → Type 0
Covered ledger rest a =
    Agrees ledger a ⊎ ((has_id a.id rest ≡ true) × (a.version + 1 ≤ max_version))

Covered-agreed :
    (ledger : List CreditLedgerEntry) (a : Account) (rest accounts : List Account)
    (locked x : Account)
    → get_account a.id accounts ≡ some locked
    → Agrees ledger locked
    → get_account x.id accounts ≡ some x
    → Covered ledger (a ∷ rest) x
    → Covered ledger rest x
Covered-agreed ledger a rest accounts locked x row agrees own (inl done) = inl done
Covered-agreed ledger a rest accounts locked x row agrees own (inr (listed, room)) =
    elim (Bool-cases (x.id == a.id)) [
      | inl same ↦
          let key : x.id ≡ a.id = ground arith in
          let one : locked ≡ x = ground arith in inl (subst (Agrees ledger) one agrees)
      | inr other ↦ inr (rw other at listed, room)
    ]

-- What the loop over `rest` needs of the bank.
record IsPending (rest : List Account) (b : Bank) : Type 0 where
  chained : IsChained b.ledger
  keyed : IsKeyed b.accounts
  listed : All (Listed b.accounts) rest
  covered : All (Covered b.ledger rest) b.accounts

-- The step of the loop on the row `a`: it does not fail, writes no entry, and owes less.
abbrev IsRepaired : Account → List Account → Bank → Type 0
IsRepaired a rest b =
    let (r, b') = rebuild_balance_from_ledger a b in
    (r ≡ ok (sum_delta a.id b.ledger)) × (b'.ledger ≡ b.ledger) × IsPending rest b'

module _ (a : Account) (rest : List Account) (b : Bank) (p : IsPending (a ∷ rest) b) where
  same_sum :
      (locked : Account)
      → get_account a.id b.accounts ≡ some locked
      → ledger_sum locked b ≡ sum_delta a.id b.ledger
  unfolding ledger_sum
  same_sum locked row = ap (λ k. sum_delta k b.ledger) (id-get_account a.id b.accounts locked row)

  All₂ :
      (rows : List Account)
      → All (λ x. get_account x.id b.accounts ≡ some x) rows
      → All (Covered b.ledger (a ∷ rest)) rows
      → (locked : Account) → get_account a.id b.accounts ≡ some locked
      → Agrees b.ledger locked
      → All (Covered b.ledger rest) rows
  All₂ [] keyed covered locked row agrees = tt
  All₂ (x ∷ rows) keyed covered locked row agrees = (
    Covered-agreed b.ledger a rest b.accounts locked x row agrees keyed.0 covered.0,
    All₂ rows keyed.1 covered.1 locked row agrees,
  )

  rebuild_agreeing :
      (locked : Account)
      → get_account a.id b.accounts ≡ some locked
      → Agrees b.ledger locked
      → rebuild_balance_from_ledger a b ≡ (ok (sum_delta a.id b.ledger), b)
  unfolding rebuild_balance_from_ledger rebuild_locked
  rebuild_agreeing locked row agrees =
      rw (row, rebuild_balance_from_ledger)
        (ground (arith, same_sum locked row, id-get_account a.id b.accounts locked row))

  repaired : Account → Bank
  repaired locked = record b {
    accounts =
        update_accounts locked.id (set_balance (sum_delta a.id b.ledger) (locked.version + 1))
          b.accounts;
  }

  rebuild_differing :
      (locked : Account)
      → get_account a.id b.accounts ≡ some locked
      → locked.balance ≢ sum_delta a.id b.ledger
      → locked.version + 1 ≤ max_version
      → rebuild_balance_from_ledger a b ≡ (ok (sum_delta a.id b.ledger), repaired locked)
  unfolding rebuild_balance_from_ledger save_balance repaired
  rebuild_differing locked row differs room =
      rw (row, rebuild_balance_from_ledger)
        (rw (same_sum locked row) (ground (arith, sum_delta_bounds a.id b.ledger p.chained)))

  -- The rows of the repaired table still have their keys.
  repaired-IsKeyed :
      (locked : Account)
      → get_account a.id b.accounts ≡ some locked
      → IsKeyed (repaired locked).accounts
  unfolding repaired
  repaired-IsKeyed locked row =
      let f = set_balance (sum_delta a.id b.ledger) (locked.version + 1) in
      let new = update_accounts locked.id f b.accounts in
      All-update_accounts (λ x. get_account x.id b.accounts ≡ some x)
        (λ x. get_account x.id new ≡ some x) locked.id f b.accounts
        (λ x own same.
          rw (get_account-update_accounts x.id locked.id f b.accounts (λ y. refl))
            (rw own (ground arith)))
        (λ x own other.
          rw (get_account-update_accounts x.id locked.id f b.accounts (λ y. refl))
            (rw own (ground arith)))
        p.keyed

  repaired-Listed :
      (locked : Account) (rows : List Account)
      → All (Listed b.accounts) rows
      → All (Listed (repaired locked).accounts) rows
  unfolding repaired
  repaired-Listed locked [] listed = tt
  repaired-Listed locked (x ∷ rows) listed =
      let f = set_balance (sum_delta a.id b.ledger) (locked.version + 1) in
      (
        (
          update_row locked.id f listed.0.0,
          rw (get_account-update_accounts x.id locked.id f b.accounts (λ y. refl))
              (rw (listed.0.1) refl),
        ),
        repaired-Listed locked rows listed.1,
      )

  repaired-Covered :
      (locked : Account)
      → get_account a.id b.accounts ≡ some locked
      → All (Covered b.ledger rest) (repaired locked).accounts
  unfolding repaired
  repaired-Covered locked row =
      let own = id-get_account a.id b.accounts locked row in
      All-update_accounts (Covered b.ledger (a ∷ rest)) (Covered b.ledger rest) locked.id
        (set_balance (sum_delta a.id b.ledger) (locked.version + 1)) b.accounts
        (λ x old same. inl (ap (λ k. sum_delta k b.ledger) (sym own ∙ sym same)))
        (λ x old other. ground (arith, own)) p.covered

  sum_of_row :
      (locked : Account)
      → get_account a.id b.accounts ≡ some locked
      → sum_delta locked.id b.ledger ≡ sum_delta a.id b.ledger
  sum_of_row locked row = ap (λ k. sum_delta k b.ledger) (id-get_account a.id b.accounts locked row)

  room_of_row :
      (locked : Account)
      → get_account a.id b.accounts ≡ some locked
      → eqb_ℤ locked.balance (sum_delta a.id b.ledger) ≡ false
      → locked.version + 1 ≤ max_version
  room_of_row locked row differs = ground (
    arith,
    sum_of_row locked row,
    All-get_account (Covered b.ledger (a ∷ rest)) a.id b.accounts locked p.covered row,
  )

  -- One round of the loop.
  repair_step : (locked : Account) → get_account a.id b.accounts ≡ some locked → IsRepaired a rest b
  repair_step locked row = elim (Bool-cases (eqb_ℤ locked.balance (sum_delta a.id b.ledger))) [
    | inl same ↦
        let agrees : Agrees b.ledger locked =
          (eqb_ℤ_iff _ _).0 same ∙ sym (sum_of_row locked row) in
        rw (rebuild_agreeing locked row agrees) (
          refl,
          refl,
          record {
            chained = p.chained;
            keyed = p.keyed;
            listed = p.listed.1;
            covered = All₂ b.accounts p.keyed p.covered locked row agrees;
          },
        )
    | inr differs ↦
        rw
          (rebuild_differing locked row (λ e. cc ((eqb_ℤ_iff _ _).1 e))
            (room_of_row locked row differs))
          (
            refl,
            unfold repaired in refl,
            record {
              chained = unfold repaired in p.chained;
              keyed = repaired-IsKeyed locked row;
              listed = repaired-Listed locked rest p.listed.1;
              covered = unfold repaired in repaired-Covered locked row;
            },
          )
  ]

rebuild_rows_repairs :
    (rows : List Account) (stats : Rebuilt) (b : Bank)
    → IsPending rows b
    → let (r, b') = rebuild_rows rows stats b in
      ((s : Rebuilt) × (r ≡ ok s)) × (b'.ledger ≡ b.ledger) × All (Agrees b'.ledger) b'.accounts
unfolding rebuild_rows
rebuild_rows_repairs [] stats b p = (
  (stats, refl),
  refl,
  All-map b.accounts (λ a. elim [ inl done ↦ done | inr (no_id, _) ↦ cc no_id ]) p.covered,
)
rebuild_rows_repairs (a ∷ rows) stats b p =
    let (locked, row) = p.listed.0 in
    let (good, ledger, next) = repair_step a rows b p locked row in
    let later =
      rebuild_rows_repairs rows (count_repair a.balance (sum_delta a.id b.ledger) stats)
        (rebuild_balance_from_ledger a b).1 next in
    rw (good, rebuild_rows) (later.0, later.1 ∙ ledger, later.2)

starts_pending :
    (rows whole : List Account) (b : Bank)
    → ((k : ℕ) → has_id k rows ≡ true → has_id k whole ≡ true)
    → All (λ a. get_account a.id b.accounts ≡ some a) rows
    → All (λ a. a.version + 1 ≤ max_version) rows
    → All (Listed b.accounts) rows × All (Covered b.ledger whole) rows
starts_pending [] whole b within keyed room = (tt, tt)
starts_pending (a ∷ rows) whole b within keyed room =
    let rest = starts_pending rows whole b (λ k h. within k (ground arith)) keyed.1 room.1 in
    (((a, keyed.0), rest.0), (inr (within a.id (ground arith), room.0), rest.1))

-- On a chained ledger, with unique account keys and room for one more version on each account,
-- whatever the cached balances are, the rebuild succeeds, leaves the ledger as it is, and an audit
-- after it finds no drift.
pub rebuild_all_repairs :
    (b : Bank)
    → IsChained b.ledger
    → IsKeyed b.accounts
    → All (λ a. a.version + 1 ≤ max_version) b.accounts
    → ((s : Rebuilt) × ((rebuild_all b).0 ≡ ok s))
      × ((rebuild_all b).1.ledger ≡ b.ledger)
      × (find_drifts (rebuild_all b).1 ≡ [])
unfolding rebuild_all
rebuild_all_repairs b chained keyed room =
    let start = starts_pending b.accounts b.accounts b (λ k h. h) keyed room in
    let done =
      rebuild_rows_repairs b.accounts (record { checked = 0; repaired = 0 }) b
        (record { chained = chained; keyed = keyed; listed = start.0; covered = start.1 }) in
    (done.0, done.1, (find_drifts-Agrees _).1 done.2)

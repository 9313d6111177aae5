-- ===== src/Reconcile/Drift.antt =====
-- The drift report is empty exactly when every cached balance is the sum of its entries.
use roamkit_api.Base.{
  ℕ, ◌<◌, ◌≡◌, refl, ap, List, [], ◌∷◌, arith, All, ◌==◌, inl, inr, ◌↔◌, Bool-cases, length,
}
use roamkit_api.Base.Int.{pos, ◌≤ℤ◌, abs}
use roamkit_api.Ledger.{Bank, Account, CreditLedgerEntry, sum_delta}
use roamkit_api.Ledger.Credit.{amount_limit}
use roamkit_api.Ledger.Rows.{sum_delta-cons_self, sum_delta-cons_ne}
use roamkit_api.Ledger.Invariant.{IsValid, IsChained}
use roamkit_api.Reconcile.{drifts_of, find_drifts, reconcile}

-- The cache of the row is the sum of its entries.
abbrev pub Agrees : List CreditLedgerEntry → Account → Type 0
Agrees ledger a = a.balance ≡ sum_delta a.id ledger

drifts_of-Agrees :
    (rows : List Account) (b : Bank) → (drifts_of rows b ≡ []) ↔ All (Agrees b.ledger) rows
unfolding drifts_of
drifts_of-Agrees [] b = (λ _. tt, λ _. refl)
drifts_of-Agrees (a ∷ rows) b = ground (arith, drifts_of-Agrees rows b)

-- In a chained ledger the sum of an account's entries is the last running balance, or zero.
pub sum_delta_bounds :
    (pk : ℕ) (ledger : List CreditLedgerEntry)
    → IsChained ledger
    → (pos 0 ≤ℤ sum_delta pk ledger) × (abs (sum_delta pk ledger) < amount_limit)
sum_delta_bounds pk [] c = unfold sum_delta in omega arith
sum_delta_bounds pk (e ∷ rows) c = elim (Bool-cases (e.account == pk)) [
  | inl own ↦
      let same : e.account ≡ pk = ground arith in
      rw (sum_delta-cons_self pk e rows same) (rw (← same) (rw (← c.1) (c.2, c.4)))
  | inr other ↦ rw (sum_delta-cons_ne pk e rows (ground arith)) (sum_delta_bounds pk rows c.5)
]

-- The report of an audit is empty exactly when each cached balance is the sum of its entries.
pub find_drifts-Agrees : (b : Bank) → (find_drifts b ≡ []) ↔ All (Agrees b.ledger) b.accounts
unfolding find_drifts
find_drifts-Agrees b = drifts_of-Agrees b.accounts b

pub All-map {ℓ} :
    {P Q : Account → Type ℓ} (rows : List Account)
    → ((a : Account) → P a → Q a)
    → All P rows
    → All Q rows
All-map [] f all = tt
All-map (a ∷ rows) f all = (f a all.0, All-map rows f all.1)

-- Under the invariant of the ledger the audit counts no drift.
reconcile-IsValid : (b : Bank) → IsValid b → (reconcile b).drifts ≡ 0
unfolding reconcile
reconcile-IsValid b v =
    ap length ((find_drifts-Agrees b).1 (All-map b.accounts (λ a bal. bal.0) v.accounts))

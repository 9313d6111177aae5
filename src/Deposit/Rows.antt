-- ===== src/Deposit/Rows.antt =====
-- Tables of deposits in which a key, and a hash, stands once, as the unique columns of
-- src/apps/billing/models.py have it.
use roamkit_api.Base.{
  ℕ, ◌≡◌, ◌≢◌, ◌⊎◌, refl, sym, ap, ◌∙◌, Bool, true, false, none, some, List, [], ◌∷◌, String, arith,
  All, Bool-cases, inl, inr, first_where, update_where, update_if, first_where-update_none, ◌==◌,
}
use mathlib.Core.Path.{subst}
use roamkit_api.Deposit.{DepositRequest, has_id, has_hash}

unfoldable pub AreDistinct : List DepositRequest → Type 0
AreDistinct [] = Unit
AreDistinct (d ∷ rows) =
    (first_where (has_id d.id) rows ≡ none)
    × ((h : String) → d.tx_hash ≡ some h → first_where (has_hash (some h)) rows ≡ none)
    × AreDistinct rows

-- A change of a row that leaves its key and its hash.
pub record Keeps (f : DepositRequest → DepositRequest) : Type 0 where
  pub id : (d : DepositRequest) → (f d).id ≡ d.id
  pub tx_hash : (d : DepositRequest) → (f d).tx_hash ≡ d.tx_hash

module _ (pk : ℕ) (f : DepositRequest → DepositRequest) where
  pub AreDistinct-update_where :
      (rows : List DepositRequest)
      → Keeps f
      → AreDistinct rows
      → AreDistinct (update_where (has_id pk) f rows)
  unfolding AreDistinct update_where
  AreDistinct-update_where [] keeps d = tt
  AreDistinct-update_where (x ∷ rows) keeps (no_id, no_hash, d) = (
    rw (same_id (Bool-cases (has_id pk x))) (
        first_where-update_none (has_id x.id) (has_id pk) f rows
          (λ y. ap (λ n. n == x.id) (keeps.id y)) no_id),
    (λ h e.
        first_where-update_none (has_hash (some h)) (has_id pk) f rows
          (λ y. rw (keeps.tx_hash y) refl)
          (no_hash h (sym (same_hash_of (Bool-cases (has_id pk x))) ∙ e))),
    AreDistinct-update_where rows keeps d,
  )
    where
      same_id : (has_id pk x ≡ true) ⊎ (has_id pk x ≡ false) → (update_if (has_id pk) f x).id ≡ x.id
      same_id (inl hit) = rw hit (keeps.id x)
      same_id (inr miss) = rw miss refl

      same_hash_of :
          (has_id pk x ≡ true) ⊎ (has_id pk x ≡ false)
          → (update_if (has_id pk) f x).tx_hash ≡ x.tx_hash
      same_hash_of (inl hit) = rw hit (keeps.tx_hash x)
      same_hash_of (inr miss) = rw miss refl

  -- No row has the key: nothing changes.
  pub update_where-absent :
      (rows : List DepositRequest)
      → first_where (has_id pk) rows ≡ none
      → update_where (has_id pk) f rows ≡ rows
  unfolding first_where update_where
  update_where-absent [] h = refl
  update_where-absent (x ∷ rows) h = ground (arith, update_where-absent rows)

  All-absent :
      (P Q : DepositRequest → Type 0) (rows : List DepositRequest)
      → first_where (has_id pk) rows ≡ none
      → ((x : DepositRequest) → P x → x.id ≢ pk → Q x)
      → All P rows
      → All Q rows
  unfolding first_where
  All-absent P Q [] h other all = tt
  All-absent P Q (x ∷ rows) h other all = elim (Bool-cases (x.id == pk)) [
    | inl hit ↦ cc
    | inr miss ↦
        (other x all.0 (ground arith), All-absent P Q rows (ground (arith, h, miss)) other all.1)
  ]

  -- The row with the key is changed, and every other row stays.
  pub All-update_distinct :
      (P Q : DepositRequest → Type 0) (rows : List DepositRequest) (locked : DepositRequest)
      → AreDistinct rows
      → first_where (has_id pk) rows ≡ some locked
      → Q (f locked)
      → ((x : DepositRequest) → P x → x.id ≢ pk → Q x)
      → All P rows
      → All Q (update_where (has_id pk) f rows)
  unfolding AreDistinct first_where update_where
  All-update_distinct P Q [] locked d h hit other all = cc
  All-update_distinct P Q (x ∷ rows) locked d h hit other all = elim (Bool-cases (x.id == pk)) [
    | inl same ↦
        let found : x ≡ locked = ground (arith, h, same) in
        let alone : first_where (has_id pk) rows ≡ none =
          subst (λ n. first_where (has_id n) rows ≡ none) (ground (arith, same)) d.0 in
        (
          rw same (subst (λ y. Q (f y)) (sym found) hit),
          subst (All Q) (sym (update_where-absent rows alone))
              (All-absent P Q rows alone other all.1),
        )
    | inr miss ↦ (
      rw miss (other x all.0 (ground (arith, miss))),
      All-update_distinct P Q rows locked d.2 (ground (arith, h, miss)) hit other all.1,
    )
  ]

pub All-first_where :
    (P : DepositRequest → Type 0) (p : DepositRequest → Bool) (rows : List DepositRequest)
    (x : DepositRequest)
    → All P rows
    → first_where p rows ≡ some x
    → P x
unfolding first_where
All-first_where P p [] x all h = cc
All-first_where P p (y ∷ rows) x all h = elim (Bool-cases (p y)) [
  | inl hit ↦ subst P (ground (arith, h, hit)) all.0
  | inr miss ↦ All-first_where P p rows x all.1 (ground (arith, h, miss))
]

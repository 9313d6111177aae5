-- ===== src/Base/Counts.antt =====
-- Tables in which a query selects at most one row for each key, and the number of rows that a test
-- selects.
use Prim.Native.Nat.{ℕ, ◌+◌, ◌≤◌}
use mathlib.Core.Path.{◌≡◌, refl, ◌∙◌}
use mathlib.Core.Bool.{Bool, true, false}
use mathlib.Core.Option.{none, some}
use mathlib.Core.List.{List, [], ◌∷◌}
use native.Mathlib.Omega.{arith}
use mathlib.Core.Logic.{◌⊎◌, inl, inr}
use roamkit_api.Base.Tests.{if◌then◌else◌, Bool-cases}
use roamkit_api.Base.Tables.{
  first_where, update_where, update_if, first_where-update_none, first_where-narrower,
}

abbrev pub one_if : Bool → ℕ
one_if b = if b then 1 else 0

module _ {ℓ} {A : Type ℓ} where
  -- `filter(…).count()`
  unfoldable pub count_where : (A → Bool) → List A → ℕ
  count_where p [] = 0
  count_where p (x ∷ rows) = let rest = count_where p rows in if p x then 1 + rest else rest

  -- `key x` selects the rows that have the key of `x`.
  unfoldable pub AreUnique : (A → A → Bool) → List A → Type ℓ
  AreUnique key [] = Unit
  AreUnique key (x ∷ rows) = (first_where (key x) rows ≡ none) × AreUnique key rows

  pub update_where-absent :
      (p : A → Bool) (f : A → A) (rows : List A)
      → first_where p rows ≡ none
      → update_where p f rows ≡ rows
  unfolding first_where update_where
  update_where-absent p f [] h = refl
  update_where-absent p f (x ∷ rows) h = ground (arith, update_where-absent p f rows)

  -- Where one row is updated, the count changes as the test on that row does.
  pub count_where-update_where :
      (key : A → A → Bool) (p q : A → Bool) (f : A → A) (rows : List A) (x : A)
      → ((y z : A) → p y ≡ true → key y z ≡ false → p z ≡ false)
      → AreUnique key rows
      → first_where p rows ≡ some x
      → count_where q (update_where p f rows) + one_if (q x) ≡ count_where q rows + one_if (q (f x))
  unfolding first_where update_where count_where AreUnique
  count_where-update_where key p q f [] x same u h = cc
  count_where-update_where key p q f (y ∷ rows) x same (absent, u) h = elim (Bool-cases (p y)) [
    | inl hit ↦
        let none_left = first_where-narrower p (key y) rows (λ z. same y z hit) absent in
        ground (arith, hit, update_where-absent p f rows none_left)
    | inr miss ↦ ground (arith, miss, count_where-update_where key p q f rows x same u)
  ]

  pub AreUnique-update_where :
      (key : A → A → Bool) (p : A → Bool) (f : A → A) (rows : List A)
      → ((y z : A) → key y (f z) ≡ key y z)
      → ((y z : A) → key (f y) z ≡ key y z)
      → AreUnique key rows
      → AreUnique key (update_where p f rows)
  unfolding update_where AreUnique
  AreUnique-update_where key p f [] keeps keeps_key u = tt
  AreUnique-update_where key p f (y ∷ rows) keeps keeps_key (absent, u) = (
    first_where-narrower (key (update_if p f y)) (key y) (update_where p f rows)
        (λ z miss. head_key z (Bool-cases (p y)) ∙ miss)
        (first_where-update_none (key y) p f rows (keeps y) absent),
    AreUnique-update_where key p f rows keeps keeps_key u,
  )
    where
      head_key : (z : A) → (p y ≡ true) ⊎ (p y ≡ false) → key (update_if p f y) z ≡ key y z
      head_key z (inl hit) = rw hit (keeps_key y z)
      head_key z (inr miss) = rw miss refl

  -- A row that is found counts.
  pub count_where-found :
      (p q : A → Bool) (rows : List A) (x : A)
      → first_where p rows ≡ some x
      → one_if (q x) ≤ count_where q rows
  unfolding first_where count_where
  count_where-found p q [] x h = cc
  count_where-found p q (y ∷ rows) x h = ground (arith, count_where-found p q rows x)

  pub count_where-none :
      (q : A → Bool) (rows : List A) → count_where q rows ≡ 0 → first_where q rows ≡ none
  unfolding first_where count_where
  count_where-none q [] h = refl
  count_where-none q (y ∷ rows) h = ground (arith, count_where-none q rows)

  pub count_where-absent :
      (q : A → Bool) (rows : List A) → first_where q rows ≡ none → count_where q rows ≡ 0
  unfolding first_where count_where
  count_where-absent q [] h = refl
  count_where-absent q (y ∷ rows) h = ground (arith, count_where-absent q rows)

  pub count_where-same :
      (p q : A → Bool) (f : A → A) (rows : List A)
      → ((y : A) → q (f y) ≡ q y)
      → count_where q (update_where p f rows) ≡ count_where q rows
  unfolding update_where count_where
  count_where-same p q f [] keeps = refl
  count_where-same p q f (y ∷ rows) keeps =
      ground (arith, keeps y, count_where-same p q f rows keeps)

  first_where-none :
      (p q : A → Bool) (rows : List A) (x : A)
      → first_where p rows ≡ none
      → first_where q rows ≡ some x
      → p x ≡ false
  unfolding first_where
  first_where-none p q [] x h k = cc
  first_where-none p q (y ∷ rows) x h k = ground (arith, first_where-none p q rows x)

  -- A row is found by its key.
  pub AreUnique-key :
      (key : A → A → Bool) (q : A → Bool) (rows : List A) (x : A)
      → ((y : A) → key y y ≡ true)
      → ((y z : A) → key y z ≡ key z y)
      → AreUnique key rows
      → first_where q rows ≡ some x
      → first_where (key x) rows ≡ some x
  unfolding first_where AreUnique
  AreUnique-key key q [] x same swap u h = cc
  AreUnique-key key q (y ∷ rows) x same swap (absent, u) h = elim (Bool-cases (q y)) [
    | inl hit ↦ ground (arith, hit, same y, h)
    | inr miss ↦ ground (
      arith,
      miss,
      h,
      swap x y,
      first_where-none (key y) q rows x absent,
      AreUnique-key key q rows x same swap u,
    )
  ]

  -- An update of one row that the query selects neither before nor after.
  pub first_where-update_unselected :
      (key : A → A → Bool) (p q : A → Bool) (f : A → A) (rows : List A) (x : A)
      → ((y z : A) → p y ≡ true → key y z ≡ false → p z ≡ false)
      → AreUnique key rows
      → first_where p rows ≡ some x
      → q x ≡ false
      → q (f x) ≡ false
      → first_where q (update_where p f rows) ≡ first_where q rows
  unfolding first_where update_where AreUnique
  first_where-update_unselected key p q f [] x same u h miss miss' = refl
  first_where-update_unselected key p q f (y ∷ rows) x same (absent, u) h miss miss' =
      elim (Bool-cases (p y)) [
        | inl hit ↦
            let none_left = first_where-narrower p (key y) rows (λ z. same y z hit) absent in
            ground (arith, hit, miss, miss', h, update_where-absent p f rows none_left)
        | inr other ↦
            ground
              (arith, other, h, miss, miss', first_where-update_unselected key p q f rows x same u)
      ]

-- ===== src/Base/Tables.antt =====
-- Tables as lists of rows: the first row that a query selects, and an update of the rows that it
-- selects.
use mathlib.Core.Path.{◌≡◌, refl}
use mathlib.Core.Bool.{Bool, true, false}
use mathlib.Core.Option.{Option, none, some}
use mathlib.Core.List.{List, [], ◌∷◌}
use native.Mathlib.Omega.{arith}
use mathlib.Core.Logic.{inl, inr}
use roamkit_api.Base.Tests.{if◌then◌else◌, Bool-cases}

module _ {ℓ} {A : Type ℓ} where
  -- `filter(…).first()`
  unfoldable pub first_where : (A → Bool) → List A → Option A
  first_where p [] = none
  first_where p (x ∷ rows) = if p x then some x else first_where p rows

  abbrev pub update_if : (A → Bool) → (A → A) → A → A
  update_if p f x = if p x then f x else x

  -- `UPDATE … WHERE`
  unfoldable pub update_where : (A → Bool) → (A → A) → List A → List A
  update_where p f [] = []
  update_where p f (x ∷ rows) = update_if p f x ∷ update_where p f rows

  pub first_where-cons :
      (p : A → Bool) (x : A) (rows : List A) → p x ≡ true → first_where p (x ∷ rows) ≡ some x
  unfolding first_where
  first_where-cons p x rows h = rw (h, first_where) refl

  pub first_where-selects :
      (p : A → Bool) (rows : List A) (x : A) → first_where p rows ≡ some x → p x ≡ true
  unfolding first_where
  first_where-selects p [] x h = cc
  first_where-selects p (y ∷ rows) x h = ground (arith, first_where-selects p rows x)

  -- An update that keeps what the query reads changes the row that the query finds.
  pub first_where-update_where :
      (p q : A → Bool) (f : A → A) (rows : List A) (x : A)
      → ((y : A) → p (f y) ≡ p y)
      → first_where p rows ≡ some x
      → first_where p (update_where q f rows) ≡ some (update_if q f x)
  unfolding first_where update_where
  first_where-update_where p q f [] x keeps h = cc
  first_where-update_where p q f (y ∷ rows) x keeps h =
      ground (arith, keeps y, first_where-update_where p q f rows x keeps)

  pub first_where-update_none :
      (p q : A → Bool) (f : A → A) (rows : List A)
      → ((y : A) → p (f y) ≡ p y)
      → first_where p rows ≡ none
      → first_where p (update_where q f rows) ≡ none
  unfolding first_where update_where
  first_where-update_none p q f [] keeps h = refl
  first_where-update_none p q f (y ∷ rows) keeps h =
      ground (arith, keeps y, first_where-update_none p q f rows keeps)

  -- A narrower query finds nothing where a wider one does not.
  pub first_where-narrower :
      (p q : A → Bool) (rows : List A)
      → ((y : A) → q y ≡ false → p y ≡ false)
      → first_where q rows ≡ none
      → first_where p rows ≡ none
  unfolding first_where
  first_where-narrower p q [] narrow h = refl
  first_where-narrower p q (y ∷ rows) narrow h =
      ground (arith, narrow y, first_where-narrower p q rows narrow)

  pub first_where-cons_other :
      (p : A → Bool) (x : A) (rows : List A)
      → p x ≡ false
      → first_where p (x ∷ rows) ≡ first_where p rows
  unfolding first_where
  first_where-cons_other p x rows h = rw (h, first_where) refl

  -- An update of rows that the query does not select.
  pub first_where-update_other :
      (p q : A → Bool) (f : A → A) (rows : List A)
      → ((y : A) → p (f y) ≡ p y)
      → ((y : A) → p y ≡ true → q y ≡ false)
      → first_where p (update_where q f rows) ≡ first_where p rows
  unfolding first_where update_where
  first_where-update_other p q f [] keeps apart = refl
  first_where-update_other p q f (y ∷ rows) keeps apart =
      ground (arith, keeps y, apart y, first_where-update_other p q f rows keeps apart)

  -- A row that an update has selected is an image of the update.
  pub first_where-updated :
      (p q : A → Bool) (f : A → A) (rows : List A) (y : A)
      → ((x : A) → p (f x) ≡ p x)
      → first_where q (update_where p f rows) ≡ some y
      → p y ≡ true
      → (x : A) × (y ≡ f x)
  unfolding first_where update_where
  first_where-updated p q f [] y keeps h k = absurd (ground (arith, h))
  first_where-updated p q f (x ∷ rows) y keeps h k = elim (Bool-cases (q (update_if p f x))) [
    | inr miss ↦ first_where-updated p q f rows y keeps (ground (arith, miss, h)) k
    | inl hit ↦ elim (Bool-cases (p x)) [
      | inl selected ↦ (x, ground (arith, hit, selected, h))
      | inr other ↦ absurd (ground (arith, hit, other, h, k))
    ]
  ]

-- ===== src/Base/Errors.antt =====
-- Values or errors. A method that raises inside a transaction leaves the state that it found, so
-- the state stands beside the result: `Outcome`.
use mathlib.Core.Path.{◌≡◌, refl, subst, ap}
use mathlib.Core.Logic.{◌⊎◌, inl, inr}
use mathlib.Core.Bool.{Bool, true, false}
use mathlib.Core.Option.{Option, none, some}
use roamkit_api.Base.Tests.{if◌then◌else◌}

pub data Result {ℓ κ} (E : Type ℓ) (A : Type κ) : Type (ℓ ⊔ κ) where
  ok : A → Result E A
  err : E → Result E A

infixl 5 ◌>>=◌ ◌>>◌
abbrev pub ◌>>=◌ {ℓ κ μ} :
    {E : Type ℓ} {A : Type κ} {B : Type μ} → Result E A → (A → Result E B) → Result E B
ok a >>= f = f a
err e >>= f = err e

abbrev pub ◌>>◌ {ℓ κ} : {E : Type ℓ} {B : Type κ} → Result E (Unit {0}) → Result E B → Result E B
m >> k = m >>= λ _. k

-- `if b: raise e`
abbrev pub raise_if {ℓ} : {E : Type ℓ} → Bool → E → Result E (Unit {0})
raise_if true e = err e
raise_if false e = ok tt

pub Result-cases {ℓ κ} :
    {E : Type ℓ} {A : Type κ} (r : Result E A) → ((a : A) × (r ≡ ok a)) ⊎ ((e : E) × (r ≡ err e))
Result-cases (ok a) = inl (a, refl)
Result-cases (err e) = inr (e, refl)

-- `if x is None: raise e`
abbrev pub or_raise {ℓ} : {E A : Type ℓ} → Option A → E → Result E A
or_raise (some a) e = ok a
or_raise none e = err e

-- A method under `transaction.atomic`: an exception rolls back to the state before the call.
abbrev pub atomic {ℓ} : {E A S : Type ℓ} → S → Result E (A × S) → Result E A × S
atomic s (ok (a, t)) = (ok a, t)
atomic s (err e) = (err e, s)

-- What holds of the value, where there is one. The lemmas follow the code: each `raise_if` that is
-- passed, and each value that is bound, becomes a hypothesis of what comes after it.
pub record Ensures {ℓ κ μ} {E : Type ℓ} {A : Type κ} (P : A → Type μ) (r : Result E A)
    : Type (ℓ ⊔ κ ⊔ μ) where
  pub value : (a : A) → r ≡ ok a → P a

ok_injective {ℓ κ} :
    {E : Type ℓ} {A : Type κ} {a b : A} → let r : Result E A = ok a in r ≡ ok b → a ≡ b
ok_injective h = cc

err_no_value {ℓ κ} : {E : Type ℓ} {A : Type κ} {e : E} {a : A} → err e ≡ ok a → ⊥
err_no_value h = cc

pub ok-Ensures {ℓ κ μ} :
    (E : Type ℓ) {A : Type κ} (P : A → Type μ) (a : A) → P a → Ensures {E = E} P (ok a)
ok-Ensures E P a v = record { value = λ b h. subst P (ok_injective {E = E} h) v }

pub err-Ensures {ℓ κ μ} :
    {E : Type ℓ} {A : Type κ} (P : A → Type μ) (e : E) → Ensures {A = A} P (err e)
err-Ensures P e = record { value = λ b h. absurd (err_no_value h) }

pub >>=-Ensures {ℓ κ μ ν} :
    {E : Type ℓ} {A : Type κ} {B : Type μ} (P : B → Type ν) (m : Result E A) (f : A → Result E B)
    → ((a : A) → m ≡ ok a → Ensures P (f a))
    → Ensures P (m >>= f)
>>=-Ensures P (ok a) f h = h a refl
>>=-Ensures P (err e) f h = err-Ensures P e

pub raise_if-Ensures {ℓ κ μ} :
    {E : Type ℓ} {B : Type κ} (P : B → Type μ) (b : Bool) (e : E) (k : Result E B)
    → (b ≡ false → Ensures P k)
    → Ensures P (raise_if b e >> k)
raise_if-Ensures P true e k h = err-Ensures P e
raise_if-Ensures P false e k h = h refl

pub or_raise-Ensures {ℓ μ} :
    {E A : Type ℓ} {B : Type ℓ} (P : B → Type μ) (o : Option A) (e : E) (f : A → Result E B)
    → ((a : A) → o ≡ some a → Ensures P (f a))
    → Ensures P (or_raise o e >>= f)
or_raise-Ensures P (some a) e f h = h a refl
or_raise-Ensures P none e f h = err-Ensures P e

pub if-Ensures {ℓ κ μ} :
    {E : Type ℓ} {B : Type κ} (P : B → Type μ) (b : Bool) (r t : Result E B)
    → (b ≡ true → Ensures P r)
    → (b ≡ false → Ensures P t)
    → Ensures P (if b then r else t)
if-Ensures P true r t v w = v refl
if-Ensures P false r t v w = w refl

-- A property of every pair that a call can return with a value.
pub record Returns {ℓ κ μ ν} {E : Type ℓ} {A : Type κ} {S : Type μ} (P : A × S → Type ν)
    (r : Result E A × S) : Type (ℓ ⊔ κ ⊔ μ ⊔ ν) where
  pub value : (a : A) (t : S) → r ≡ (ok a, t) → P (a, t)

pub err-Returns {ℓ κ μ ν} :
    {E : Type ℓ} {A : Type κ} {S : Type μ} (P : A × S → Type ν) (e : E) (s : S)
    → Returns {A = A} P (err e, s)
err-Returns P e s = record { value = λ a t h. absurd (err_no_value (ap (λ x. x.0) h)) }

pub if-Returns {ℓ κ μ ν} :
    {E : Type ℓ} {A : Type κ} {S : Type μ} (P : A × S → Type ν) (b : Bool) (r t : Result E A × S)
    → (b ≡ true → Returns P r)
    → (b ≡ false → Returns P t)
    → Returns P (if b then r else t)
if-Returns P true r t v w = v refl
if-Returns P false r t v w = w refl

pub atomic-Returns {ℓ κ} :
    {E A S : Type ℓ} (P : A × S → Type κ) (s : S) (r : Result E (A × S))
    → Ensures P r
    → Returns P (atomic s r)
atomic-Returns {E = E} {A = A} {S = S} P s (ok (a, t)) v = record {
  value = λ b u h. subst P (same_pair h) (v.value (a, t) refl);
}
  where
    same_pair :
        {b : A} {u : S}
        → let r : Result E A × S = (ok a, t) in r ≡ (ok b, u) → ◌≡◌ {A = A × S} (a, t) (b, u)
    same_pair h = cc
atomic-Returns P s (err e) v = err-Returns P e s

-- A property of states that the body's own states have, and that the state before has.
pub atomic-state {ℓ κ} :
    {E A S : Type ℓ} (Q : S → Type κ) (s : S) (r : Result E (A × S))
    → Q s
    → Ensures (λ (p : A × S). Q p.1) r
    → Q (atomic s r).1
atomic-state Q s (ok (a, t)) before after = after.value (a, t) refl
atomic-state Q s (err e) before after = before

pub if-state {ℓ κ μ} :
    {A : Type ℓ} {S : Type κ} (Q : S → Type μ) (b : Bool) (r t : A × S)
    → (b ≡ true → Q r.1)
    → (b ≡ false → Q t.1)
    → Q (if b then r else t).1
if-state Q true r t v w = v refl
if-state Q false r t v w = w refl

-- ===== src/Organizations/DeviceTable.antt =====
-- The table of device bindings (src/apps/organizations/models.py) under the changes that
-- services/device_binding.py makes: which device each eSIM is bound to.
use roamkit_api.Base.{
  ℕ, ◌≡◌, ◌⊎◌, inl, inr, refl, sym, ap, ◌∙◌, Bool, true, false, Option, none, some, List, ◌∷◌,
  String, ◌==◌, ◌≤◌, ◌+◌, if◌then◌else◌, arith, ==_refl, Bool-cases, Option-cases, first_where,
  update_where, update_if, count_where, one_if, AreUnique, AreUnique-update_where, AreUnique-key,
  count_where-update_where, count_where-same, count_where-none, count_where-absent,
  first_where-update_where, first_where-update_none, first_where-update_unselected,
}
use roamkit_api.Organizations.Bindings.{DeviceBinding, is_bound, has_key, is_active_for}

abbrev pub same_binding : DeviceBinding → DeviceBinding → Bool
same_binding x y = has_key x.id y

-- Keys stand once, and an eSIM has one active binding at most.
pub record IsTable (rows : List DeviceBinding) : Type 0 where
  pub unique : AreUnique same_binding rows
  pub single : (esim : ℕ) → count_where (is_active_for esim) rows ≤ 1

abbrev pub device_in : Option DeviceBinding → Option String
device_in none = none
device_in (some b) = some b.device_external_id

-- The device that the eSIM is bound to.
abbrev pub bound_device : ℕ → List DeviceBinding → Option String
bound_device esim rows = device_in (first_where (is_active_for esim) rows)

-- A change of a row that keeps its key, and one that also keeps what binds it to its device.
pub record Keeps (f : DeviceBinding → DeviceBinding) : Type 0 where
  pub id : (b : DeviceBinding) → (f b).id ≡ b.id
  pub esim : (b : DeviceBinding) → (f b).esim ≡ b.esim
  pub device : (b : DeviceBinding) → (f b).device_external_id ≡ b.device_external_id
  pub bound : (b : DeviceBinding) → is_bound (f b).status ≡ is_bound b.status

pub record Ends (f : DeviceBinding → DeviceBinding) : Type 0 where
  pub id : (b : DeviceBinding) → (f b).id ≡ b.id
  pub bound : (b : DeviceBinding) → is_bound (f b).status ≡ false

by_key :
    (pk : ℕ) (y z : DeviceBinding)
    → has_key pk y ≡ true
    → same_binding y z ≡ false
    → has_key pk z ≡ false
by_key pk y z h k = ground (arith, h, k)

unique_after :
    (pk : ℕ) (f : DeviceBinding → DeviceBinding) (rows : List DeviceBinding)
    → ((b : DeviceBinding) → (f b).id ≡ b.id)
    → AreUnique same_binding rows
    → AreUnique same_binding (update_where (has_key pk) f rows)
unique_after pk f rows keeps u =
    AreUnique-update_where same_binding (has_key pk) f rows (λ y z. ap (λ n. n == y.id) (keeps z))
      (λ y z. ap (λ n. z.id == n) (keeps y)) u

module _ (pk : ℕ) (f : DeviceBinding → DeviceBinding) (rows : List DeviceBinding)
    (v : IsTable rows) where
  active_kept : Keeps f → (e : ℕ) (b : DeviceBinding) → is_active_for e (f b) ≡ is_active_for e b
  active_kept keeps e b = rw (keeps.esim b, keeps.bound b) refl

  pub kept-IsTable : Keeps f → IsTable (update_where (has_key pk) f rows)
  kept-IsTable keeps = record {
    unique = unique_after pk f rows keeps.id v.unique;
    single = λ e. omega (
      arith,
      v.single e,
      count_where-same (has_key pk) (is_active_for e) f rows (active_kept keeps e),
    );
  }

  pub kept-bound_device :
      Keeps f → (e : ℕ) → bound_device e (update_where (has_key pk) f rows) ≡ bound_device e rows
  kept-bound_device keeps e = elim (Option-cases (first_where (is_active_for e) rows)) [
    | inl absent ↦ ap device_in (
        first_where-update_none (is_active_for e) (has_key pk) f rows (active_kept keeps e) absent
        ∙ sym absent)
    | inr (b, found) ↦
        ap device_in (
          first_where-update_where (is_active_for e) (has_key pk) f rows b (active_kept keeps e)
            found)
        ∙ (same_device b (Bool-cases (has_key pk b)) ∙ ap device_in (sym found))
  ]
    where
      same_device :
          (b : DeviceBinding)
          → (has_key pk b ≡ true) ⊎ (has_key pk b ≡ false)
          → some (update_if (has_key pk) f b).device_external_id ≡ some b.device_external_id
      same_device b (inl hit) = rw hit (ap some (keeps.device b))
      same_device b (inr miss) = rw miss refl

  -- The active binding of an eSIM ends.
  module _ (ends : Ends f) (x : DeviceBinding) (found : first_where (has_key pk) rows ≡ some x)
      (active : is_bound x.status ≡ true) where
    counted :
        (e : ℕ)
        → count_where (is_active_for e) (update_where (has_key pk) f rows)
            + one_if (is_active_for e x)
          ≡ count_where (is_active_for e) rows
    counted e = ground (
      arith,
      ends.bound x,
      count_where-update_where same_binding (has_key pk) (is_active_for e) f rows x (by_key pk)
          v.unique found,
    )

    pub ended-IsTable : IsTable (update_where (has_key pk) f rows)
    ended-IsTable = record {
      unique = unique_after pk f rows ends.id v.unique;
      single = λ e. omega (arith, v.single e, counted e);
    }

    pub ended-absent : first_where (is_active_for x.esim) (update_where (has_key pk) f rows) ≡ none
    ended-absent =
        count_where-none (is_active_for x.esim) (update_where (has_key pk) f rows)
          (ground (arith, active, ==_refl x.esim, counted x.esim, v.single x.esim))

    pub ended-bound_device :
        (e : ℕ)
        → bound_device e (update_where (has_key pk) f rows)
          ≡ (if x.esim == e then none else bound_device e rows)
    ended-bound_device e = elim (Bool-cases (x.esim == e)) [
      | inl here ↦
          let same : x.esim ≡ e = ground (arith, here) in
          rw here (
            ap device_in (
              ap (λ n. first_where (is_active_for n) (update_where (has_key pk) f rows)) (sym same)
              ∙ ended-absent))
      | inr there ↦ rw there (
          ap device_in (
            first_where-update_unselected same_binding (has_key pk) (is_active_for e) f rows x
              (by_key pk) v.unique found (ground (arith, there)) (ground (arith, ends.bound x))))
    ]

pub binding_by_key :
    (q : DeviceBinding → Bool) (rows : List DeviceBinding) (x : DeviceBinding)
    → IsTable rows
    → first_where q rows ≡ some x
    → first_where (has_key x.id) rows ≡ some x
binding_by_key q rows x v found =
    AreUnique-key same_binding q rows x (λ y. ==_refl y.id) (λ y z. ground arith) v.unique found

-- A binding is inserted for an eSIM without one.
module _ (b : DeviceBinding) (rows : List DeviceBinding) (v : IsTable rows)
    (fresh : first_where (has_key b.id) rows ≡ none)
    (free : first_where (is_active_for b.esim) rows ≡ none)
    (active : is_bound b.status ≡ true) where
  pub inserted-IsTable : IsTable (b ∷ rows)
  unfolding AreUnique count_where
  inserted-IsTable = record {
    unique = (fresh, v.unique);
    single = λ e. single_after e (Bool-cases (b.esim == e));
  }
    where
      single_after :
          (e : ℕ)
          → ((b.esim == e) ≡ true) ⊎ ((b.esim == e) ≡ false)
          → count_where (is_active_for e) (b ∷ rows) ≤ 1
      single_after e (inl here) =
          let same : b.esim ≡ e = ground (arith, here) in
          ground (
            arith,
            count_where-absent (is_active_for e) rows
                (ap (λ n. first_where (is_active_for n) rows) (sym same) ∙ free),
          )
      single_after e (inr there) = ground (arith, there, v.single e)

  pub inserted-bound_device :
      (e : ℕ)
      → bound_device e (b ∷ rows)
        ≡ (if b.esim == e then some b.device_external_id else bound_device e rows)
  unfolding first_where
  inserted-bound_device e = ground (arith, active)

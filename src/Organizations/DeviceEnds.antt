-- ===== src/Organizations/DeviceEnds.antt =====
-- Rotating a secret and ending a binding (src/apps/organizations/services/device_binding.py) keep the
-- audit trail true.
use roamkit_api.Base.{
  true_of_not, ℕ, ◌≡◌, refl, ◌∙◌, true, not, none, some, String, arith, first_where, Ensures,
  >>=-Ensures, raise_if-Ensures, or_raise-Ensures, ok-Ensures, atomic-state, ok, ◌>>=◌,
}
use roamkit_api.Organizations.Context.{resolve_organization_context, require_device_bind}
use roamkit_api.Organizations.Devices.{
  set_credential, open_binding, rotate_device_credential, unbind_device_binding,
}
use roamkit_api.Organizations.Bindings.{
  DeviceBinding, unbound, unbind, DeviceState, DeviceError, is_bound, is_own, lift, set_hash,
  end_binding, save_binding, record_binding_event, DeviceBindingCreateResult,
}
use roamkit_api.Organizations.DeviceTable.{Ends, ended-IsTable, ended-bound_device, binding_by_key}
use roamkit_api.Organizations.DeviceTrail.{replay, IsAudited, set_credential-IsAudited}

unbound-Ends : (actor now : ℕ) → Ends (end_binding unbound actor now)
unbound-Ends actor now = record { id = λ b. refl; bound = λ b. refl }

module _ (digest : String → String) (now : ℕ) where
  pub open_binding-found :
      (actor organization_id pk : ℕ) (s : DeviceState)
      → Ensures
          (λ (b : DeviceBinding).
            (organization : ℕ) × (first_where (is_own organization pk) s.bindings ≡ some b)
            × (is_bound b.status ≡ true))
          (open_binding digest now actor organization_id pk s)
  unfolding open_binding
  open_binding-found actor organization_id pk s =
      let P = λ (b : DeviceBinding).
        (organization : ℕ) × (first_where (is_own organization pk) s.bindings ≡ some b)
        × (is_bound b.status ≡ true) in
      >>=-Ensures P (lift (resolve_organization_context actor organization_id s.team)) _
        (λ ctx entered. >>=-Ensures P (lift (require_device_bind ctx)) _ (λ u permitted.
          or_raise-Ensures P (first_where (is_own ctx.organization.id pk) s.bindings) _ _
            (λ b found. raise_if-Ensures P (not (is_bound b.status)) _ _ (λ bound.
              ok-Ensures DeviceError P b (ctx.organization.id, found, true_of_not _ bound)))))

  pub rotate_device_credential-IsAudited :
      (token : String) (actor organization_id pk : ℕ) (s : DeviceState)
      → IsAudited s
      → IsAudited (rotate_device_credential digest now token actor organization_id pk s).1
  unfolding rotate_device_credential
  rotate_device_credential-IsAudited token actor organization_id pk s v =
      let P = λ (p : DeviceBindingCreateResult × DeviceState). IsAudited p.1 in
      atomic-state IsAudited s
        (open_binding digest now actor organization_id pk s >>= λ b. ok (
          record { binding = set_hash (digest token) now b; credential = token },
          set_credential digest now token true actor b s,
        ))
        v
        (>>=-Ensures P (open_binding digest now actor organization_id pk s) _ (λ b opened.
          ok-Ensures DeviceError P _ (set_credential-IsAudited digest now token true actor b s v)))

  unbound-IsAudited :
      (actor organization pk : ℕ) (b : DeviceBinding) (s : DeviceState)
      → IsAudited s
      → first_where (is_own organization pk) s.bindings ≡ some b
      → is_bound b.status ≡ true
      → IsAudited (
          record_binding_event unbind actor b none
            (save_binding b.id (end_binding unbound actor now) s))
  unfolding replay
  unbound-IsAudited actor organization pk b s v found bound =
      let f = end_binding unbound actor now in
      let old = binding_by_key (is_own organization pk) s.bindings b v.table found in
      let ends = unbound-Ends actor now in
      record {
        table = ended-IsTable b.id f s.bindings v.table ends b old bound;
        trail = λ e.
            ended-bound_device b.id f s.bindings v.table ends b old bound e
            ∙ ground (arith, v.trail e);
      }

  pub unbind_device_binding-IsAudited :
      (actor organization_id pk : ℕ) (s : DeviceState)
      → IsAudited s
      → IsAudited (unbind_device_binding digest now actor organization_id pk s).1
  unfolding unbind_device_binding
  unbind_device_binding-IsAudited actor organization_id pk s v =
      let P = λ (p : DeviceBinding × DeviceState). IsAudited p.1 in
      atomic-state IsAudited s
        (open_binding digest now actor organization_id pk s >>= λ b. ok (
          end_binding unbound actor now b,
          record_binding_event unbind actor b none
              (save_binding b.id (end_binding unbound actor now) s),
        ))
        v
        (>>=-Ensures P (open_binding digest now actor organization_id pk s) _ (λ b opened.
          let (organization, found, bound) =
            (open_binding-found actor organization_id pk s).value b opened in
          ok-Ensures DeviceError P _ (unbound-IsAudited actor organization pk b s v found bound)))

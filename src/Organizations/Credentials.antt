-- ===== src/Organizations/Credentials.antt =====
-- Which secrets open a device's binding: the checks of
-- src/apps/organizations/services/device_status.py after the calls of services/device_binding.py.
use roamkit_api.Base.{
  ℕ, ◌≡◌, ◌≢◌, refl, sym, ap, ◌∙◌, true, false, not, ◌||◌, some, String, str_eq, eq_iff, arith,
  first_where, update_where, first_where-selects, first_where-updated, List, none, Ensures,
  >>=-Ensures, raise_if-Ensures, or_raise-Ensures, ok-Ensures, if-Ensures, Returns, atomic-Returns,
  Result, ok, ◌>>=◌,
}
use roamkit_api.Organizations.Devices.{
  set_credential, open_binding, check_hash, rotate_device_credential, unbind_device_binding,
  resolve_binding_and_esim,
}
use roamkit_api.Organizations.Bindings.{
  DeviceBinding, unbound, DeviceState, DeviceError, DeviceBindingCreateResult, is_bound, has_key,
  is_named, is_own, set_hash, end_binding, save_binding, record_binding_event, unbind,
}
use roamkit_api.Organizations.DeviceEnds.{open_binding-found}

module _ (digest strip : String → String) (via_uem : DeviceBinding → Result DeviceError ℕ)
    (device credential : String) (s : DeviceState) where
  -- An active binding with the secret's hash.
  record Opens (p : DeviceBinding × ℕ) : Type 0 where
    found : first_where (is_named (strip device)) s.bindings ≡ some p.0
    hash : p.0.credential_hash ≡ digest credential

  resolve_binding_and_esim-Opens :
      Ensures Opens (resolve_binding_and_esim digest strip via_uem device credential s)
  unfolding resolve_binding_and_esim
  resolve_binding_and_esim-Opens =
      raise_if-Ensures Opens (str_eq (strip device) "" || str_eq credential "") _ _ (λ given.
        or_raise-Ensures Opens (first_where (is_named (strip device)) s.bindings) _ _ (λ b found.
          >>=-Ensures Opens (check_hash digest strip via_uem b credential) _ (λ u checked.
            let same : b.credential_hash ≡ digest credential =
              (eq_iff b.credential_hash (digest credential)).0 (ground (arith, checked)) in
            if-Ensures Opens (not (str_eq (strip b.uem_device_guid) "")) _ _
              (λ managed.
                >>=-Ensures Opens (via_uem b) _ (λ esim h.
                  ok-Ensures DeviceError Opens _ (record { found = found; hash = same })))
              (λ plain. ok-Ensures DeviceError Opens _ (record { found = found; hash = same })))))

module _ (digest : String → String) (now actor organization_id pk : ℕ) where
  own_key :
      (organization : ℕ) (rows : List DeviceBinding) (b : DeviceBinding)
      → first_where (is_own organization pk) rows ≡ some b
      → b.id ≡ pk
  own_key organization rows b found =
      ground (arith, first_where-selects (is_own organization pk) rows b found)

  unbind_device_binding-Leaves :
      (s : DeviceState)
      → Returns
          (λ (p : DeviceBinding × DeviceState).
            p.1.bindings ≡ update_where (has_key pk) (end_binding unbound actor now) s.bindings)
          (unbind_device_binding digest now actor organization_id pk s)
  unfolding unbind_device_binding
  unbind_device_binding-Leaves s =
      let P = λ (p : DeviceBinding × DeviceState).
        p.1.bindings ≡ update_where (has_key pk) (end_binding unbound actor now) s.bindings in
      atomic-Returns P s
        (open_binding digest now actor organization_id pk s >>= λ b. ok (
          end_binding unbound actor now b,
          record_binding_event unbind actor b none
              (save_binding b.id (end_binding unbound actor now) s),
        ))
        (>>=-Ensures P (open_binding digest now actor organization_id pk s) _ (λ b opened.
          let (organization, found, bound) =
            (open_binding-found digest now actor organization_id pk s).value b opened in
          ok-Ensures DeviceError P _ (
            ap (λ n. update_where (has_key n) (end_binding unbound actor now) s.bindings)
              (own_key organization s.bindings b found))))

  rotate_device_credential-Leaves :
      (token : String) (s : DeviceState)
      → Returns
          (λ (p : DeviceBindingCreateResult × DeviceState).
            p.1.bindings ≡ update_where (has_key pk) (set_hash (digest token) now) s.bindings)
          (rotate_device_credential digest now token actor organization_id pk s)
  unfolding rotate_device_credential set_credential
  rotate_device_credential-Leaves token s =
      let P = λ (p : DeviceBindingCreateResult × DeviceState).
        p.1.bindings ≡ update_where (has_key pk) (set_hash (digest token) now) s.bindings in
      atomic-Returns P s
        (open_binding digest now actor organization_id pk s >>= λ b. ok (
          record { binding = set_hash (digest token) now b; credential = token },
          set_credential digest now token true actor b s,
        ))
        (>>=-Ensures P (open_binding digest now actor organization_id pk s) _ (λ b opened.
          let (organization, found, bound) =
            (open_binding-found digest now actor organization_id pk s).value b opened in
          ok-Ensures DeviceError P _ (
            ap (λ n. update_where (has_key n) (set_hash (digest token) now) s.bindings)
              (own_key organization s.bindings b found))))

  -- After an unbinding that succeeded, no secret opens that binding: whatever device id and secret a
  -- device shows, it does not get the binding of that key.
  pub unbind_device_binding_locks_out :
      (strip : String → String) (via_uem : DeviceBinding → Result DeviceError ℕ)
      (device credential : String) (s t : DeviceState) (ended opened : DeviceBinding) (esim : ℕ)
      → unbind_device_binding digest now actor organization_id pk s ≡ (ok ended, t)
      → resolve_binding_and_esim digest strip via_uem device credential t ≡ ok (opened, esim)
      → opened.id ≢ pk
  unbind_device_binding_locks_out strip via_uem device credential s t ended opened esim h k same =
      let opens =
        (resolve_binding_and_esim-Opens digest strip via_uem device credential t).value _ k in
      let left = (unbind_device_binding-Leaves s).value ended t h in
      let (x, image) =
        first_where-updated (has_key pk) (is_named (strip device)) (end_binding unbound actor now)
          s.bindings opened (λ y. refl)
          (ap (first_where (is_named (strip device))) (sym left) ∙ opens.found)
          (ground (arith, same)) in
      let named = first_where-selects (is_named (strip device)) t.bindings opened opens.found in
      let ended_now : is_bound opened.status ≡ false =
        ap (λ (b : DeviceBinding). is_bound b.status) image in
      ground (arith, named, ended_now)

  -- After a rotation that succeeded, a device that gets the binding of that key has shown a secret
  -- with the hash of the new one.
  pub rotate_device_credential_replaces :
      (token : String) (strip : String → String) (via_uem : DeviceBinding → Result DeviceError ℕ)
      (device credential : String) (s t : DeviceState) (r : DeviceBindingCreateResult)
      (opened : DeviceBinding) (esim : ℕ)
      → rotate_device_credential digest now token actor organization_id pk s ≡ (ok r, t)
      → resolve_binding_and_esim digest strip via_uem device credential t ≡ ok (opened, esim)
      → opened.id ≡ pk
      → digest credential ≡ digest token
  rotate_device_credential_replaces token strip via_uem device credential s t r opened esim h k
        same =
      let opens =
        (resolve_binding_and_esim-Opens digest strip via_uem device credential t).value _ k in
      let left = (rotate_device_credential-Leaves token s).value r t h in
      let (x, image) =
        first_where-updated (has_key pk) (is_named (strip device)) (set_hash (digest token) now)
          s.bindings opened (λ y. refl)
          (ap (first_where (is_named (strip device))) (sym left) ∙ opens.found)
          (ground (arith, same)) in
      sym opens.hash ∙ ap (λ (b : DeviceBinding). b.credential_hash) image

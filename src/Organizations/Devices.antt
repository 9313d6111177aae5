-- ===== src/Organizations/Devices.antt =====
-- src/apps/organizations/services/device_binding.py, and the credential check of
-- services/device_status.py. Each call is one transaction at the instant `now`; `digest` is the
-- hexadecimal SHA-256 and `strip` Python's. The service leaves the UEM serial number alone.
use roamkit_api.Base.{
  ℕ, Bool, true, false, not, ◌||◌, Option, none, some, is_none, ◌∷◌, String, str_eq, if◌then◌else◌,
  Result, ok, ◌>>=◌, ◌>>◌, raise_if, or_raise, atomic, first_where,
}
use roamkit_api.Organizations.{Organization}
use roamkit_api.Organizations.Context.{resolve_organization_context, require_device_bind}
use roamkit_api.Organizations.Bindings.{
  DeviceBinding, DeviceBindingCreateResult, DeviceBindingEventAction, DeviceError, DeviceState,
  action_of, active, bind, conflict, end_binding, has_key, is_active_device, is_active_for,
  is_bound, is_named, is_own, lift, not_active, not_found, rebind, record_binding_event, replaced,
  save_binding, set_hash, set_replaced_by, team_esim, unbind, unbound,
}

module _ (digest : String → String) (now : ℕ) where
  -- `_set_credential` with the new secret `token`
  unfoldable pub set_credential : String → Bool → ℕ → DeviceBinding → DeviceState → DeviceState
  set_credential token rotate actor b s =
      record_binding_event (action_of rotate) actor b none
        (save_binding b.id (set_hash (digest token) now) s)

  -- An insert under the unique indexes; the service reports their violation as a conflict.
  unfoldable pub insert_binding : DeviceBinding → DeviceState → Result DeviceError DeviceState
  insert_binding b s =
      raise_if (not (is_none (first_where (has_key b.id) s.bindings))) conflict
      >> (raise_if (not (is_none (first_where (is_active_for b.esim) s.bindings))) conflict
          >> (raise_if
                (not (
                  is_none (
                    first_where (is_active_device b.organization b.device_external_id) s.bindings)))
                conflict
              >> ok (record s { bindings = b ∷ s.bindings })))

  -- `pk` and `device` are the new key and device id.
  module _ (token device : String) (pk : ℕ) where
    abbrev pub new_binding : ℕ → ℕ → ℕ → DeviceBinding
    new_binding organization esim actor = record {
      id = pk;
      organization = organization;
      esim = esim;
      device_external_id = device;
      uem_device_guid = "";
      credential_hash = "";
      credential_issued_at = none;
      status = active;
      bound_by = actor;
      unbound_by = none;
      unbound_at = none;
      replaced_by = none;
    }

    -- The event and the credential of a binding that has just been inserted.
    abbrev pub finish_binding :
        DeviceBindingEventAction
        → Option ℕ
        → ℕ
        → DeviceBinding
        → DeviceState
        → DeviceBindingCreateResult × DeviceState
    finish_binding action previous actor b s = (
      record { binding = set_hash (digest token) now b; credential = token },
      set_credential token false actor b (record_binding_event action actor b previous s),
    )

    unfoldable pub bind_esim :
        ℕ
        → ℕ
        → Bool
        → Organization
        → DeviceState
        → Result DeviceError (DeviceBindingCreateResult × DeviceState)
    unfolding set_credential
    bind_esim actor esim replace org s =
        let b = new_binding org.id esim actor in
        elim (first_where (is_active_for esim) s.bindings) [
          | none ↦ insert_binding b s >>= λ t. ok (finish_binding bind none actor b t)
          | some previous ↦
              raise_if (not replace) conflict
              >> (insert_binding b (save_binding previous.id (end_binding replaced actor now) s)
                  >>= λ t. ok (
                      finish_binding rebind (some previous.id) actor b
                        (save_binding previous.id (set_replaced_by pk) t)))
        ]

    unfoldable pub create_binding_body :
        ℕ
        → ℕ
        → ℕ
        → Bool
        → DeviceState
        → Result DeviceError (DeviceBindingCreateResult × DeviceState)
    create_binding_body actor organization_id esim_id replace s =
        lift (resolve_organization_context actor organization_id s.team) >>= λ ctx.
        lift (require_device_bind ctx)
        >> (team_esim ctx.organization esim_id s >>= λ esim.
            bind_esim actor esim.id replace ctx.organization s)

    unfoldable pub create_device_binding :
        ℕ → ℕ → ℕ → Bool → DeviceState → Result DeviceError DeviceBindingCreateResult × DeviceState
    create_device_binding actor organization_id esim_id replace s =
        atomic s (create_binding_body actor organization_id esim_id replace s)

  -- The active binding of that key, for an actor who may bind devices.
  unfoldable pub open_binding : ℕ → ℕ → ℕ → DeviceState → Result DeviceError DeviceBinding
  open_binding actor organization_id pk s =
      lift (resolve_organization_context actor organization_id s.team) >>= λ ctx.
      lift (require_device_bind ctx)
      >> (or_raise (first_where (is_own ctx.organization.id pk) s.bindings) not_found >>= λ b.
          raise_if (not (is_bound b.status)) not_active >> ok b)

  unfoldable pub rotate_device_credential :
      String → ℕ → ℕ → ℕ → DeviceState → Result DeviceError DeviceBindingCreateResult × DeviceState
  unfolding set_credential
  rotate_device_credential token actor organization_id pk s = atomic s (
      open_binding actor organization_id pk s >>= λ b. ok (
        record { binding = set_hash (digest token) now b; credential = token },
        set_credential token true actor b s,
      ))

  unfoldable pub unbind_device_binding :
      ℕ → ℕ → ℕ → DeviceState → Result DeviceError DeviceBinding × DeviceState
  unbind_device_binding actor organization_id pk s = atomic s (
      open_binding actor organization_id pk s >>= λ b. ok (
        end_binding unbound actor now b,
        record_binding_event unbind actor b none
            (save_binding b.id (end_binding unbound actor now) s),
      ))

-- `_resolve_binding_and_esim_by_credential`; `via_uem` is the query of the device management.
module _ (digest strip : String → String) (via_uem : DeviceBinding → Result DeviceError ℕ) where
  abbrev pub check_hash : DeviceBinding → String → Result DeviceError (Unit {0})
  check_hash b credential =
      raise_if (str_eq b.credential_hash "") not_found
      >> raise_if (not (str_eq b.credential_hash (digest credential))) not_found

  unfoldable pub resolve_binding_and_esim :
      String → String → DeviceState → Result DeviceError (DeviceBinding × ℕ)
  resolve_binding_and_esim device credential s =
      raise_if (str_eq (strip device) "" || str_eq credential "") not_found
      >> (or_raise (first_where (is_named (strip device)) s.bindings) not_found >>= λ b.
          check_hash b credential
          >> (if not (str_eq (strip b.uem_device_guid) "")
              then (via_uem b >>= λ esim. ok (b, esim))
              else ok (b, b.esim)))

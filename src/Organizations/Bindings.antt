-- ===== src/Organizations/Bindings.antt =====
-- Device bindings and their audit trail: the rows of src/apps/organizations/models.py, and the
-- changes of one row that services/device_binding.py makes.
use roamkit_api.Base.{
  ℕ, Bool, true, false, ◌&&◌, ◌==◌, Option, none, some, List, ◌∷◌, String, str_eq, if◌then◌else◌,
  Result, ok, err, or_raise, first_where, update_where,
}
use roamkit_api.Organizations.{Organization, State, OrganizationError}

pub data DeviceBindingStatus : Type 0 where
  active unbound replaced : DeviceBindingStatus

pub record DeviceBinding : Type 0 where
  pub id : ℕ
  pub organization : ℕ
  pub esim : ℕ
  pub device_external_id : String
  pub uem_device_guid : String
  pub credential_hash : String
  pub credential_issued_at : Option ℕ
  pub status : DeviceBindingStatus
  pub bound_by : ℕ
  pub unbound_by : Option ℕ
  pub unbound_at : Option ℕ
  pub replaced_by : Option ℕ

pub data DeviceBindingEventAction : Type 0 where
  bind unbind rebind credential_issue credential_rotate : DeviceBindingEventAction

pub record DeviceBindingEvent : Type 0 where
  pub organization : ℕ
  pub binding : ℕ
  pub esim : ℕ
  pub action : DeviceBindingEventAction
  pub actor : ℕ
  pub device_external_id : String
  pub previous_binding : Option ℕ

-- Of an eSIM, its key and its account.
pub record InventoryEsim : Type 0 where
  pub id : ℕ
  pub account : ℕ

pub record DeviceState : Type 0 where
  pub team : State
  pub esims : List InventoryEsim
  pub bindings : List DeviceBinding
  pub events : List DeviceBindingEvent

pub data DeviceError : Type 0 where
  refused : OrganizationError → DeviceError
  not_found conflict not_active : DeviceError

abbrev pub is_bound : DeviceBindingStatus → Bool
is_bound active = true
is_bound unbound = false
is_bound replaced = false

abbrev pub has_key : ℕ → DeviceBinding → Bool
has_key pk b = b.id == pk

abbrev pub is_active_for : ℕ → DeviceBinding → Bool
is_active_for esim b = b.esim == esim && is_bound b.status

abbrev pub is_active_device : ℕ → String → DeviceBinding → Bool
is_active_device organization device b =
    b.organization == organization && (str_eq b.device_external_id device && is_bound b.status)

abbrev pub is_named : String → DeviceBinding → Bool
is_named device b = str_eq b.device_external_id device && is_bound b.status

abbrev pub is_own : ℕ → ℕ → DeviceBinding → Bool
is_own organization pk b = b.id == pk && b.organization == organization

abbrev pub lift {ℓ} : {A : Type ℓ} → Result OrganizationError A → Result DeviceError A
lift (ok a) = ok a
lift (err e) = err (refused e)

unfoldable pub team_esim : Organization → ℕ → DeviceState → Result DeviceError InventoryEsim
team_esim org pk s =
    or_raise (first_where (λ (e : InventoryEsim). e.id == pk && e.account == org.account) s.esims)
      not_found

abbrev pub save_binding : ℕ → (DeviceBinding → DeviceBinding) → DeviceState → DeviceState
save_binding pk f s = record s { bindings = update_where (has_key pk) f s.bindings }

abbrev pub record_binding_event :
    DeviceBindingEventAction → ℕ → DeviceBinding → Option ℕ → DeviceState → DeviceState
record_binding_event action actor b previous s = record s {
  events =
      record {
        organization = b.organization;
        binding = b.id;
        esim = b.esim;
        action = action;
        actor = actor;
        device_external_id = b.device_external_id;
        previous_binding = previous;
      }
      ∷ s.events;
}

abbrev pub set_hash : String → ℕ → DeviceBinding → DeviceBinding
set_hash hash now b = record b { credential_hash = hash; credential_issued_at = some now }

abbrev pub end_binding : DeviceBindingStatus → ℕ → ℕ → DeviceBinding → DeviceBinding
end_binding status actor now b = record b {
  status = status;
  unbound_at = some now;
  unbound_by = some actor;
  credential_hash = "";
  credential_issued_at = none;
}

abbrev pub set_replaced_by : ℕ → DeviceBinding → DeviceBinding
set_replaced_by pk b = record b { replaced_by = some pk }

abbrev pub action_of : Bool → DeviceBindingEventAction
action_of rotate = if rotate then credential_rotate else credential_issue

pub record DeviceBindingCreateResult : Type 0 where
  pub binding : DeviceBinding
  pub credential : String

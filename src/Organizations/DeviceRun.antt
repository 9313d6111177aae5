-- ===== src/Organizations/DeviceRun.antt =====
-- Sequences of calls to src/apps/organizations/services/device_binding.py.
use roamkit_api.Base.{ℕ, ◌≡◌, Bool, List, [], ◌∷◌, String}
use roamkit_api.Organizations.{State}
use roamkit_api.Organizations.Devices.{
  create_device_binding, rotate_device_credential, unbind_device_binding,
}
use roamkit_api.Organizations.Bindings.{DeviceState}
use roamkit_api.Organizations.DeviceTable.{bound_device}
use roamkit_api.Organizations.DeviceTrail.{IsAudited, replay, create_device_binding-IsAudited}
use roamkit_api.Organizations.DeviceEnds.{
  rotate_device_credential-IsAudited, unbind_device_binding-IsAudited,
}

-- A call with its instant, and the new secret, device id and key that it draws. `team` stands for
-- what the other services do to the organization and its members.
pub data DeviceRequest : Type 0 where
  creates :
      (now : ℕ) (token device : String) (pk actor organization_id esim : ℕ) (replace : Bool)
      → DeviceRequest
  rotates : (now : ℕ) (token : String) (actor organization_id pk : ℕ) → DeviceRequest
  unbinds : (now actor organization_id pk : ℕ) → DeviceRequest
  team : (State → State) → DeviceRequest

module _ (digest : String → String) where
  unfoldable pub perform : DeviceRequest → DeviceState → DeviceState
  perform (creates now token device pk actor organization_id esim replace) s =
      (create_device_binding digest now token device pk actor organization_id esim replace s).1
  perform (rotates now token actor organization_id pk) s =
      (rotate_device_credential digest now token actor organization_id pk s).1
  perform (unbinds now actor organization_id pk) s =
      (unbind_device_binding digest now actor organization_id pk s).1
  perform (team f) s = record s { team = f s.team }

  unfoldable pub run : List DeviceRequest → DeviceState → DeviceState
  unfolding perform
  run [] s = s
  run (r ∷ rest) s = run rest (perform r s)

  perform-IsAudited : (r : DeviceRequest) (s : DeviceState) → IsAudited s → IsAudited (perform r s)
  unfolding perform
  perform-IsAudited (creates now token device pk actor organization_id esim replace) s v =
      create_device_binding-IsAudited digest now token device pk actor organization_id esim replace
        s v
  perform-IsAudited (rotates now token actor organization_id pk) s v =
      rotate_device_credential-IsAudited digest now token actor organization_id pk s v
  perform-IsAudited (unbinds now actor organization_id pk) s v =
      unbind_device_binding-IsAudited digest now actor organization_id pk s v
  perform-IsAudited (team f) s v = record { table = v.table; trail = v.trail }

  pub run-IsAudited :
      (rs : List DeviceRequest) (s : DeviceState) → IsAudited s → IsAudited (run rs s)
  unfolding run
  run-IsAudited [] s v = v
  run-IsAudited (r ∷ rest) s v = run-IsAudited rest (perform r s) (perform-IsAudited r s v)

  -- From a state in which a binding's key stands once, an eSIM has one active binding at most and the
  -- device of each eSIM is the one that its audit trail tells, whatever calls to create, replace,
  -- rotate and unbind follow, successful or refused, the device that an eSIM is bound to is the one
  -- that the trail tells.
  pub run_refines_replay :
      (rs : List DeviceRequest) (s : DeviceState) (esim : ℕ)
      → IsAudited s
      → bound_device esim (run rs s).bindings ≡ replay esim (run rs s).events
  run_refines_replay rs s esim v = (run-IsAudited rs s v).trail esim

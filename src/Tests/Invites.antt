-- ===== src/Tests/Invites.antt =====
-- The invite of Tests/Organizations, accepted, and a device of the same team.
use roamkit_api.Base.{
  ℕ, ◌≡◌, ◌≢◌, refl, true, false, none, some, List, [], ◌∷◌, String, arith, leb, ok, err,
  first_where, count_where, AreUnique, Result, ◌==◌, if◌then◌else◌, update_where,
}
use roamkit_api.Partner.{MembershipStatus}
use roamkit_api.Organizations.{
  User, active_owner_count, save_membership, Membership, MembershipRole, OrganizationInvite,
  accepted, State, invite_invalid, is_attributed,
}
use roamkit_api.Organizations.Context.{resolve_organization_context, require_device_bind}
use roamkit_api.Organizations.Members.{insert_membership}
use roamkit_api.Organizations.Invites.{normalize_invite_email, has_token}
use roamkit_api.Organizations.Accepting.{
  accept_invite, accept_locked, accept_pending, join, InviteAcceptResult,
}
use roamkit_api.Organizations.Acceptance.{Accepts, accept_invite-Accepts, accept_invite_once}
use roamkit_api.Organizations.Devices.{
  set_credential, unbind_device_binding, open_binding, rotate_device_credential,
  resolve_binding_and_esim,
}
use roamkit_api.Organizations.Bindings.{
  DeviceBinding, DeviceBindingStatus, DeviceError, DeviceState,
}
use roamkit_api.Organizations.DeviceTable.{bound_device}
use roamkit_api.Organizations.DeviceTrail.{IsAudited, replay}
use roamkit_api.Organizations.DeviceRun.{DeviceRequest, creates, unbinds, run, run_refines_replay}
use roamkit_api.Organizations.Credentials.{
  unbind_device_binding_locks_out, rotate_device_credential_replaces,
}
use roamkit_api.Tests.Organizations.{texts, guest, letter, office}

abbrev joined : State
joined = (accept_invite texts 50 guest "tok" office).1

abbrev visitor : Membership
visitor = record {
  organization = 1;
  user = 5;
  role = MembershipRole.viewer;
  status = MembershipStatus.active;
}

abbrev welcome : InviteAcceptResult
welcome = record {
  membership = visitor;
  invite = record letter { status = accepted; accepted_by = some 5; accepted_at = some 50 };
  already_accepted = false;
}

accepts_letter : accept_invite texts 50 guest "tok" office ≡ (ok welcome, joined)
unfolding accept_invite accept_locked accept_pending join insert_membership first_where
    normalize_invite_email is_attributed count_where
accepts_letter = refl

accept_invite-Accepts_example :
    (i : OrganizationInvite) × (first_where (has_token "tok") office.invites ≡ some i)
    × Accepts texts 50 guest i office (welcome, joined)
    × (leb i.expires_at 50 ≡ false)
accept_invite-Accepts_example =
    accept_invite-Accepts texts 50 guest "tok" office joined welcome accepts_letter refl

accept_invite_once_example : accept_invite texts 70 guest "tok" joined ≡ (
  if 5 == 5
      then ok (record { membership = visitor; invite = welcome.invite; already_accepted = true })
      else err (invite_invalid "Invite has already been accepted."),
  joined,
)
unfolding first_where
accept_invite_once_example =
    accept_invite_once texts 50 70 guest guest "tok" office joined welcome accepts_letter refl refl

abbrev store : DeviceState
store = record {
  team = office;
  esims = record { id = 20; account = 10 } ∷ [];
  bindings = [];
  events = [];
}

store-IsAudited : IsAudited store
unfolding AreUnique first_where count_where replay
store-IsAudited = record {
  table = record { unique = tt; single = λ e. omega arith };
  trail = λ e. refl;
}

abbrev same_text : String → String
same_text t = t

abbrev calls : List DeviceRequest
calls = creates 1 "s" "d" 30 7 1 20 false ∷ creates 2 "t" "e" 31 7 1 20 true ∷ unbinds 3 7 1 31 ∷ []

run_refines_replay_example :
    bound_device 20 (run same_text calls store).bindings
    ≡ replay 20 (run same_text calls store).events
run_refines_replay_example = run_refines_replay same_text calls store 20 store-IsAudited

-- One active binding of the eSIM.
abbrev phone : DeviceBinding
phone = record {
  id = 30;
  organization = 1;
  esim = 20;
  device_external_id = "d";
  uem_device_guid = "";
  credential_hash = "s";
  credential_issued_at = some 1;
  status = DeviceBindingStatus.active;
  bound_by = 7;
  unbound_by = none;
  unbound_at = none;
  replaced_by = none;
}

abbrev tablet : DeviceBinding
tablet = record phone { id = 31; esim = 21; device_external_id = "e"; credential_hash = "t" }

abbrev fleet : DeviceState
fleet = record store { bindings = phone ∷ tablet ∷ [] }

abbrev no_uem : DeviceBinding → Result DeviceError ℕ
no_uem b = ok 0

abbrev ended : DeviceBinding
ended = record phone {
  status = DeviceBindingStatus.unbound;
  unbound_at = some 3;
  unbound_by = some 7;
  credential_hash = "";
  credential_issued_at = none;
}

abbrev unbound_fleet : DeviceState
unbound_fleet = (unbind_device_binding same_text 3 7 1 30 fleet).1

-- The other device still gets its binding.
unbind_device_binding_locks_out_example : tablet.id ≢ 30
unfolding unbind_device_binding open_binding resolve_organization_context require_device_bind
    first_where update_where resolve_binding_and_esim
unbind_device_binding_locks_out_example =
    unbind_device_binding_locks_out same_text 3 7 1 30 same_text no_uem "e" "t" fleet unbound_fleet
      ended tablet 21 refl refl

abbrev rotated_fleet : DeviceState
rotated_fleet = (rotate_device_credential same_text 3 "new" 7 1 30 fleet).1

abbrev rotated : DeviceBinding
rotated = record phone { credential_hash = "new"; credential_issued_at = some 3 }

rotate_device_credential_replaces_example : same_text "new" ≡ "new"
unfolding rotate_device_credential set_credential open_binding resolve_organization_context
    require_device_bind first_where update_where resolve_binding_and_esim
rotate_device_credential_replaces_example =
    rotate_device_credential_replaces same_text 3 7 1 30 "new" same_text no_uem "d" "new" fleet
      rotated_fleet (record { binding = rotated; credential = "new" }) rotated 20 refl refl refl

-- The owner accepts an invite to the own organization, and it has no owner any more.
abbrev founder_at_letter : User
founder_at_letter = record { id = 7; email = "e@x" }

accepting_demotes_owner :
    let s = record office { users = founder_at_letter ∷ [] } in
    active_owner_count 1 (accept_invite texts 50 founder_at_letter "tok" s).1.memberships ≡ 0
unfolding accept_invite accept_locked accept_pending join save_membership first_where update_where
    normalize_invite_email is_attributed count_where
accepting_demotes_owner = refl

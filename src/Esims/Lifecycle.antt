-- ===== src/Esims/Lifecycle.antt =====
-- `LifecycleService` of src/apps/esims/services/lifecycle_service.py. Each call saves at the instant
-- `now`; `str` and `iso` are Python's texts of a primary key and of an instant. Log lines are left
-- out, and so is the publication of `EsimInstalled` after `install.completed`; the events that a
-- provider's usage publishes are returned.
use Prim.Native.String.{◌++◌}
use roamkit_api.Base.{
  ℕ, Bool, true, false, not, ◌&&◌, ◌||◌, Option, none, some, List, [], ◌∷◌, String, str_eq, leb,
  if◌then◌else◌, Result, ok, err,
}
use roamkit_api.Esims.{
  Esim, Status, purchased, installation_started, installed, activated, in_use, exhausted, expired,
  unknown, status_value, EsimLifecycleEvent, EventSource, client, system, provider, Payload, moved,
  provider_status, given, Record, find_event,
}

pub data LifecycleError : Type 0 where
  invalid_transition : Status → Status → LifecycleError
  unknown_event_type : String → LifecycleError

pub data Published : Type 0 where
  esim_activated first_usage_detected : Published

abbrev pub setup_version : String
setup_version = "1"

unfoldable pub is_text_of : String → List String → Bool
is_text_of t [] = false
is_text_of t (x ∷ rest) = if str_eq x t then true else is_text_of t rest

abbrev pub client_event_allowlist : List String
client_event_allowlist =
    "install.opened" ∷ "install.qr_rendered" ∷ "install.qr_zoomed" ∷ "install.apple_install_clicked"
    ∷ "install.manual_install_clicked" ∷ "install.completed" ∷ "install.roaming_checklist_viewed"
    ∷ "install.setup_confirmed" ∷ "install.setup_skipped" ∷ []

-- `_ALLOWED`
unfoldable pub allowed : Status → List Status
allowed purchased = installation_started ∷ installed ∷ []
allowed installation_started = installed ∷ []
allowed installed = activated ∷ exhausted ∷ expired ∷ []
allowed activated = in_use ∷ exhausted ∷ expired ∷ []
allowed in_use = exhausted ∷ expired ∷ []
allowed exhausted = expired ∷ activated ∷ in_use ∷ []
allowed expired = activated ∷ in_use ∷ []
allowed unknown =
    purchased ∷ installation_started ∷ installed ∷ activated ∷ in_use ∷ exhausted ∷ expired ∷ []

abbrev pub same_status : Status → Status → Bool
same_status a b = str_eq (status_value a) (status_value b)

unfoldable pub is_status_of : Status → List Status → Bool
is_status_of t [] = false
is_status_of t (x ∷ rest) = if same_status x t then true else is_status_of t rest

-- `_PROVIDER_USAGE_STATUS`; `none` for a text that is not listed
unfoldable pub provider_usage_status : String → Option Status
provider_usage_status text =
    if str_eq text "ACTIVE"
    then some in_use
    else if str_eq text "FINISHED"
    then some exhausted
    else if str_eq text "EXPIRED"
    then some expired
    else if str_eq text "NOT_ACTIVE"
    then some purchased
    else if str_eq text "UNKNOWN"
    then some unknown
    else if str_eq text ""
    then some purchased
    else none

-- `get_or_create` of an event
unfoldable pub record_event : EventSource → String → String → Payload → Record → Record
record_event source event_type key payload s = elim (find_event key s.events) [
  | some existing ↦ s
  | none ↦ record s {
    events =
        record {
          user = s.esim.user;
          event_type = event_type;
          source = source;
          idempotency_key = key;
          payload = payload;
        }
        ∷ s.events;
  }
]

abbrev pub set_status : Status → Record → Record
set_status target s = record s { esim = record s.esim { status = target } }

abbrev is_none_at : Option ℕ → ℕ → Option ℕ
is_none_at none now = some now
is_none_at (some t) now = some t

abbrev resume : Option ℕ → Option ℕ → Option ℕ
resume old none = old
resume old (some step) = if leb 1 step && leb step 4 then some step else old

module _ (str iso : ℕ → String) (now : ℕ) where
  unfoldable pub status_key : Status → Esim → String
  status_key target esim =
      "system.status." ++ (status_value target ++ (":" ++ (str esim.id ++ (":" ++ iso now))))

  -- `_overwrite_provider_status`, and the writes of `transition`
  unfoldable pub move : Status → String → Record → Record
  unfolding record_event status_key
  move target reason s =
      record_event system ("system.status." ++ status_value target) (status_key target s.esim)
        (moved s.esim.status target reason) (set_status target s)

  unfoldable pub transition : Status → String → Record → Result LifecycleError Record
  unfolding move
  transition target reason s =
      if same_status s.esim.status target
      then ok s
      else if not (is_status_of target (allowed s.esim.status))
      then err (invalid_transition s.esim.status target)
      else ok (move target reason s)

  abbrev or_empty : String → String
  or_empty text = if str_eq text "" then "EMPTY" else text

  unfoldable pub record_unknown : String → Record → Record
  unfolding record_event
  record_unknown text s =
      if str_eq text "UNKNOWN"
      then record_event provider "provider.usage_unknown"
          ("provider.usage_unknown:" ++ (str s.esim.id ++ (":" ++ iso now))) (provider_status text)
          s
      else s

  -- Whether the change from `previous` is published as an activation, and as a first use.
  unfoldable pub is_activation : Status → Status → Bool
  is_activation previous status =
      (same_status status activated || same_status status in_use)
      && not (is_status_of previous (activated ∷ in_use ∷ exhausted ∷ expired ∷ []))

  unfoldable pub is_first_usage : Status → Status → Bool
  is_first_usage previous status =
      not (same_status previous in_use)
      && (same_status status in_use && not (is_status_of previous (exhausted ∷ expired ∷ [])))

  abbrev publish_if : Bool → Published → List Published → List Published
  publish_if true e rest = e ∷ rest
  publish_if false e rest = rest

  unfoldable pub published : Status → Status → List Published
  unfolding is_activation is_first_usage
  published previous status =
      publish_if (is_activation previous status) esim_activated
        (publish_if (is_first_usage previous status) first_usage_detected [])

  unfoldable pub overwrite : String → Status → Record → Record × List Published
  unfolding move record_unknown published
  overwrite text target s = if same_status s.esim.status target then (s, []) else (
    record_unknown text (move target ("provider:" ++ or_empty text) s),
    published s.esim.status target,
  )

  -- `apply_provider_usage`, on the stripped text in upper case
  unfoldable pub apply_provider_usage : String → Record → Record × List Published
  unfolding overwrite
  apply_provider_usage text s = elim (provider_usage_status text) [
    | none ↦ (s, [])
    | some target ↦ overwrite text target s
  ]

  abbrev on_esim : (Esim → Esim) → Record → Record
  on_esim f s = record s { esim = f s.esim }

  -- The branches of `_apply_client_side_effects`, after the resume step
  unfoldable pub open_install : String → Record → Result LifecycleError Record
  unfolding transition
  open_install event_type s =
      let s' = on_esim (λ e. record e { setup_version = setup_version }) s in
      if same_status s.esim.status purchased
      then transition installation_started event_type s'
      else ok s'

  unfoldable pub complete_install : String → Record → Result LifecycleError Record
  unfolding transition
  complete_install event_type s =
      if is_status_of s.esim.status (purchased ∷ installation_started ∷ [])
      then transition installed event_type s
      else ok s

  unfoldable pub side_effect : String → Record → Result LifecycleError Record
  unfolding open_install complete_install
  side_effect event_type s =
      if str_eq event_type "install.opened"
      then open_install event_type s
      else if str_eq event_type "install.completed"
      then complete_install event_type s
      else if str_eq event_type "install.setup_confirmed"
      then ok
          (on_esim (λ e. record e { setup_completed_at = is_none_at e.setup_completed_at now }) s)
      else if str_eq event_type "install.setup_skipped"
      then ok (on_esim (λ e. record e { setup_skipped_at = is_none_at e.setup_skipped_at now }) s)
      else ok s

  -- `_apply_client_side_effects`
  unfoldable pub apply_client_side_effects :
      String → Option ℕ → Record → Result LifecycleError Record
  unfolding side_effect
  apply_client_side_effects event_type resume_step s =
      side_effect event_type
        (on_esim (λ e. record e { setup_resume_step = resume e.setup_resume_step resume_step }) s)

  abbrev pub client_event : String → String → String → Record → EsimLifecycleEvent
  client_event event_type key body s = record {
    user = s.esim.user;
    event_type = event_type;
    source = client;
    idempotency_key = key;
    payload = given body;
  }

  -- The event, whether it is new, and what the call leaves.
  abbrev pub Recorded : Type 0
  Recorded = Result LifecycleError (EsimLifecycleEvent × Bool) × Record

  unfoldable pub finish_client :
      EsimLifecycleEvent → Record → Result LifecycleError Record → Recorded
  finish_client event s (ok s') = (ok (event, true), s')
  finish_client event s (err e) = (err e, s)

  -- `record_client_event`
  unfoldable pub record_client_event : String → String → String → Option ℕ → Record → Recorded
  unfolding finish_client apply_client_side_effects
  record_client_event event_type key body resume_step s =
      if not (is_text_of event_type client_event_allowlist)
      then (err (unknown_event_type event_type), s)
      else elim (find_event key s.events) [
        | some existing ↦ (ok (existing, false), s)
        | none ↦
            let event = client_event event_type key body s in
            finish_client event s (
              apply_client_side_effects event_type resume_step
                (record s { events = event ∷ s.events }))
      ]

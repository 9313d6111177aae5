-- ===== src/Esims.antt =====
-- eSIMs and their lifecycle events: src/apps/esims/models.py, as the services of src/apps/esims read
-- and write them. Activation codes, usage figures and notes are left out.
pub mod Lifecycle
pub mod Log
pub mod Clients
use roamkit_api.Base.{ℕ, Bool, Option, none, some, List, [], ◌∷◌, String, str_eq, if◌then◌else◌}

pub data Status : Type 0 where
  purchased installation_started installed activated : Status
  in_use exhausted expired unknown : Status

abbrev pub status_value : Status → String
status_value purchased = "purchased"
status_value installation_started = "installation_started"
status_value installed = "installed"
status_value activated = "activated"
status_value in_use = "in_use"
status_value exhausted = "exhausted"
status_value expired = "expired"
status_value unknown = "unknown"

pub record Esim : Type 0 where
  pub id : ℕ
  pub account : ℕ
  pub user : ℕ
  pub order : ℕ
  pub status : Status
  pub setup_version : String
  pub setup_resume_step : Option ℕ
  pub setup_completed_at : Option ℕ
  pub setup_skipped_at : Option ℕ

pub data EventSource : Type 0 where
  client system provider : EventSource

-- What the services put into the JSON column.
pub data Payload : Type 0 where
  moved : Status → Status → String → Payload
  provider_status : String → Payload
  policy : String → Payload
  given : String → Payload

pub record EsimLifecycleEvent : Type 0 where
  pub user : ℕ
  pub event_type : String
  pub source : EventSource
  pub idempotency_key : String
  pub payload : Payload

-- One eSIM and its events, newest first.
pub record Record : Type 0 where
  pub esim : Esim
  pub events : List EsimLifecycleEvent

-- `EsimLifecycleEvent.objects.filter(esim=esim, idempotency_key=key).first()`
unfoldable pub find_event : String → List EsimLifecycleEvent → Option EsimLifecycleEvent
find_event key [] = none
find_event key (e ∷ rows) = if str_eq e.idempotency_key key then some e else find_event key rows

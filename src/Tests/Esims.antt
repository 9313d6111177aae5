-- ===== src/Tests/Esims.antt =====
-- Events of one eSIM that has just been bought.
use Prim.Native.String.{◌++◌, count}
use package.text.Mathlib.TextLemmas.{length-append}
use roamkit_api.Base.{◌≡◌, ◌≢◌, ap, refl, false, none, some, [], arith, ok}
use roamkit_api.Esims.{
  Esim, Status, purchased, installed, EsimLifecycleEvent, Record, find_event, status_value,
}
use roamkit_api.Esims.Lifecycle.{
  record_client_event, status_key, is_text_of, allowed, is_status_of, transition, move,
  record_event, apply_client_side_effects, side_effect, complete_install, finish_client,
}
use roamkit_api.Esims.Log.{IsLogged, IsFresh, IsHistory, logged}
use roamkit_api.Esims.Clients.{
  Advances, record_client_event-Advances, record_client_event-IsLogged, record_client_event_once,
}
use roamkit_api.Tests.Partner.{text}

abbrev pub esim : Esim
esim = record {
  id = 9;
  account = 1;
  user = 7;
  order = 2;
  status = purchased;
  setup_version = "";
  setup_resume_step = none;
  setup_completed_at = none;
  setup_skipped_at = none;
}

abbrev bought : Record
bought = record { esim = esim; events = [] }

installs :
    (record_client_event text text 5 "install.completed" "k" "{}" none bought).1.esim.status
    ≡ installed
unfolding record_client_event is_text_of find_event apply_client_side_effects side_effect
    complete_install transition allowed is_status_of move record_event finish_client
installs = refl

bought-IsLogged : IsLogged bought
unfolding logged IsHistory
bought-IsLogged = record { current = refl; history = tt }

bought-IsFresh : IsFresh text text 5 bought
unfolding find_event
bought-IsFresh t = refl

other_key : (t : Status) → "k" ≢ status_key text text 5 t esim
unfolding status_key
other_key t p = omega (
  arith,
  ap count p,
  length-append "system.status." (status_value t ++ (":" ++ (text 9 ++ (":" ++ text 5)))),
)

record_client_event-IsLogged_example :
    IsLogged (record_client_event text text 5 "install.completed" "k" "{}" none bought).1
record_client_event-IsLogged_example =
    record_client_event-IsLogged text text 5 "install.completed" "k" "{}" none bought bought-IsFresh
      other_key bought-IsLogged

record_client_event-Advances_example :
    Advances purchased
      (record_client_event text text 5 "install.completed" "k" "{}" none bought).1.esim.status
record_client_event-Advances_example =
    record_client_event-Advances text text 5 "install.completed" "k" "{}" none bought

record_client_event_once_example :
    let s' = (record_client_event text text 5 "install.completed" "k" "{}" none bought).1 in
    (e : EsimLifecycleEvent) × (find_event "k" s'.events ≡ some e)
    × (record_client_event text text 5 "install.opened" "k" "" (some 2) s' ≡ (ok (e, false), s'))
unfolding is_text_of
record_client_event_once_example =
    record_client_event_once text text 5 "install.completed" "install.opened" "k" "{}" "" none
      (some 2) bought refl refl

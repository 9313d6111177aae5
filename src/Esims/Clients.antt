-- ===== src/Esims/Clients.antt =====
-- Client events of src/apps/esims/services/lifecycle_service.py: what they can do to an eSIM.
use Prim.Native.String.{◌++◌}
use mathlib.Core.Path.{subst}
use roamkit_api.Base.{
  ℕ, ◌≡◌, ◌≢◌, ◌⊎◌, refl, true, false, Option, none, some, ◌∷◌, String, str_eq, eq_iff, Result, ok,
  err, arith, inl, inr, Bool-cases, Option-cases, ap, sym, ◌∙◌,
}
use roamkit_api.Esims.{
  Esim, Status, purchased, installation_started, installed, status_value, EsimLifecycleEvent,
  EventSource, Payload, Record, find_event,
}
use roamkit_api.Esims.Lifecycle.{
  LifecycleError, is_text_of, record_event, set_status, status_key, move, side_effect,
  apply_client_side_effects, client_event_allowlist, client_event, finish_client,
  record_client_event, Recorded,
}
use roamkit_api.Esims.Log.{
  IsLogged, IsFresh, IsHistory, logged, Effect, alike, opens, completes, side_effect-Effect,
  Effect-IsLogged,
}

-- The changes of status that a client can cause.
pub data Advances (a : Status) : Status → Type 0 where
  stays : Advances a a
  begins : a ≡ purchased → Advances a installation_started
  ends : (a ≡ purchased) ⊎ (a ≡ installation_started) → Advances a installed

module _ (str iso : ℕ → String) (now : ℕ) where
  move-status :
      (target : Status) (reason : String) (s : Record)
      → (move str iso now target reason s).esim.status ≡ target
  unfolding move
  move-status target reason s =
      elim (Option-cases (find_event (status_key str iso now target s.esim) s.events)) [
        | inr (e, old) ↦ rw (old, record_event) refl
        | inl new ↦ rw (new, record_event) refl
      ]

  Effect-Advances :
      (event_type : String) (s : Record) (r : Result LifecycleError Record)
      → Effect str iso now event_type s r
      → (s' : Record) × (r ≡ ok s') × Advances s.esim.status s'.esim.status
  Effect-Advances event_type s r (alike t a p) = (t, p, rw a.status stays)
  Effect-Advances event_type s r (opens t a e p) =
      (_, p, rw (move-status installation_started event_type t) (begins e))
  Effect-Advances event_type s r (completes t a e p) =
      (_, p, rw (move-status installed event_type t) (ends e))

  -- What a client's call leaves, by cases.
  pub data Records (event_type key body : String) (s : Record) (r : Recorded str iso now)
      : Type 0 where
    unlisted :
        (e : LifecycleError)
        → is_text_of event_type client_event_allowlist ≡ false
        → r ≡ (err e, s)
        → Records event_type key body s r
    repeated :
        (e : EsimLifecycleEvent)
        → find_event key s.events ≡ some e
        → r ≡ (ok (e, false), s)
        → Records event_type key body s r
    recorded :
        (before after : Record)
        → find_event key s.events ≡ none
        → before.esim.id ≡ s.esim.id
        → before.esim.status ≡ s.esim.status
        → before.events ≡ client_event str iso now event_type key body s ∷ s.events
        → Effect str iso now event_type before (ok after)
        → r ≡ (ok (client_event str iso now event_type key body s, true), after)
        → Records event_type key body s r

  finish-Records :
      (event_type key body : String) (s before : Record)
      → find_event key s.events ≡ none
      → before.esim.id ≡ s.esim.id
      → before.esim.status ≡ s.esim.status
      → before.events ≡ client_event str iso now event_type key body s ∷ s.events
      → Records event_type key body s (
          finish_client str iso now
            (client_event str iso now event_type key body s)
            s
            (side_effect str iso now event_type before))
  finish-Records event_type key body s before new same status events =
      let eff = side_effect-Effect str iso now event_type before in
      let (after, p, adv) =
        Effect-Advances event_type before (side_effect str iso now event_type before) eff in
      rw p (
        recorded before after new same status events
          (subst (Effect str iso now event_type before) p eff) (unfold finish_client in refl))

  record_client_event-Records :
      (event_type key body : String) (resume_step : Option ℕ) (s : Record)
      → Records event_type key body s
          (record_client_event str iso now event_type key body resume_step s)
  unfolding record_client_event apply_client_side_effects
  record_client_event-Records event_type key body resume_step s =
      elim (Bool-cases (is_text_of event_type client_event_allowlist)) [
        | inr miss ↦ rw miss (unlisted _ miss refl)
        | inl hit ↦ elim (Option-cases (find_event key s.events)) [
          | inr (e, old) ↦ rw hit (rw (old, record_client_event) (repeated e old refl))
          | inl new ↦ rw hit (
              rw (new, record_client_event)
                (finish-Records event_type key body s _ new refl refl refl))
        ]
      ]

  -- A client's event, of whatever type, key and payload, leaves the status of the eSIM as it is, or
  -- takes a purchased one to the start of its installation, or a purchased one or one whose
  -- installation has started to installed.
  pub record_client_event-Advances :
      (event_type key body : String) (resume_step : Option ℕ) (s : Record)
      → Advances s.esim.status
          (record_client_event str iso now event_type key body resume_step s).1.esim.status
  record_client_event-Advances event_type key body resume_step s =
      by_case (record_client_event str iso now event_type key body resume_step s)
        (record_client_event-Records event_type key body resume_step s)
    where
      by_case :
          (r : Recorded str iso now)
          → Records event_type key body s r
          → Advances s.esim.status r.1.esim.status
      by_case r (unlisted e miss p) = rw p stays
      by_case r (repeated e old p) = rw p stays
      by_case r (recorded before after new same status events eff p) =
          let (t, q, adv) = Effect-Advances event_type before (ok after) eff in
          let same_end : t ≡ after = ground (arith, q) in
          rw (p, ← status)
            (subst (λ (x : Record). Advances before.esim.status x.esim.status) same_end adv)

  abbrev Stores : String → Record → Type 0
  Stores key s = (e : EsimLifecycleEvent) × (find_event key s.events ≡ some e)

  record_event-Stores :
      (source : EventSource) (event_type k key : String) (payload : Payload) (s : Record)
      → Stores key s
      → Stores key (record_event source event_type k payload s)
  unfolding find_event record_event
  record_event-Stores source event_type k key payload s (e, h) =
      elim (Option-cases (find_event k s.events)) [
        | inr (x, old) ↦ rw (old, record_event) (e, h)
        | inl new ↦
            rw (new, record_event)
              (elim (Bool-cases (str_eq k key)) [
                | inl hit ↦ rw hit (_, refl)
                | inr miss ↦ rw miss (e, h)
              ])
      ]

  move-Stores :
      (target : Status) (reason key : String) (s : Record)
      → Stores key s
      → Stores key (move str iso now target reason s)
  unfolding move
  move-Stores target reason key s h = record_event-Stores _ _ _ key _ (set_status target s) h

  Effect-Stores :
      (event_type key : String) (s : Record) (r : Result LifecycleError Record)
      → Effect str iso now event_type s r
      → Stores key s
      → (s' : Record) → r ≡ ok s'
      → Stores key s'
  Effect-Stores event_type key s r (alike t a p) h s' q =
      let same : t ≡ s' = ground (arith, p, q) in subst (Stores key) same (rw a.events h)
  Effect-Stores event_type key s r (opens t a e p) h s' q =
      let same : move str iso now installation_started event_type t ≡ s' = ground (arith, p, q) in
      subst (Stores key) same (move-Stores installation_started event_type key t (rw a.events h))
  Effect-Stores event_type key s r (completes t a e p) h s' q =
      let same : move str iso now installed event_type t ≡ s' = ground (arith, p, q) in
      subst (Stores key) same (move-Stores installed event_type key t (rw a.events h))

  record_client_event-Stores :
      (event_type key body : String) (resume_step : Option ℕ) (s : Record)
      → is_text_of event_type client_event_allowlist ≡ true
      → Stores key (record_client_event str iso now event_type key body resume_step s).1
  unfolding find_event
  record_client_event-Stores event_type key body resume_step s listed =
      by_case (record_client_event str iso now event_type key body resume_step s)
        (record_client_event-Records event_type key body resume_step s)
    where
      by_case : (r : Recorded str iso now) → Records event_type key body s r → Stores key r.1
      by_case r (unlisted e miss p) = absurd (ground (arith, listed, miss))
      by_case r (repeated e old p) = (e, rw p old)
      by_case r (recorded before after new same status events eff p) = rw p (
          Effect-Stores event_type key before (ok after) eff
            (
              client_event str iso now event_type key body s,
              rw events (rw ((eq_iff key key).1 refl) refl),
            )
            after refl)

  status_key-alike :
      (t : Status) (a b : Esim)
      → a.id ≡ b.id
      → status_key str iso now t a ≡ status_key str iso now t b
  unfolding status_key
  status_key-alike t a b same =
      ap (λ n. "system.status." ++ (status_value t ++ (":" ++ (str n ++ (":" ++ iso now))))) same

  added-IsFresh :
      (event_type key body : String) (s before : Record)
      → before.esim.id ≡ s.esim.id
      → before.events ≡ client_event str iso now event_type key body s ∷ s.events
      → IsFresh str iso now s
      → ((t : Status) → key ≢ status_key str iso now t s.esim)
      → IsFresh str iso now before
  unfolding find_event
  added-IsFresh event_type key body s before same events fresh other t = rw events (
      subst (λ k. find_event k (client_event str iso now event_type key body s ∷ s.events) ≡ none)
        (sym (status_key-alike t before.esim s.esim same))
        (rw (differs key (status_key str iso now t s.esim) (other t)) (fresh t)))
    where
      differs : (a b : String) → a ≢ b → str_eq a b ≡ false
      differs a b h = ground (arith, eq_iff a b, h)

  added-IsLogged :
      (event_type key body : String) (s before : Record)
      → before.esim.status ≡ s.esim.status
      → before.events ≡ client_event str iso now event_type key body s ∷ s.events
      → IsLogged s
      → IsLogged before
  unfolding logged IsHistory
  added-IsLogged event_type key body s before status events l = record {
    current = status ∙ l.current ∙ ap logged (sym events);
    history = subst IsHistory (sym events) (tt, l.history);
  }

  -- If the log of an eSIM tells its status, every logged change starting where the earlier ones ended,
  -- then it still does after a client's event, of whatever type, at an instant at which no change of
  -- this eSIM was saved, under a key that is none of the keys of such a change.
  pub record_client_event-IsLogged :
      (event_type key body : String) (resume_step : Option ℕ) (s : Record)
      → IsFresh str iso now s
      → ((t : Status) → key ≢ status_key str iso now t s.esim)
      → IsLogged s
      → IsLogged (record_client_event str iso now event_type key body resume_step s).1
  record_client_event-IsLogged event_type key body resume_step s fresh other l =
      by_case (record_client_event str iso now event_type key body resume_step s)
        (record_client_event-Records event_type key body resume_step s)
    where
      by_case : (r : Recorded str iso now) → Records event_type key body s r → IsLogged r.1
      by_case r (unlisted e miss p) = rw p l
      by_case r (repeated e old p) = rw p l
      by_case r (recorded before after new same status events eff p) = rw p (
          Effect-IsLogged str iso now event_type before (ok after) eff
            (added-IsFresh event_type key body s before same events fresh other)
            (added-IsLogged event_type key body s before status events l) after refl)

  -- Once a client's event of an allowed type has been sent, every further event under its key is
  -- answered with the first one and changes nothing.
  pub record_client_event_once :
      (event_type event_type' key body body' : String) (step step' : Option ℕ) (s : Record)
      → is_text_of event_type client_event_allowlist ≡ true
      → is_text_of event_type' client_event_allowlist ≡ true
      → let s' = (record_client_event str iso now event_type key body step s).1 in
        (e : EsimLifecycleEvent) × (find_event key s'.events ≡ some e)
        × (record_client_event str iso now event_type' key body' step' s' ≡ (ok (e, false), s'))
  unfolding record_client_event
  record_client_event_once event_type event_type' key body body' step step' s listed listed' =
      let (e, found) = record_client_event-Stores event_type key body step s listed in
      (e, found, rw listed' (rw (found, record_client_event) refl))

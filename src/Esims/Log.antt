-- ===== src/Esims/Log.antt =====
-- The lifecycle of src/apps/esims/services/lifecycle_service.py: which changes of status the clients
-- can cause, and that the event log tells the status.
use mathlib.Core.Path.{subst}
use Prim.Native.String.{◌++◌}
use roamkit_api.Base.{
  ℕ, ◌≡◌, ◌≢◌, ◌⊎◌, refl, true, false, none, List, [], ◌∷◌, String, str_eq, eq_iff, Result, ok,
  arith, inl, inr, Bool-cases, Option-cases, ap, sym, ◌∙◌,
}
use roamkit_api.Esims.{
  Status, purchased, installation_started, installed, activated, in_use, exhausted, expired,
  unknown, EsimLifecycleEvent, status_value, Payload, moved, provider_status, policy, given, Record,
  find_event,
}
use roamkit_api.Esims.Lifecycle.{
  setup_version, LifecycleError, allowed, same_status, is_status_of, record_event, status_key, move,
  transition, record_unknown, overwrite, apply_provider_usage, open_install, complete_install,
  side_effect, provider_usage_status,
}

-- The status after the changes that the log holds; an eSIM is created purchased.
abbrev logged_after : Payload → Status → Status
logged_after (moved from to reason) before = to
logged_after (provider_status text) before = before
logged_after (policy text) before = before
logged_after (given text) before = before

unfoldable pub logged : List EsimLifecycleEvent → Status
logged [] = purchased
logged (e ∷ rest) = logged_after e.payload (logged rest)

abbrev IsStep : Payload → Status → Type 0
IsStep (moved from to reason) before = (from ≡ before) × (from ≢ to)
IsStep (provider_status text) before = Unit
IsStep (policy text) before = Unit
IsStep (given text) before = Unit

-- Each change in the log starts at the status that the earlier ones left, and is one.
unfoldable pub IsHistory : List EsimLifecycleEvent → Type 0
IsHistory [] = Unit
IsHistory (e ∷ rest) = IsStep e.payload (logged rest) × IsHistory rest

pub record IsLogged (s : Record) : Type 0 where
  pub current : s.esim.status ≡ logged s.events
  pub history : IsHistory s.events

same_status_iff : (a b : Status) → same_status a b ≡ false → a ≢ b
same_status_iff a b h e =
    let hit : same_status a b ≡ true =
      (eq_iff (status_value a) (status_value b)).1 (ap status_value e) in
    cc

purchased_cases : (t : Status) → (t ≡ purchased) ⊎ (same_status t purchased ≡ false)
purchased_cases purchased = inl refl
purchased_cases installation_started = inr refl
purchased_cases installed = inr refl
purchased_cases activated = inr refl
purchased_cases in_use = inr refl
purchased_cases exhausted = inr refl
purchased_cases expired = inr refl
purchased_cases unknown = inr refl

install_cases :
    (t : Status)
    → ((t ≡ purchased) ⊎ (t ≡ installation_started))
      ⊎ (is_status_of t (purchased ∷ installation_started ∷ []) ≡ false)
unfolding is_status_of
install_cases purchased = inl (inl refl)
install_cases installation_started = inl (inr refl)
install_cases installed = inr refl
install_cases activated = inr refl
install_cases in_use = inr refl
install_cases exhausted = inr refl
install_cases expired = inr refl
install_cases unknown = inr refl

module _ (str iso : ℕ → String) (now : ℕ) where
  -- No status change has been saved at this instant before.
  abbrev pub IsFresh : Record → Type 0
  IsFresh s = (t : Status) → find_event (status_key str iso now t s.esim) s.events ≡ none

  move-IsLogged :
      (target : Status) (reason : String) (s : Record)
      → find_event (status_key str iso now target s.esim) s.events ≡ none
      → s.esim.status ≢ target
      → IsLogged s
      → IsLogged (move str iso now target reason s)
  unfolding move logged IsHistory
  move-IsLogged target reason s fresh other l =
      rw (fresh, record_event)
        (record { current = refl; history = ((l.current, other), l.history) })

  pub transition-IsLogged :
      (target : Status) (reason : String) (s s' : Record)
      → IsFresh s
      → IsLogged s
      → transition str iso now target reason s ≡ ok s'
      → IsLogged s'
  unfolding transition
  transition-IsLogged target reason s s' fresh l h =
      elim (Bool-cases (same_status s.esim.status target)) [
        | inl same ↦ subst IsLogged (ground (arith, same)) l
        | inr other ↦ elim (Bool-cases (is_status_of target (allowed s.esim.status))) [
          | inr miss ↦ absurd (ground (arith, other, miss))
          | inl hit ↦ subst IsLogged (ground (arith, other, hit)) (
              move-IsLogged target reason s (fresh target)
                (same_status_iff s.esim.status target other) l)
        ]
      ]

  record_unknown-IsLogged :
      (text : String) (s : Record) → IsLogged s → IsLogged (record_unknown str iso now text s)
  unfolding record_unknown logged IsHistory
  record_unknown-IsLogged text s l = elim (Bool-cases (str_eq text "UNKNOWN")) [
    | inr miss ↦ rw miss l
    | inl hit ↦
        rw hit
          (elim (Option-cases (
            find_event ("provider.usage_unknown:" ++ (str s.esim.id ++ (":" ++ iso now)))
              s.events)) [
                | inr (e, old) ↦ rw (old, record_event) l
                | inl new ↦
                    rw (new, record_event)
                      (record { current = l.current; history = (tt, l.history) })
              ])
  ]

  overwrite-IsLogged :
      (text : String) (target : Status) (s : Record)
      → IsFresh s
      → IsLogged s
      → IsLogged (overwrite str iso now text target s).0
  unfolding overwrite
  overwrite-IsLogged text target s fresh l = elim (Bool-cases (same_status s.esim.status target)) [
    | inl same ↦ rw same l
    | inr other ↦ rw other (
        record_unknown-IsLogged text _
          (move-IsLogged target _ s (fresh target) (same_status_iff s.esim.status target other) l))
  ]

  pub usage-IsLogged :
      (text : String) (s : Record)
      → IsFresh s
      → IsLogged s
      → IsLogged (apply_provider_usage str iso now text s).0
  unfolding apply_provider_usage
  usage-IsLogged text s fresh l = elim (Option-cases (provider_usage_status text)) [
    | inl unlisted ↦ rw (unlisted, apply_provider_usage) l
    | inr (target, listed) ↦
        rw (listed, apply_provider_usage) (overwrite-IsLogged text target s fresh l)
  ]

  -- The same eSIM with the same status and events.
  pub record IsAlike (s s' : Record) : Type 0 where
    pub key : s'.esim.id ≡ s.esim.id
    pub status : s'.esim.status ≡ s.esim.status
    pub events : s'.events ≡ s.events

  -- What a client's event can do: nothing to the status, or one step of the installation.
  pub data Effect (event_type : String) (s : Record) (r : Result LifecycleError Record)
      : Type 0 where
    alike : (s' : Record) → IsAlike s s' → r ≡ ok s' → Effect event_type s r
    opens :
        (s' : Record)
        → IsAlike s s'
        → s.esim.status ≡ purchased
        → r ≡ ok (move str iso now installation_started event_type s')
        → Effect event_type s r
    completes :
        (s' : Record)
        → IsAlike s s'
        → (s.esim.status ≡ purchased) ⊎ (s.esim.status ≡ installation_started)
        → r ≡ ok (move str iso now installed event_type s')
        → Effect event_type s r

  open_install-Effect :
      (event_type : String) (s : Record)
      → Effect event_type s (open_install str iso now event_type s)
  unfolding open_install transition allowed is_status_of
  open_install-Effect event_type s = elim (purchased_cases s.esim.status) [
    | inl e ↦ opens (opened s) (record { key = refl; status = refl; events = refl }) e (rw e refl)
    | inr other ↦
        alike (opened s) (record { key = refl; status = refl; events = refl }) (rw other refl)
  ]
    where
      opened : Record → Record
      opened s = record s { esim = record s.esim { setup_version = setup_version } }

  complete_install-Effect :
      (event_type : String) (s : Record)
      → Effect event_type s (complete_install str iso now event_type s)
  unfolding complete_install transition allowed is_status_of
  complete_install-Effect event_type s =
      let self : IsAlike s s = record { key = refl; status = refl; events = refl } in
      elim (install_cases s.esim.status) [
        | inl (inl e) ↦ completes s self (inl e) (rw e refl)
        | inl (inr e) ↦ completes s self (inr e) (rw e refl)
        | inr other ↦ alike s self (rw other refl)
      ]

  pub side_effect-Effect :
      (event_type : String) (s : Record)
      → Effect event_type s (side_effect str iso now event_type s)
  unfolding side_effect
  side_effect-Effect event_type s = elim (Bool-cases (str_eq event_type "install.opened")) [
    | inl hit ↦ rw hit (open_install-Effect event_type s)
    | inr a ↦ elim (Bool-cases (str_eq event_type "install.completed")) [
      | inl hit ↦ rw a (rw hit (complete_install-Effect event_type s))
      | inr b ↦ elim (Bool-cases (str_eq event_type "install.setup_confirmed")) [
        | inl hit ↦
            rw a
              (rw b (rw hit (alike _ (record { key = refl; status = refl; events = refl }) refl)))
        | inr c ↦ elim (Bool-cases (str_eq event_type "install.setup_skipped")) [
          | inl hit ↦ rw a (
              rw b (
                rw c (rw hit (alike _ (record { key = refl; status = refl; events = refl }) refl))))
          | inr d ↦
              alike s (record { key = refl; status = refl; events = refl })
                (rw a (rw b (rw c (rw d refl))))
        ]
      ]
    ]
  ]

  pub IsAlike-IsLogged : (s s' : Record) → IsAlike s s' → IsLogged s → IsLogged s'
  IsAlike-IsLogged s s' a l = record {
    current = a.status ∙ l.current ∙ ap logged (sym a.events);
    history = subst IsHistory (sym a.events) l.history;
  }

  moved-IsLogged :
      (target : Status) (reason : String) (s s' : Record)
      → IsAlike s s'
      → IsFresh s
      → s.esim.status ≢ target
      → IsLogged s
      → IsLogged (move str iso now target reason s')
  unfolding status_key
  moved-IsLogged target reason s s' a fresh other l =
      move-IsLogged target reason s' (rw (a.events, a.key) (fresh target))
        (λ e. other (sym a.status ∙ e)) (IsAlike-IsLogged s s' a l)

  pub Effect-IsLogged :
      (event_type : String) (s : Record) (r : Result LifecycleError Record)
      → Effect event_type s r
      → IsFresh s
      → IsLogged s
      → (s' : Record) → r ≡ ok s'
      → IsLogged s'
  Effect-IsLogged event_type s r (alike t a p) fresh l s' h =
      subst IsLogged (ground (arith, p, h)) (IsAlike-IsLogged s t a l)
  Effect-IsLogged event_type s r (opens t a e p) fresh l s' h =
      subst IsLogged (ground (arith, p, h))
        (moved-IsLogged installation_started event_type s t a fresh (λ q. cc) l)
  Effect-IsLogged event_type s r (completes t a (inl e) p) fresh l s' h =
      subst IsLogged (ground (arith, p, h))
        (moved-IsLogged installed event_type s t a fresh (λ q. cc) l)
  Effect-IsLogged event_type s r (completes t a (inr e) p) fresh l s' h =
      subst IsLogged (ground (arith, p, h))
        (moved-IsLogged installed event_type s t a fresh (λ q. cc) l)

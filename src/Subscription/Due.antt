-- ===== src/Subscription/Due.antt =====
-- `SubscriptionService.renew_due` of src/apps/billing/services/subscription.py: one renewal for each
-- due subscription, oldest billing date first. Each renewal takes the keys `fresh pk` for its rows.
use roamkit_api.Base.{
  ℕ, ◌+◌, suc, ◌≡◌, refl, ap, ◌∙◌, String, inl, inr, Bool-cases, Bool, true, not, ◌&&◌, ◌||◌, List,
  [], ◌∷◌, map, length, arith, ltb, leb, ◌==◌, if◌then◌else◌, Result, ok, err,
}
use roamkit_api.Subscription.{
  Subscription, State, Settings, RenewalError, billing_disabled, subscriptions_disabled, Outcome,
  Renewing, is_active,
}
use roamkit_api.Subscription.Renewal.{RenewalIds, renew_one}

unfoldable pub is_due : ℕ → Subscription → Bool
is_due today x = is_active x.status && leb x.next_billing_date today

unfoldable pub due_rows : ℕ → List Subscription → List Subscription
unfolding is_due
due_rows today [] = []
due_rows today (x ∷ rows) =
    let rest = due_rows today rows in if is_due today x then x ∷ rest else rest

-- `order_by("next_billing_date", "pk")`
unfoldable pub before : Subscription → Subscription → Bool
before x y =
    ltb x.next_billing_date y.next_billing_date
    || (x.next_billing_date == y.next_billing_date && leb x.id y.id)

unfoldable pub insert_due : Subscription → List Subscription → List Subscription
unfolding before
insert_due x [] = x ∷ []
insert_due x (y ∷ rows) = if before x y then x ∷ y ∷ rows else y ∷ insert_due x rows

unfoldable pub order_due : List Subscription → List Subscription
unfolding insert_due
order_due [] = []
order_due (x ∷ rows) = insert_due x (order_due rows)

unfoldable pub due_ids : ℕ → State → List ℕ
unfolding due_rows order_due
due_ids today s = map (λ (x : Subscription). x.id) (order_due (due_rows today s.subscriptions))

length-insert_due :
    (x : Subscription) (rows : List Subscription) → length (insert_due x rows) ≡ length rows + 1
unfolding insert_due
length-insert_due x [] = omega arith
length-insert_due x (y ∷ rows) = ground (arith, length-insert_due x rows)

length-order_due : (rows : List Subscription) → length (order_due rows) ≡ length rows
unfolding order_due
length-order_due [] = refl
length-order_due (x ∷ rows) =
    omega (arith, length-insert_due x (order_due rows), length-order_due rows)

length-ids :
    (rows : List Subscription) → length (map (λ (x : Subscription). x.id) rows) ≡ length rows
length-ids [] = refl
length-ids (x ∷ rows) = ap suc (length-ids rows)

length-due :
    (today : ℕ) (s : State) → length (due_ids today s) ≡ length (due_rows today s.subscriptions)
unfolding due_ids
length-due today s =
    length-ids (order_due (due_rows today s.subscriptions))
    ∙ length-order_due (due_rows today s.subscriptions)

pub record Stats : Type 0 where
  pub renewed : ℕ
  pub paused : ℕ
  pub skipped : ℕ

unfoldable pub count : Outcome → Stats → Stats
count (Outcome.renewed entry) t = record t { renewed = t.renewed + 1 }
count Outcome.already_renewed t = record t { renewed = t.renewed + 1 }
count (Outcome.paused balance) t = record t { paused = t.paused + 1 }
count Outcome.skipped t = record t { skipped = t.skipped + 1 }

module _ (str iso : ℕ → String) (fresh : ℕ → RenewalIds) (others : State → State)
    (settings : Settings) (today : ℕ) where
  -- The loop: an exception ends it, and the renewals before it stay committed.
  unfoldable pub renew_ids : List ℕ → Stats → State → Result RenewalError Stats × State
  unfolding count
  renew_ids [] stats s = (ok stats, s)
  renew_ids (pk ∷ rest) stats s =
      let (r, s') = renew_one str iso (fresh pk) others settings today pk s in
      elim r [ ok outcome ↦ renew_ids rest (count outcome stats) s' | err e ↦ (err e, s') ]

  unfoldable pub renew_due : State → Result RenewalError Stats × State
  unfolding renew_ids due_ids
  renew_due s =
      if not settings.billing_enabled
      then (err billing_disabled, s)
      else if not settings.subscriptions_enabled
      then (err subscriptions_disabled, s)
      else renew_ids (due_ids today s) (record { renewed = 0; paused = 0; skipped = 0 }) s

  abbrev pub total : Stats → ℕ
  total t = t.renewed + t.paused + t.skipped

  total-count : (o : Outcome) (t : Stats) → total (count o t) ≡ total t + 1
  unfolding count
  total-count (Outcome.renewed entry) t = omega arith
  total-count Outcome.already_renewed t = omega arith
  total-count (Outcome.paused balance) t = omega arith
  total-count Outcome.skipped t = omega arith

  round_totals :
      (rest : List ℕ) (stats t : Stats) (r : Renewing)
      → ((o : Outcome) (s' : State)
          → (renew_ids rest (count o stats) s').0 ≡ ok t
          → total t ≡ total (count o stats) + length rest)
      → (elim r.0 as (λ _. Result RenewalError Stats × State) [
        | ok outcome ↦ renew_ids rest (count outcome stats) r.1
        | err e ↦ (err e, r.1)
      ]).0
        ≡ ok t
      → total t ≡ total stats + (length rest + 1)
  round_totals rest stats t (ok outcome, s') ih h =
      omega (arith, ih outcome s' h, total-count outcome stats)
  round_totals rest stats t (err e, s') ih h = cc

  renew_ids_totals :
      (pks : List ℕ) (stats t : Stats) (s : State)
      → (renew_ids pks stats s).0 ≡ ok t
      → total t ≡ total stats + length pks
  unfolding renew_ids
  renew_ids_totals [] stats t s h = ground arith
  renew_ids_totals (pk ∷ rest) stats t s h = omega (
    arith,
    round_totals rest stats t (renew_one str iso (fresh pk) others settings today pk s)
        (λ o s'. renew_ids_totals rest (count o stats) t s') h,
  )

  -- A run that ends without an exception has counted every due subscription exactly once, as
  -- renewed, paused or skipped.
  pub renew_due_totals :
      (s : State) (t : Stats)
      → (renew_due s).0 ≡ ok t
      → total t ≡ length (due_rows today s.subscriptions)
  unfolding renew_due due_ids
  renew_due_totals s t h =
      let n = length-due today s in
      elim (Bool-cases settings.billing_enabled) [
        | inr off ↦ absurd (ground (arith, off))
        | inl on ↦ elim (Bool-cases settings.subscriptions_enabled) [
          | inr off ↦ absurd (ground (arith, on, off))
          | inl on' ↦ omega (
            arith,
            n,
            renew_ids_totals (due_ids today s) (record { renewed = 0; paused = 0; skipped = 0 }) t s
                (enabled s t on on' h),
          )
        ]
      ]
    where
      enabled :
          (s : State) (t : Stats)
          → settings.billing_enabled ≡ true
          → settings.subscriptions_enabled ≡ true
          → (renew_due s).0 ≡ ok t
          → (renew_ids (due_ids today s) (record { renewed = 0; paused = 0; skipped = 0 }) s).0
            ≡ ok t
      enabled s t on on' h = ground arith

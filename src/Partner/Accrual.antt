-- ===== src/Partner/Accrual.antt =====
-- `PartnerMarginService.accrue` of src/apps/billing/services/partner_margin.py: when a commission is
-- earned, by cases on the ways in which an accrual ends.
use roamkit_api.Base.{
  ℕ, ◌≡◌, ◌≢◌, refl, Bool, true, false, Option, none, some, ◌∷◌, arith, ok, err, inl, inr,
  Bool-cases, Option-cases, Result-cases, String,
}
use mathlib.Core.Path.{subst}
use roamkit_api.Base.Int.{ℤ, pos, ◌-ℤ◌, eqb_ℤ, eqb_ℤ_iff}
use roamkit_api.Ledger.{Bank, Account, CreditLedgerEntry}
use roamkit_api.Ledger.Credit.{credit, Attempt, quiet, invalid_operation}
use roamkit_api.Ledger.Invariant.{IsValid, credit-IsValid}
use roamkit_api.Partner.{
  PartnerChannel, CustomerAttribution, PartnerMarginAccrual, Store, get_channel, find_attribution,
  find_accrual,
}
use roamkit_api.Partner.Settlement.{resolve_partner_settlement_account}
use roamkit_api.Partner.Margin
use roamkit_api.Partner.Margin.{
  Event, NewIds, Accruing, Accrued, accrued, replay, skipped, margin_movement, new_accrual, settle,
  record_accrual, can_insert, accrue, partner_channel_can_accrue_for_customer, price_skip, share_of,
  accrue_share, accrue_new, accrue_for, accrue_attributed, accrue_customer, credit_failed,
  settlement_invalid,
}

module _ (str : ℕ → String) (ids : NewIds) (ev : Event) (s : Store) where
  -- What holds where an accrual is created.
  pub record Earns (user : ℕ) (attribution : CustomerAttribution) (c : PartnerChannel)
      (prices : ℤ × ℤ) (share : ℤ) (account : Account) (entry : CreditLedgerEntry) (bank : Bank)
      : Type 0 where
    pub channel : get_channel attribution.partner_channel s.channels ≡ some c
    pub first : find_accrual ev.source_type ev.source_id s.accruals ≡ none
    pub active : c.is_active ≡ true
    pub third_party : partner_channel_can_accrue_for_customer c user s ≡ true
    pub priced : price_skip ev.list_price ev.net_price c.revenue_share_percent ≡ ok prices
    pub shared : share_of (prices.0 -ℤ prices.1) c.revenue_share_percent ≡ some share
    pub nonzero : share ≢ pos 0
    pub settles : resolve_partner_settlement_account c s ≡ ok account
    pub paid :
        credit quiet ids.entry (margin_movement str ids ev s account share) s.bank
        ≡ (ok entry, bank)

  abbrev pub accrued_store : PartnerMarginAccrual → Bank → Store
  accrued_store row bank = record s { bank = bank; accruals = row ∷ s.accruals }

  abbrev IsSkip : Accrued → Type 0
  IsSkip x = (row : PartnerMarginAccrual) → x ≢ accrued row

  -- The ways in which an accrual ends: only the last writes anything.
  pub data Accruals (user : Option ℕ) (r : Accruing) : Type 0 where
    unchanged : (x : Accrued) → IsSkip x → r ≡ (ok x, s) → Accruals user r
    failed : (e : Margin.AccrualError) → r ≡ (err e, s) → Accruals user r
    earned :
        (u : ℕ) (attribution : CustomerAttribution) (c : PartnerChannel) (prices : ℤ × ℤ)
        (share : ℤ) (account : Account) (entry : CreditLedgerEntry) (bank : Bank)
        → user ≡ some u
        → find_attribution u s.attributions ≡ some attribution
        → Earns u attribution c prices share account entry bank
        → r ≡ (
          ok (accrued (new_accrual str ids ev s u attribution c prices share entry)),
          accrued_store (new_accrual str ids ev s u attribution c prices share entry) bank,
        )
        → Accruals user r

  module _ (u : ℕ) (attribution : CustomerAttribution)
      (found : find_attribution u s.attributions ≡ some attribution) (c : PartnerChannel)
      (channel : get_channel attribution.partner_channel s.channels ≡ some c)
      (first : find_accrual ev.source_type ev.source_id s.accruals ≡ none)
      (active : c.is_active ≡ true)
      (third_party : partner_channel_can_accrue_for_customer c u s ≡ true) where
    settle-Accruals :
        (prices : ℤ × ℤ) (share : ℤ)
        → price_skip ev.list_price ev.net_price c.revenue_share_percent ≡ ok prices
        → share_of (prices.0 -ℤ prices.1) c.revenue_share_percent ≡ some share
        → share ≢ pos 0
        → Accruals (some u) (settle str ids ev s u attribution c prices share)
    unfolding settle
    settle-Accruals prices share priced shared nonzero =
        elim (Result-cases (resolve_partner_settlement_account c s)) [
          | inr (e, bad) ↦ failed (settlement_invalid e) (rw (bad, settle))
          | inl (account, settles) ↦
              paid account settles
                (credit quiet ids.entry (margin_movement str ids ev s account share) s.bank) refl
        ]
      where
        paid :
            (account : Account)
            → resolve_partner_settlement_account c s ≡ ok account
            → (attempt : Attempt)
            → credit quiet ids.entry (margin_movement str ids ev s account share) s.bank ≡ attempt
            → Accruals (some u) (settle str ids ev s u attribution c prices share)
        paid account settles (err e, bank) p =
            failed (credit_failed e) (rw (settles, settle) (rw (p, record_accrual)))
        paid account settles (ok entry, bank) p =
            elim (Bool-cases
              (can_insert s (new_accrual str ids ev s u attribution c prices share entry))) [
                | inr refused ↦
                    failed Margin.insert_failed
                      (rw (settles, settle) (rw (p, record_accrual) (rw (refused) refl)))
                | inl fits ↦
                    earned u attribution c prices share account entry bank refl found
                      (record {
                        channel = channel;
                        first = first;
                        active = active;
                        third_party = third_party;
                        priced = priced;
                        shared = shared;
                        nonzero = nonzero;
                        settles = settles;
                        paid = p;
                      })
                      (rw (settles, settle) (rw (p, record_accrual) (rw (fits) refl)))
              ]

    accrue_new-Accruals : Accruals (some u) (accrue_new str ids ev s u attribution c)
    unfolding accrue_new
    accrue_new-Accruals =
        elim (Result-cases (price_skip ev.list_price ev.net_price c.revenue_share_percent)) [
          | inr (reason, skip) ↦
              unchanged (skipped reason) (λ row. cc) (ground (arith, active, third_party, skip))
          | inl (prices, priced) ↦
              simp (third_party, active)
                (rw (priced, accrue_new)
                  (shared prices priced (share_of (prices.0 -ℤ prices.1) c.revenue_share_percent)
                    refl))
        ]
      where
        shared :
            (prices : ℤ × ℤ)
            → price_skip ev.list_price ev.net_price c.revenue_share_percent ≡ ok prices
            → (share : Option ℤ) → share_of (prices.0 -ℤ prices.1) c.revenue_share_percent ≡ share
            → Accruals (some u) (accrue_share str ids ev s u attribution c prices share)
        shared prices priced none e = failed (credit_failed invalid_operation) refl
        shared prices priced (some share) e = elim (Bool-cases (eqb_ℤ share (pos 0))) [
          | inl nil ↦ unchanged (skipped Margin.zero_share) (λ row. cc) (rw nil)
          | inr nonzero ↦
              rw nonzero
                (settle-Accruals prices share priced e (λ z. cc ((eqb_ℤ_iff share (pos 0)).1 z)))
        ]

  accrue_customer-Accruals : (user : Option ℕ) → Accruals user (accrue_customer str ids ev s user)
  unfolding accrue_customer accrue_attributed accrue_for accrue_new
  accrue_customer-Accruals none = unchanged (skipped Margin.no_attribution) (λ row. cc) refl
  accrue_customer-Accruals (some u) = elim (Option-cases (find_attribution u s.attributions)) [
    | inl missing ↦
        unchanged (skipped Margin.no_attribution) (λ row. cc) (rw (missing, accrue_customer))
    | inr (attribution, found) ↦
        elim (Option-cases (get_channel attribution.partner_channel s.channels)) [
          | inl missing ↦
              failed Margin.channel_missing
                (rw (found, accrue_customer) (rw (missing, accrue_attributed)))
          | inr (c, channel) ↦
              rw (found, accrue_customer)
                (rw (channel, accrue_attributed) (by_history attribution c found channel))
        ]
  ]
    where
      by_history :
          (attribution : CustomerAttribution) (c : PartnerChannel)
          → find_attribution u s.attributions ≡ some attribution
          → get_channel attribution.partner_channel s.channels ≡ some c
          → Accruals (some u) (accrue_for str ids ev s u attribution c)
      by_history attribution c found channel =
          elim (Option-cases (find_accrual ev.source_type ev.source_id s.accruals)) [
            | inr (existing, old) ↦ unchanged (replay existing) (λ row. cc) (rw (old, accrue_for))
            | inl first ↦ elim (Bool-cases c.is_active) [
              | inr idle ↦
                  unchanged (skipped Margin.channel_inactive) (λ row. cc)
                    (rw (first, accrue_for) (rw (idle, accrue_new)))
              | inl active ↦ elim (Bool-cases (partner_channel_can_accrue_for_customer c u s)) [
                | inr own ↦
                    unchanged (skipped Margin.self_referral) (λ row. cc)
                      (rw (first, accrue_for) (ground (arith, active, own)))
                | inl third_party ↦
                    rw (first, accrue_for)
                      (accrue_new-Accruals u attribution found c channel first active third_party)
              ]
            ]
          ]

  pub accrue-Accruals : (enabled : Bool) → Accruals ev.customer (accrue str ids ev s enabled)
  unfolding accrue
  accrue-Accruals false = unchanged (skipped Margin.flag_disabled) (λ row. cc) refl
  accrue-Accruals true = accrue_customer-Accruals ev.customer

  kept_by : (user : Option ℕ) (r : Accruing) → Accruals user r → IsValid s.bank → IsValid r.1.bank
  kept_by user r (unchanged x skip p) v = rw p v
  kept_by user r (failed e p) v = rw p v
  kept_by user r (earned u attribution c prices share account entry bank same found earns p) v =
      rw p (
        subst (λ (x : Attempt). IsValid x.1) earns.paid
          (credit-IsValid ids.entry (margin_movement str ids ev s account share) s.bank v))

  -- From a bank that keeps the invariant of the ledger an accrual keeps it, however it ends.
  pub accrue-IsValid :
      (enabled : Bool) → IsValid s.bank → IsValid (accrue str ids ev s enabled).1.bank
  accrue-IsValid enabled v =
      kept_by ev.customer (accrue str ids ev s enabled) (accrue-Accruals enabled) v

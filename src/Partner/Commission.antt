-- ===== src/Partner/Commission.antt =====
-- What an accrual of src/apps/billing/services/partner_margin.py has done when it reports one:
-- who earned it, how much, on which account; and that an event earns it once.
use roamkit_api.Base.{
  ℕ, ◌≡◌, refl, Bool, true, Option, none, some, List, ◌∷◌, arith, ok, String, eq_iff, ap, sym, ◌∙◌,
}
use mathlib.Core.Path.{subst}
use roamkit_api.Base.Int.{ℤ, pos, ◌≤ℤ◌, ◌-ℤ◌}
use roamkit_api.Ledger.{Account, CreditLedgerEntry, find_key}
use roamkit_api.Ledger.Credit.{Attempt, quiet, credit}
use roamkit_api.Ledger.Invariant.{IsValid}
use roamkit_api.Ledger.Effects.{Moves, credit_moves}
use roamkit_api.Partner.{
  PartnerChannel, CustomerAttribution, PartnerMarginAccrual, Store, find_accrual, source_value,
  get_channel, find_attribution,
}
use roamkit_api.Partner.Settlement.{SettlesOn, resolve_partner_settlement_account-SettlesOn}
use roamkit_api.Partner.Margin
use roamkit_api.Partner.Margin.{
  Event, NewIds, Accruing, Accrued, accrued, replay, margin_movement, margin_key, new_accrual,
  price_skip, accrue, accrue_customer, accrue_attributed, accrue_for,
}
use roamkit_api.Partner.Accrual.{
  Accruals, unchanged, failed, earned, accrued_store, accrue-Accruals,
}

-- Prices that are let through are those of the event, with the net price from 0 to the list price.
price_skip-prices :
    (list_price net_price : Option ℤ) (percent : ℤ) (prices : ℤ × ℤ)
    → price_skip list_price net_price percent ≡ ok prices
    → (list_price ≡ some prices.0)
      × (net_price ≡ some prices.1)
      × (pos 0 ≤ℤ prices.1)
      × (prices.1 ≤ℤ prices.0)
unfolding price_skip
price_skip-prices list_price none percent prices h = cc
price_skip-prices none (some net) percent prices h = cc
price_skip-prices (some list) (some net) percent prices h = ground (arith, h)

module _ (str : ℕ → String) (ids : NewIds) (ev : Event) (s : Store) where
  -- The commission `row` for the event, and the ledger that it leaves.
  pub record IsCommission (row : PartnerMarginAccrual) (s' : Store) : Type 0 where
    pub customer : ev.customer ≡ some row.customer_user
    pub first : find_accrual ev.source_type ev.source_id s.accruals ≡ none
    pub event : (row.source_type ≡ ev.source_type) × (row.source_id ≡ ev.source_id)
    pub stored : s'.accruals ≡ row ∷ s.accruals
    pub list_price : ev.list_price ≡ some row.list_price
    pub net_price : ev.net_price ≡ some row.net_price
    pub ordered : (pos 0 ≤ℤ row.net_price) × (row.net_price ≤ℤ row.list_price)
    pub margin : row.margin ≡ row.list_price -ℤ row.net_price
    pub share : pos 1 ≤ℤ row.partner_share
    pub shared : Margin.share_of row.margin row.revenue_share_percent ≡ some row.partner_share
    pub channel :
        (attribution : CustomerAttribution) × (c : PartnerChannel) × (account : Account)
        × (locked : Account) × (entry : CreditLedgerEntry) × (find_attribution row.customer_user
              s.attributions
            ≡ some attribution)
        × (row.customer_attribution ≡ attribution.id)
        × (row.customer_user_id_snapshot ≡ attribution.user)
        × (get_channel attribution.partner_channel s.channels ≡ some c)
        × (row.partner_channel ≡ c.id)
        × (c.is_active ≡ true)
        × (Margin.partner_channel_can_accrue_for_customer c row.customer_user s ≡ true)
        × (row.revenue_share_percent ≡ c.revenue_share_percent)
        × SettlesOn c.kind c s account
        × (entry.delta ≡ row.partner_share)
        × (row.ledger_entry ≡ entry.id)
        × Moves s.bank account.id locked entry s'.bank

  IsCommission-cases :
      (user : Option ℕ) (r : Accruing) (row : PartnerMarginAccrual)
      → user ≡ ev.customer
      → IsValid s.bank
      → find_key (margin_key ev) s.bank.ledger ≡ none
      → Accruals str ids ev s user r
      → r.0 ≡ ok (accrued row)
      → IsCommission row r.1
  IsCommission-cases user r row who v fresh (unchanged x skip p) h =
      absurd (skip row (ground arith))
  IsCommission-cases user r row who v fresh (failed e p) h = cc
  IsCommission-cases user r row who v fresh
        (earned u attribution c prices share account entry bank same found earns p) h =
      let made : new_accrual str ids ev s u attribution c prices share entry ≡ row = ground arith in
      let priced =
        price_skip-prices ev.list_price ev.net_price c.revenue_share_percent prices earns.priced in
      let m = margin_movement str ids ev s account share in
      let paid : credit quiet ids.entry m s.bank ≡ (ok entry, bank) = earns.paid in
      let (locked, _, delta, positive, moves) =
        credit_moves ids.entry m share s.bank entry v (unfold margin_movement in fresh)
          (unfold margin_movement in refl) (ap (λ (x : Attempt). x.0) paid) in
      rw p (
        subst
          (λ x. IsCommission x (
            accrued_store str ids ev s (new_accrual str ids ev s u attribution c prices share entry)
              bank))
          made
          (record {
            customer = sym who ∙ same;
            first = earns.first;
            event = (refl, refl);
            stored = refl;
            list_price = priced.0;
            net_price = priced.1;
            ordered = (priced.2, priced.3);
            margin = refl;
            share = positive;
            shared = earns.shared;
            channel = (
              attribution,
              c,
              account,
              locked,
              entry,
              found,
              refl,
              refl,
              earns.channel,
              refl,
              earns.active,
              earns.third_party,
              refl,
              resolve_partner_settlement_account-SettlesOn c s account earns.settles,
              delta,
              refl,
              subst (λ (x : Attempt). Moves s.bank account.id locked entry x.1) paid
                  (unfold margin_movement in moves),
            );
          }))

  -- Under the invariant of the ledger, and with no earlier entry under the event's key, an accrual
  -- that is reported is the first for its source, and is for the purchasing customer and this event,
  -- with the event's list and net prices, the net price from 0 to the list price; its share is
  -- positive and the rounded share of their difference; its channel is the one to which the
  -- customer's attribution points, active and not the customer's own; and the settlement account of
  -- that channel's owner has received exactly the share, under the entry that the row names.
  pub accrue-IsCommission :
      (enabled : Bool) (row : PartnerMarginAccrual)
      → IsValid s.bank
      → find_key (margin_key ev) s.bank.ledger ≡ none
      → (accrue str ids ev s enabled).0 ≡ ok (accrued row)
      → IsCommission row (accrue str ids ev s enabled).1
  accrue-IsCommission enabled row v fresh h =
      IsCommission-cases ev.customer (accrue str ids ev s enabled) row refl v fresh
        (accrue-Accruals str ids ev s enabled) h

find_accrual-cons_self :
    (row : PartnerMarginAccrual) (rows : List PartnerMarginAccrual)
    → find_accrual row.source_type row.source_id (row ∷ rows) ≡ some row
unfolding find_accrual
find_accrual-cons_self row rows = ground (
  arith,
  eq_iff (source_value row.source_type) (source_value row.source_type),
  eq_iff row.source_id row.source_id,
)

module _ (str : ℕ → String) (ids ids' : NewIds) (ev ev' : Event) (s : Store)
    (source : (ev'.source_type ≡ ev.source_type) × (ev'.source_id ≡ ev.source_id))
    (customer : ev'.customer ≡ ev.customer) where
  replay_cases :
      (r : Accruing) (row : PartnerMarginAccrual)
      → Accruals str ids ev s ev.customer r
      → r.0 ≡ ok (accrued row)
      → accrue str ids' ev' r.1 true ≡ (ok (replay row), r.1)
  unfolding accrue accrue_customer accrue_attributed accrue_for
  replay_cases r row (unchanged x skip p) h = absurd (skip row (ground arith))
  replay_cases r row (failed e p) h = cc
  replay_cases r row (earned u attribution c prices share account entry bank same found earns p) h =
      let new = new_accrual str ids ev s u attribution c prices share entry in
      let made : new ≡ row = ground arith in
      let again : find_accrual ev'.source_type ev'.source_id (new ∷ s.accruals) ≡ some new =
        rw (source.0, source.1) (find_accrual-cons_self new s.accruals) in
      rw (p, ← made)
        (rw (customer ∙ same, accrue_customer)
          (rw (found, accrue_customer)
            (rw (earns.channel, accrue_attributed) (rw (again, accrue_for)))))

  -- Once an event of a customer has earned a commission, every further accrual for that event and
  -- customer, whatever prices it brings, returns the same commission and changes nothing.
  pub accrue_replay :
      (row : PartnerMarginAccrual)
      → (accrue str ids ev s true).0 ≡ ok (accrued row)
      → accrue str ids' ev' (accrue str ids ev s true).1 true
        ≡ (ok (replay row), (accrue str ids ev s true).1)
  accrue_replay row h =
      replay_cases (accrue str ids ev s true) row (accrue-Accruals str ids ev s true) h

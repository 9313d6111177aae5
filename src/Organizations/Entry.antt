-- ===== src/Organizations/Entry.antt =====
-- What the guards of src/apps/organizations/services/authz.py and context.py establish, for the
-- operations that stand behind them.
use roamkit_api.Base.{
  true_of_not, ℕ, ◌≡◌, sym, ap, ◌∙◌, true, not, some, arith, first_where, first_where-selects,
  Ensures, raise_if-Ensures, or_raise-Ensures, ok-Ensures, ok,
}
use roamkit_api.Organizations.{
  Organization, Membership, State, OrganizationError, not_found, is_active, is_owner, find_member,
  has_id,
}
use roamkit_api.Organizations.Context.{
  AccountContext, resolve_organization_context, permissions, require_manage_members,
  require_transfer_ownership,
}
use roamkit_api.Organizations.Saves.{find_member-key}

-- The actor is an active member of that organization.
pub record Entered (actor organization_id : ℕ) (s : State) (ctx : AccountContext) : Type 0 where
  pub organization : first_where (has_id organization_id) s.organizations ≡ some ctx.organization
  pub id : ctx.organization.id ≡ organization_id
  pub membership : find_member organization_id actor s ≡ some ctx.membership
  pub user : ctx.membership.user ≡ actor
  pub active : is_active ctx.membership.status ≡ true

pub resolve_organization_context-Entered :
    (actor organization_id : ℕ) (s : State)
    → Ensures
        (Entered actor organization_id s)
        (resolve_organization_context actor organization_id s)
unfolding resolve_organization_context
resolve_organization_context-Entered actor organization_id s =
    or_raise-Ensures (Entered actor organization_id s)
      (first_where (has_id organization_id) s.organizations) not_found _
      (λ org h.
        or_raise-Ensures (Entered actor organization_id s) (find_member org.id actor s) not_found _
          (λ membership k.
            raise_if-Ensures (Entered actor organization_id s) (not (is_active membership.status)) _
              _
              (λ active. ok-Ensures OrganizationError (Entered actor organization_id s) _ (record {
                organization = h;
                id = same org h;
                membership = rw (← same org h) k;
                user = (find_member-key org.id actor s membership k).1;
                active = true_of_not _ active;
              }))))
  where
    same :
        (org : Organization)
        → first_where (has_id organization_id) s.organizations ≡ some org
        → org.id ≡ organization_id
    same org h = ground (arith, first_where-selects (has_id organization_id) s.organizations org h)

module _ (ctx : AccountContext) where
  pub require_manage_members-Permitted :
      require_manage_members ctx ≡ ok tt → (permissions ctx).can_manage_members ≡ true
  unfolding require_manage_members
  require_manage_members-Permitted h = ground (arith, h)

  pub require_transfer_ownership-Permitted :
      require_transfer_ownership ctx ≡ ok tt → is_owner ctx.membership.role ≡ true
  unfolding require_transfer_ownership
  require_transfer_ownership-Permitted h = ground (arith, h)

-- A second query for the actor's row finds the same row.
pub Entered-row :
    (actor organization_id : ℕ) (s : State) (ctx : AccountContext) (mine : Membership)
    → Entered actor organization_id s ctx
    → find_member ctx.organization.id ctx.membership.user s ≡ some mine
    → mine ≡ ctx.membership
Entered-row actor organization_id s ctx mine c h = some_injective (
    sym h
    ∙ (ap (λ o. find_member o ctx.membership.user s) c.id
        ∙ (ap (λ u. find_member organization_id u s) c.user ∙ c.membership)))
  where
    some_injective : {x y : Membership} → some x ≡ some y → x ≡ y
    some_injective e = cc

pub Entered-organization :
    (actor organization_id : ℕ) (s : State) (ctx : AccountContext)
    → Entered actor organization_id s ctx
    → first_where (has_id ctx.organization.id) s.organizations ≡ some ctx.organization
Entered-organization actor organization_id s ctx c =
    ap (λ o. first_where (has_id o) s.organizations) c.id ∙ c.organization

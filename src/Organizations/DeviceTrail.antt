-- ===== src/Organizations/DeviceTrail.antt =====
-- The device bindings of src/apps/organizations/services/device_binding.py against their audit trail,
-- which is an abstract account of them: what a replay of the events says an eSIM is bound to.
use roamkit_api.Base.{
  ℕ, ◌≡◌, inl, inr, refl, sym, ◌∙◌, Bool, true, false, not, Option, none, some, is_none, List, [],
  ◌∷◌, String, ◌==◌, if◌then◌else◌, arith, first_where, update_where, Ensures, >>=-Ensures,
  raise_if-Ensures, ok-Ensures, atomic-state, Option-cases, first_where-selects,
}
use mathlib.Core.Path.{subst}
use roamkit_api.Organizations.{Organization}
use roamkit_api.Organizations.Context.{resolve_organization_context, require_device_bind}
use roamkit_api.Organizations.Devices.{
  set_credential, insert_binding, new_binding, bind_esim, create_binding_body,
  create_device_binding,
}
use roamkit_api.Organizations.Bindings.{
  DeviceBinding, replaced, DeviceBindingEvent, bind, unbind, rebind, credential_issue,
  credential_rotate, DeviceState, DeviceError, is_bound, has_key, is_active_for, is_active_device,
  team_esim, lift, set_hash, end_binding, set_replaced_by, save_binding, record_binding_event,
  DeviceBindingCreateResult,
}
use roamkit_api.Organizations.DeviceTable.{
  IsTable, bound_device, Keeps, Ends, kept-IsTable, kept-bound_device, ended-IsTable,
  ended-bound_device, inserted-IsTable, inserted-bound_device, binding_by_key,
}

-- The specification: what the events, newest first, say about an eSIM.
unfoldable pub replay : ℕ → List DeviceBindingEvent → Option String
replay esim [] = none
replay esim (e ∷ rest) =
    let before = replay esim rest in
    if e.esim == esim
    then elim e.action [
      | bind ↦ some e.device_external_id
      | rebind ↦ some e.device_external_id
      | unbind ↦ none
      | credential_issue ↦ before
      | credential_rotate ↦ before
    ]
    else before

pub record IsAudited (s : DeviceState) : Type 0 where
  pub table : IsTable s.bindings
  pub trail : (esim : ℕ) → bound_device esim s.bindings ≡ replay esim s.events

set_hash-Keeps : (hash : String) (now : ℕ) → Keeps (set_hash hash now)
set_hash-Keeps hash now = record {
  id = λ b. refl;
  esim = λ b. refl;
  device = λ b. refl;
  bound = λ b. refl;
}

set_replaced_by-Keeps : (pk : ℕ) → Keeps (set_replaced_by pk)
set_replaced_by-Keeps pk = record {
  id = λ b. refl;
  esim = λ b. refl;
  device = λ b. refl;
  bound = λ b. refl;
}

replaced-Ends : (actor now : ℕ) → Ends (end_binding replaced actor now)
replaced-Ends actor now = record { id = λ b. refl; bound = λ b. refl }

module _ (digest : String → String) (now : ℕ) where
  pub set_credential-IsAudited :
      (token : String) (rotate : Bool) (actor : ℕ) (b : DeviceBinding) (s : DeviceState)
      → IsAudited s
      → IsAudited (set_credential digest now token rotate actor b s)
  unfolding set_credential replay
  set_credential-IsAudited token rotate actor b s v = record {
    table = kept-IsTable b.id (set_hash (digest token) now) s.bindings v.table (set_hash-Keeps _ _);
    trail = λ e.
        kept-bound_device b.id (set_hash (digest token) now) s.bindings v.table (set_hash-Keeps _ _)
          e
        ∙ (v.trail e ∙ ground arith);
  }

  pub record Inserts (b : DeviceBinding) (s t : DeviceState) : Type 0 where
    pub fresh : first_where (has_key b.id) s.bindings ≡ none
    pub free : first_where (is_active_for b.esim) s.bindings ≡ none
    pub after : t ≡ record s { bindings = b ∷ s.bindings }

  none_of : (o : Option DeviceBinding) → not (is_none o) ≡ false → o ≡ none
  none_of o h = elim (Option-cases o) [
    | inl absent ↦ absent
    | inr (x, found) ↦ ground (arith, h, found)
  ]

  insert_binding-Inserts :
      (b : DeviceBinding) (s : DeviceState) → Ensures (Inserts b s) (insert_binding digest now b s)
  unfolding insert_binding
  insert_binding-Inserts b s =
      let P = Inserts b s in
      raise_if-Ensures P (not (is_none (first_where (has_key b.id) s.bindings))) _ _ (λ fresh.
        raise_if-Ensures P (not (is_none (first_where (is_active_for b.esim) s.bindings))) _ _
          (λ free.
            raise_if-Ensures P
              (not (
                is_none
                  (first_where (is_active_device b.organization b.device_external_id) s.bindings)))
              _ _
              (λ unused.
                ok-Ensures DeviceError P _
                  (record { fresh = none_of _ fresh; free = none_of _ free; after = refl }))))

  module _ (token device : String) (pk : ℕ) where
    -- The old binding has ended, the new one stands first and the old one points to it.
    rebound :
        (actor esim : ℕ) (org : Organization) (x : DeviceBinding) (s u : DeviceState)
        → IsAudited s
        → first_where (is_active_for esim) s.bindings ≡ some x
        → Inserts
            (new_binding digest now token device pk org.id esim actor)
            (save_binding x.id (end_binding replaced actor now) s)
            u
        → let b = new_binding digest now token device pk org.id esim actor in
          let rows = update_where (has_key x.id) (end_binding replaced actor now) s.bindings in
          IsAudited (
            record_binding_event rebind actor b
              (some x.id)
              (save_binding x.id (set_replaced_by pk) (record s { bindings = b ∷ rows })))
    unfolding replay
    rebound actor esim org x s u v found i =
        let b = new_binding digest now token device pk org.id esim actor in
        let f = end_binding replaced actor now in
        let rows = update_where (has_key x.id) f s.bindings in
        let selected = first_where-selects (is_active_for esim) s.bindings x found in
        let old = binding_by_key (is_active_for esim) s.bindings x v.table found in
        let was_active : is_bound x.status ≡ true = ground (arith, selected) in
        let same : x.esim ≡ esim = ground (arith, selected) in
        let ends = replaced-Ends actor now in
        let ended = ended-IsTable x.id f s.bindings v.table ends x old was_active in
        let added = inserted-IsTable b rows ended i.fresh i.free refl in
        let points = set_replaced_by-Keeps pk in
        record {
          table = kept-IsTable x.id (set_replaced_by pk) (b ∷ rows) added points;
          trail = λ e.
              kept-bound_device x.id (set_replaced_by pk) (b ∷ rows) added points e
              ∙ (inserted-bound_device b rows ended i.fresh i.free refl e
                  ∙ ground (
                    arith,
                    same,
                    ended-bound_device x.id f s.bindings v.table ends x old was_active e,
                    v.trail e,
                  ));
        }

    bind_esim-IsAudited :
        (actor esim : ℕ) (replace : Bool) (org : Organization) (s : DeviceState)
        → IsAudited s
        → Ensures
            (λ (p : DeviceBindingCreateResult × DeviceState). IsAudited p.1)
            (bind_esim digest now token device pk actor esim replace org s)
    unfolding bind_esim replay
    bind_esim-IsAudited actor esim replace org s v =
        let P = λ (p : DeviceBindingCreateResult × DeviceState). IsAudited p.1 in
        let b = new_binding digest now token device pk org.id esim actor in
        elim (Option-cases (first_where (is_active_for esim) s.bindings)) [
          | inl absent ↦
              rw (absent, bind_esim)
                (>>=-Ensures P (insert_binding digest now b s) _ (λ t inserted.
                  let i = (insert_binding-Inserts b s).value t inserted in
                  ok-Ensures DeviceError P _ (
                    set_credential-IsAudited token false actor b _ (
                      subst
                        (λ (u : DeviceState). IsAudited (record_binding_event bind actor b none u))
                        (sym i.after)
                        (record {
                          table = inserted-IsTable b s.bindings v.table i.fresh i.free refl;
                          trail = λ e.
                              inserted-bound_device b s.bindings v.table i.fresh i.free refl e
                              ∙ ground (arith, v.trail e);
                        })))))
          | inr (x, found) ↦
              rw (found, bind_esim)
                (raise_if-Ensures P (not replace) _ _ (λ allowed.
                  >>=-Ensures P
                    (insert_binding digest now b
                      (save_binding x.id (end_binding replaced actor now) s))
                    _
                    (λ t inserted.
                      let ended = save_binding x.id (end_binding replaced actor now) s in
                      let i = (insert_binding-Inserts b ended).value t inserted in
                      ok-Ensures DeviceError P _ (
                        set_credential-IsAudited token false actor b _ (
                          subst
                            (λ (u : DeviceState). IsAudited (
                              record_binding_event rebind actor b (some x.id)
                                (save_binding x.id (set_replaced_by pk) u)))
                            (sym i.after) (rebound actor esim org x s t v found i))))))
        ]

    pub create_device_binding-IsAudited :
        (actor organization_id esim : ℕ) (replace : Bool) (s : DeviceState)
        → IsAudited s
        → IsAudited
            (create_device_binding digest now token device pk actor organization_id esim replace
              s).1
    unfolding create_device_binding create_binding_body
    create_device_binding-IsAudited actor organization_id esim replace s v =
        let P = λ (p : DeviceBindingCreateResult × DeviceState). IsAudited p.1 in
        atomic-state IsAudited s
          (create_binding_body digest now token device pk actor organization_id esim replace s) v
          (>>=-Ensures P (lift (resolve_organization_context actor organization_id s.team)) _
            (λ ctx entered. >>=-Ensures P (lift (require_device_bind ctx)) _ (λ u permitted.
              >>=-Ensures P (team_esim ctx.organization esim s) _
                (λ own found. bind_esim-IsAudited actor own.id replace ctx.organization s v))))

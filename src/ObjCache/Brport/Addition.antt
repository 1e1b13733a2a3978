-- ===== src/ObjCache/Brport/Addition.antt =====
-- Adding a new bridge port keeps the tables of the cache in agreement, and so does every history.
use opx_nas_ndi.Base.{
  ℕ, ◌≡◌, refl, ◌≢◌, inl, inr, true, false, none, some, List, [], ◌∷◌, ◌++◌, arith, nat_key, ◌==◌,
  if◌then◌else◌, any, drop_first-append, any-append, beq_refl, Bool-cases,
}
use opx_nas_ndi.Base.Table.{find, find-put, find-put_self}
use opx_nas_ndi.ObjCache.Brport.{
  BrportObj, BridgePv, BrportCache, pv_key, pv_of, is_1d_router, is_port, is_subport, brports_at,
  add_bridge_port,
}
use opx_nas_ndi.ObjCache.Brport.Queries.{brports_at-add_bridge_port}
use opx_nas_ndi.ObjCache.Brport.Consistency.{is_id, IsStored, IsConsistent}
use opx_nas_ndi.ObjCache.Brport.Preservation.{once-append_ne}

-- The keys of a bridge port are not in use: its id, for a PORT its port, for a subport its port and
-- VLAN.
pub record IsNew (o : BrportObj) (c : BrportCache) : Type 0 where
  pub no_id : find c.brport_to_port o.brport_obj_id ≡ none
  pub no_port : is_port o.brport_type ≡ true → find c.port_to_brport o.port_obj_id ≡ none
  pub no_pv : is_subport o.brport_type ≡ true → find c.pv_to_brport (pv_of o) ≡ none

append-ne-nil : (xs : List ℕ) (x : ℕ) → xs ++ x ∷ [] ≢ []
append-ne-nil [] x = λ e. ground arith
append-ne-nil (y ∷ xs) x = λ e. ground arith

module _ (o : BrportObj) (c : BrportCache) (h : IsConsistent c) (new : IsNew o c)
    (not_router : is_1d_router o.brport_type ≡ false) where
  abbrev added : BrportCache
  added = (add_bridge_port (some o) c).1

  added-unlisted : (p : ℕ) → any (is_id o.brport_obj_id) (brports_at c p) ≡ false
  added-unlisted p = elim (Bool-cases (any (is_id o.brport_obj_id) (brports_at c p))) [
    | inl l ↦
        let (x, at, _) = h.in_list p o.brport_obj_id l in absurd (ground (arith, at, new.no_id))
    | inr l ↦ l
  ]

  added-brports_at :
      (p : ℕ)
      → brports_at added p
        ≡ (if o.port_obj_id == p then brports_at c p ++ o.brport_obj_id ∷ [] else brports_at c p)
  added-brports_at p = ground (arith, not_router, brports_at-add_bridge_port o c p)

  added-find :
      (b : ℕ)
      → find added.brport_to_port b
        ≡ (if o.brport_obj_id == b then some o else find c.brport_to_port b)
  unfolding add_bridge_port
  added-find b = ground (arith, not_router, find-put c.brport_to_port o.brport_obj_id o b)

  added-new-IsStored : IsStored added o.brport_obj_id o
  unfolding add_bridge_port
  added-new-IsStored =
      let l = brports_at c o.port_obj_id in
      let b = o.brport_obj_id in
      record {
        same_id = refl;
        not_router = not_router;
        listed =
            rw (added-brports_at o.port_obj_id)
              (ground (arith, any-append (is_id b) l b, beq_refl b, beq_refl o.port_obj_id));
        once = rw (added-brports_at o.port_obj_id) (
            ground (
              arith,
              beq_refl b,
              drop_first-append (is_id b) l b (added-unlisted o.port_obj_id),
              added-unlisted o.port_obj_id,
            ));
        at_port = λ is. ground (arith, not_router, find-put_self c.port_to_brport o.port_obj_id o);
        at_pv = λ is. ground (arith, not_router, find-put_self c.pv_to_brport (pv_of o) o);
      }

  added-old-IsStored :
      (b : ℕ) (p : BrportObj)
      → o.brport_obj_id ≢ b
      → find c.brport_to_port b ≡ some p
      → IsStored added b p
  unfolding add_bridge_port
  added-old-IsStored b p ne at =
      let s = h.stored b p at in
      let l = brports_at c p.port_obj_id in
      record {
        same_id = s.same_id;
        not_router = s.not_router;
        listed =
            rw (added-brports_at p.port_obj_id)
              (ground (arith, s.listed, any-append (is_id b) l o.brport_obj_id));
        once =
            rw (added-brports_at p.port_obj_id)
              (ground (arith, s.once, once-append_ne b o.brport_obj_id l));
        at_port = λ is. ground (
          arith,
          not_router,
          s.at_port is,
          new.no_port,
          find-put c.port_to_brport o.port_obj_id o p.port_obj_id,
        );
        at_pv = λ is. ground (
          arith,
          not_router,
          s.at_pv is,
          new.no_pv,
          find-put c.pv_to_brport (pv_of o) o (pv_of p),
        );
      }

  added-IsStored :
      (b : ℕ) (p : BrportObj) → find added.brport_to_port b ≡ some p → IsStored added b p
  added-IsStored b p f = elim (Bool-cases (o.brport_obj_id == b)) [
    | inl same ↦
        let eq : o.brport_obj_id ≡ b = ground arith in
        let eo : o ≡ p = ground (arith, added-find b) in rw (← eq, ← eo) added-new-IsStored
    | inr other ↦ added-old-IsStored b p (ground arith) (ground (arith, added-find b))
  ]

  added-in_list :
      (p b : ℕ)
      → any (is_id b) (brports_at added p) ≡ true
      → (x : BrportObj) × (find added.brport_to_port b ≡ some x) × (x.port_obj_id ≡ p)
  added-in_list p b l =
      let l' = rw (added-brports_at p) at l in
      let grown = any-append (is_id b) (brports_at c p) o.brport_obj_id in
      elim (Bool-cases (o.brport_obj_id == b)) [
        | inl same ↦ (o, ground (arith, added-find b), ground (arith, l', added-unlisted p))
        | inr other ↦
            let (x, at, here) = h.in_list p b (ground (arith, l', grown)) in
            (x, ground (arith, at, added-find b), here)
      ]

  added-in_ports :
      (p : ℕ) (x : BrportObj)
      → find added.port_to_brport p ≡ some x
      → (x.port_obj_id ≡ p)
        × (find added.brport_to_port x.brport_obj_id ≡ some x)
        × (is_port x.brport_type ≡ true)
  unfolding add_bridge_port
  added-in_ports p x f = ground (
    arith,
    not_router,
    h.in_ports p x,
    new.no_id,
    find-put c.port_to_brport o.port_obj_id o p,
    find-put c.brport_to_port o.brport_obj_id o x.brport_obj_id,
    find-put_self c.brport_to_port o.brport_obj_id o,
  )

  added-in_pvs :
      (k : BridgePv) (x : BrportObj)
      → find added.pv_to_brport k ≡ some x
      → (pv_of x ≡ k)
        × (find added.brport_to_port x.brport_obj_id ≡ some x)
        × (is_subport x.brport_type ≡ true)
  unfolding add_bridge_port
  added-in_pvs k x f = ground (
    arith,
    not_router,
    h.in_pvs k x,
    new.no_id,
    find-put c.pv_to_brport (pv_of o) o k,
    find-put c.brport_to_port o.brport_obj_id o x.brport_obj_id,
    find-put_self c.brport_to_port o.brport_obj_id o,
  )

  -- Adding a bridge port whose keys are not in use keeps the agreement.
  pub added-IsConsistent : IsConsistent added
  unfolding add_bridge_port
  added-IsConsistent = record {
    stored = added-IsStored;
    in_list = added-in_list;
    in_ports = added-in_ports;
    in_pvs = added-in_pvs;
    in_rifs = λ r x. ground (arith, not_router, h.in_rifs r x);
    nonempty = λ p.
        let l = brports_at c o.port_obj_id ++ o.brport_obj_id ∷ [] in
        ground (
          arith,
          not_router,
          h.nonempty p,
          append-ne-nil (brports_at c o.port_obj_id) o.brport_obj_id,
          find-put c.port_to_brport_list o.port_obj_id l p,
        );
  }

-- ===== src/Bridge/Subports.antt =====
-- src/nas_ndi_bridge.cpp: the LAGs of a 1D bridge, and its router interfaces, in the bridge port cache.
use opx_nas_ndi.Base.{
  ℕ, ◌%◌, ◌^◌, ◌≡◌, ◌≢◌, refl, inl, inr, Bool, true, false, none, some, List, arith, nat_key, ◌==◌,
  if◌then◌else◌, Bool-cases, Option-cases, StdError-cases, ok, std_err, npu, cfg,
}
use opx_nas_ndi.Base.Table.{find, find-erase}
use opx_nas_ndi.Base.Replies.{reply}
use opx_nas_ndi.Bridge.{
  BridgeApi, Bridges, SaiBrportType, Owner, BrportAttr, brports_of, hw_of, without_db,
  set_bridge_port_attribute,
}
use opx_nas_ndi.Bridge.Creation.{create_bridge_port_lem}
use opx_nas_ndi.Bridge.Members.{
  blank, subport, subport_attrs, delete_all_type_subports, bridge_1d_member_lag_add,
  bridge_1d_member_lag_delete, router_bridge_port_delete_1d,
}
use opx_nas_ndi.Bridge.Ports.{
  block, create_bridge_port, delete_bridge_port, bring_up, owner_of, ndi2sai_brport_type,
}
use opx_nas_ndi.Bridge.Queries.{
  asked_for, get_1d_bridge_port, get_1q_sai_port, get_1d_router_bridge_port,
}
use opx_nas_ndi.Bridge.Removal.{delete_bridge_port_lem}
use opx_nas_ndi.ObjCache.Brport.{
  BrportType, BrportQuery, BrportObj, pv_key, is_subport, pv_of, get_brport_block, block_of,
  remove_bridge_port,
}
use opx_nas_ndi.ObjCache.Brport.Consistency.{IsConsistent, without, remove_bridge_port_alike}
use opx_nas_ndi.ObjCache.Brport.Preservation.{without-IsConsistent}
use opx_nas_ndi.ObjCache.Brport.Queries.{get_brport_block-add_bridge_port}

module _ {Hw : Type 0} (api : BridgeApi Hw) where
  -- A LAG that is added to a 1D bridge with success has a bridge port that is found by LAG and VLAN
  -- and whose port is the LAG; on an error the bridge port cache is as it was.
  pub bridge_1d_member_lag_add_lem :
      (n br lag vlan : ℕ) (tag : Bool) (s : Bridges Hw)
      → let (rc, s') = bridge_1d_member_lag_add api n br lag vlan tag s in
        (rc ≡ ok
          → (oid : ℕ) × (get_1d_bridge_port lag vlan (brports_of s') ≡ some oid)
            × (get_1q_sai_port oid (brports_of s') ≡ some lag))
        × (rc ≢ ok → brports_of s' ≡ brports_of s)
  unfolding bridge_1d_member_lag_add get_1d_bridge_port get_1q_sai_port
  bridge_1d_member_lag_add_lem n br lag vlan tag s =
      let obj = subport api lag api.port_type_lag vlan tag in
      let made = create_bridge_port_lem api n br obj (subport_attrs api tag) s in
      (
        λ h.
            let (oid, _, c, out) = made.created h in
            let new : BrportObj = record obj { brport_obj_id = oid } in
            (
              oid,
              ground (
                arith,
                c,
                get_brport_block-add_bridge_port new (asked_for 0 lag vlan 0) (brports_of s)
                    BrportQuery.from_port_vlan,
              ),
              ground (
                arith,
                c,
                get_brport_block-add_bridge_port new (asked_for oid 0 0 0) (brports_of s)
                    BrportQuery.from_brport,
              ),
            ),
        λ h. (made.refused h).0,
      )

  -- A switch that makes every bridge port and sets every attribute.
  pub record AcceptsPorts : Type 0 where
    pub creates :
        (type : SaiBrportType) (br : ℕ) (owner : Owner) (attrs : List BrportAttr) (hw : Hw)
        → (oid : ℕ) × ((api.create_bridge_port type br owner attrs hw).0 ≡ reply oid)
    pub sets :
        (brport : ℕ) (attr : BrportAttr) (hw : Hw)
        → (api.set_bridge_port_attribute brport attr hw).0 ≡ reply tt

  -- On a switch that makes every bridge port and sets every attribute, with an entry for the NPU,
  -- the addition of a LAG to a 1D bridge succeeds, tagged or not, and a bridge port is found for
  -- the LAG and the VLAN.
  pub bridge_1d_member_lag_add_accepted :
      (n br lag vlan : ℕ) (tag : Bool) (s : Bridges Hw)
      → AcceptsPorts
      → without_db n s ≡ false
      → let (rc, s') = bridge_1d_member_lag_add api n br lag vlan tag s in
        (rc ≡ ok) × (get_1d_bridge_port lag vlan (brports_of s') ≢ none)
  unfolding bridge_1d_member_lag_add create_bridge_port bring_up set_bridge_port_attribute owner_of
  bridge_1d_member_lag_add_accepted n br lag vlan tag s accepts db =
      let obj = subport api lag api.port_type_lag vlan tag in
      let attrs = subport_attrs api tag in
      let (found, _) = bridge_1d_member_lag_add_lem n br lag vlan tag s in
      let owner : Owner = Owner.on_sub_port lag (vlan % 2 ^ 16) in
      let (oid, e) =
        accepts.creates (ndi2sai_brport_type obj.brport_type) br owner attrs (hw_of s) in
      let hw =
        (api.create_bridge_port (ndi2sai_brport_type obj.brport_type) br owner attrs (hw_of s)).1 in
      let f = accepts.sets oid (BrportAttr.admin_state true) hw in
      let succeeds : (bridge_1d_member_lag_add api n br lag vlan tag s).0 ≡ ok =
        elim (Bool-cases tag) [
          | inl t ↦ ground (arith, t, db, e, f)
          | inr t ↦ ground (arith, t, db, e, f)
        ] in
      let (id, here, back) = found succeeds in (succeeds, ground (arith, here))

  -- From a consistent bridge port cache with a stored subport, tagged or not, the deletion of the
  -- member by its port and VLAN leaves a consistent cache; on success neither the port with the
  -- VLAN nor the bridge port is found any more; on an error the cache is as it was.
  pub bridge_1d_member_lag_delete_lem :
      (n stray : ℕ) (o : BrportObj) (s : Bridges Hw)
      → IsConsistent (brports_of s)
      → find (brports_of s).brport_to_port o.brport_obj_id ≡ some o
      → is_subport o.brport_type ≡ true
      → let (rc, s') = bridge_1d_member_lag_delete api n o.port_obj_id o.vlan_id stray s in
        IsConsistent (brports_of s')
        × (rc ≡ ok
            → (get_1d_bridge_port o.port_obj_id o.vlan_id (brports_of s') ≡ none)
              × (get_1q_sai_port o.brport_obj_id (brports_of s') ≡ none))
        × (rc ≢ ok → brports_of s' ≡ brports_of s)
  unfolding bridge_1d_member_lag_delete delete_all_type_subports get_1d_bridge_port get_1q_sai_port
      get_brport_block block_of without
  bridge_1d_member_lag_delete_lem n stray o s x e sub =
      let c = brports_of s in
      let stored = x.stored o.brport_obj_id o e in
      let found : get_1d_bridge_port o.port_obj_id o.vlan_id c ≡ some o.brport_obj_id =
        ground (arith, stored.at_pv, sub) in
      let info : BrportObj = record (blank BrportType.subport_tag) {
        brport_obj_id = o.brport_obj_id;
        vlan_id = o.vlan_id;
      } in
      let out = delete_bridge_port api n info stray s in
      let deletes = delete_bridge_port_lem api n info stray s in
      let removed =
        remove_bridge_port_alike (block api info stray) o c x e (ground (arith, sub)) (λ _. refl) in
      elim (StdError-cases out.0) [
        | inl h ↦
            let run : bridge_1d_member_lag_delete api n o.port_obj_id o.vlan_id stray s
                ≡ (ok, out.1) =
              ground (arith, found, h) in
            let now : brports_of out.1 ≡ without o c = ground (arith, deletes.deleted h, removed) in
            let kept : IsConsistent (brports_of out.1) = rw (now) (without-IsConsistent o c x e) in
            let pv = find-erase c.pv_to_brport (pv_of o) (pv_of o) in
            let id = find-erase c.brport_to_port o.brport_obj_id o.brport_obj_id in
            rw (run) (
              kept,
              λ _. (ground (arith, now, pv, sub), ground (arith, now, id)),
              λ g. absurd (g refl),
            )
        | inr (a, c', st, h) ↦
            let run : bridge_1d_member_lag_delete api n o.port_obj_id o.vlan_id stray s
                ≡ (std_err npu cfg 0, out.1) =
              ground (arith, found, h) in
            let same : brports_of out.1 ≡ c = deletes.refused (λ g. ground (arith, g, h)) in
            let kept : IsConsistent (brports_of out.1) = rw (same) x in
            rw (run) (kept, λ g. absurd (ground (arith, g)), λ _. same)
      ]

  -- The deletion of the bridge port of a router interface, where it succeeds, makes the interface
  -- not found if the value in a variable that is not set is the interface, and leaves the query for
  -- the interface as it was otherwise; on an error the bridge port cache is as it was.
  pub router_bridge_port_delete_1d_lem :
      (n rif stray : ℕ) (s : Bridges Hw)
      → let (rc, s') = router_bridge_port_delete_1d api n rif stray s in
        (rc ≡ ok
          → get_1d_router_bridge_port rif (brports_of s')
            ≡ (if stray == rif then none else get_1d_router_bridge_port rif (brports_of s)))
        × (rc ≢ ok → brports_of s' ≡ brports_of s)
  unfolding router_bridge_port_delete_1d get_1d_router_bridge_port get_brport_block block_of
      remove_bridge_port
  router_bridge_port_delete_1d_lem n rif stray s =
      let c = brports_of s in
      elim (Option-cases (get_1d_router_bridge_port rif c)) [
        | inl e ↦
            let run : router_bridge_port_delete_1d api n rif stray s ≡ (ok, s) =
              ground (arith, e) in
            rw (run) (λ _. ground (arith, e), λ g. absurd (g refl))
        | inr (b, e) ↦
            let info : BrportObj = record (blank BrportType.router_1d) { brport_obj_id = b } in
            let out = delete_bridge_port api n info stray s in
            let deletes = delete_bridge_port_lem api n info stray s in
            elim (StdError-cases out.0) [
              | inl h ↦
                  let run : router_bridge_port_delete_1d api n rif stray s ≡ (ok, out.1) =
                    ground (arith, e, h) in
                  let erased = find-erase c.rif_to_brport stray rif in
                  rw (run) (λ _. ground (arith, deletes.deleted h, erased), λ g. absurd (g refl))
              | inr (a, c', st, h) ↦
                  let run : router_bridge_port_delete_1d api n rif stray s
                      ≡ (std_err npu cfg 0, out.1) =
                    ground (arith, e, h) in
                  let same : brports_of out.1 ≡ c = deletes.refused (λ g. ground (arith, g, h)) in
                  rw (run) (λ g. absurd (ground (arith, g)), λ _. same)
            ]
      ]

-- ===== src/Bridge/Members.antt =====
-- src/nas_ndi_bridge.cpp: ports, LAGs, tunnels and router interfaces become bridge ports and cease to be
-- such. `stray` is what the memory holds for the field that `ndi_delete_bridge_port` does not set.
use opx_nas_ndi.Base.{
  ℕ, Bool, false, Option, none, some, List, [], ◌∷◌, nat_key, if◌then◌else◌, StdError, ok, std_err,
  npu, cfg, no_subsystem, no_code,
}
use opx_nas_ndi.Bridge.{BrportAttr, BridgeApi, Bridges, brports_of}
use opx_nas_ndi.Bridge.Ports.{create_bridge_port, delete_bridge_port}
use opx_nas_ndi.Bridge.Queries.{get_1d_bridge_port, get_1q_bridge_port, get_1d_router_bridge_port}
use opx_nas_ndi.ObjCache.Brport.{BrportType, BrportObj}
use opx_nas_ndi.PortMap.{sai_port_id_get}

-- The fields of a bridge port that a caller fills in; the others are 0.
abbrev pub blank : BrportType → BrportObj
blank type = record {
  brport_obj_id = 0;
  port_obj_id = 0;
  port_type = 0;
  brport_type = type;
  vlan_id = 0;
  rif_obj_id = 0;
}

abbrev pub subport_type : Bool → BrportType
subport_type tag = if tag then BrportType.subport_tag else BrportType.subport_untag

-- `return (ret_code = … != STD_ERR_OK)`: the number 1.
abbrev pub not_ok : StdError
not_ok = std_err no_subsystem no_code 1

module _ {Hw : Type 0} (api : BridgeApi Hw) where
  -- The subport of a port or a LAG.
  abbrev pub subport : ℕ → ℕ → ℕ → Bool → BrportObj
  subport port port_type vlan_id tag = record (blank (subport_type tag)) {
    port_obj_id = port;
    port_type = port_type;
    vlan_id = vlan_id;
  }

  -- The attributes that a subport gets.
  abbrev pub subport_attrs : Bool → List BrportAttr
  subport_attrs tag =
      BrportAttr.fdb_learning_mode api.learning_mode_disable
      ∷ BrportAttr.tagging_mode (if tag then api.tagging_mode_tagged else api.tagging_mode_untagged)
      ∷ []

  -- `ndi_delete_all_type_subports`: a tagged and an untagged subport are deleted alike.
  unfoldable pub delete_all_type_subports : ℕ → ℕ → ℕ → ℕ → Bridges Hw → StdError × Bridges Hw
  delete_all_type_subports npu_id brport_oid vlan_id stray s =
      let blk : BrportObj = record (blank BrportType.subport_tag) {
        brport_obj_id = brport_oid;
        vlan_id = vlan_id;
      } in
      let (rc, s') = delete_bridge_port api npu_id blk stray s in
      elim rc [ std_err _ _ _ ↦ (std_err npu cfg 0, s') | ok ↦ (ok, s') ]

  -- `ndi_1d_bridge_member_lag_add`
  unfoldable pub bridge_1d_member_lag_add :
      ℕ → ℕ → ℕ → ℕ → Bool → Bridges Hw → StdError × Bridges Hw
  bridge_1d_member_lag_add npu_id br_oid lag_id vlan_id tag s =
      let (rc, _, s') =
        create_bridge_port api npu_id br_oid (subport lag_id api.port_type_lag vlan_id tag)
          (subport_attrs tag) s in
      (rc, s')

  -- `ndi_1d_bridge_member_lag_delete`
  unfoldable pub bridge_1d_member_lag_delete : ℕ → ℕ → ℕ → ℕ → Bridges Hw → StdError × Bridges Hw
  unfolding delete_all_type_subports
  bridge_1d_member_lag_delete npu_id lag_id vlan_id stray s =
      elim (get_1d_bridge_port lag_id vlan_id (brports_of s)) [
        | none ↦ (std_err npu cfg 0, s)
        | some brport ↦ delete_all_type_subports npu_id brport vlan_id stray s
      ]

  -- `ndi_1d_bridge_member_port_add`
  unfoldable pub bridge_1d_member_port_add :
      ℕ → ℕ → ℕ → ℕ → Bool → Bridges Hw → StdError × Bridges Hw
  bridge_1d_member_port_add npu_id br_oid port vlan_id tag s =
      elim (sai_port_id_get npu_id port false s.vlans.shared.ports).1 [
        | none ↦ (not_ok, s)
        | some sai_port ↦
            let (rc, _, s') =
              create_bridge_port api npu_id br_oid (subport sai_port api.port_type_port vlan_id tag)
                (subport_attrs tag) s in
            (rc, s')
      ]

  -- `ndi_1d_bridge_member_port_delete`
  unfoldable pub bridge_1d_member_port_delete : ℕ → ℕ → ℕ → ℕ → Bridges Hw → StdError × Bridges Hw
  unfolding delete_all_type_subports
  bridge_1d_member_port_delete npu_id port vlan_id stray s =
      elim (sai_port_id_get npu_id port false s.vlans.shared.ports).1 [
        | none ↦ (not_ok, s)
        | some sai_port ↦ elim (get_1d_bridge_port sai_port vlan_id (brports_of s)) [
          | none ↦ (std_err npu cfg 0, s)
          | some brport ↦ delete_all_type_subports npu_id brport vlan_id stray s
        ]
      ]

  -- `ndi_1d_bridge_tunnel_port_add`: the answer and the id when it is written.
  unfoldable pub bridge_1d_tunnel_port_add :
      ℕ → ℕ → ℕ → Bridges Hw → StdError × Option ℕ × Bridges Hw
  bridge_1d_tunnel_port_add npu_id br_oid tunnel_oid s =
      create_bridge_port api npu_id br_oid
        (record (blank BrportType.tunnel) {
          port_obj_id = tunnel_oid;
          port_type = api.port_type_port;
        })
        (BrportAttr.fdb_learning_mode api.learning_mode_disable ∷ []) s

  -- `ndi_1d_bridge_tunnel_delete`
  unfoldable pub bridge_1d_tunnel_delete : ℕ → ℕ → ℕ → Bridges Hw → StdError × Bridges Hw
  bridge_1d_tunnel_delete npu_id tun_brport_oid stray s =
      let blk : BrportObj = record (blank BrportType.tunnel) { brport_obj_id = tun_brport_oid } in
      let (rc, s') = delete_bridge_port api npu_id blk stray s in
      elim rc [ std_err _ _ _ ↦ (std_err npu cfg 0, s') | ok ↦ (ok, s') ]

  -- `nas_ndi_delete_bridge_port_1Q`
  unfoldable pub delete_bridge_port_1q : ℕ → ℕ → ℕ → Bridges Hw → StdError × Bridges Hw
  delete_bridge_port_1q npu_id sai_port stray s =
      elim (get_1q_bridge_port sai_port (brports_of s)) [
        | none ↦ (std_err npu cfg 0, s)
        | some brport ↦
            let blk : BrportObj = record (blank BrportType.port) { brport_obj_id = brport } in
            let (rc, s') = delete_bridge_port api npu_id blk stray s in
            elim rc [ std_err _ _ _ ↦ (std_err npu cfg 0, s') | ok ↦ (ok, s') ]
      ]

  -- `nas_ndi_create_bridge_port_1Q`
  unfoldable pub create_bridge_port_1q : ℕ → ℕ → Bool → Bridges Hw → StdError × Bridges Hw
  create_bridge_port_1q npu_id sai_port lag s =
      let obj : BrportObj = record (blank BrportType.port) {
        port_obj_id = sai_port;
        port_type = if lag then api.port_type_lag else api.port_type_port;
      } in
      let (rc, _, s') = create_bridge_port api npu_id s.default_1q_br_oid obj [] s in (rc, s')

  -- `ndi_1d_router_bridge_port_add`: the answer and the id when it is written.
  unfoldable pub router_bridge_port_add_1d :
      ℕ → ℕ → ℕ → Bridges Hw → StdError × Option ℕ × Bridges Hw
  router_bridge_port_add_1d npu_id br_oid rif_id s =
      create_bridge_port api npu_id br_oid
        (record (blank BrportType.router_1d) { rif_obj_id = rif_id }) [] s

  -- `ndi_1d_router_bridge_port_delete`: with no bridge port there is nothing to do.
  unfoldable pub router_bridge_port_delete_1d : ℕ → ℕ → ℕ → Bridges Hw → StdError × Bridges Hw
  router_bridge_port_delete_1d npu_id rif stray s =
      elim (get_1d_router_bridge_port rif (brports_of s)) [
        | none ↦ (ok, s)
        | some brport ↦
            let blk : BrportObj = record (blank BrportType.router_1d) { brport_obj_id = brport } in
            let (rc, s') = delete_bridge_port api npu_id blk stray s in
            elim rc [ std_err _ _ _ ↦ (std_err npu cfg 0, s') | ok ↦ (ok, s') ]
      ]

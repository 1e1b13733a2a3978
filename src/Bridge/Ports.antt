-- ===== src/Bridge/Ports.antt =====
-- src/nas_ndi_bridge.cpp: the creation and the deletion of a bridge port of any type.
use opx_nas_ndi.Base.{
  ℕ, ◌+◌, ◌^◌, Bool, true, false, Option, none, some, List, nat_key, ltb, length, if◌then◌else◌,
  ◌%◌, StdError, ok, std_err, npu, cfg,
}
use opx_nas_ndi.Base.Replies.{reply, failed}
use opx_nas_ndi.Bridge.{
  SaiBrportType, Owner, BrportAttr, BridgeApi, Bridges, hw_of, brports_of, on_hw, with_stg,
  with_brports, without_db, set_bridge_port_attribute,
}
use opx_nas_ndi.NpuDb.{ndi_npu_id_get}
use opx_nas_ndi.ObjCache.Brport.{
  BrportType, BrportObj, is_1d_router, is_port, add_bridge_port, remove_bridge_port,
}
use opx_nas_ndi.Stg.Bulk.{delete_port_stp_ports}
use opx_nas_ndi.Stg.Ports.{create_default_stp_port}
use opx_nas_ndi.Vlan.Defaults.{vlan_delete_default_member_brports}

-- `ndi2sai_brport_type`: every type of the enumeration has an entry.
unfoldable pub ndi2sai_brport_type : BrportType → SaiBrportType
ndi2sai_brport_type BrportType.port = SaiBrportType.port
ndi2sai_brport_type BrportType.subport_tag = SaiBrportType.sub_port
ndi2sai_brport_type BrportType.subport_untag = SaiBrportType.sub_port
ndi2sai_brport_type BrportType.router_1q = SaiBrportType.router_1q
ndi2sai_brport_type BrportType.router_1d = SaiBrportType.router_1d
ndi2sai_brport_type BrportType.tunnel = SaiBrportType.tunnel

-- The attributes by type: a 1Q router port is refused. The VLAN id is put into 16 bits.
unfoldable pub owner_of : BrportObj → BrportType → Option Owner
owner_of obj BrportType.port = some (Owner.on_port obj.port_obj_id)
owner_of obj BrportType.subport_tag =
    some (Owner.on_sub_port obj.port_obj_id (obj.vlan_id % 2 ^ 16))
owner_of obj BrportType.subport_untag =
    some (Owner.on_sub_port obj.port_obj_id (obj.vlan_id % 2 ^ 16))
owner_of obj BrportType.tunnel = some (Owner.on_tunnel obj.port_obj_id)
owner_of obj BrportType.router_1d = some (Owner.on_rif obj.rif_obj_id)
owner_of obj BrportType.router_1q = none

-- The number of attributes that are filled in with them, the type and the bridge.
abbrev pub attr_idx : Owner → ℕ
attr_idx (Owner.on_sub_port port vlan) = 4
attr_idx _ = 3

-- `SAI_ATTRS_LEN`
abbrev pub sai_attrs_len : ℕ
sai_attrs_len = 7

module _ {Hw : Type 0} (api : BridgeApi Hw) where
  -- `ndi_flush_bridge_port_entry` of src/nas_ndi_mac.cpp: whether it answers `STD_ERR_OK`.
  unfoldable pub flush_bridge_port_entry : ℕ → Bridges Hw → Bool × Bridges Hw
  flush_bridge_port_entry brport_oid s =
      if without_db ndi_npu_id_get s
      then (false, s)
      else (let (r, hw) = api.flush_fdb_entries brport_oid (hw_of s) in
          elim r [ failed _ ↦ (false, on_hw hw s) | reply _ ↦ (true, on_hw hw s) ])

  -- The part of the deletion for a port of the 1Q bridge, with the lock of the STP ports held.
  unfoldable pub leave_groups : ℕ → ℕ → Bridges Hw → Bool × Bridges Hw
  leave_groups npu_id brport_oid s =
      let (rc, g) = delete_port_stp_ports api.stp npu_id brport_oid s.vlans.shared in
      elim rc [
        | std_err _ _ _ ↦ (false, with_stg g s)
        | ok ↦
            let s' = with_stg g s in
            let (rc', v) =
              vlan_delete_default_member_brports api.vlan npu_id brport_oid false s'.vlans in
            elim rc' [
              | std_err _ _ _ ↦ (false, record s' { vlans = v })
              | ok ↦ (true, record s' { vlans = v })
            ]
      ]

  -- What the deletion does before the switch removes the bridge port: whether it goes on.
  unfoldable pub take_down : ℕ → BrportObj → Bridges Hw → Bool × Bridges Hw
  take_down npu_id info s =
      let (rc, s1) =
        set_bridge_port_attribute api npu_id info.brport_obj_id (BrportAttr.admin_state false) s in
      elim rc [
        | std_err _ _ _ ↦ (false, s1)
        | ok ↦
            let (flushed, s2) =
              if is_1d_router info.brport_type
              then (true, s1)
              else flush_bridge_port_entry info.brport_obj_id s1 in
            if flushed
            then (if is_port info.brport_type
                then leave_groups npu_id info.brport_obj_id s2
                else (true, s2))
            else (false, s2)
      ]

  -- The block that the deletion hands to the cache. Its router interface is not set: `stray` is what the
  -- memory holds. The cache fills in the port, and does not read the type of the port.
  abbrev pub block : BrportObj → ℕ → BrportObj
  block info stray = record {
    brport_obj_id = info.brport_obj_id;
    port_obj_id = 0;
    port_type = 0;
    brport_type = info.brport_type;
    vlan_id = info.vlan_id;
    rif_obj_id = stray;
  }

  -- `ndi_delete_bridge_port`: the answer of the cache is only logged.
  unfoldable pub delete_bridge_port : ℕ → BrportObj → ℕ → Bridges Hw → StdError × Bridges Hw
  delete_bridge_port npu_id info stray s =
      if without_db npu_id s
      then (std_err npu cfg 0, s)
      else (let (down, s1) = take_down npu_id info s in
          if down
          then (let (r, hw) = api.remove_bridge_port info.brport_obj_id (hw_of s1) in
              elim r [
                | failed st ↦ (std_err npu cfg st, on_hw hw s1)
                | reply _ ↦
                    let (_, _, c) = remove_bridge_port (some (block info stray)) (brports_of s1) in
                    (ok, with_brports c (on_hw hw s1))
              ])
          else (std_err npu cfg api.status_failure, s1))

  -- The cache gets the bridge port; its answer is not looked at.
  abbrev pub enter : BrportObj → Bridges Hw → Bridges Hw
  enter obj s = with_brports (add_bridge_port (some obj) (brports_of s)).1 s

  -- The end of the creation for a port of the 1Q bridge.
  unfoldable pub join_bridge_1q : ℕ → BrportObj → Bridges Hw → StdError × Bridges Hw
  join_bridge_1q npu_id obj s =
      let (rc, s1) =
        set_bridge_port_attribute api npu_id obj.brport_obj_id (BrportAttr.ingress_filtering true)
          s in
      elim rc [
        | std_err _ _ _ ↦ (std_err npu cfg api.status_failure, s1)
        | ok ↦
            let (rc', s2) =
              set_bridge_port_attribute api npu_id obj.brport_obj_id
                (BrportAttr.egress_filtering true) s1 in
            elim rc' [
              | std_err _ _ _ ↦ (std_err npu cfg api.status_failure, s2)
              | ok ↦
                  let (made, g) =
                    create_default_stp_port api.stp obj.brport_obj_id s2.vlans.shared in
                  if made
                  then (ok, enter obj (with_stg g s2))
                  else (std_err npu cfg 0, with_stg g s2)
            ]
      ]

  -- The creation after the switch has made the bridge port. The id is not written for a port of the 1Q
  -- bridge.
  unfoldable pub bring_up : ℕ → BrportObj → Bridges Hw → StdError × Option ℕ × Bridges Hw
  bring_up npu_id obj s =
      let (rc, s1) =
        set_bridge_port_attribute api npu_id obj.brport_obj_id (BrportAttr.admin_state true) s in
      elim rc [
        | std_err _ _ _ ↦
            let (r, hw) = api.remove_bridge_port obj.brport_obj_id (hw_of s1) in
            elim r [
              | failed st ↦ (std_err npu cfg st, none, on_hw hw s1)
              | reply _ ↦ (std_err npu cfg api.status_success, none, on_hw hw s1)
            ]
        | ok ↦
            if is_port obj.brport_type
            then (let (rc', s2) = join_bridge_1q npu_id obj s1 in (rc', none, s2))
            else (ok, some obj.brport_obj_id, enter obj s1)
      ]

  -- `ndi_create_bridge_port`: the answer and the id when it is written.
  unfoldable pub create_bridge_port :
      ℕ → ℕ → BrportObj → List BrportAttr → Bridges Hw → StdError × Option ℕ × Bridges Hw
  create_bridge_port npu_id bridge_oid obj brpo_attr s = elim (owner_of obj obj.brport_type) [
    | none ↦ (std_err npu cfg 0, none, s)
    | some owner ↦
        if without_db npu_id s
        then (std_err npu cfg 0, none, s)
        else if ltb sai_attrs_len (attr_idx owner + length brpo_attr)
        then (std_err npu cfg 0, none, s)
        else (let (r, hw) =
              api.create_bridge_port (ndi2sai_brport_type obj.brport_type) bridge_oid owner
                brpo_attr (hw_of s) in
            elim r [
              | failed _ ↦ (std_err npu cfg 0, none, on_hw hw s)
              | reply oid ↦ bring_up npu_id (record obj { brport_obj_id = oid }) (on_hw hw s)
            ])
  ]

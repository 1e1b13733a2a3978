-- ===== src/Bridge/Startup.antt =====
-- src/nas_ndi_bridge.cpp, `ndi_init_brport_for_1Q`: the bridge ports that the 1Q bridge has at the start
-- are entered in the cache.
use opx_nas_ndi.Base.{
  ℕ, true, some, List, [], ◌∷◌, nat_key, if◌then◌else◌, StdError, ok, std_err, npu, param, cfg,
  fail,
}
use opx_nas_ndi.Base.Replies.{reply, failed}
use opx_nas_ndi.Bridge.{
  BrportAttr, BridgeApi, Bridges, hw_of, brports_of, with_brports, without_db,
  set_bridge_port_attribute,
}
use opx_nas_ndi.Bridge.Members.{blank}
use opx_nas_ndi.ObjCache.Brport.{BrportType, BrportObj, add_bridge_port}
use opx_nas_ndi.Vlan.Defaults.{vlan_get_default_obj_id}

-- `MAX_PORT_BUF`
abbrev pub max_port_buf : ℕ
max_port_buf = 512

module _ {Hw : Type 0} (api : BridgeApi Hw) where
  -- `ndi_init_get_default_bridge_oid`, with `ndi_switch_attr_get` of src/nas_ndi_switch.cpp
  unfoldable pub init_get_default_bridge_oid : ℕ → Bridges Hw → StdError × Bridges Hw
  init_get_default_bridge_oid npu_id s =
      if without_db npu_id s
      then (std_err npu param 0, s)
      else (elim (api.get_default_1q_bridge (hw_of s)) [
        | failed st ↦ (std_err npu cfg st, s)
        | reply oid ↦ (ok, record s { default_1q_br_oid = oid })
      ])

  -- The three attributes that a bridge port gets, up to the first that is refused. The error becomes the
  -- private part of another.
  abbrev pub set_up : ℕ → ℕ → List BrportAttr → Bridges Hw → StdError × Bridges Hw
  set_up npu_id brport [] s = (ok, s)
  set_up npu_id brport (attr ∷ attrs) s =
      let (rc, s') = set_bridge_port_attribute api npu_id brport attr s in
      elim rc [
        | std_err a c st ↦ (std_err npu cfg (api.err_number (std_err a c st)), s')
        | ok ↦ set_up npu_id brport attrs s'
      ]

  -- The loop over the bridge ports.
  unfoldable pub enter_ports : ℕ → List ℕ → Bridges Hw → StdError × Bridges Hw
  enter_ports npu_id [] s = (ok, s)
  enter_ports npu_id (brport ∷ brports) s = elim (api.get_bridge_port_port brport (hw_of s)) [
    | failed st ↦ (std_err npu cfg st, s)
    | reply port ↦
        let obj : BrportObj = record (blank BrportType.port) {
          brport_obj_id = brport;
          port_obj_id = port;
          port_type = api.port_type_port;
        } in
        let (added, c) = add_bridge_port (some obj) (brports_of s) in
        if added
        then (let (rc, s') =
              set_up npu_id brport
                (BrportAttr.admin_state true
                  ∷ BrportAttr.ingress_filtering true
                  ∷ BrportAttr.egress_filtering true
                  ∷ [])
                (with_brports c s) in
            elim rc [ std_err a d st ↦ (std_err a d st, s') | ok ↦ enter_ports npu_id brports s' ])
        else (std_err npu cfg api.status_success, with_brports c s)
  ]

  -- `ndi_init_brport_for_1Q`
  unfoldable pub init_brport_for_1q : Bridges Hw → StdError × Bridges Hw
  unfolding init_get_default_bridge_oid enter_ports
  init_brport_for_1q s =
      let (rc, s1) = init_get_default_bridge_oid 0 s in
      elim rc [
        | std_err _ _ _ ↦ (std_err npu cfg 0, s1)
        | ok ↦
            if without_db 0 s1
            then (std_err npu cfg 0, s1)
            else (elim (api.get_bridge_port_list s1.default_1q_br_oid max_port_buf (hw_of s1)) [
              | failed st ↦ (std_err npu cfg st, s1)
              | reply brports ↦
                  let (rc', s2) = enter_ports 0 brports s1 in
                  elim rc' [
                    | std_err a c st ↦ (std_err a c st, s2)
                    | ok ↦
                        let (found, v) = vlan_get_default_obj_id api.vlan 0 s2.vlans in
                        (if found then ok else std_err npu fail 0, record s2 { vlans = v })
                  ]
            ])
      ]

-- ===== src/Vlan/Defaults.antt =====
-- src/nas_ndi_vlan.cpp: the default VLAN and the members that the switch gives it.
use opx_nas_ndi.Base.{
  ℕ, zero, suc, Bool, true, false, none, some, List, [], ◌∷◌, nat_key, ◌==◌, ◌||◌, if◌then◌else◌,
  StdError, ok, std_err, npu, fail, param,
}
use opx_nas_ndi.Base.Replies.{reply, failed}
use opx_nas_ndi.ObjCache.Virtual.{add_virtual_obj}
use opx_nas_ndi.PortMap.{sai_port_id_get}
use opx_nas_ndi.Stg.Cache.{stg_get_brport}
use opx_nas_ndi.Vlan.{Vlans, VlanApi, with_hw, no_db, get_sai_vlan_obj_id, add_sai_vlan_obj_id}

module _ {Hw : Type 0} (api : VlanApi Hw) where
  -- `ndi_vlan_get_default_obj_id`: the answer of `ndi_add_sai_vlan_obj_id` is not looked at.
  unfoldable pub vlan_get_default_obj_id : ℕ → Vlans Hw → Bool × Vlans Hw
  vlan_get_default_obj_id npu_id s =
      if no_db npu_id s then (false, s) else (elim (api.get_default_vlan s.shared.hw) [
        | failed _ ↦ (false, s)
        | reply oid ↦
            if oid == 0
            then (false, s)
            else (let s' = (add_sai_vlan_obj_id s.default_vlan_id oid s).1 in
                let (done, virtuals) =
                  add_virtual_obj (some (record { oid = oid; vid = s.default_vlan_id }))
                    s'.virtuals in
                (done, record s' { virtuals = virtuals }))
      ])

  -- The loop over the members: one that cannot be read is passed over, and without `del_all` it ends
  -- with the first member on the bridge port.
  unfoldable pub delete_members : ℕ → Bool → List ℕ → Vlans Hw → StdError × Vlans Hw
  delete_members brport del_all [] s = (ok, s)
  delete_members brport del_all (member ∷ members) s =
      elim (api.get_member_brport member s.shared.hw) [
        | failed _ ↦ delete_members brport del_all members s
        | reply owner ↦ elim (owner == brport || del_all) [
          | false ↦ delete_members brport del_all members s
          | true ↦
              let (r, hw) = api.remove_vlan_member member s.shared.hw in
              elim r [
                | failed st ↦ (std_err npu fail st, with_hw hw s)
                | reply _ ↦ elim del_all [
                  | false ↦ (ok, with_hw hw s)
                  | true ↦ delete_members brport del_all members (with_hw hw s)
                ]
              ]
        ]
      ]

  -- `ndi_vlan_delete_default_member_brports`
  unfoldable pub vlan_delete_default_member_brports : ℕ → ℕ → Bool → Vlans Hw → StdError × Vlans Hw
  unfolding delete_members
  vlan_delete_default_member_brports npu_id brport del_all s =
      if no_db npu_id s
      then (std_err npu param 0, s)
      else if get_sai_vlan_obj_id s.default_vlan_id s == 0
      then (std_err npu fail 0, s)
      else (let vlan = get_sai_vlan_obj_id s.default_vlan_id s in
          elim (api.get_member_count vlan s.shared.hw) [
            | failed st ↦ (std_err npu fail st, s)
            | reply zero ↦ (ok, s)
            | reply (suc more) ↦ elim (api.get_member_list vlan (suc more) s.shared.hw) [
              | failed st ↦ (std_err npu fail st, s)
              | reply members ↦ delete_members brport del_all members s
            ]
          ])

  -- `ndi_del_new_member_from_default_vlan`; `ndi_get_1q_bridge_port` asks as `ndi_stg_get_brport` does.
  unfoldable pub del_new_member_from_default_vlan : ℕ → ℕ → Bool → Vlans Hw → StdError × Vlans Hw
  unfolding vlan_delete_default_member_brports
  del_new_member_from_default_vlan npu_id npu_port true s =
      vlan_delete_default_member_brports npu_id 0 true s
  del_new_member_from_default_vlan npu_id npu_port false s =
      let (_, port) = sai_port_id_get npu_id npu_port false s.shared.ports in
      elim port [
        | none ↦ (std_err npu param 0, s)
        | some sai_port ↦ elim (stg_get_brport sai_port s.shared.brports) [
          | none ↦ (std_err npu param 0, s)
          | some brport ↦ vlan_delete_default_member_brports npu_id brport false s
        ]
      ]

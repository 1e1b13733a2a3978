-- ===== src/Vlan/Objects.antt =====
-- src/nas_ndi_vlan.cpp: VLANs are created and deleted and their attributes set. `none` is the end of the
-- process by `STD_ASSERT`.
use opx_nas_ndi.Base.{
  ℕ, Bool, true, false, Option, none, some, nat_key, ◌==◌, ◌||◌, if◌then◌else◌, StdError, ok,
  std_err, npu, fail, param,
}
use opx_nas_ndi.Base.Replies.{reply, failed}
use opx_nas_ndi.NpuDb.{ndi_npu_id_get}
use opx_nas_ndi.ObjCache.Virtual.{
  VirtualQuery, VirtualCache, add_virtual_obj, remove_virtual_obj, get_virtual_obj,
}
use opx_nas_ndi.Vlan.{
  Vlans, VlanApi, VlanAttr, with_hw, no_db, get_sai_vlan_obj_id, add_sai_vlan_obj_id,
  del_sai_vlan_obj_id,
}

-- `ndi_mac_get_vlan_oid` of src/nas_ndi_mac.cpp: the field of the request that is not set is 0 here.
unfoldable pub mac_get_vlan_oid : ℕ → VirtualCache → Option ℕ
mac_get_vlan_oid vid c =
    let (found, obj) =
      get_virtual_obj (some (record { oid = 0; vid = vid })) VirtualQuery.from_vlan c in
    elim found [ false ↦ none | true ↦ elim obj [ none ↦ none | some o ↦ some o.oid ] ]

-- `ndi_vlan_mcast_lookup_key_type_t`; `unlisted` is a value that the switch statement does not list.
pub data McastLookupKey : Type 0 where
  macda xg sg xg_and_sg unlisted : McastLookupKey

-- `NDI_IPV4_VERSION`, `NDI_IPV6_VERSION`, and any other value.
pub data Family : Type 0 where
  ipv4 ipv6 other : Family

module _ {Hw : Type 0} (api : VlanApi Hw) where
  -- `ndi_mac_flush_vlan` of src/nas_ndi_mac.cpp
  unfoldable pub mac_flush_vlan : ℕ → Vlans Hw → Bool × Vlans Hw
  mac_flush_vlan vlan_id s =
      if no_db ndi_npu_id_get s then (false, s) else (elim (mac_get_vlan_oid vlan_id s.virtuals) [
        | none ↦ (false, s)
        | some vlan_oid ↦
            let (r, hw) = api.flush_dynamic_fdb_entries vlan_oid s.shared.hw in
            elim r [ failed _ ↦ (false, with_hw hw s) | reply _ ↦ (true, with_hw hw s) ]
      ])

  -- `ndi_create_vlan`
  unfoldable pub create_vlan : ℕ → ℕ → Vlans Hw → Option (StdError × Vlans Hw)
  create_vlan npu_id vlan_id s =
      if no_db npu_id s
      then none
      else (if get_sai_vlan_obj_id vlan_id s == 0
          then (let (r, hw) = api.create_vlan vlan_id s.shared.hw in
              elim r [
                | failed st ↦ some (std_err npu fail st, with_hw hw s)
                | reply oid ↦
                    let (rc, s') = add_sai_vlan_obj_id vlan_id oid (with_hw hw s) in
                    elim rc [
                      | std_err a c st ↦ some (std_err a c st, s')
                      | ok ↦ some (
                        ok,
                        record s' {
                          virtuals =
                              (add_virtual_obj (some (record { oid = oid; vid = vlan_id }))
                                s'.virtuals).1;
                        },
                      )
                    ]
              ])
          else some (ok, s))

  -- `ndi_set_default_vlan_id`
  unfoldable pub set_default_vlan_id : ℕ → ℕ → Vlans Hw → Option (Vlans Hw)
  unfolding create_vlan
  set_default_vlan_id npu_id vlan_id s =
      elim (create_vlan npu_id vlan_id (record s { default_vlan_id = vlan_id })) [
        | none ↦ none
        | some (_, s') ↦ some s'
      ]

  -- `ndi_delete_vlan`
  unfoldable pub delete_vlan : ℕ → ℕ → Vlans Hw → Option (StdError × Vlans Hw)
  unfolding mac_flush_vlan
  delete_vlan npu_id vlan_id s =
      if no_db npu_id s
      then none
      else (let oid = get_sai_vlan_obj_id vlan_id s in
          if oid == 0
          then some (ok, s)
          else (let flushed = (mac_flush_vlan vlan_id s).1 in
              let (r, hw) = api.remove_vlan oid flushed.shared.hw in
              elim r [
                | failed st ↦ some (std_err npu fail st, with_hw hw flushed)
                | reply _ ↦
                    let (rc, s') = del_sai_vlan_obj_id vlan_id (with_hw hw flushed) in
                    elim rc [
                      | std_err a c st ↦ some (std_err a c st, s')
                      | ok ↦ some (
                        ok,
                        record s' {
                          virtuals =
                              (remove_virtual_obj (some (record { oid = oid; vid = vlan_id }))
                                s'.virtuals).1;
                        },
                      )
                    ]
              ]))

  -- What setting an attribute of a VLAN's object has in common.
  abbrev pub set_attribute : ℕ → ℕ → VlanAttr → Vlans Hw → StdError × Vlans Hw
  set_attribute npu_id vlan_id attr s =
      if no_db npu_id s
      then (std_err npu param 0, s)
      else if get_sai_vlan_obj_id vlan_id s == 0
      then (std_err npu fail api.status_failure, s)
      else (let (r, hw) = api.set_vlan_attribute (get_sai_vlan_obj_id vlan_id s) attr s.shared.hw in
          elim r [ failed st ↦ (std_err npu fail st, with_hw hw s) | reply _ ↦ (ok, with_hw hw s) ])

  -- `ndi_set_vlan_learning`
  unfoldable pub set_vlan_learning : ℕ → ℕ → Bool → Vlans Hw → StdError × Vlans Hw
  set_vlan_learning npu_id vlan_id learning_mode s =
      set_attribute npu_id vlan_id (VlanAttr.learn_disable learning_mode) s

  -- `ndi_set_vlan_stp_instance`
  unfoldable pub set_vlan_stp_instance : ℕ → ℕ → ℕ → Vlans Hw → StdError × Vlans Hw
  set_vlan_stp_instance npu_id vlan_id stp_id s =
      set_attribute npu_id vlan_id (VlanAttr.stp_instance stp_id) s

  -- The value for a lookup key.
  abbrev lookup_value : McastLookupKey → Option ℕ
  lookup_value McastLookupKey.macda = some api.mcast_lookup_key_mac_da
  lookup_value McastLookupKey.xg = some api.mcast_lookup_key_xg
  lookup_value McastLookupKey.sg = some api.mcast_lookup_key_sg
  lookup_value McastLookupKey.xg_and_sg = some api.mcast_lookup_key_xg_and_sg
  lookup_value McastLookupKey.unlisted = none

  abbrev family_attr : Family → ℕ → Option VlanAttr
  family_attr Family.ipv4 v = some (VlanAttr.ipv4_mcast_lookup_key_type v)
  family_attr Family.ipv6 v = some (VlanAttr.ipv6_mcast_lookup_key_type v)
  family_attr Family.other v = none

  -- `ndi_fill_vlan_mcast_attr`: `none` is its error.
  unfoldable pub fill_vlan_mcast_attr : Family → McastLookupKey → Option VlanAttr
  fill_vlan_mcast_attr af key = elim (lookup_value key) [ none ↦ none | some v ↦ family_attr af v ]

  -- `ndi_vlan_set_mcast_lookup_key`: a switch that does not implement the attribute is no error.
  unfoldable pub vlan_set_mcast_lookup_key :
      ℕ → ℕ → Family → McastLookupKey → Vlans Hw → StdError × Vlans Hw
  vlan_set_mcast_lookup_key npu_id vlan_id af key s =
      if no_db npu_id s
      then (std_err npu param 0, s)
      else if get_sai_vlan_obj_id vlan_id s == 0
      then (std_err npu fail api.status_failure, s)
      else (elim (fill_vlan_mcast_attr af key) [
        | none ↦ (std_err npu param 0, s)
        | some attr ↦
            let (r, hw) = api.set_vlan_attribute (get_sai_vlan_obj_id vlan_id s) attr s.shared.hw in
            elim r [
              | reply _ ↦ (ok, with_hw hw s)
              | failed st ↦
                  if st == api.status_not_implemented || st == api.status_attr_not_implemented_0
                  then (ok, with_hw hw s)
                  else (std_err npu fail st, with_hw hw s)
            ]
      ])

  -- `ndi_get_sai_vlan_id`: the VLAN id, when it is written.
  unfoldable pub get_sai_vlan_id : ℕ → ℕ → Vlans Hw → StdError × Option ℕ
  get_sai_vlan_id npu_id vlan_obj_id s =
      if no_db npu_id s
      then (std_err npu param 0, none)
      else (elim (api.get_vlan_id vlan_obj_id s.shared.hw) [
        | failed st ↦ (std_err npu fail st, none)
        | reply vlan_id ↦ (ok, some vlan_id)
      ])

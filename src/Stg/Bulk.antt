-- ===== src/Stg/Bulk.antt =====
-- src/nas_ndi_stg.cpp: the operations on all ports of a group, of a bridge port or of the switch.
use opx_nas_ndi.Base.{
  ℕ, zero, suc, Bool, true, false, Option, none, some, List, [], ◌∷◌, nat_key, if◌then◌else◌,
  resize, StdError, ok, std_err, stg, fail, param,
}
use opx_nas_ndi.Base.Replies.{reply, failed}
use opx_nas_ndi.NdiMap.{MapData, map_get, map_get_val_count}
use opx_nas_ndi.PortMap.Listing.{port_get_sai_ports_len, port_get_all_sai_ports}
use opx_nas_ndi.Stg.{Stg, StpApi, StgState, SaiStpState, stp_get_sai_state}
use opx_nas_ndi.Stg.Cache.{
  null_data, port_stps_key, stg_get_brport, add_port_to_cache, del_port_from_cache,
}
use opx_nas_ndi.Stg.Ports.{no_db, set_stp_port_state_internal}

module _ {Hw : Type 0} (api : StpApi Hw) where
  -- The loop of `ndi_stg_get_stp_member_ports`: the group is the one asked for.
  unfoldable pub add_member_ports : ℕ → List ℕ → Stg Hw → Bool × Stg Hw
  add_member_ports stg_id [] s = (true, s)
  add_member_ports stg_id (p ∷ ports) s = elim (api.get_stp_port_stp p s.hw) [
    | failed _ ↦ (false, s)
    | reply (_, brport) ↦
        let (rc, m) = add_port_to_cache stg_id brport p s.map in
        elim rc [
          | ok ↦ add_member_ports stg_id ports (record s { map = m })
          | std_err _ _ _ ↦ (false, record s { map = m })
        ]
  ]

  -- `ndi_stg_get_stp_member_ports`
  unfoldable pub get_stp_member_ports : ℕ → Stg Hw → Bool × Stg Hw
  get_stp_member_ports stg_id s = elim (api.get_stp_port_count stg_id s.hw) [
    | failed _ ↦ (false, s)
    | reply zero ↦ (true, s)
    | reply (suc more) ↦ elim (api.get_stp_port_list stg_id (suc more) s.hw) [
      | failed _ ↦ (false, s)
      | reply ports ↦ add_member_ports stg_id ports s
    ]
  ]

  -- `ndi_stg_get_default_id`, past the test of its pointers: the group and the VLAN, when they are
  -- written.
  unfoldable pub get_default_id : ℕ → Stg Hw → StdError × Option ℕ × Option ℕ × Stg Hw
  get_default_id n s =
      if no_db api n s
      then (std_err stg param 0, none, none, s)
      else (elim (api.get_default_stp s.hw) [
        | failed st ↦ (std_err stg fail st, none, none, s)
        | reply stg_id ↦
            let s' : Stg Hw = record s { default_stg_id = stg_id } in
            elim (api.get_stp_vlan stg_id s.hw) [
              | failed st ↦ (std_err stg fail st, some stg_id, none, s')
              | reply vlan_id ↦
                  let (done, s'') = get_stp_member_ports stg_id s' in
                  (if done then ok else std_err stg fail 0, some stg_id, some vlan_id, s'')
            ]
      ])

  -- The loop of `ndi_stg_set_all_stp_port_state`.
  unfoldable pub set_port_states : ℕ → SaiStpState → List ℕ → Stg Hw → StdError × Stg Hw
  set_port_states stg_id state [] s = (ok, s)
  set_port_states stg_id state (p ∷ ports) s = elim (stg_get_brport p s.brports) [
    | none ↦ (std_err stg fail 0, s)
    | some brport ↦
        let (rc, s') = set_stp_port_state_internal api stg_id brport state s in
        elim rc [
          | ok ↦ set_port_states stg_id state ports s'
          | std_err a c st ↦ (std_err a c st, s')
        ]
  ]

  -- `ndi_stg_set_all_stp_port_state`; `none` is the undefined behaviour of the port map.
  unfoldable pub set_all_stp_port_state : ℕ → ℕ → StgState → Stg Hw → Option (StdError × Stg Hw)
  set_all_stp_port_state n stg_id state s =
      let (rc, counted) = port_get_sai_ports_len n s.ports in
      elim counted [
        | none ↦ some (std_err stg fail 0, s)
        | some len ↦ elim (port_get_all_sai_ports n (resize len 0 []) len s.ports) [
          | none ↦ none
          | some (rc', ports) ↦ elim rc' [
            | std_err _ _ _ ↦ some (std_err stg fail 0, s)
            | ok ↦ elim (stp_get_sai_state state) [
              | none ↦ some (std_err stg param 0, s)
              | some sai_state ↦
                  if no_db api n s
                  then some (std_err stg param 0, s)
                  else some (set_port_states stg_id sai_state ports s)
            ]
          ]
        ]
      ]

  -- The loop of `ndi_stg_delete_port_stp_ports`: an STP port that the switch does not remove stays.
  unfoldable pub remove_stp_ports : ℕ → List MapData → Stg Hw → Stg Hw
  remove_stp_ports brport [] s = s
  remove_stp_ports brport (d ∷ ds) s =
      let (r, hw) = api.remove_stp_port d.val1 s.hw in
      elim r [
        | failed _ ↦ remove_stp_ports brport ds (record s { hw = hw })
        | reply _ ↦
            remove_stp_ports brport ds
              (record s { map = (del_port_from_cache d.val2 brport s.map).1; hw = hw })
      ]

  -- `ndi_stg_delete_port_stp_ports`, past the count of the pairs.
  unfoldable pub delete_counted : ℕ → ℕ → Stg Hw → StdError × Stg Hw
  unfolding remove_stp_ports
  delete_counted brport zero s = (ok, s)
  delete_counted brport (suc more) s =
      let (rc, val) =
        map_get (port_stps_key brport)
          (record { count = suc more; buffer = resize (suc more) null_data [] }) s.map in
      elim rc [
        | std_err a c st ↦ (std_err a c st, s)
        | ok ↦ (ok, remove_stp_ports brport val.buffer s)
      ]

  -- `ndi_stg_delete_port_stp_ports`: the count is 0 where the bridge port has no entry.
  unfoldable pub delete_port_stp_ports : ℕ → ℕ → Stg Hw → StdError × Stg Hw
  unfolding delete_counted
  delete_port_stp_ports n brport s =
      if no_db api n s
      then (std_err stg param 0, s)
      else (let (rc, count) = map_get_val_count (port_stps_key brport) 0 s.map in
          delete_counted brport count s)

-- ===== src/Vlan/Ports.antt =====
-- src/nas_ndi_vlan.cpp: ports and LAGs are added to a VLAN and deleted from it. `none` is the end of the
-- process by `STD_ASSERT`.
use opx_nas_ndi.Base.{
  ℕ, Bool, true, false, Option, none, some, List, [], ◌∷◌, nat_key, ◌==◌, if◌then◌else◌, StdError,
  ok, std_err, npu, fail, cfg,
}
use opx_nas_ndi.Base.Replies.{reply, failed}
use opx_nas_ndi.NdiMap.{MapData}
use opx_nas_ndi.PortMap.{sai_port_id_get}
use opx_nas_ndi.Stg.Cache.{stg_get_brport}
use opx_nas_ndi.Vlan.{Vlans, VlanApi, with_hw, with_map, no_db, get_sai_vlan_obj_id}
use opx_nas_ndi.Vlan.Members.{
  get_vlan_member_info_from_cache, add_vlan_member_to_cache, del_vlan_member_from_cache,
}

-- The member that a function finds in its variable after the query: null when none was written.
abbrev pub member_of : Option MapData → ℕ
member_of none = 0
member_of (some d) = d.val1

-- `ndi_port_t`
pub record NdiPort : Type 0 where
  pub npu_id : ℕ
  pub npu_port : ℕ

module _ {Hw : Type 0} (api : VlanApi Hw) where
  -- `ndi_del_port_from_vlan`
  unfoldable pub del_port_from_vlan : ℕ → ℕ → ℕ → Vlans Hw → Option (StdError × Vlans Hw)
  del_port_from_vlan npu_id vlan_id port_id s =
      if no_db npu_id s
      then none
      else (let (_, info) = get_vlan_member_info_from_cache npu_id vlan_id port_id s.shared.map in
          if member_of info == 0
          then some (ok, s)
          else (let (r, hw) = api.remove_vlan_member (member_of info) s.shared.hw in
              elim r [
                | failed st ↦ some (std_err npu fail st, with_hw hw s)
                | reply _ ↦
                    let (rc, m) = del_vlan_member_from_cache npu_id vlan_id port_id s.shared.map in
                    some (rc, with_map m (with_hw hw s))
              ]))

  abbrev pub tagging : Bool → ℕ
  tagging istagged = if istagged then api.tagging_mode_tagged else api.tagging_mode_untagged

  -- The part of `ndi_add_port_to_vlan` for a port that is no member.
  unfoldable pub create_member : ℕ → ℕ → ℕ → ℕ → Vlans Hw → Option (StdError × Vlans Hw)
  unfolding del_port_from_vlan
  create_member npu_id vlan_id port_id mode s = elim (stg_get_brport port_id s.shared.brports) [
    | none ↦ some (std_err npu cfg 0, s)
    | some brport_id ↦
        let (r, hw) =
          api.create_vlan_member (get_sai_vlan_obj_id vlan_id s) brport_id mode s.shared.hw in
        elim r [
          | failed st ↦ some (std_err npu fail st, with_hw hw s)
          | reply member ↦
              let (rc, m) =
                add_vlan_member_to_cache npu_id vlan_id port_id member mode s.shared.map in
              let s' = with_map m (with_hw hw s) in
              elim rc [
                | ok ↦ some (ok, s')
                | std_err a c st ↦ elim (del_port_from_vlan npu_id vlan_id port_id s') [
                  | none ↦ none
                  | some (_, s'') ↦ some (std_err a c st, s'')
                ]
              ]
        ]
  ]

  -- The part for a member with another tagging mode.
  unfoldable pub change_mode : ℕ → ℕ → ℕ → ℕ → ℕ → Vlans Hw → StdError × Vlans Hw
  change_mode npu_id vlan_id port_id member mode s =
      let (r, hw) = api.set_tagging_mode member mode s.shared.hw in
      elim r [
        | failed st ↦ (std_err npu fail st, with_hw hw s)
        | reply _ ↦
            let (rc, m) =
              add_vlan_member_to_cache npu_id vlan_id port_id member mode s.shared.map in
            (rc, with_map m (with_hw hw s))
      ]

  -- `ndi_add_port_to_vlan`
  unfoldable pub add_port_to_vlan : ℕ → ℕ → ℕ → Bool → Vlans Hw → Option (StdError × Vlans Hw)
  unfolding create_member change_mode
  add_port_to_vlan npu_id vlan_id port_id istagged s =
      if no_db npu_id s
      then none
      else (let (_, info) = get_vlan_member_info_from_cache npu_id vlan_id port_id s.shared.map in
          elim info [
            | none ↦ create_member npu_id vlan_id port_id (tagging istagged) s
            | some d ↦
                if d.val1 == 0
                then create_member npu_id vlan_id port_id (tagging istagged) s
                else if d.val2 == tagging istagged
                then some (ok, s)
                else some (change_mode npu_id vlan_id port_id d.val1 (tagging istagged) s)
          ])

  -- A part of a loop's round: an NDI port with no SAI port is passed over.
  unfoldable pub on_sai_port :
      (ℕ → Vlans Hw → Option (StdError × Vlans Hw))
      → NdiPort
      → Vlans Hw
      → Option (StdError × Vlans Hw)
  on_sai_port op p s =
      let (_, port) = sai_port_id_get p.npu_id p.npu_port false s.shared.ports in
      elim port [ none ↦ some (ok, s) | some port_id ↦ op port_id s ]

  -- `if((rc = …) != STD_ERR_OK) return rc;`
  abbrev pub and_then :
      Option (StdError × Vlans Hw)
      → (Vlans Hw → Option (StdError × Vlans Hw))
      → Option (StdError × Vlans Hw)
  and_then none k = none
  and_then (some (ok, s)) k = k s
  and_then (some (std_err a c st, s)) k = some (std_err a c st, s)

  -- The loop over a tagged and an untagged list, which takes turns while both last.
  unfoldable pub in_turns {ℓ} :
      {A : Type ℓ}
      → (A → Vlans Hw → Option (StdError × Vlans Hw))
      → (A → Vlans Hw → Option (StdError × Vlans Hw))
      → List A
      → List A
      → Vlans Hw
      → Option (StdError × Vlans Hw)
  in_turns f g [] [] s = some (ok, s)
  in_turns f g (t ∷ ts) [] s = and_then (f t s) (in_turns f g ts [])
  in_turns f g [] (u ∷ us) s = and_then (g u s) (in_turns f g [] us)
  in_turns f g (t ∷ ts) (u ∷ us) s = and_then (f t s) (λ s'. and_then (g u s') (in_turns f g ts us))

  -- `ndi_add_ports_to_vlan`
  unfoldable pub add_ports_to_vlan :
      ℕ → ℕ → List NdiPort → List NdiPort → Vlans Hw → Option (StdError × Vlans Hw)
  unfolding in_turns on_sai_port add_port_to_vlan
  add_ports_to_vlan npu_id vlan_id tagged untagged =
      in_turns (on_sai_port (λ port. add_port_to_vlan npu_id vlan_id port true))
        (on_sai_port (λ port. add_port_to_vlan npu_id vlan_id port false)) tagged untagged

  -- `ndi_del_ports_from_vlan`
  unfoldable pub del_ports_from_vlan :
      ℕ → ℕ → List NdiPort → List NdiPort → Vlans Hw → Option (StdError × Vlans Hw)
  unfolding in_turns on_sai_port del_port_from_vlan
  del_ports_from_vlan npu_id vlan_id tagged untagged =
      in_turns (on_sai_port (del_port_from_vlan npu_id vlan_id))
        (on_sai_port (del_port_from_vlan npu_id vlan_id)) tagged untagged

  -- `ndi_add_or_del_ports_to_vlan`
  unfoldable pub add_or_del_ports_to_vlan :
      ℕ → ℕ → List NdiPort → List NdiPort → Bool → Vlans Hw → Option (StdError × Vlans Hw)
  unfolding add_ports_to_vlan del_ports_from_vlan
  add_or_del_ports_to_vlan npu_id vlan_id tagged untagged add_vlan s =
      if get_sai_vlan_obj_id vlan_id s == 0
      then some (std_err npu fail api.status_failure, s)
      else if add_vlan
      then add_ports_to_vlan npu_id vlan_id tagged untagged s
      else del_ports_from_vlan npu_id vlan_id tagged untagged s

  -- `ndi_add_lag_to_vlan`
  unfoldable pub add_lag_to_vlan : ℕ → ℕ → List ℕ → List ℕ → Vlans Hw → Option (StdError × Vlans Hw)
  unfolding in_turns add_port_to_vlan
  add_lag_to_vlan npu_id vlan_id tagged untagged s =
      if get_sai_vlan_obj_id vlan_id s == 0
      then some (std_err npu fail api.status_failure, s)
      else in_turns (λ lag. add_port_to_vlan npu_id vlan_id lag true)
          (λ lag. add_port_to_vlan npu_id vlan_id lag false) tagged untagged s

  -- `ndi_del_lag_from_vlan`
  unfoldable pub del_lag_from_vlan :
      ℕ → ℕ → List ℕ → List ℕ → Vlans Hw → Option (StdError × Vlans Hw)
  unfolding in_turns del_port_from_vlan
  del_lag_from_vlan npu_id vlan_id tagged untagged s =
      if get_sai_vlan_obj_id vlan_id s == 0
      then some (std_err npu fail api.status_failure, s)
      else in_turns (del_port_from_vlan npu_id vlan_id) (del_port_from_vlan npu_id vlan_id) tagged
          untagged s

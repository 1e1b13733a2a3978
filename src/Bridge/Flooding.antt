-- ===== src/Bridge/Flooding.antt =====
-- src/nas_ndi_bridge.cpp: how a 1D bridge floods packets, and the multicast group for broadcast packets
-- that is kept for each bridge.
use opx_nas_ndi.Base.{
  ℕ, Bool, true, false, Option, none, some, nat_key, ◌==◌, if◌then◌else◌, StdError, ok, std_err,
  npu, param, cfg,
}
use opx_nas_ndi.Base.Table.{Table, find, put, erase}
use opx_nas_ndi.Bridge.{PktType, BridgeAttr, BridgeApi, Bridges, set_bridge_attribute}

-- `unordered_map::insert`: a key that is present keeps its value.
abbrev pub insert_absent : Table ℕ ℕ → ℕ → ℕ → Table ℕ ℕ
insert_absent t k v = elim (find t k) [ some _ ↦ t | none ↦ put t k v ]

-- Whether a switch statement of these functions lists the type.
abbrev pub is_listed : PktType → Bool
is_listed PktType.unicast = true
is_listed PktType.multicast = true
is_listed PktType.broadcast = true
is_listed _ = false

abbrev pub is_broadcast : PktType → Bool
is_broadcast PktType.broadcast = true
is_broadcast _ = false

abbrev pub is_all : PktType → Bool
is_all PktType.all = true
is_all _ = false

-- `ndi_1d_get_l2mc_id`: the group, when it is written.
unfoldable pub get_l2mc_id_1d : {Hw : Type 0} → ℕ → Bridges Hw → StdError × Option ℕ
get_l2mc_id_1d br_oid s = elim (find s.bcast_l2mc br_oid) [
  | none ↦ (std_err npu param 0, none)
  | some l2mc ↦ (ok, some l2mc)
]

-- `if ((rc = …) != STD_ERR_OK) return rc;`
abbrev pub or_return :
    {Hw : Type 0}
    → StdError × Bridges Hw
    → (Bridges Hw → StdError × Bridges Hw)
    → StdError × Bridges Hw
or_return (ok, s) k = k s
or_return (std_err a c st, s) k = (std_err a c st, s)

module _ {Hw : Type 0} (api : BridgeApi Hw) where
  -- `ndi_set_subport_flooding`
  unfoldable pub set_subport_flooding : ℕ → ℕ → PktType → Bool → Bridges Hw → StdError × Bridges Hw
  set_subport_flooding npu_id bridge_id pkt_type enable_flood s =
      if is_listed pkt_type
      then (let (rc, s') =
            set_bridge_attribute api npu_id bridge_id
              (BridgeAttr.flood_control pkt_type
                (if enable_flood then api.flood_control_sub_ports else api.flood_control_none))
              s in
          elim rc [ std_err _ _ _ ↦ (std_err npu param 0, s') | ok ↦ (ok, s') ])
      else (std_err npu cfg 0, s)

  -- The group that is kept, for broadcast packets.
  abbrev pub keep_group : ℕ → ℕ → PktType → Bool → Bridges Hw → Bridges Hw
  keep_group bridge_id multicast_grp pkt_type enable_flood s =
      if is_broadcast pkt_type
      then record s {
        bcast_l2mc =
            if enable_flood
            then insert_absent s.bcast_l2mc bridge_id multicast_grp
            else erase s.bcast_l2mc bridge_id;
      }
      else s

  -- `ndi_set_mcast_flooding`: the group is kept before the switch is asked.
  unfoldable pub set_mcast_flooding :
      ℕ → ℕ → ℕ → PktType → Bool → Bridges Hw → StdError × Bridges Hw
  set_mcast_flooding npu_id bridge_id multicast_grp pkt_type enable_flood s =
      if is_listed pkt_type
      then (let (rc, s1) =
            set_bridge_attribute api npu_id bridge_id
              (BridgeAttr.flood_group pkt_type (if enable_flood then multicast_grp else 0))
              (keep_group bridge_id multicast_grp pkt_type enable_flood s) in
          elim rc [
            | std_err _ _ _ ↦ (std_err npu cfg 0, s1)
            | ok ↦
                let (rc', s2) =
                  set_bridge_attribute api npu_id bridge_id
                    (BridgeAttr.flood_control pkt_type api.flood_control_l2mc_group) s1 in
                elim rc' [ std_err _ _ _ ↦ (std_err npu cfg 0, s2) | ok ↦ (ok, s2) ]
          ])
      else (std_err npu param 0, s)

  -- `ndi_flood_control_1d_bridge`
  unfoldable pub flood_control_1d_bridge :
      ℕ → ℕ → ℕ → PktType → Bool → Bridges Hw → StdError × Bridges Hw
  unfolding set_mcast_flooding set_subport_flooding
  flood_control_1d_bridge npu_id br_oid multicast_grp pkt_type enable_flood s =
      let mcast = λ (t : PktType). set_mcast_flooding npu_id br_oid multicast_grp t enable_flood in
      let subports = λ (t : PktType). set_subport_flooding npu_id br_oid t enable_flood in
      if multicast_grp == 0
      then (if is_all pkt_type
          then or_return (subports PktType.multicast s)
              (λ s1. or_return (subports PktType.broadcast s1) (subports PktType.unicast))
          else subports pkt_type s)
      else if is_all pkt_type
      then or_return (mcast PktType.unicast s)
          (λ s1. or_return (mcast PktType.multicast s1) (mcast PktType.broadcast))
      else mcast pkt_type s

-- ===== src/Vlan/Members.antt =====
-- src/nas_ndi_vlan.cpp: the members of the VLANs in the map of value pairs.
use opx_nas_ndi.Base.{
  ℕ, ◌+◌, ◌*◌, ◌^◌, Option, none, some, List, [], ◌∷◌, nat_key, ◌==◌, if◌then◌else◌, StdError, ok,
  std_err,
}
use opx_nas_ndi.NdiMap.{MapType, MapKey, MapData, MapVal, NdiMap, map_insert, map_delete, map_get}

-- The key of a port in a VLAN. VLAN ids have fewer than 32 bits, so the bits that `|` joins do not
-- overlap.
abbrev pub member_key : ℕ → ℕ → ℕ → MapKey
member_key npu_id vlan_id port_id = record {
  type = MapType.vlan_member_id;
  id1 = npu_id * 2 ^ 32 + vlan_id;
  id2 = port_id;
}

abbrev pub null_pair : MapData
null_pair = record { val1 = 0; val2 = 0 }

abbrev first_pair : List MapData → MapData
first_pair [] = null_pair
first_pair (d ∷ ds) = d

-- `ndi_get_vlan_member_info_from_cache`: the member with its tagging mode, when they are written. The
-- buffer has room for one pair.
unfoldable pub get_vlan_member_info_from_cache : ℕ → ℕ → ℕ → NdiMap → StdError × Option MapData
unfolding map_get
get_vlan_member_info_from_cache npu_id vlan_id port_id m =
    let (rc, val) =
      map_get (member_key npu_id vlan_id port_id) (record { count = 1; buffer = null_pair ∷ [] })
        m in
    elim rc [ ok ↦ (ok, some (first_pair val.buffer)) | std_err a c st ↦ (std_err a c st, none) ]

-- `ndi_add_vlan_member_to_cache`
unfoldable pub add_vlan_member_to_cache : ℕ → ℕ → ℕ → ℕ → ℕ → NdiMap → StdError × NdiMap
add_vlan_member_to_cache npu_id vlan_id port_id vlan_member_id tagging_mode m =
    let key = member_key npu_id vlan_id port_id in
    let val : MapVal = record {
      count = 1;
      buffer = record { val1 = vlan_member_id; val2 = tagging_mode } ∷ [];
    } in
    let (_, info) = get_vlan_member_info_from_cache npu_id vlan_id port_id m in
    elim info [
      | none ↦ map_insert key val m
      | some d ↦
          if d.val2 == tagging_mode
          then (ok, m)
          else (let (rc, m') = map_delete key m in
              elim rc [ std_err a c st ↦ (std_err a c st, m') | ok ↦ map_insert key val m' ])
    ]

-- `ndi_del_vlan_member_from_cache`
unfoldable pub del_vlan_member_from_cache : ℕ → ℕ → ℕ → NdiMap → StdError × NdiMap
del_vlan_member_from_cache npu_id vlan_id port_id m =
    map_delete (member_key npu_id vlan_id port_id) m

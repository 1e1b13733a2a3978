-- ===== src/Stg/Cache.antt =====
-- src/nas_ndi_stg.cpp: the STP ports in the map of value pairs.
use opx_nas_ndi.Base.{ℕ, true, false, Option, none, some, List, [], ◌∷◌, StdError, ok, std_err}
use opx_nas_ndi.NdiMap.{
  MapType, MapKey, MapData, NdiMap, map_insert, map_delete, map_delete_elements, map_get,
  filter_val1,
}
use opx_nas_ndi.ObjCache.Brport.{BrportType, BrportQuery, BrportObj, BrportCache, get_brport_block}

abbrev pub sai_null_object_id : ℕ
sai_null_object_id = 0

-- The key from a group and a bridge port to its STP port.
abbrev pub stp_port_key : ℕ → ℕ → MapKey
stp_port_key stp_id brport = record { type = MapType.stp_port_id; id1 = stp_id; id2 = brport }

-- The key from a bridge port to its STP ports, each with its group.
abbrev pub port_stps_key : ℕ → MapKey
port_stps_key brport = record {
  type = MapType.port_stp_ports;
  id1 = brport;
  id2 = sai_null_object_id;
}

-- The object that `ndi_stg_get_brport` asks with: the fields behind the port are not set.
abbrev pub asked_port : ℕ → BrportObj
asked_port port = record {
  brport_obj_id = 0;
  port_obj_id = port;
  port_type = 0;
  brport_type = BrportType.port;
  vlan_id = 0;
  rif_obj_id = 0;
}

-- `ndi_stg_get_brport`
unfoldable pub stg_get_brport : ℕ → BrportCache → Option ℕ
stg_get_brport port c =
    let (found, obj) = get_brport_block (some (asked_port port)) BrportQuery.from_port c in
    elim found [ false ↦ none | true ↦ elim obj [ none ↦ none | some o ↦ some o.brport_obj_id ] ]

abbrev first_val1 : List MapData → ℕ
first_val1 [] = sai_null_object_id
first_val1 (d ∷ ds) = d.val1

abbrev pub null_data : MapData
null_data = record { val1 = sai_null_object_id; val2 = sai_null_object_id }

-- `ndi_stg_get_stp_port_id_from_cache`: a buffer for one pair.
unfoldable pub get_stp_port_id_from_cache : ℕ → ℕ → NdiMap → ℕ
unfolding map_get
get_stp_port_id_from_cache stp_id brport m =
    let (rc, val) =
      map_get (stp_port_key stp_id brport) (record { count = 1; buffer = null_data ∷ [] }) m in
    elim rc [ ok ↦ first_val1 val.buffer | std_err _ _ _ ↦ sai_null_object_id ]

-- `ndi_stg_del_port_from_cache`: the answer of the second deletion stands.
unfoldable pub del_port_from_cache : ℕ → ℕ → NdiMap → StdError × NdiMap
del_port_from_cache stp_id brport m =
    let stp_port_id = get_stp_port_id_from_cache stp_id brport m in
    let (_, m') = map_delete (stp_port_key stp_id brport) m in
    map_delete_elements (port_stps_key brport)
      (record {
        value = record { val1 = stp_port_id; val2 = sai_null_object_id };
        mask = filter_val1;
      })
      m'

-- `ndi_stg_add_port_to_cache`
unfoldable pub add_port_to_cache : ℕ → ℕ → ℕ → NdiMap → StdError × NdiMap
add_port_to_cache stp_id brport stp_port_id m =
    let (rc, m') =
      map_insert (stp_port_key stp_id brport)
        (record {
          count = 1;
          buffer = record { val1 = stp_port_id; val2 = sai_null_object_id } ∷ [];
        })
        m in
    elim rc [
      | std_err s c st ↦ (std_err s c st, m')
      | ok ↦
          let (rc', m'') =
            map_insert (port_stps_key brport)
              (record { count = 1; buffer = record { val1 = stp_port_id; val2 = stp_id } ∷ [] })
              m' in
          elim rc' [
            | ok ↦ (ok, m'')
            | std_err s c st ↦ (std_err s c st, (del_port_from_cache stp_id brport m'').1)
          ]
    ]

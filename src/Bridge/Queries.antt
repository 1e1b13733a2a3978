-- ===== src/Bridge/Queries.antt =====
-- src/nas_ndi_bridge.cpp: bridge ports are found in the bridge port cache. Each query fills in the fields
-- that it asks by; the others are not set, and 0 here.
use opx_nas_ndi.Base.{ℕ, Bool, true, false, Option, none, some, nat_key, ◌==◌, if◌then◌else◌}
use opx_nas_ndi.ObjCache.Brport.{BrportType, BrportQuery, BrportObj, BrportCache, get_brport_block}
use opx_nas_ndi.PortMap.{PortMap, sai_port_id_get}

-- The object of a query for a bridge port, a port, a VLAN and a router interface.
abbrev pub asked_for : ℕ → ℕ → ℕ → ℕ → BrportObj
asked_for brport port vlan rif = record {
  brport_obj_id = brport;
  port_obj_id = port;
  port_type = 0;
  brport_type = BrportType.port;
  vlan_id = vlan;
  rif_obj_id = rif;
}

-- What a caller reads of the object that is found.
abbrev pub read {ℓ} : {A : Type ℓ} → (BrportObj → A) → Bool × Option BrportObj → Option A
read f (true, some o) = some (f o)
read f (true, none) = none
read f (false, _) = none

-- `ndi_get_1d_bridge_port`
unfoldable pub get_1d_bridge_port : ℕ → ℕ → BrportCache → Option ℕ
get_1d_bridge_port saiport_oid vlan_id c =
    read (λ o. o.brport_obj_id)
      (get_brport_block (some (asked_for 0 saiport_oid vlan_id 0)) BrportQuery.from_port_vlan c)

-- `ndi_get_1q_bridge_port`
unfoldable pub get_1q_bridge_port : ℕ → BrportCache → Option ℕ
get_1q_bridge_port saiport_oid c =
    read (λ o. o.brport_obj_id)
      (get_brport_block (some (asked_for 0 saiport_oid 0 0)) BrportQuery.from_port c)

-- `ndi_get_1q_sai_port`
unfoldable pub get_1q_sai_port : ℕ → BrportCache → Option ℕ
get_1q_sai_port brport_oid c =
    read (λ o. o.port_obj_id)
      (get_brport_block (some (asked_for brport_oid 0 0 0)) BrportQuery.from_brport c)

-- `_ndi_get_1d_router_bridge_port`
unfoldable pub get_1d_router_bridge_port : ℕ → BrportCache → Option ℕ
get_1d_router_bridge_port rif c =
    read (λ o. o.brport_obj_id)
      (get_brport_block (some (asked_for 0 0 0 rif)) BrportQuery.from_rif c)

module _ (port_type_lag : ℕ) (to_port : ℕ → ℕ) where
  -- `_get_sai_port_id`: `to_port` is the cast to `port_t`.
  unfoldable pub get_sai_port_id : ℕ → ℕ → ℕ → PortMap → Option ℕ
  get_sai_port_id npu_id port_id port_type m =
      if port_type == port_type_lag
      then some port_id
      else (sai_port_id_get npu_id (to_port port_id) false m).1

  -- `ndi_bridge_get_bridge_port`
  unfoldable pub bridge_get_bridge_port : ℕ → ℕ → ℕ → ℕ → PortMap → BrportCache → Option ℕ
  unfolding get_sai_port_id get_1d_bridge_port
  bridge_get_bridge_port npu_id port_id port_type vlan_id m c =
      elim (get_sai_port_id npu_id port_id port_type m) [
        | none ↦ none
        | some port ↦ get_1d_bridge_port port vlan_id c
      ]

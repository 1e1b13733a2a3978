-- ===== src/Vlan.antt =====
-- src/nas_ndi_vlan.cpp: VLANs and their members. The SAI objects of the VLANs are kept in
-- `g_ndi_vlan_map` and in the virtual object cache, the members in the map of value pairs.
pub mod Members
pub mod Ports
pub mod Objects
pub mod Defaults
pub mod Membership
pub mod Joining
pub mod Leaving
pub mod Turns
pub mod Naming
use opx_nas_ndi.Base.{ℕ, Bool, Option, none, some, List, nat_key, StdError, ok, std_err, npu, fail}
use opx_nas_ndi.Base.Replies.{Reply}
use opx_nas_ndi.Base.Table.{Table, find, put, erase}
use opx_nas_ndi.NdiMap.{NdiMap}
use opx_nas_ndi.NpuDb.{NpuDb, ndi_db_ptr_get, is_null}
use opx_nas_ndi.ObjCache.Virtual.{VirtualCache}
use opx_nas_ndi.Stg.{Stg}

-- The attributes that `set_vlan_attribute` is called with.
pub data VlanAttr : Type 0 where
  learn_disable : Bool → VlanAttr
  stp_instance : ℕ → VlanAttr
  ipv4_mcast_lookup_key_type : ℕ → VlanAttr
  ipv6_mcast_lookup_key_type : ℕ → VlanAttr

-- The calls of SAI that the code makes, on a switch of type `Hw`, and the constants of its headers. The
-- count of a list comes with `SAI_STATUS_SUCCESS` or `SAI_STATUS_BUFFER_OVERFLOW`; then the list is asked
-- for with that room, which the switch fills. The reading calls do not change the switch.
pub record VlanApi (Hw : Type 0) : Type 0 where
  pub create_vlan : ℕ → Hw → Reply ℕ × Hw
  pub remove_vlan : ℕ → Hw → Reply (Unit {0}) × Hw
  pub set_vlan_attribute : ℕ → VlanAttr → Hw → Reply (Unit {0}) × Hw
  pub get_vlan_id : ℕ → Hw → Reply ℕ
  pub get_member_count : ℕ → Hw → Reply ℕ
  pub get_member_list : ℕ → ℕ → Hw → Reply (List ℕ)
  pub create_vlan_member : ℕ → ℕ → ℕ → Hw → Reply ℕ × Hw
  pub remove_vlan_member : ℕ → Hw → Reply (Unit {0}) × Hw
  pub set_tagging_mode : ℕ → ℕ → Hw → Reply (Unit {0}) × Hw
  pub get_member_brport : ℕ → Hw → Reply ℕ
  pub get_default_vlan : Hw → Reply ℕ
  pub flush_dynamic_fdb_entries : ℕ → Hw → Reply (Unit {0}) × Hw
  pub tagging_mode_tagged : ℕ
  pub tagging_mode_untagged : ℕ
  pub status_failure : ℕ
  pub status_not_implemented : ℕ
  pub status_attr_not_implemented_0 : ℕ
  pub mcast_lookup_key_mac_da : ℕ
  pub mcast_lookup_key_xg : ℕ
  pub mcast_lookup_key_sg : ℕ
  pub mcast_lookup_key_xg_and_sg : ℕ

-- What the functions share: what the spanning tree functions share, `g_ndi_vlan_map`, the virtual
-- object cache and `default_vlan_id`.
pub record Vlans (Hw : Type 0) : Type 0 where
  pub shared : Stg Hw
  pub vlan_map : Table ℕ ℕ
  pub virtuals : VirtualCache
  pub default_vlan_id : ℕ

module _ {Hw : Type 0} where
  abbrev pub with_hw : Hw → Vlans Hw → Vlans Hw
  with_hw hw s = record s { shared = record s.shared { hw = hw } }

  abbrev pub with_map : NdiMap → Vlans Hw → Vlans Hw
  with_map m s = record s { shared = record s.shared { map = m } }

  -- `ndi_db_ptr == NULL`
  abbrev pub no_db : ℕ → Vlans Hw → Bool
  no_db n s = is_null (ndi_db_ptr_get s.shared.db n)

  -- `ndi_get_sai_vlan_obj_id`: null where the VLAN has no object.
  unfoldable pub get_sai_vlan_obj_id : ℕ → Vlans Hw → ℕ
  get_sai_vlan_obj_id vlan_id s = elim (find s.vlan_map vlan_id) [ none ↦ 0 | some oid ↦ oid ]

  -- `ndi_add_sai_vlan_obj_id`
  unfoldable pub add_sai_vlan_obj_id : ℕ → ℕ → Vlans Hw → StdError × Vlans Hw
  add_sai_vlan_obj_id vlan_id oid s = elim (find s.vlan_map vlan_id) [
    | some _ ↦ (std_err npu fail 0, s)
    | none ↦ (ok, record s { vlan_map = put s.vlan_map vlan_id oid })
  ]

  -- `ndi_del_sai_vlan_obj_id`
  unfoldable pub del_sai_vlan_obj_id : ℕ → Vlans Hw → StdError × Vlans Hw
  del_sai_vlan_obj_id vlan_id s = elim (find s.vlan_map vlan_id) [
    | none ↦ (std_err npu fail 0, s)
    | some _ ↦ (ok, record s { vlan_map = erase s.vlan_map vlan_id })
  ]

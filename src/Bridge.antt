-- ===== src/Bridge.antt =====
-- src/nas_ndi_bridge.cpp: bridges and their bridge ports. A bridge port is made in the switch and entered
-- in the bridge port cache; a port of the 1Q bridge has STP ports and members of VLANs besides.
pub mod Queries
pub mod Ports
pub mod Members
pub mod Flooding
pub mod Attributes
pub mod Startup
pub mod Creation
pub mod Removal
pub mod Subports
pub mod Switched
pub mod Flooded
use opx_nas_ndi.Base.{ℕ, Bool, List, if◌then◌else◌, StdError, ok, std_err, npu, cfg}
use opx_nas_ndi.Base.Replies.{Reply, reply, failed}
use opx_nas_ndi.Base.Table.{Table}
use opx_nas_ndi.ObjCache.Brport.{BrportCache}
use opx_nas_ndi.Stg.{Stg, StpApi}
use opx_nas_ndi.Vlan.{Vlans, VlanApi, with_hw, no_db}

-- `sai_bridge_port_type_t`, as far as the code names it.
pub data SaiBrportType : Type 0 where
  port sub_port router_1q router_1d tunnel : SaiBrportType

-- What a bridge port is made on, with the attributes of its type.
pub data Owner : Type 0 where
  on_port : ℕ → Owner
  on_sub_port : ℕ → ℕ → Owner
  on_tunnel : ℕ → Owner
  on_rif : ℕ → Owner

-- The attributes of a bridge port that the code sets.
pub data BrportAttr : Type 0 where
  admin_state ingress_filtering egress_filtering : Bool → BrportAttr
  fdb_learning_mode tagging_mode ingress_split_horizon egress_split_horizon : ℕ → BrportAttr

-- `ndi_bridge_packets_type_t`; `unlisted` is a value that the switch statements do not list.
pub data PktType : Type 0 where
  unicast multicast broadcast all unlisted : PktType

-- The attributes of a bridge that the code sets: how it floods packets of a type, and the group that it
-- floods them to.
pub data BridgeAttr : Type 0 where
  flood_control : PktType → ℕ → BridgeAttr
  flood_group : PktType → ℕ → BridgeAttr

-- The calls of SAI that the code makes, with those of the spanning tree and VLAN functions, on a switch
-- of type `Hw`; the constants of its headers; the cast of a port id to `port_t`; and the number of an error. The reading calls do
-- not change the switch.
pub record BridgeApi (Hw : Type 0) : Type 0 where
  pub stp : StpApi Hw
  pub vlan : VlanApi Hw
  pub create_bridge_1d : Hw → Reply ℕ × Hw
  pub remove_bridge : ℕ → Hw → Reply (Unit {0}) × Hw
  pub set_bridge_attribute : ℕ → BridgeAttr → Hw → Reply (Unit {0}) × Hw
  pub create_bridge_port : SaiBrportType → ℕ → Owner → List BrportAttr → Hw → Reply ℕ × Hw
  pub remove_bridge_port : ℕ → Hw → Reply (Unit {0}) × Hw
  pub set_bridge_port_attribute : ℕ → BrportAttr → Hw → Reply (Unit {0}) × Hw
  pub get_fdb_learning_mode : ℕ → Hw → Reply ℕ
  pub flush_fdb_entries : ℕ → Hw → Reply (Unit {0}) × Hw
  pub get_default_1q_bridge : Hw → Reply ℕ
  pub get_bridge_port_list : ℕ → ℕ → Hw → Reply (List ℕ)
  pub get_bridge_port_port : ℕ → Hw → Reply ℕ
  pub status_success : ℕ
  pub status_failure : ℕ
  pub port_type_port : ℕ
  pub port_type_lag : ℕ
  pub tagging_mode_tagged : ℕ
  pub tagging_mode_untagged : ℕ
  pub learning_mode_drop : ℕ
  pub learning_mode_disable : ℕ
  pub learning_mode_hw : ℕ
  pub learning_mode_cpu_trap : ℕ
  pub learning_mode_cpu_log : ℕ
  pub flood_control_sub_ports : ℕ
  pub flood_control_none : ℕ
  pub flood_control_l2mc_group : ℕ
  pub to_port : ℕ → ℕ
  pub err_number : StdError → ℕ

-- What the functions share: what the VLAN functions share, `default_1q_br_oid` and
-- `ndi_bridge_id_bcast_l2mc_id`.
pub record Bridges (Hw : Type 0) : Type 0 where
  pub vlans : Vlans Hw
  pub default_1q_br_oid : ℕ
  pub bcast_l2mc : Table ℕ ℕ

module _ {Hw : Type 0} where
  abbrev pub hw_of : Bridges Hw → Hw
  hw_of s = s.vlans.shared.hw

  abbrev pub brports_of : Bridges Hw → BrportCache
  brports_of s = s.vlans.shared.brports

  abbrev pub on_hw : Hw → Bridges Hw → Bridges Hw
  on_hw hw s = record s { vlans = with_hw hw s.vlans }

  abbrev pub with_stg : Stg Hw → Bridges Hw → Bridges Hw
  with_stg g s = record s { vlans = record s.vlans { shared = g } }

  abbrev pub with_brports : BrportCache → Bridges Hw → Bridges Hw
  with_brports c s = with_stg (record s.vlans.shared { brports = c }) s

  -- `ndi_db_ptr == NULL`
  abbrev pub without_db : ℕ → Bridges Hw → Bool
  without_db n s = no_db n s.vlans

  -- The answer `STD_ERR(NPU, CFG, sai_ret)` to a call that fails.
  abbrev pub or_cfg : Reply (Unit {0}) × Hw → Bridges Hw → StdError × Bridges Hw
  or_cfg (reply _, hw) s = (ok, on_hw hw s)
  or_cfg (failed st, hw) s = (std_err npu cfg st, on_hw hw s)

module _ {Hw : Type 0} (api : BridgeApi Hw) where
  -- `ndi_set_bridge_attribute`
  unfoldable pub set_bridge_attribute : ℕ → ℕ → BridgeAttr → Bridges Hw → StdError × Bridges Hw
  set_bridge_attribute npu_id br_oid attr s =
      if without_db npu_id s
      then (std_err npu cfg 0, s)
      else or_cfg (api.set_bridge_attribute br_oid attr (hw_of s)) s

  -- `ndi_set_bridge_port_attribute`
  unfoldable pub set_bridge_port_attribute : ℕ → ℕ → BrportAttr → Bridges Hw → StdError × Bridges Hw
  set_bridge_port_attribute npu_id brport_oid attr s =
      if without_db npu_id s
      then (std_err npu cfg 0, s)
      else or_cfg (api.set_bridge_port_attribute brport_oid attr (hw_of s)) s

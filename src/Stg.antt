-- ===== src/Stg.antt =====
-- src/nas_ndi_stg.cpp: spanning tree groups. The STP ports of a switch are found by group and bridge
-- port, and by bridge port, in the map of value pairs; bridge ports are found in the bridge port
-- cache. `_stp_member_mutex` is held over the creation of an STP port.
pub mod Cache
pub mod Ports
pub mod Bulk
pub mod Index
pub mod Agreement
pub mod Removal
pub mod Lookup
pub mod Emptying
pub mod Deletion
pub mod States
use opx_nas_ndi.Base.{ℕ, Option, none, some, List}
use opx_nas_ndi.Base.Replies.{Reply}
use opx_nas_ndi.NdiMap.{NdiMap}
use opx_nas_ndi.NpuDb.{NpuDb}
use opx_nas_ndi.ObjCache.Brport.{BrportCache}
use opx_nas_ndi.PortMap.{PortMap}

-- `BASE_STG_INTERFACE_STATE_t`; `unlisted` is a value that the code's table does not hold.
pub data StgState : Type 0 where
  disabled learning forwarding blocking listening unlisted : StgState

-- `sai_stp_port_state_t`; `unlisted` is a value that the code's table does not hold.
pub data SaiStpState : Type 0 where
  learning forwarding blocking unlisted : SaiStpState

-- `ndi_stp_get_sai_state`
unfoldable pub stp_get_sai_state : StgState → Option SaiStpState
stp_get_sai_state StgState.disabled = some SaiStpState.blocking
stp_get_sai_state StgState.learning = some SaiStpState.learning
stp_get_sai_state StgState.forwarding = some SaiStpState.forwarding
stp_get_sai_state StgState.blocking = some SaiStpState.blocking
stp_get_sai_state StgState.listening = some SaiStpState.blocking
stp_get_sai_state StgState.unlisted = none

-- `sai_to_ndi_stp_state_map`
unfoldable pub stp_get_ndi_state : SaiStpState → Option StgState
stp_get_ndi_state SaiStpState.blocking = some StgState.blocking
stp_get_ndi_state SaiStpState.learning = some StgState.learning
stp_get_ndi_state SaiStpState.forwarding = some StgState.forwarding
stp_get_ndi_state SaiStpState.unlisted = none

-- The calls of the STP and switch interface that the code makes, on a switch of type `Hw`. The number
-- of the ports of a group comes with `SAI_STATUS_SUCCESS` or `SAI_STATUS_BUFFER_OVERFLOW`; then the
-- list is asked for with that room, which the switch fills. `get_stp_port_stp` answers the group and the
-- bridge port of an STP port; the reading calls do not change the switch.
pub record StpApi (Hw : Type 0) : Type 0 where
  pub create_stp : Hw → Reply ℕ × Hw
  pub remove_stp : ℕ → Hw → Reply (Unit {0}) × Hw
  pub create_stp_port : ℕ → ℕ → SaiStpState → Hw → Reply ℕ × Hw
  pub remove_stp_port : ℕ → Hw → Reply (Unit {0}) × Hw
  pub set_stp_port_state : ℕ → SaiStpState → Hw → Reply (Unit {0}) × Hw
  pub get_stp_port_state : ℕ → Hw → Reply SaiStpState
  pub get_stp_port_stp : ℕ → Hw → Reply (ℕ × ℕ)
  pub get_stp_port_count : ℕ → Hw → Reply ℕ
  pub get_stp_port_list : ℕ → ℕ → Hw → Reply (List ℕ)
  pub get_default_stp : Hw → Reply ℕ
  pub get_stp_vlan : ℕ → Hw → Reply ℕ

-- What the functions share: the two caches, the port map, the table of NPUs, `default_stg_id` and the
-- switch.
pub record Stg (Hw : Type 0) : Type 0 where
  pub map : NdiMap
  pub brports : BrportCache
  pub ports : PortMap
  pub db : NpuDb
  pub default_stg_id : ℕ
  pub hw : Hw

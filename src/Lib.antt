-- ===== src/Lib.antt =====
-- opx-nas-ndi is the layer of a network operating system between its control plane (NAS) and the
-- switch abstraction interface (SAI) of a vendor. It translates requests about ports, bridge ports,
-- VLANs, spanning trees, tunnels and router interfaces to calls of SAI, and keeps tables from its own
-- ids to SAI object ids. Those tables and the functions that keep them are the subject here.
--
-- Parts and files (paths from the repository's root):
--
-- - src/nas_ndi_obj_cache.cpp, inc/opx/nas_ndi_obj_cache.h: three caches of SAI objects.
--   ObjCache/Virtual (VLAN id to VLAN object and back), ObjCache/Slave (what is made on a bridge
--   port), ObjCache/Brport (bridge ports by id, by port, by port and VLAN, by router interface).
--   The methods keep their names; a cache is a record of tables.
-- - src/nas_ndi_map.cpp, inc/opx/nas_ndi_map.h: NdiMap, lists of value pairs under typed keys.
--   nas_ndi_map_insert is map_insert, and so on.
-- - src/nas_ndi_port_map.cpp: PortMap, the table from NDI port to SAI port and hardware ports, and the
--   map back. ndi_port_map_sai_port_add is port_map_sai_port_add, and so on without the prefix ndi_.
-- - src/nas_ndi_utils.cpp: NpuDb, the pointer to the entry of an NPU.
-- - src/nas_ndi_stg.cpp: Stg, spanning tree groups. Stg/Cache and Stg/Index are the STP ports kept in
--   NdiMap, Stg/Ports and Stg/Bulk the operations, which take the SAI calls as a record of functions on
--   a switch state. A function loses its prefix ndi_stg_, or ndi_ where that leaves no name.
-- - src/nas_ndi_router_interface_utl.cpp, inc/opx/nas_ndi_router_interface_utl.h: RifCache, the router
--   interfaces by key and by id with a count of references on 32 bits.
-- - src/nas_ndi_vlan.cpp, with the flush of a VLAN in src/nas_ndi_mac.cpp: Vlan, on the state of Stg with the
--   VLAN map and the virtual object cache. Vlan/Members is the member cache in NdiMap, Vlan/Ports the ports
--   and LAGs of a VLAN, Vlan/Objects the VLANs, Vlan/Defaults the default VLAN.
-- - src/nas_ndi_bridge.cpp: Bridge, on the state of Vlan with the multicast groups of the bridges.
--   Bridge/Ports is the creation and deletion of a bridge port of any type, over the bridge port cache, the
--   STP ports and the VLANs; Bridge/Members its callers, Bridge/Queries, Bridge/Attributes, Bridge/Flooding
--   and Bridge/Startup the rest. 1d and 1q stand last in a name that has them first in the source.
-- - src/nas_ndi_tunnel.cpp, src/nas_ndi_tunnel_obj.cpp, src/nas_ndi_tunnel_map.cpp: Tunnel, on the state of
--   Bridge with the map of tunnel objects. Tunnel/Objects is that map and the three maps of an object,
--   Tunnel/Calls the functions that make one object of the switch, Tunnel/Endpoints the creation with its
--   clean-up, Tunnel/Requests the requests of the control plane.
-- - src/nas_ndi_router_interface.c: RouterInterface (the update) and RouterInterface/Operations (creation and
--   removal), on the state of Bridge with the router interface cache.
--   The loop of ndi_rif_update_attribute has rounds as fuel; six suffice for the requests that it supports.
-- Base holds what they share: tests, lists over native numbers, tables (std::map, std::unordered_map)
-- and error codes. Tests holds runs on small inputs and the theorems at concrete inputs.
--
-- How the code is read. State is passed explicitly, and a function that holds its lock throughout is
-- one step. A pointer argument that may be null is an Option. Ids are natural numbers: no arithmetic
-- is done on them. Where size_t wraps around, the model writes it out (size_minus_one). An error code
-- is its subsystem and code; STD_ERR(...) differs from STD_ERR_OK, and codes differ by their names.
-- Memory does not run out: the branches that catch a failed allocation are not taken.
--
-- Loops recur on their lists or on the rounds left. Of the while loops, nas_ndi_map_delete_elements has
-- fuel one above the length of its list, which suffices, and ndi_rif_update_attribute is given rounds.
--
-- Not modelled: SAI itself and the packages included from outside the repository, which are parameters;
-- logging and printing; hash functions; the tables of IP multicast and of ports' modes; statistics; and
-- the modules of src/ that only translate attributes for SAI calls and keep no table of their own.
pub mod Base
pub mod ObjCache
pub mod NdiMap
pub mod NpuDb
pub mod PortMap
pub mod Stg
pub mod RifCache
pub mod Vlan
pub mod Bridge
pub mod Tunnel
pub mod RouterInterface
mod Tests

-- ===== src/Tests/Tunnels.antt =====
-- Tunnels, on a switch that counts the objects that it makes.
use opx_nas_ndi.Base.{ℕ, suc, ◌≡◌, refl, true, false, some, [], ◌∷◌, nat_key, if◌then◌else◌}
use opx_nas_ndi.Base.Replies.{reply}
use opx_nas_ndi.Bridge.{set_bridge_port_attribute}
use opx_nas_ndi.Bridge.Members.{bridge_1d_tunnel_port_add, bridge_1d_tunnel_delete}
use opx_nas_ndi.Bridge.Ports.{
  create_bridge_port, owner_of, bring_up, delete_bridge_port, take_down, flush_bridge_port_entry,
}
use opx_nas_ndi.NpuDb.{ndi_db_ptr_get}
use opx_nas_ndi.Tunnel.Calls.{
  create_encap_tunnel_map, create_decap_tunnel_map, create_tunnel, create_tunnel_term_entry,
  create_decap_tunnel_map_entry, create_encap_tunnel_map_entry, remove_encap_tunnel_map_entry,
  remove_tunnel_term_entry, remove_tunnel, remove_decap_tunnel_map, remove_encap_tunnel_map,
}
use opx_nas_ndi.Base.Table.{find, put, erase, empty, is_empty}
use opx_nas_ndi.Tests.Bridges.{bridge_calls, none_yet}
use opx_nas_ndi.Tunnel.{IpAddr, ip_key, TunnelObj, TunnelApi, Tunnels}
use opx_nas_ndi.Tunnel.Endpoints.{TunInfo, handle_tunnel_creation}
use opx_nas_ndi.Tunnel.Leaving.{HasLeft, remove_remote_endpoint_lem}
use opx_nas_ndi.Tunnel.Lifetimes.{
  IsComplete, handle_tunnel_creation_stuck, handle_tunnel_creation_lem,
}
use opx_nas_ndi.Tunnel.Objects.{
  insert_decap_map_entry, insert_encap_map_entry, insert_tunnel_bridge_port,
  remove_tunnel_bridge_port, remove_decap_map_entry, remove_encap_map_entry, new_tunnel_obj, key_of,
  insert_tunnel_obj, remove_tunnel_obj, get_tunnel_obj, has_tunnel_obj, remove_tunnel_obj-insert,
}
use opx_nas_ndi.Tunnel.Requests.{TunnelParam, read_addresses, remove_remote_endpoint}

abbrev tunnel_calls : TunnelApi ℕ
tunnel_calls = record {
  bridge = bridge_calls;
  create_tunnel_map = λ type made. (reply (suc made), suc made);
  remove_tunnel_map = λ oid made. (reply tt, made);
  create_tunnel_map_entry = λ type map br vni made. (reply (suc made), suc made);
  remove_tunnel_map_entry = λ oid made. (reply tt, made);
  create_tunnel = λ rif encap decap ip made. (reply (suc made), suc made);
  remove_tunnel = λ oid made. (reply tt, made);
  create_tunnel_term_table_entry = λ vr tunnel remote local_addr made. (reply (suc made), suc made);
  remove_tunnel_term_table_entry = λ oid made. (reply tt, made);
  create_loopback_interface = λ vr made. (reply (suc made), suc made);
  sizeof_ip_addr = 20;
}

abbrev here : IpAddr
here = record { af_index = 2; u = 100 }

abbrev there : IpAddr
there = record { af_index = 2; u = 200 }

abbrev request : TunInfo
request = record {
  remote_src_ip = there;
  local_src_ip = here;
  vni = 5000;
  vrf_oid = 1;
  ulay_rif_oid = 2;
  bridge_oid = 8;
}

abbrev no_tunnels : Tunnels ℕ
no_tunnels = record { bridges = none_yet; tunnel_map = empty }

-- A tunnel object as a failed addition of the bridge 8 leaves it.
abbrev half_done : TunnelObj
half_done = record (new_tunnel_obj 43 41 42 44 here there) {
  decap_map = put empty 8 (record { vni = 5000; oid = 45 });
}

abbrev half_tunnel : Tunnels ℕ
half_tunnel = record no_tunnels { tunnel_map = put empty (key_of there here) (some half_done) }

-- A tunnel that carries the bridge 8.
abbrev whole_tunnel : Tunnels ℕ
whole_tunnel = record no_tunnels {
  tunnel_map = put empty (key_of there here) (
      some (record half_done {
        encap_map = put empty 8 (record { vni = 5000; oid = 46 });
        tunnel_bridge_ports = put empty 8 (record { vni = 5000; oid = 47 });
      }));
}

remove_tunnel_obj-insert_example :
    let (inserted, m') = insert_tunnel_obj there here (some half_done) empty in
    let (removed, m'') = remove_tunnel_obj there here m' in
    (inserted ≡ true)
    × (get_tunnel_obj there here m'
        ≡ (if true then some half_done else get_tunnel_obj there here empty))
    × (removed ≡ false)
    × (find m'' (key_of there here) ≡ find empty (key_of there here))
unfolding has_tunnel_obj find empty
remove_tunnel_obj-insert_example =
    remove_tunnel_obj-insert there here half_done empty there here refl

handle_tunnel_creation_stuck_example :
    let (done, port, s') = handle_tunnel_creation tunnel_calls 0 request half_tunnel in
    (done ≡ false) × (s'.tunnel_map ≡ half_tunnel.tunnel_map)
unfolding get_tunnel_obj find put empty
handle_tunnel_creation_stuck_example =
    handle_tunnel_creation_stuck tunnel_calls 0 request half_done (record { vni = 5000; oid = 45 })
      half_tunnel refl refl

handle_tunnel_creation_lem_example :
    let (done, port, s') = handle_tunnel_creation tunnel_calls 0 request no_tunnels in
    (p : ℕ) × (port ≡ some p) × IsComplete tunnel_calls 0 request p s'
unfolding handle_tunnel_creation get_tunnel_obj has_tunnel_obj find put empty
    create_encap_tunnel_map ndi_db_ptr_get create_decap_tunnel_map create_tunnel
    create_tunnel_term_entry insert_tunnel_obj create_decap_tunnel_map_entry insert_decap_map_entry
    create_encap_tunnel_map_entry insert_encap_map_entry bridge_1d_tunnel_port_add
    create_bridge_port owner_of bring_up set_bridge_port_attribute insert_tunnel_bridge_port
handle_tunnel_creation_lem_example =
    handle_tunnel_creation_lem tunnel_calls 0 request no_tunnels refl

remove_remote_endpoint_lem_example :
    HasLeft tunnel_calls 0 there here 8
      (remove_remote_endpoint tunnel_calls 0 8
        (TunnelParam.remote_endpoint_addr 20 there ∷ TunnelParam.source_ip_addr 20 here ∷ [])
        9
        9
        whole_tunnel).1
unfolding remove_remote_endpoint read_addresses get_tunnel_obj find put empty
    bridge_1d_tunnel_delete delete_bridge_port ndi_db_ptr_get take_down set_bridge_port_attribute
    flush_bridge_port_entry remove_tunnel_bridge_port remove_encap_tunnel_map_entry
    remove_decap_map_entry remove_encap_map_entry is_empty erase remove_tunnel_term_entry
    remove_tunnel remove_decap_tunnel_map remove_encap_tunnel_map
remove_remote_endpoint_lem_example =
    remove_remote_endpoint_lem tunnel_calls 0 8
      (TunnelParam.remote_endpoint_addr 20 there ∷ TunnelParam.source_ip_addr 20 here ∷ []) there
      here 9 9 whole_tunnel refl refl

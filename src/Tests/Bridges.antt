-- ===== src/Tests/Bridges.antt =====
-- Bridges, on a switch that counts the objects that it makes.
use opx_nas_ndi.Base.{
  ℕ, suc, ◌≡◌, ◌≢◌, refl, true, false, none, some, [], arith, nat_key, nat_beq, if◌then◌else◌, ok,
}
use opx_nas_ndi.Base.Replies.{reply}
use opx_nas_ndi.Base.Table.{find, put, empty}
use opx_nas_ndi.Bridge.{BridgeApi, Bridges, PktType, brports_of, with_brports}
use opx_nas_ndi.Bridge.Creation.{IsGiven, Creates, create_bridge_port_lem}
use opx_nas_ndi.Bridge.Flooded.{flood_control_1d_bridge_older}
use opx_nas_ndi.Bridge.Flooding.{get_l2mc_id_1d, flood_control_1d_bridge}
use opx_nas_ndi.Bridge.Members.{
  blank, bridge_1d_member_lag_add, bridge_1d_member_lag_delete, router_bridge_port_delete_1d,
  create_bridge_port_1q, delete_bridge_port_1q,
}
use opx_nas_ndi.Bridge.Ports.{create_bridge_port}
use opx_nas_ndi.Bridge.Queries.{
  get_1d_bridge_port, get_1q_bridge_port, get_1q_sai_port, get_1d_router_bridge_port,
}
use opx_nas_ndi.Bridge.Subports.{
  AcceptsPorts, bridge_1d_member_lag_add_accepted, bridge_1d_member_lag_delete_lem,
  router_bridge_port_delete_1d_lem,
}
use opx_nas_ndi.Bridge.Switched.{create_bridge_port_1q_lem, delete_bridge_port_1q_lem}
use opx_nas_ndi.ObjCache.Brport.{BrportType, BrportObj, pv_key, no_brports, add_bridge_port}
use opx_nas_ndi.ObjCache.Brport.Consistency.{IsConsistent}
use opx_nas_ndi.ObjCache.Brport.Histories.{start, added, Reach-IsConsistent}
use opx_nas_ndi.Stg.{StpApi, SaiStpState}
use opx_nas_ndi.Tests.Vlans.{switch_api, before, before_db}

abbrev stp_calls : StpApi ℕ
stp_calls = record {
  create_stp = λ made. (reply (suc made), suc made);
  remove_stp = λ g made. (reply tt, made);
  create_stp_port = λ g b st made. (reply (suc made), suc made);
  remove_stp_port = λ p made. (reply tt, made);
  set_stp_port_state = λ p st made. (reply tt, made);
  get_stp_port_state = λ p made. reply SaiStpState.forwarding;
  get_stp_port_stp = λ p made. reply (7, 21);
  get_stp_port_count = λ g made. reply 0;
  get_stp_port_list = λ g room made. reply [];
  get_default_stp = λ made. reply 7;
  get_stp_vlan = λ g made. reply 1;
}

abbrev pub bridge_calls : BridgeApi ℕ
bridge_calls = record {
  stp = stp_calls;
  vlan = switch_api;
  create_bridge_1d = λ made. (reply (suc made), suc made);
  remove_bridge = λ br made. (reply tt, made);
  set_bridge_attribute = λ br attr made. (reply tt, made);
  create_bridge_port = λ t br owner attrs made. (reply (suc made), suc made);
  remove_bridge_port = λ b made. (reply tt, made);
  set_bridge_port_attribute = λ b attr made. (reply tt, made);
  get_fdb_learning_mode = λ b made. reply 0;
  flush_fdb_entries = λ b made. (reply tt, made);
  get_default_1q_bridge = λ made. reply 5;
  get_bridge_port_list = λ br room made. reply [];
  get_bridge_port_port = λ b made. reply 300;
  status_success = 0;
  status_failure = 1;
  port_type_port = 0;
  port_type_lag = 1;
  tagging_mode_tagged = 1;
  tagging_mode_untagged = 0;
  learning_mode_drop = 0;
  learning_mode_disable = 1;
  learning_mode_hw = 2;
  learning_mode_cpu_trap = 3;
  learning_mode_cpu_log = 4;
  flood_control_sub_ports = 0;
  flood_control_none = 1;
  flood_control_l2mc_group = 2;
  to_port = λ p. p;
  err_number = λ e. 1;
}

bridge_calls-AcceptsPorts : AcceptsPorts bridge_calls
bridge_calls-AcceptsPorts = record {
  creates = λ t br o attrs made. (suc made, refl);
  sets = λ b attr made. refl;
}

-- The LAG 300 with VLAN 10 as the untagged subport 41 of a bridge.
abbrev subport_41 : BrportObj
subport_41 = record (blank BrportType.subport_untag) {
  brport_obj_id = 41;
  port_obj_id = 300;
  port_type = 1;
  vlan_id = 10;
}

-- The port 301 as the port 42 of the 1Q bridge.
abbrev port_42 : BrportObj
port_42 = record (blank BrportType.port) { brport_obj_id = 42; port_obj_id = 301 }

abbrev router_43 : BrportObj
router_43 = record (blank BrportType.router_1d) { brport_obj_id = 43; rif_obj_id = 9 }

abbrev pub none_yet : Bridges ℕ
none_yet = record { vlans = before; default_1q_br_oid = 5; bcast_l2mc = put empty 8 77 }

abbrev with_one : BrportObj → Bridges ℕ
with_one o = with_brports (add_bridge_port (some o) no_brports).1 none_yet

create_bridge_port_lem_example :
    let (rc, out, s') = create_bridge_port bridge_calls 0 8 port_42 [] none_yet in
    Creates bridge_calls (IsGiven bridge_calls 8 port_42 [] none_yet) port_42 none_yet rc out s'
create_bridge_port_lem_example = create_bridge_port_lem bridge_calls 0 8 port_42 [] none_yet

bridge_1d_member_lag_add_accepted_example :
    let (rc, s') = bridge_1d_member_lag_add bridge_calls 0 8 300 10 false none_yet in
    (rc ≡ ok) × (get_1d_bridge_port 300 10 (brports_of s') ≢ none)
bridge_1d_member_lag_add_accepted_example =
    bridge_1d_member_lag_add_accepted bridge_calls 0 8 300 10 false none_yet
      bridge_calls-AcceptsPorts before_db

one_subport-IsConsistent : IsConsistent (brports_of (with_one subport_41))
unfolding find empty
one_subport-IsConsistent = Reach-IsConsistent (
    added subport_41 start refl
      (record { no_id = refl; no_port = λ f. absurd (ground arith); no_pv = λ _. refl }))

bridge_1d_member_lag_delete_lem_example :
    let (rc, s') = bridge_1d_member_lag_delete bridge_calls 0 300 10 9 (with_one subport_41) in
    IsConsistent (brports_of s')
    × (rc ≡ ok
        → (get_1d_bridge_port 300 10 (brports_of s') ≡ none)
          × (get_1q_sai_port 41 (brports_of s') ≡ none))
    × (rc ≢ ok → brports_of s' ≡ brports_of (with_one subport_41))
unfolding add_bridge_port find put empty
bridge_1d_member_lag_delete_lem_example =
    bridge_1d_member_lag_delete_lem bridge_calls 0 9 subport_41 (with_one subport_41)
      one_subport-IsConsistent refl refl

router_bridge_port_delete_1d_lem_example :
    let (rc, s') = router_bridge_port_delete_1d bridge_calls 0 9 1234 (with_one router_43) in
    (rc ≡ ok
      → get_1d_router_bridge_port 9 (brports_of s') ≡ (
          if nat_beq 1234 9
          then none
          else get_1d_router_bridge_port 9 (brports_of (with_one router_43))))
    × (rc ≢ ok → brports_of s' ≡ brports_of (with_one router_43))
router_bridge_port_delete_1d_lem_example =
    router_bridge_port_delete_1d_lem bridge_calls 0 9 1234 (with_one router_43)

create_bridge_port_1q_lem_example :
    let (rc, s') = create_bridge_port_1q bridge_calls 0 301 false none_yet in
    (rc ≡ ok
      → (oid : ℕ) × (get_1q_bridge_port 301 (brports_of s') ≡ some oid)
        × (get_1q_sai_port oid (brports_of s') ≡ some 301))
    × (rc ≢ ok → brports_of s' ≡ brports_of none_yet)
create_bridge_port_1q_lem_example = create_bridge_port_1q_lem bridge_calls 0 301 false none_yet

one_port-IsConsistent : IsConsistent (brports_of (with_one port_42))
unfolding find empty
one_port-IsConsistent = Reach-IsConsistent (
    added port_42 start refl
      (record { no_id = refl; no_port = λ _. refl; no_pv = λ f. absurd (ground arith) }))

delete_bridge_port_1q_lem_example :
    let (rc, s') = delete_bridge_port_1q bridge_calls 0 301 9 (with_one port_42) in
    IsConsistent (brports_of s')
    × (rc ≡ ok
        → (b : ℕ) × (get_1q_bridge_port 301 (brports_of (with_one port_42)) ≡ some b)
          × (get_1q_bridge_port 301 (brports_of s') ≡ none)
          × (get_1q_sai_port b (brports_of s') ≡ none))
    × (rc ≢ ok → brports_of s' ≡ brports_of (with_one port_42))
delete_bridge_port_1q_lem_example =
    delete_bridge_port_1q_lem bridge_calls 0 301 9 (with_one port_42) one_port-IsConsistent

flood_control_1d_bridge_older_example :
    get_l2mc_id_1d 8 (flood_control_1d_bridge bridge_calls 0 8 78 PktType.all true none_yet).1
    ≡ (ok, some 77)
unfolding get_l2mc_id_1d find put empty
flood_control_1d_bridge_older_example =
    flood_control_1d_bridge_older bridge_calls 0 8 78 77 PktType.all none_yet refl

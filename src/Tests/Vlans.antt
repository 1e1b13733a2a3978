-- ===== src/Tests/Vlans.antt =====
-- VLANs, on a switch that counts the objects that it makes.
use opx_nas_ndi.Base.{
  ℕ, suc, ◌≡◌, ◌≢◌, refl, true, false, none, some, [], ◌∷◌, arith, nat_key, ok, StdError,
}
use opx_nas_ndi.Base.Replies.{reply}
use opx_nas_ndi.Base.Table.{find, put, empty}
use opx_nas_ndi.NdiMap.{MapData, map_key_test, map_insert}
use opx_nas_ndi.NpuDb.{ndi_db_ptr_get}
use opx_nas_ndi.ObjCache.Brport.{BrportType, BrportObj, no_brports}
use opx_nas_ndi.Vlan.{VlanApi, Vlans, no_db, get_sai_vlan_obj_id}
use opx_nas_ndi.Vlan.Defaults.{vlan_delete_default_member_brports}
use opx_nas_ndi.Vlan.Joining.{NonNullMembers, Joins, add_port_to_vlan_lem}
use opx_nas_ndi.Vlan.Leaving.{Leaves, del_port_from_vlan_lem, add_port_to_vlan_stale}
use opx_nas_ndi.Vlan.Members.{add_vlan_member_to_cache, get_vlan_member_info_from_cache}
use opx_nas_ndi.Vlan.Membership.{IsSingle}
use opx_nas_ndi.Vlan.Naming.{IsNamed, FreshVlan, create_vlan_lem, delete_vlan_lem}
use opx_nas_ndi.Vlan.Objects.{create_vlan, delete_vlan, mac_get_vlan_oid}
use opx_nas_ndi.Vlan.Ports.{
  add_port_to_vlan, del_port_from_vlan, add_or_del_ports_to_vlan, add_lag_to_vlan,
  del_lag_from_vlan,
}
use opx_nas_ndi.Vlan.Turns.{Keeps, IsReady, add_or_del_ports_to_vlan-IsReady}

-- The state of the switch is the number of objects made.
abbrev pub switch_api : VlanApi ℕ
switch_api = record {
  create_vlan = λ v made. (reply (suc made), suc made);
  remove_vlan = λ oid made. (reply tt, made);
  set_vlan_attribute = λ oid attr made. (reply tt, made);
  get_vlan_id = λ oid made. reply 1;
  get_member_count = λ oid made. reply 1;
  get_member_list = λ oid room made. reply (50 ∷ []);
  create_vlan_member = λ vlan brport mode made. (reply (suc made), suc made);
  remove_vlan_member = λ member made. (reply tt, made);
  set_tagging_mode = λ member mode made. (reply tt, made);
  get_member_brport = λ member made. reply 21;
  get_default_vlan = λ made. reply 7;
  flush_dynamic_fdb_entries = λ oid made. (reply tt, made);
  tagging_mode_tagged = 1;
  tagging_mode_untagged = 0;
  status_failure = 1;
  status_not_implemented = 15;
  status_attr_not_implemented_0 = 65536;
  mcast_lookup_key_mac_da = 0;
  mcast_lookup_key_xg = 1;
  mcast_lookup_key_sg = 2;
  mcast_lookup_key_xg_and_sg = 3;
}

nonnull_members : NonNullMembers switch_api
nonnull_members = λ vlan brport mode made p h. ground (arith, h)

abbrev pub lag : BrportObj
lag = record {
  brport_obj_id = 21;
  port_obj_id = 300;
  port_type = 0;
  brport_type = BrportType.port;
  vlan_id = 0;
  rif_obj_id = 0;
}

-- A LAG that is the bridge port 21, VLAN 1 as the default VLAN, and no VLAN object.
abbrev pub before : Vlans ℕ
before = record {
  shared = record {
    map = empty;
    brports = record no_brports { port_to_brport = put empty 300 lag };
    ports = record { tbl = []; saiport = empty };
    db = record { base = 4096; entry_size = 8 };
    default_stg_id = 7;
    hw = 40;
  };
  vlan_map = empty;
  virtuals = record { vid_to_obj = empty; obj_to_vid = empty };
  default_vlan_id = 1;
}

pub before_db : no_db 0 before ≡ false
unfolding ndi_db_ptr_get
before_db = refl

no_members : IsSingle empty
unfolding find empty
no_members = record { single = λ id1 id2 l h. absurd (ground (arith, h)) }

no_names : IsNamed before.vlan_map before.virtuals
unfolding find empty
no_names = record {
  agree = λ v. refl;
  bijective = record {
    by_vid = λ v o h. absurd (ground (arith, h));
    by_oid = λ oid o h. absurd (ground (arith, h));
  };
  nonnull = λ v oid h. absurd (ground (arith, h));
}

fresh : FreshVlan switch_api 10 before
unfolding find empty
fresh = λ oid h. (ground (arith, h), refl)

-- The LAG is an untagged member of the default VLAN, whose object is 7.
abbrev default_member : MapData
default_member = record { val1 = 50; val2 = 0 }

abbrev joined : Vlans ℕ
joined = record before {
  shared = record before.shared { map = (add_vlan_member_to_cache 0 1 300 50 0 empty).1 };
  vlan_map = put empty 1 7;
}

add_port_to_vlan_lem_example :
    (rc : StdError) × (s' : Vlans ℕ) × (add_port_to_vlan switch_api 0 10 300 true before
      ≡ some (rc, s'))
    × Joins switch_api 0 10 300 1 before rc s'
add_port_to_vlan_lem_example =
    add_port_to_vlan_lem switch_api 0 10 300 true before nonnull_members before_db no_members

del_port_from_vlan_lem_example :
    (rc : StdError) × (s' : Vlans ℕ) × (del_port_from_vlan switch_api 0 10 300 before
      ≡ some (rc, s'))
    × Leaves switch_api 0 10 300 before rc s'
del_port_from_vlan_lem_example =
    del_port_from_vlan_lem switch_api 0 10 300 before before_db no_members

abbrev one_vlan : Vlans ℕ
one_vlan = record before { vlan_map = put empty 10 9 }

add_or_del_ports_to_vlan-IsReady_example :
    Keeps switch_api
      (IsReady switch_api 0)
      (add_or_del_ports_to_vlan switch_api 0 10 [] [] true one_vlan)
    × Keeps switch_api
        (IsReady switch_api 0)
        (add_lag_to_vlan switch_api 0 10 (300 ∷ []) (301 ∷ []) one_vlan)
    × Keeps switch_api
        (IsReady switch_api 0)
        (del_lag_from_vlan switch_api 0 10 (300 ∷ []) (301 ∷ []) one_vlan)
add_or_del_ports_to_vlan-IsReady_example =
    add_or_del_ports_to_vlan-IsReady switch_api nonnull_members 0 10 [] [] (300 ∷ []) (301 ∷ [])
      true one_vlan (before_db, no_members)

add_port_to_vlan_stale_example :
    let s' = (vlan_delete_default_member_brports switch_api 0 21 false joined).1 in
    add_port_to_vlan switch_api 0 1 300 false s' ≡ some (ok, s')
unfolding add_vlan_member_to_cache map_insert find put empty ndi_db_ptr_get
    get_vlan_member_info_from_cache
add_port_to_vlan_stale_example =
    add_port_to_vlan_stale switch_api 0 300 21 false false default_member joined before_db refl
      (ground arith) refl

create_vlan_lem_example :
    (rc : StdError) × (s' : Vlans ℕ) × (create_vlan switch_api 0 10 before ≡ some (rc, s'))
    × IsNamed s'.vlan_map s'.virtuals
    × (rc ≡ ok
        → (get_sai_vlan_obj_id 10 s' ≢ 0)
          × (mac_get_vlan_oid 10 s'.virtuals ≡ some (get_sai_vlan_obj_id 10 s')))
create_vlan_lem_example = create_vlan_lem switch_api 0 10 before before_db fresh no_names

delete_vlan_lem_example :
    (rc : StdError) × (s' : Vlans ℕ) × (delete_vlan switch_api 0 10 before ≡ some (rc, s'))
    × IsNamed s'.vlan_map s'.virtuals
    × (rc ≡ ok → (get_sai_vlan_obj_id 10 s' ≡ 0) × (mac_get_vlan_oid 10 s'.virtuals ≡ none))
    × (rc ≢ ok → get_sai_vlan_obj_id 10 s' ≡ get_sai_vlan_obj_id 10 before)
delete_vlan_lem_example = delete_vlan_lem switch_api 0 10 before before_db no_names

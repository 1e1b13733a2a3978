-- ===== src/Tests/Groups.antt =====
-- The spanning tree groups, on a switch that keeps the states of its STP ports.
use opx_nas_ndi.Base.{
  ℕ, suc, ◌≡◌, refl, false, some, [], ◌∷◌, arith, nat_key, nat_beq, if◌then◌else◌, ok,
}
use opx_nas_ndi.Base.Replies.{reply}
use opx_nas_ndi.Base.Table.{find, put, empty}
use opx_nas_ndi.NdiMap.{NdiMap, map_key_test, map_insert, copy_from}
use opx_nas_ndi.NpuDb.{ndi_db_ptr_get}
use opx_nas_ndi.ObjCache.Brport.{BrportType, BrportObj, no_brports, get_brport_block, block_of}
use opx_nas_ndi.Stg.{Stg, StpApi, StgState, SaiStpState, stp_get_sai_state}
use opx_nas_ndi.Stg.Agreement.{IsIndexed, add_port_to_cache-IsIndexed}
use opx_nas_ndi.Stg.Bulk.{delete_port_stp_ports}
use opx_nas_ndi.Stg.Cache.{stg_get_brport, get_stp_port_id_from_cache, add_port_to_cache}
use opx_nas_ndi.Stg.Emptying.{delete_port_stp_ports_lem}
use opx_nas_ndi.Stg.Deletion.{stg_delete-IsIndexed}
use opx_nas_ndi.Stg.Index.{stps_of}
use opx_nas_ndi.Stg.Ports.{
  no_db, stg_delete, set_stp_port_state_internal, set_brport_state, set_stp_lag_state,
  get_stp_lag_state,
}
use opx_nas_ndi.Stg.States.{KeepsState, on_switch, get_stp_lag_state-set}

-- The number of STP ports made, and the state of each.
record Chip : Type 0 where
  made : ℕ
  state : ℕ → SaiStpState

abbrev chip_api : StpApi Chip
chip_api = record {
  create_stp = λ hw. (reply 7, hw);
  remove_stp = λ g hw. (reply tt, hw);
  create_stp_port = λ g b st hw. (
    reply (suc hw.made),
    record { made = suc hw.made; state = λ q. if nat_beq q (suc hw.made) then st else hw.state q },
  );
  remove_stp_port = λ p hw. (reply tt, hw);
  set_stp_port_state = λ p st hw.
      (reply tt, record { made = hw.made; state = λ q. if nat_beq q p then st else hw.state q });
  get_stp_port_state = λ p hw. reply (hw.state p);
  get_stp_port_stp = λ p hw. reply (7, 21);
  get_stp_port_count = λ g hw. reply hw.made;
  get_stp_port_list = λ g room hw. reply (1 ∷ []);
  get_default_stp = λ hw. reply 7;
  get_stp_vlan = λ g hw. reply 1;
}

chip_api-KeepsState : KeepsState chip_api
chip_api-KeepsState = record {
  created = λ g b st hw p h. ground (arith, h);
  changed = λ p st hw h. ground (arith, h);
}

nothing-IsIndexed : IsIndexed empty
unfolding find empty
nothing-IsIndexed = record {
  single = λ t b l h. absurd (ground (arith, h));
  back = λ b p t h. absurd (ground (arith, h));
  distinct = λ b. tt;
}

-- STP port 1 of group 7 on bridge port 21.
abbrev one_port : NdiMap
one_port = (add_port_to_cache 7 21 1 empty).1

one_port-IsIndexed : IsIndexed one_port
unfolding find empty
one_port-IsIndexed =
    add_port_to_cache-IsIndexed 7 21 1 empty nothing-IsIndexed refl refl (ground arith)

abbrev lag_port : BrportObj
lag_port = record {
  brport_obj_id = 21;
  port_obj_id = 300;
  port_type = 0;
  brport_type = BrportType.port;
  vlan_id = 0;
  rif_obj_id = 0;
}

abbrev start : Stg Chip
start = record {
  map = one_port;
  brports = record no_brports { port_to_brport = put empty 300 lag_port };
  ports = record { tbl = []; saiport = empty };
  db = record { base = 4096; entry_size = 8 };
  default_stg_id = 7;
  hw = record { made = 1; state = λ q. SaiStpState.forwarding };
}

start_db : no_db chip_api 0 start ≡ false
unfolding ndi_db_ptr_get
start_db = refl

add_port_to_cache-IsIndexed_example : IsIndexed one_port
unfolding find empty
add_port_to_cache-IsIndexed_example =
    add_port_to_cache-IsIndexed 7 21 1 empty nothing-IsIndexed refl refl (ground arith)

stg_delete-IsIndexed_example :
    IsIndexed (stg_delete chip_api 0 7 start).1.map
    × IsIndexed (delete_port_stp_ports chip_api 0 21 start).1.map
stg_delete-IsIndexed_example = stg_delete-IsIndexed chip_api 0 7 21 start one_port-IsIndexed

delete_port_stp_ports_lem_example :
    let (rc, s') = delete_port_stp_ports chip_api 0 21 start in
    (rc ≡ ok) × (stps_of s'.map 21 ≡ []) × ((t : ℕ) → get_stp_port_id_from_cache t 21 s'.map ≡ 0)
delete_port_stp_ports_lem_example =
    delete_port_stp_ports_lem chip_api 0 21 start (λ p hw. refl) start_db one_port-IsIndexed

get_stp_lag_state-set_example :
    get_stp_lag_state chip_api 0 7 300
      (set_stp_lag_state chip_api 0 7 300 StgState.listening start).1
    ≡ (ok, some (on_switch StgState.listening))
unfolding stg_get_brport get_brport_block block_of find put empty set_stp_lag_state set_brport_state
    set_stp_port_state_internal get_stp_port_id_from_cache add_port_to_cache map_insert
    stp_get_sai_state ndi_db_ptr_get copy_from
get_stp_lag_state-set_example =
    get_stp_lag_state-set chip_api 0 7 300 21 StgState.listening start chip_api-KeepsState
      one_port-IsIndexed refl refl

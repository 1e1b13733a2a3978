-- ===== src/Tests/Caches.antt =====
-- The object caches, at the objects of src/unit_test/nas_ndi_obj_cache_ut.cpp.
use opx_nas_ndi.Base.{
  ◌≡◌, refl, true, false, none, some, [], ◌∷◌, arith, nat_key, nat_beq, if◌then◌else◌, any,
  drop_first,
}
use opx_nas_ndi.Base.Table.{find, put, empty}
use opx_nas_ndi.ObjCache.Virtual.{VirtualObj, VirtualCache, no_virtual_objs, add_virtual_obj}
use opx_nas_ndi.ObjCache.Virtual.Bijection
use opx_nas_ndi.ObjCache.Slave.{Slave, SlaveType, SlaveObj, remove_brport_slave, has_oid}
use opx_nas_ndi.ObjCache.Slave.Lists
use opx_nas_ndi.ObjCache.Slave.Lists.{slaves_of, NoEmptyList}
use opx_nas_ndi.ObjCache.Brport.{
  BrportType, BrportQuery, BrportObj, BrportCache, no_brports, add_bridge_port, remove_bridge_port,
  get_brport_block, get_brport_list, brports_at, block_of, pv_key,
}
use opx_nas_ndi.ObjCache.Brport.Queries.{answers}
use opx_nas_ndi.ObjCache.Brport.Removal.{IsFresh, remove_bridge_port-add_bridge_port}
use opx_nas_ndi.ObjCache.Brport.Consistency.{is_id, IsConsistent}
use opx_nas_ndi.ObjCache.Brport.Histories.{
  Reach, start, added, Reach-IsConsistent, remove_bridge_port_reachable, remove_bridge_port_partial,
}

abbrev vlan10 : VirtualObj
vlan10 = record { oid = 0xffff; vid = 10 }

one_vlan : VirtualCache
unfolding add_virtual_obj put empty
one_vlan = (add_virtual_obj (some vlan10) no_virtual_objs).1

one_vlan-Reach : Bijection.Reach one_vlan
unfolding one_vlan find
one_vlan-Reach = Bijection.added vlan10 Bijection.start refl refl

Reach-IsBijective_example : Bijection.IsBijective one_vlan
Reach-IsBijective_example = Bijection.Reach-IsBijective one_vlan-Reach

abbrev member : Slave
member = record { slave_oid = 77; slave_type = SlaveType.vlan }

abbrev member_of_201 : SlaveObj
member_of_201 = record { master_oid = 201; slave = member }

remove_brport_slave_lem_example :
    let (found, c') = remove_brport_slave (some member_of_201) empty in
    (found ≡ any (has_oid 77) (slaves_of empty 201))
    × (slaves_of c' 202 ≡ (
        if nat_beq 201 202
        then drop_first (has_oid 77) (slaves_of empty 202)
        else slaves_of empty 202))
remove_brport_slave_lem_example = Lists.remove_brport_slave_lem member_of_201 empty 202

abbrev port_obj1 : BrportObj
port_obj1 = record {
  brport_obj_id = 100;
  port_obj_id = 4098;
  port_type = 0;
  brport_type = BrportType.port;
  vlan_id = 0;
  rif_obj_id = 0;
}

abbrev subport_obj1 : BrportObj
subport_obj1 = record {
  brport_obj_id = 201;
  port_obj_id = 4098;
  port_type = 0;
  brport_type = BrportType.subport_untag;
  vlan_id = 301;
  rif_obj_id = 0;
}

one_port : BrportCache
unfolding add_bridge_port put empty
one_port = (add_bridge_port (some port_obj1) no_brports).1

two_brports : BrportCache
unfolding one_port
two_brports = (add_bridge_port (some subport_obj1) one_port).1

two_brports-Reach : Reach two_brports
unfolding two_brports find
two_brports-Reach =
    added subport_obj1
      (added port_obj1 start refl
        (record { no_id = refl; no_port = λ _. refl; no_pv = λ f. absurd (ground arith) }))
      refl (record { no_id = refl; no_port = λ f. absurd (ground arith); no_pv = λ _. refl })

brport_Reach-IsConsistent_example : IsConsistent two_brports
brport_Reach-IsConsistent_example = Reach-IsConsistent two_brports-Reach

remove_bridge_port_reachable_example :
    let (found, out, c') = remove_bridge_port (some subport_obj1) two_brports in
    (found ≡ true)
    × (out ≡ some subport_obj1)
    × (get_brport_block (some subport_obj1) BrportQuery.from_brport c' ≡ (false, some subport_obj1))
    × (brports_at c' 4098 ≡ drop_first (is_id 201) (brports_at two_brports 4098))
    × (any (is_id 201) (brports_at c' 4098) ≡ false)
unfolding two_brports get_brport_block find
remove_bridge_port_reachable_example =
    remove_bridge_port_reachable subport_obj1 subport_obj1 two_brports two_brports-Reach refl
      (refl, refl, refl) (λ _. refl)

abbrev wrong_vlan : BrportObj
wrong_vlan = record subport_obj1 { vlan_id = 302 }

remove_bridge_port_partial_example :
    let (found, _, c') = remove_bridge_port (some wrong_vlan) two_brports in
    (found ≡ false)
    × (get_brport_block (some wrong_vlan) BrportQuery.from_brport c' ≡ (false, some wrong_vlan))
    × (get_brport_block (some subport_obj1) BrportQuery.from_port_vlan c'
        ≡ (true, some subport_obj1))
    × (¬ IsConsistent c')
unfolding two_brports get_brport_block find
remove_bridge_port_partial_example =
    remove_bridge_port_partial wrong_vlan subport_obj1 two_brports two_brports-Reach refl refl refl
      refl

subport_obj1-IsFresh : IsFresh subport_obj1 one_port
unfolding one_port find block_of
subport_obj1-IsFresh = record {
  unbound = λ q h.
      elim q
          as (λ q'.
            answers BrportType.subport_untag q' ≡ true → block_of subport_obj1 q' one_port ≡ none) [
              | BrportQuery.from_port ↦ λ f. absurd (ground arith)
              | BrportQuery.from_brport ↦ λ f. refl
              | BrportQuery.from_port_vlan ↦ λ f. refl
              | BrportQuery.from_rif ↦ λ f. absurd (ground arith)
              | BrportQuery.other ↦ λ f. refl
            ]
        h;
  unlisted = refl;
  nonempty = λ f. absurd (ground arith);
}

remove_bridge_port-add_bridge_port_example :
    let (found, out, c') =
      remove_bridge_port (some subport_obj1) (add_bridge_port (some subport_obj1) one_port).1 in
    (found ≡ true)
    × (out ≡ some subport_obj1)
    × (get_brport_block (some port_obj1) BrportQuery.from_port c'
        ≡ get_brport_block (some port_obj1) BrportQuery.from_port one_port)
    × (get_brport_list 4098 [] c' ≡ get_brport_list 4098 [] one_port)
remove_bridge_port-add_bridge_port_example =
    remove_bridge_port-add_bridge_port subport_obj1 one_port port_obj1 BrportQuery.from_port 4098 []
      subport_obj1-IsFresh

-- The queries of the unit test.
query_port :
    get_brport_block (some port_obj1) BrportQuery.from_port two_brports ≡ (true, some port_obj1)
unfolding two_brports get_brport_block find
query_port = refl

query_list : get_brport_list 4098 [] two_brports ≡ (true, 100 ∷ 201 ∷ [])
unfolding two_brports get_brport_list find
query_list = refl

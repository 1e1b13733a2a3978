-- ===== src/Tests/Routers.antt =====
-- Router interfaces, on a switch that counts the objects that it makes.
use opx_nas_ndi.Base.{
  ℕ, suc, ◌≡◌, refl, Bool, true, false, Option, none, some, arith, nat_key, StdError, ok, [], ◌∷◌,
}
use opx_nas_ndi.Base.Replies.{reply, failed}
use opx_nas_ndi.NpuDb.{ndi_db_ptr_get}
use opx_nas_ndi.Bridge.Members.{router_bridge_port_delete_1d}
use opx_nas_ndi.Bridge.Queries.{get_1d_router_bridge_port}
use opx_nas_ndi.ObjCache.Brport.{get_brport_block}
use opx_nas_ndi.Base.Table.{find, put, empty}
use opx_nas_ndi.RifCache.{
  Attachment, RifInst, rif_key_test, rif_entry_db_key_gen, create_rif, rif_ref,
}
use opx_nas_ndi.RifCache.Inverse.{IsInverse, start, create_rif-IsInverse, Reach-IsInverse}
use opx_nas_ndi.RouterInterface.{RifRequest, RifAttr, RifApi, Rifs, update_attribute, new_attrs}
use opx_nas_ndi.RouterInterface.Operations.{rif_create, rif_delete}
use opx_nas_ndi.RouterInterface.Creation.{Returns, rif_create_lem}
use opx_nas_ndi.RouterInterface.Deletion.{Deletes, rif_delete_lem}
use opx_nas_ndi.RouterInterface.Updates.{
  AcceptsAttributes, update_attribute_ends, update_attribute_stuck,
}
use opx_nas_ndi.Tests.Bridges.{bridge_calls, none_yet}

abbrev rif_calls : RifApi ℕ
rif_calls = record {
  bridge = bridge_calls;
  create_router_interface = λ vrf owner attrs made. (reply (suc made), suc made);
  remove_router_interface = λ rif made. (failed 5, made);
  set_router_interface_attribute = λ rif attr made. (reply tt, made);
}

-- The MTU and one IPv4 state are to be set, with another flag or without.
abbrev request : Bool → RifRequest
request stray_flag = record {
  entry = record {
    npu_id = 0;
    vrf_id = 1;
    attachment = Attachment.vlan 10;
    is_virtual = false;
    src_mac = 99;
    rif_id = 0;
  };
  flags = record {
    admin_v4_state = true;
    admin_v6_state = false;
    src_mac_address = false;
    mtu = true;
    pimv2_state = false;
    pimv6_state = false;
    other = stray_flag;
  };
  v4_admin_state = true;
  v6_admin_state = false;
  pimv2_state = false;
  pimv6_state = false;
  mtu = 1500;
}

abbrev held : RifInst
held = record { key = rif_entry_db_key_gen (request false).entry; ref_cnt = 1 }

-- The interface 600 with one reference.
abbrev one_rif : Rifs ℕ
one_rif = record {
  bridges = none_yet;
  cache = record { by_key = put empty held.key 600; by_id = put empty 600 held };
}

attributes_in_order :
    new_attrs (request false) ≡ RifAttr.admin_v4_state true ∷ RifAttr.mtu 1500 ∷ []
attributes_in_order = refl

rif_calls-AcceptsAttributes : AcceptsAttributes rif_calls (request true) 600
unfolding AcceptsAttributes
rif_calls-AcceptsAttributes = λ a made. refl

rif_create_lem_example :
    (res : Option (StdError × Option ℕ × Rifs ℕ)) × (rif_create rif_calls 6
        (request false)
        0
        one_rif
      ≡ some res)
    × Returns rif_calls (request false) one_rif.cache res
unfolding ndi_db_ptr_get
rif_create_lem_example =
    rif_create_lem rif_calls (request false) 6 0 one_rif refl refl (ground arith)

update_attribute_ends_example :
    (rc : StdError) × (s' : Rifs ℕ) × (update_attribute rif_calls 6 (request false) 600 one_rif
      ≡ some (some (rc, s')))
    × (s'.cache ≡ one_rif.cache)
unfolding ndi_db_ptr_get
update_attribute_ends_example =
    update_attribute_ends rif_calls (request false) 600 6 one_rif refl refl (ground arith)

update_attribute_stuck_example : update_attribute rif_calls 1000 (request true) 600 one_rif ≡ none
unfolding ndi_db_ptr_get
update_attribute_stuck_example =
    update_attribute_stuck rif_calls (request true) 600 1000 one_rif rif_calls-AcceptsAttributes
      refl refl (ground arith)

one_rif-IsInverse : IsInverse one_rif.cache
unfolding find empty create_rif
one_rif-IsInverse =
    create_rif-IsInverse (record (request false).entry { rif_id = 600 })
      (record { by_key = empty; by_id = empty }) one_rif.cache
      (Reach-IsInverse (record { by_key = empty; by_id = empty }) start) refl refl

-- The switch refuses to remove the interface, and the answer is success.
refused_but_ok :
    rif_delete rif_calls 0 600 0 one_rif
    ≡ some (
      ok,
      record one_rif { cache = record one_rif.cache { by_id = put one_rif.cache.by_id 600 held } },
    )
unfolding rif_delete ndi_db_ptr_get rif_ref find put router_bridge_port_delete_1d
    get_1d_router_bridge_port get_brport_block empty
refused_but_ok = refl

rif_delete_lem_example :
    (rc : StdError) × (s' : Rifs ℕ) × (rif_delete rif_calls 0 600 0 one_rif ≡ some (rc, s'))
    × Deletes rif_calls 0 600 0 held one_rif rc s'
unfolding ndi_db_ptr_get find put empty
rif_delete_lem_example =
    rif_delete_lem rif_calls 0 600 0 held one_rif refl one_rif-IsInverse refl (ground arith)
      (ground arith)

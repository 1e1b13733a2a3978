-- ===== src/ObjCache/Brport/Queries.antt =====
-- What the queries of the bridge port cache answer after a bridge port is added.
use opx_nas_ndi.Base.{
  ℕ, ◌≡◌, Bool, true, false, ◌&&◌, some, [], ◌∷◌, ◌++◌, arith, nat_key, ◌==◌, if◌then◌else◌,
}
use opx_nas_ndi.Base.Table.{find-put}
use opx_nas_ndi.ObjCache.Brport.{
  BrportType, BrportQuery, BrportObj, BrportCache, pv_key, pv_of, is_1d_router, block_of,
  get_brport_block, brports_at, add_bridge_port,
}

-- The queries that a bridge port of a type answers.
abbrev pub answers : BrportType → BrportQuery → Bool
answers BrportType.router_1d BrportQuery.from_rif = true
answers BrportType.router_1d _ = false
answers BrportType.port BrportQuery.from_port = true
answers BrportType.subport_tag BrportQuery.from_port_vlan = true
answers BrportType.subport_untag BrportQuery.from_port_vlan = true
answers _ BrportQuery.from_brport = true
answers _ _ = false

-- Whether two objects have the same key for a query.
abbrev pub same_key : BrportQuery → BrportObj → BrportObj → Bool
same_key BrportQuery.from_port a b = a.port_obj_id == b.port_obj_id
same_key BrportQuery.from_brport a b = a.brport_obj_id == b.brport_obj_id
same_key BrportQuery.from_port_vlan a b = pv_of a == pv_of b
same_key BrportQuery.from_rif a b = a.rif_obj_id == b.rif_obj_id
same_key BrportQuery.other a b = false

module _ (obj asked : BrportObj) (c : BrportCache) where
  pub block_of-add_bridge_port :
      (q : BrportQuery)
      → block_of asked q (add_bridge_port (some obj) c).1 ≡ (
          if answers obj.brport_type q && same_key q obj asked
          then some obj
          else block_of asked q c)
  unfolding block_of add_bridge_port
  block_of-add_bridge_port BrportQuery.from_port =
      ground (arith, find-put c.port_to_brport obj.port_obj_id obj asked.port_obj_id)
  block_of-add_bridge_port BrportQuery.from_brport =
      ground (arith, find-put c.brport_to_port obj.brport_obj_id obj asked.brport_obj_id)
  block_of-add_bridge_port BrportQuery.from_port_vlan =
      ground (arith, find-put c.pv_to_brport (pv_of obj) obj (pv_of asked))
  block_of-add_bridge_port BrportQuery.from_rif =
      ground (arith, find-put c.rif_to_brport obj.rif_obj_id obj asked.rif_obj_id)
  block_of-add_bridge_port BrportQuery.other = ground arith

  -- A query answers the object just added exactly if the object's type answers that query and the
  -- keys agree; every other query answers as before.
  pub get_brport_block-add_bridge_port :
      (q : BrportQuery)
      → get_brport_block (some asked) q (add_bridge_port (some obj) c).1 ≡ (
          if answers obj.brport_type q && same_key q obj asked
          then (true, some obj)
          else get_brport_block (some asked) q c)
  unfolding get_brport_block
  get_brport_block-add_bridge_port q = ground (arith, block_of-add_bridge_port q)

-- The list of a port grows at its end by each bridge port that is no 1D router port.
pub brports_at-add_bridge_port :
    (obj : BrportObj) (c : BrportCache) (p : ℕ)
    → brports_at (add_bridge_port (some obj) c).1 p ≡ (
        if is_1d_router obj.brport_type
        then brports_at c p
        else if obj.port_obj_id == p
        then brports_at c p ++ obj.brport_obj_id ∷ []
        else brports_at c p)
unfolding add_bridge_port
brports_at-add_bridge_port obj c p = ground (
  arith,
  find-put c.port_to_brport_list obj.port_obj_id
      (brports_at c obj.port_obj_id ++ obj.brport_obj_id ∷ []) p,
)

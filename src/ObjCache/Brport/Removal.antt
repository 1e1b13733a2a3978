-- ===== src/ObjCache/Brport/Removal.antt =====
-- Removing a bridge port that was just added restores the cache.
use opx_nas_ndi.Base.{
  ℕ, ◌≡◌, refl, ◌≢◌, Bool, true, false, none, some, List, [], ◌∷◌, ◌++◌, arith, nat_key, ◌==◌,
  if◌then◌else◌, any, drop_first-append, any-append, beq_refl,
}
use opx_nas_ndi.Base.Table.{Table, find, put, erase, find-put, find-erase, find-put_self}
use opx_nas_ndi.ObjCache.Brport.{
  BrportQuery, BrportObj, BrportCache, pv_key, pv_of, is_1d_router, is_port, is_subport, block_of,
  get_brport_block, get_brport_list, brports_at, add_bridge_port, remove_bridge_port, store_list,
}
use opx_nas_ndi.ObjCache.Brport.Queries.{answers}

-- No table binds the object's keys, its port does not list it, and its port has no empty list.
pub record IsFresh (obj : BrportObj) (c : BrportCache) : Type 0 where
  pub unbound : (q : BrportQuery) → answers obj.brport_type q ≡ true → block_of obj q c ≡ none
  pub unlisted : any (λ b. b == obj.brport_obj_id) (brports_at c obj.port_obj_id) ≡ false
  pub nonempty : find c.port_to_brport_list obj.port_obj_id ≢ some []

find-put-erase :
    {V : Type 0} (t : Table ℕ V) (k j : ℕ) (v : V)
    → find t k ≡ none
    → find (erase (put t k v) k) j ≡ find t j
find-put-erase t k j v h = ground (arith, find-erase (put t k v) k j, find-put t k v j)

abbrev listed : BrportObj → ℕ → Bool
listed obj b = b == obj.brport_obj_id

-- The tables after the two calls.
restored : BrportObj → BrportCache → BrportCache
restored obj c =
    if is_1d_router obj.brport_type
    then record c { rif_to_brport = erase (put c.rif_to_brport obj.rif_obj_id obj) obj.rif_obj_id }
    else record c {
      port_to_brport =
          if is_port obj.brport_type
          then erase (put c.port_to_brport obj.port_obj_id obj) obj.port_obj_id
          else c.port_to_brport;
      brport_to_port = erase (put c.brport_to_port obj.brport_obj_id obj) obj.brport_obj_id;
      pv_to_brport =
          if is_subport obj.brport_type
          then erase (put c.pv_to_brport (pv_of obj) obj) (pv_of obj)
          else c.pv_to_brport;
      port_to_brport_list =
          store_list
            (put c.port_to_brport_list obj.port_obj_id
              (brports_at c obj.port_obj_id ++ obj.brport_obj_id ∷ []))
            obj.port_obj_id (brports_at c obj.port_obj_id);
    }

module _ (obj : BrportObj) (c : BrportCache) (fresh : IsFresh obj c) where
  remove-restored :
      remove_bridge_port (some obj) (add_bridge_port (some obj) c).1
      ≡ (true, some obj, restored obj c)
  unfolding remove_bridge_port add_bridge_port restored
  remove-restored =
      let l = brports_at c obj.port_obj_id in
      let b = obj.brport_obj_id in
      ground (
        arith,
        find-put_self c.brport_to_port b obj,
        find-put_self c.port_to_brport obj.port_obj_id obj,
        find-put_self c.pv_to_brport (pv_of obj) obj,
        find-put_self c.rif_to_brport obj.rif_obj_id obj,
        find-put_self c.port_to_brport_list obj.port_obj_id (l ++ b ∷ []),
        any-append (listed obj) l b,
        beq_refl b,
        drop_first-append (listed obj) l b,
        fresh.unlisted,
      )

  restored-block_of :
      (asked : BrportObj) (q : BrportQuery) → block_of asked q (restored obj c) ≡ block_of asked q c
  unfolding restored block_of
  restored-block_of asked BrportQuery.from_port = ground (
    arith,
    find-put-erase c.port_to_brport obj.port_obj_id asked.port_obj_id obj,
    fresh.unbound BrportQuery.from_port,
  )
  restored-block_of asked BrportQuery.from_brport = ground (
    arith,
    find-put-erase c.brport_to_port obj.brport_obj_id asked.brport_obj_id obj,
    fresh.unbound BrportQuery.from_brport,
  )
  restored-block_of asked BrportQuery.from_port_vlan = ground (
    arith,
    find-erase (put c.pv_to_brport (pv_of obj) obj) (pv_of obj) (pv_of asked),
    find-put c.pv_to_brport (pv_of obj) obj (pv_of asked),
    fresh.unbound BrportQuery.from_port_vlan,
  )
  restored-block_of asked BrportQuery.from_rif = ground (
    arith,
    find-put-erase c.rif_to_brport obj.rif_obj_id asked.rif_obj_id obj,
    fresh.unbound BrportQuery.from_rif,
  )
  restored-block_of asked BrportQuery.other = refl

  restored-list :
      (p : ℕ) → find (restored obj c).port_to_brport_list p ≡ find c.port_to_brport_list p
  unfolding restored
  restored-list p =
      let k = obj.port_obj_id in
      let t = put c.port_to_brport_list k (brports_at c k ++ obj.brport_obj_id ∷ []) in
      ground (
        arith,
        find-erase t k p,
        find-put t k (brports_at c k) p,
        find-put c.port_to_brport_list k (brports_at c k ++ obj.brport_obj_id ∷ []) p,
        fresh.nonempty,
      )

-- Adding a bridge port whose keys are unbound and then removing it succeeds, hands back the same
-- object, and leaves every query and every list of bridge ports as it was before.
pub remove_bridge_port-add_bridge_port :
    (obj : BrportObj) (c : BrportCache) (asked : BrportObj) (q : BrportQuery) (p : ℕ)
    (list : List ℕ)
    → IsFresh obj c
    → let (found, out, c') = remove_bridge_port (some obj) (add_bridge_port (some obj) c).1 in
      (found ≡ true)
      × (out ≡ some obj)
      × (get_brport_block (some asked) q c' ≡ get_brport_block (some asked) q c)
      × (get_brport_list p list c' ≡ get_brport_list p list c)
unfolding get_brport_block get_brport_list
remove_bridge_port-add_bridge_port obj c asked q p list fresh = rw (remove-restored obj c fresh) (
  refl,
  refl,
  ground (arith, restored-block_of obj c fresh asked q),
  ground (arith, restored-list obj c fresh p),
)

-- ===== src/ObjCache/Brport/Consistency.antt =====
-- The tables of the bridge port cache agree: what is stored by id is listed once by its port and
-- found by port, or by port and VLAN, and nothing else is listed or found; by router interface only router
-- ports are found.
use opx_nas_ndi.Base.{
  ℕ, ◌≡◌, ◌≢◌, Bool, true, false, some, [], arith, nat_key, ◌==◌, if◌then◌else◌, any, drop_first,
}
use opx_nas_ndi.Base.Table.{find, erase}
use opx_nas_ndi.ObjCache.Brport.{
  BrportType, BrportObj, BridgePv, BrportCache, pv_key, pv_of, is_1d_router, is_port, is_subport,
  brports_at, remove_bridge_port, store_list,
}

abbrev pub is_id : ℕ → ℕ → Bool
is_id b x = x == b

-- What holds of a bridge port stored under an id.
pub record IsStored (c : BrportCache) (b : ℕ) (o : BrportObj) : Type 0 where
  pub same_id : o.brport_obj_id ≡ b
  pub not_router : is_1d_router o.brport_type ≡ false
  pub listed : any (is_id b) (brports_at c o.port_obj_id) ≡ true
  pub once : any (is_id b) (drop_first (is_id b) (brports_at c o.port_obj_id)) ≡ false
  pub at_port : is_port o.brport_type ≡ true → find c.port_to_brport o.port_obj_id ≡ some o
  pub at_pv : is_subport o.brport_type ≡ true → find c.pv_to_brport (pv_of o) ≡ some o

pub record IsConsistent (c : BrportCache) : Type 0 where
  pub stored : (b : ℕ) (o : BrportObj) → find c.brport_to_port b ≡ some o → IsStored c b o
  pub in_list :
      (p b : ℕ)
      → any (is_id b) (brports_at c p) ≡ true
      → (o : BrportObj) × (find c.brport_to_port b ≡ some o) × (o.port_obj_id ≡ p)
  pub in_ports :
      (p : ℕ) (o : BrportObj)
      → find c.port_to_brport p ≡ some o
      → (o.port_obj_id ≡ p)
        × (find c.brport_to_port o.brport_obj_id ≡ some o)
        × (is_port o.brport_type ≡ true)
  pub in_pvs :
      (k : BridgePv) (o : BrportObj)
      → find c.pv_to_brport k ≡ some o
      → (pv_of o ≡ k)
        × (find c.brport_to_port o.brport_obj_id ≡ some o)
        × (is_subport o.brport_type ≡ true)
  pub in_rifs :
      (r : ℕ) (o : BrportObj)
      → find c.rif_to_brport r ≡ some o
      → (o.rif_obj_id ≡ r) × (is_1d_router o.brport_type ≡ true)
  pub nonempty : (p : ℕ) → find c.port_to_brport_list p ≢ some []

-- The four tables without a stored bridge port.
unfoldable pub without : BrportObj → BrportCache → BrportCache
without o c = record c {
  port_to_brport =
      if is_port o.brport_type then erase c.port_to_brport o.port_obj_id else c.port_to_brport;
  brport_to_port = erase c.brport_to_port o.brport_obj_id;
  pv_to_brport =
      if is_subport o.brport_type then erase c.pv_to_brport (pv_of o) else c.pv_to_brport;
  port_to_brport_list =
      store_list c.port_to_brport_list o.port_obj_id
        (drop_first (is_id o.brport_obj_id) (brports_at c o.port_obj_id));
}

-- The removal of a tagged and of an untagged subport is the same.
abbrev pub RemovedAlike : BrportType → BrportType → Type 0
RemovedAlike a b =
    (is_1d_router a ≡ is_1d_router b) × (is_port a ≡ is_port b) × (is_subport a ≡ is_subport b)

-- In a consistent cache the removal of a stored bridge port always goes through: the caller names
-- its id, its type, tagged or not, and, for a subport, its VLAN, and gets the port that the cache knew.
pub remove_bridge_port_alike :
    (obj o : BrportObj) (c : BrportCache)
    → IsConsistent c
    → find c.brport_to_port obj.brport_obj_id ≡ some o
    → RemovedAlike obj.brport_type o.brport_type
    → (is_subport o.brport_type ≡ true → obj.vlan_id ≡ o.vlan_id)
    → remove_bridge_port (some obj) c
      ≡ (true, some (record obj { port_obj_id = o.port_obj_id }), without o c)
unfolding remove_bridge_port without
remove_bridge_port_alike obj o c h e t v =
    let s = h.stored obj.brport_obj_id o e in
    ground (arith, t, v, s.same_id, s.not_router, s.listed, s.at_port, s.at_pv)

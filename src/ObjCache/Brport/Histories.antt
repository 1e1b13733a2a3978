-- ===== src/ObjCache/Brport/Histories.antt =====
-- The caches that the program reaches, and what a removal does in them.
use opx_nas_ndi.Base.{
  ℕ, ◌≡◌, refl, true, false, none, false, some, List, arith, nat_key, any, drop_first, inl, inr,
  Option-cases, beq_refl,
}
use opx_nas_ndi.Base.Table.{
  Table, find, put, erase, find-empty, find-erase_self, find-put, find-erase,
}
use opx_nas_ndi.ObjCache.Brport.{
  BrportQuery, BrportObj, BrportCache, pv_key, is_1d_router, is_subport, no_brports, brports_at,
  get_brport_block, add_bridge_port, remove_bridge_port, store_list, pv_of,
}
use opx_nas_ndi.ObjCache.Brport.Consistency.{
  is_id, IsConsistent, RemovedAlike, without, remove_bridge_port_alike,
}
use opx_nas_ndi.ObjCache.Brport.Preservation.{without-IsConsistent, brports_at-without}
use opx_nas_ndi.ObjCache.Brport.Addition.{IsNew, added-IsConsistent}

no_brports-IsConsistent : IsConsistent no_brports
no_brports-IsConsistent = record {
  stored = λ b o h. absurd (ground (arith, h, find-empty {V = BrportObj} b));
  in_list = λ p b l. absurd (ground (arith, l, find-empty {V = List ℕ} p));
  in_ports = λ p o h. absurd (ground (arith, h, find-empty {V = BrportObj} p));
  in_pvs = λ k o h. absurd (ground (arith, h, find-empty {V = BrportObj} k));
  in_rifs = λ r o h. absurd (ground (arith, h, find-empty {V = BrportObj} r));
  nonempty = λ p. ground (arith, find-empty {V = List ℕ} p);
}

-- A caller adds a bridge port whose keys are not in use, or a 1D router port; it removes a stored bridge
-- port by its id, with its type, where a tagged and an untagged subport count as one, and for a subport
-- its VLAN, or it removes a 1D router port.
pub data Reach : BrportCache → Type 0 where
  start : Reach no_brports
  added :
      {c : BrportCache} (o : BrportObj)
      → Reach c
      → is_1d_router o.brport_type ≡ false
      → IsNew o c
      → Reach (add_bridge_port (some o) c).1
  added_router :
      {c : BrportCache} (o : BrportObj)
      → Reach c
      → is_1d_router o.brport_type ≡ true
      → Reach (add_bridge_port (some o) c).1
  removed :
      {c : BrportCache} (obj o : BrportObj)
      → Reach c
      → find c.brport_to_port obj.brport_obj_id ≡ some o
      → RemovedAlike obj.brport_type o.brport_type
      → (is_subport o.brport_type ≡ true → obj.vlan_id ≡ o.vlan_id)
      → Reach (remove_bridge_port (some obj) c).2
  removed_router :
      {c : BrportCache} (obj : BrportObj)
      → Reach c
      → is_1d_router obj.brport_type ≡ true
      → Reach (remove_bridge_port (some obj) c).2

-- Another table by router interface, of router ports alone under their keys, keeps the agreement.
rif_table-IsConsistent :
    (c : BrportCache) (t : Table ℕ BrportObj)
    → IsConsistent c
    → ((r : ℕ) (o : BrportObj)
        → find t r ≡ some o
        → (o.rif_obj_id ≡ r) × (is_1d_router o.brport_type ≡ true))
    → IsConsistent (record c { rif_to_brport = t })
rif_table-IsConsistent c t h rifs = record {
  stored = λ b p e.
      let s = h.stored b p e in
      record {
        same_id = s.same_id;
        not_router = s.not_router;
        listed = s.listed;
        once = s.once;
        at_port = s.at_port;
        at_pv = s.at_pv;
      };
  in_list = h.in_list;
  in_ports = h.in_ports;
  in_pvs = h.in_pvs;
  in_rifs = rifs;
  nonempty = h.nonempty;
}

added_router-IsConsistent :
    (o : BrportObj) (c : BrportCache)
    → IsConsistent c
    → is_1d_router o.brport_type ≡ true
    → IsConsistent (add_bridge_port (some o) c).1
unfolding add_bridge_port
added_router-IsConsistent o c h r =
    rw (r, add_bridge_port)
      (rif_table-IsConsistent c (put c.rif_to_brport o.rif_obj_id o) h
        (λ k x f. ground (arith, r, h.in_rifs k x, find-put c.rif_to_brport o.rif_obj_id o k)))

removed_router-IsConsistent :
    (o : BrportObj) (c : BrportCache)
    → IsConsistent c
    → is_1d_router o.brport_type ≡ true
    → IsConsistent (remove_bridge_port (some o) c).2
unfolding remove_bridge_port
removed_router-IsConsistent o c h r = elim (Option-cases (find c.rif_to_brport o.rif_obj_id)) [
  | inl e ↦ rw (r, e, remove_bridge_port) h
  | inr (x, e) ↦
      rw (r, e, remove_bridge_port)
        (rif_table-IsConsistent c (erase c.rif_to_brport o.rif_obj_id) h
          (λ k y f. ground (arith, h.in_rifs k y, find-erase c.rif_to_brport o.rif_obj_id k)))
]

removed-IsConsistent :
    (obj o : BrportObj) (c : BrportCache)
    → IsConsistent c
    → find c.brport_to_port obj.brport_obj_id ≡ some o
    → RemovedAlike obj.brport_type o.brport_type
    → (is_subport o.brport_type ≡ true → obj.vlan_id ≡ o.vlan_id)
    → IsConsistent (remove_bridge_port (some obj) c).2
removed-IsConsistent obj o c h e t v =
    let s = h.stored obj.brport_obj_id o e in
    rw (remove_bridge_port_alike obj o c h e t v)
      (without-IsConsistent o c h (ground (arith, s.same_id, e)))

-- In every bridge port cache reached by additions of bridge ports whose keys are not in use,
-- removals of stored bridge ports by id, type and, for a subport, VLAN, where a tagged and an
-- untagged subport count as one type, and any additions and removals of 1D router ports, the five
-- tables agree: a bridge port stored by id is no router port, is listed exactly once by its port,
-- and is found by port if it is a PORT and by port and VLAN if it is a subport; what is listed,
-- found by port or found by port and VLAN is stored, under its own port and VLAN and with the type
-- of that table; what is found by router interface is a router port of that interface; and no list
-- is empty.
pub Reach-IsConsistent : {c : BrportCache} → Reach c → IsConsistent c
Reach-IsConsistent start = no_brports-IsConsistent
Reach-IsConsistent (added {c = c} o r n new) = added-IsConsistent o c (Reach-IsConsistent r) new n
Reach-IsConsistent (added_router {c = c} o r n) =
    added_router-IsConsistent o c (Reach-IsConsistent r) n
Reach-IsConsistent (removed {c = c} obj o r e t v) =
    removed-IsConsistent obj o c (Reach-IsConsistent r) e t v
Reach-IsConsistent (removed_router {c = c} obj r n) =
    removed_router-IsConsistent obj c (Reach-IsConsistent r) n

-- In every bridge port cache reached by additions of bridge ports whose keys are not in use,
-- removals of stored bridge ports by id, type and, for a subport, VLAN, where a tagged and an
-- untagged subport count as one type, and any additions and removals of 1D router ports, a removal
-- that names such an id, type and VLAN of a bridge port that the query by id finds succeeds and
-- hands back its port; the query by id then fails, and the list of the port has lost the first
-- entry of the id and lists it no more.
pub remove_bridge_port_reachable :
    (obj o : BrportObj) (c : BrportCache)
    → Reach c
    → get_brport_block (some obj) BrportQuery.from_brport c ≡ (true, some o)
    → RemovedAlike obj.brport_type o.brport_type
    → (is_subport o.brport_type ≡ true → obj.vlan_id ≡ o.vlan_id)
    → let (found, out, c') = remove_bridge_port (some obj) c in
      (found ≡ true)
      × (out ≡ some (record obj { port_obj_id = o.port_obj_id }))
      × (get_brport_block (some obj) BrportQuery.from_brport c' ≡ (false, some obj))
      × (brports_at c' o.port_obj_id
          ≡ drop_first (is_id obj.brport_obj_id) (brports_at c o.port_obj_id))
      × (any (is_id obj.brport_obj_id) (brports_at c' o.port_obj_id) ≡ false)
unfolding get_brport_block without
remove_bridge_port_reachable obj o c r q t v =
    let h = Reach-IsConsistent r in
    let e : find c.brport_to_port obj.brport_obj_id ≡ some o = ground arith in
    let s = h.stored obj.brport_obj_id o e in
    let l = brports_at-without o c o.port_obj_id in
    rw (remove_bridge_port_alike obj o c h e t v) (
      refl,
      refl,
      ground (arith, s.same_id, find-erase_self c.brport_to_port o.brport_obj_id),
      ground (arith, s.same_id, l, beq_refl o.port_obj_id),
      ground (arith, s.same_id, s.once, l, beq_refl o.port_obj_id),
    )

-- In every bridge port cache reached by additions of bridge ports whose keys are not in use,
-- removals of stored bridge ports by id, type and, for a subport, VLAN, where a tagged and an
-- untagged subport count as one type, and any additions and removals of 1D router ports, when a
-- stored subport is then removed by its id as a subport with a VLAN under which its port has no
-- bridge port, the removal answers false although it has erased the subport by id: the query by id
-- fails, the query by its port and VLAN still finds it, and the tables no longer agree.
pub remove_bridge_port_partial :
    (obj o : BrportObj) (c : BrportCache)
    → Reach c
    → get_brport_block (some obj) BrportQuery.from_brport c ≡ (true, some o)
    → is_subport obj.brport_type ≡ true
    → is_subport o.brport_type ≡ true
    → find c.pv_to_brport (record { port_id = o.port_obj_id; vid = obj.vlan_id }) ≡ none
    → let (found, _, c') = remove_bridge_port (some obj) c in
      (found ≡ false)
      × (get_brport_block (some obj) BrportQuery.from_brport c' ≡ (false, some obj))
      × (get_brport_block (some o) BrportQuery.from_port_vlan c' ≡ (true, some o))
      × (¬ IsConsistent c')
unfolding get_brport_block remove_bridge_port
remove_bridge_port_partial obj o c r q t u v =
    let h = Reach-IsConsistent r in
    let e : find c.brport_to_port obj.brport_obj_id ≡ some o = ground arith in
    let s = h.stored obj.brport_obj_id o e in
    let obj' : BrportObj = record obj { port_obj_id = o.port_obj_id } in
    let c' : BrportCache = record c {
      brport_to_port = erase c.brport_to_port obj.brport_obj_id;
      port_to_brport_list =
          store_list c.port_to_brport_list o.port_obj_id
            (drop_first (is_id obj.brport_obj_id) (brports_at c o.port_obj_id));
    } in
    let run : remove_bridge_port (some obj) c ≡ (false, some obj', c') =
      ground (arith, e, t, v, s.listed) in
    let gone = find-erase_self c.brport_to_port obj.brport_obj_id in
    rw (run) (
      refl,
      ground (arith, gone),
      ground (arith, s.at_pv u),
      λ h'.
          let (_, id, _) = h'.in_pvs (pv_of o) o (s.at_pv u) in ground (arith, id, gone, s.same_id),
    )

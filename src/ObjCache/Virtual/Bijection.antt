-- ===== src/ObjCache/Virtual/Bijection.antt =====
-- The two tables of the virtual object cache are inverse to one another, as long as no id is bound
-- anew while an older binding of it stands.
use opx_nas_ndi.Base.{ℕ, ◌≡◌, ◌≢◌, inl, inr, true, none, some, arith, Option-cases, nat_key}
use opx_nas_ndi.Base.Table.{find, put, find-put, find-erase, find-empty, find-put_self, find-put_ne}
use opx_nas_ndi.ObjCache.Virtual.{
  VirtualObj, VirtualQuery, VirtualCache, no_virtual_objs, add_virtual_obj, remove_virtual_obj,
  get_virtual_obj,
}

-- Each entry stands under its own id, in both tables.
pub record IsBijective (c : VirtualCache) : Type 0 where
  pub by_vid :
      (w : ℕ) (o : VirtualObj)
      → find c.vid_to_obj w ≡ some o
      → (o.vid ≡ w) × (find c.obj_to_vid o.oid ≡ some o)
  pub by_oid :
      (x : ℕ) (o : VirtualObj)
      → find c.obj_to_vid x ≡ some o
      → (o.oid ≡ x) × (find c.vid_to_obj o.vid ≡ some o)

pub no_virtual_objs-IsBijective : IsBijective no_virtual_objs
no_virtual_objs-IsBijective = record {
  by_vid = λ w o h. ground (arith, find-empty {V = VirtualObj} w);
  by_oid = λ x o h. ground (arith, find-empty {V = VirtualObj} x);
}

module _ (o : VirtualObj) (c : VirtualCache) (b : IsBijective c) where
  -- Neither id of a new object is bound: the cache stays inverse.
  pub add_virtual_obj-IsBijective :
      find c.vid_to_obj o.vid ≡ none
      → find c.obj_to_vid o.oid ≡ none
      → IsBijective (add_virtual_obj (some o) c).1
  unfolding add_virtual_obj
  add_virtual_obj-IsBijective hv ho = record {
    by_vid = λ w p h.
        ground (
          arith,
          find-put c.vid_to_obj o.vid o w,
          find-put c.obj_to_vid o.oid o p.oid,
          b.by_vid w p,
        );
    by_oid = λ x p h.
        ground (
          arith,
          find-put c.obj_to_vid o.oid o x,
          find-put c.vid_to_obj o.vid o p.vid,
          b.by_oid x p,
        );
  }

  pub remove_virtual_obj-IsBijective : IsBijective (remove_virtual_obj (some o) c).1
  unfolding remove_virtual_obj
  remove_virtual_obj-IsBijective = elim (Option-cases (find c.obj_to_vid o.oid)) [
    | inl e ↦ rw (e, remove_virtual_obj) b
    | inr (it, e) ↦
        let at_oid : (it.oid ≡ o.oid) × (find c.vid_to_obj it.vid ≡ some it) =
          b.by_oid o.oid it e in
        rw (e, remove_virtual_obj)
          (record {
            by_vid = λ w p h. ground (
              arith,
              at_oid,
              find-erase c.vid_to_obj it.vid w,
              find-erase c.obj_to_vid o.oid p.oid,
              b.by_vid w p,
            );
            by_oid = λ x p h. ground (
              arith,
              at_oid,
              find-erase c.obj_to_vid o.oid x,
              find-erase c.vid_to_obj it.vid p.vid,
              b.by_oid x p,
            );
          })
  ]

-- What a query answers is inverse to what the other one is asked: on a bijective cache the two
-- queries undo one another.
pub get_virtual_obj_inverse :
    (c : VirtualCache) (w x : ℕ) (junk junk' : ℕ)
    → IsBijective c
    → get_virtual_obj (some (record { oid = junk; vid = w })) VirtualQuery.from_vlan c
      ≡ (true, some (record { oid = x; vid = w }))
    → get_virtual_obj (some (record { oid = x; vid = junk' })) VirtualQuery.from_obj c
      ≡ (true, some (record { oid = x; vid = w }))
unfolding get_virtual_obj
get_virtual_obj_inverse c w x junk junk' b h = elim (Option-cases (find c.vid_to_obj w)) [
  | inl e ↦ ground arith
  | inr (it, e) ↦ ground (arith, b.by_vid w it e)
]

-- The caches that the program reaches, if it binds an id only while neither id of the object is bound.
pub data Reach : VirtualCache → Type 0 where
  start : Reach no_virtual_objs
  added :
      {c : VirtualCache} (o : VirtualObj)
      → Reach c
      → find c.vid_to_obj o.vid ≡ none
      → find c.obj_to_vid o.oid ≡ none
      → Reach (add_virtual_obj (some o) c).1
  removed : {c : VirtualCache} (o : VirtualObj) → Reach c → Reach (remove_virtual_obj (some o) c).1

-- Every reachable cache is a bijection between VLAN ids and object ids.
pub Reach-IsBijective : {c : VirtualCache} → Reach c → IsBijective c
Reach-IsBijective start = no_virtual_objs-IsBijective
Reach-IsBijective (added {c = c} o r hv ho) =
    add_virtual_obj-IsBijective o c (Reach-IsBijective r) hv ho
Reach-IsBijective (removed {c = c} o r) = remove_virtual_obj-IsBijective o c (Reach-IsBijective r)

-- In any cache, what was just added answers both queries, and a query by any other VLAN id or any
-- other object id answers as before.
pub get_virtual_obj-add_virtual_obj :
    (o : VirtualObj) (c : VirtualCache) (junk w x : ℕ)
    → o.vid ≢ w
    → o.oid ≢ x
    → let c' = (add_virtual_obj (some o) c).1 in
      (get_virtual_obj (some (record { oid = o.oid; vid = junk })) VirtualQuery.from_obj c'
        ≡ (true, some o))
      × (get_virtual_obj (some (record { oid = junk; vid = o.vid })) VirtualQuery.from_vlan c'
          ≡ (true, some o))
      × (get_virtual_obj (some (record { oid = junk; vid = w })) VirtualQuery.from_vlan c'
          ≡ get_virtual_obj (some (record { oid = junk; vid = w })) VirtualQuery.from_vlan c)
      × (get_virtual_obj (some (record { oid = x; vid = junk })) VirtualQuery.from_obj c'
          ≡ get_virtual_obj (some (record { oid = x; vid = junk })) VirtualQuery.from_obj c)
unfolding get_virtual_obj add_virtual_obj
get_virtual_obj-add_virtual_obj o c junk w x hw hx = (
  rw (find-put_self c.obj_to_vid o.oid o, get_virtual_obj),
  rw (find-put_self c.vid_to_obj o.vid o, get_virtual_obj),
  rw (find-put_ne c.vid_to_obj o.vid o w hw, get_virtual_obj),
  rw (find-put_ne c.obj_to_vid o.oid o x hx, get_virtual_obj),
)

-- An object id bound to a second VLAN id: removing the object reports success and leaves the first
-- VLAN id bound, so a query by it still answers the removed object.
pub rebound_vid_survives :
    (x v w junk : ℕ) (c : VirtualCache)
    → v ≢ w
    → let once = (add_virtual_obj (some (record { oid = x; vid = v })) c).1 in
      let twice = (add_virtual_obj (some (record { oid = x; vid = w })) once).1 in
      let (found, after) = remove_virtual_obj (some (record { oid = x; vid = junk })) twice in
      (found ≡ true)
      × (get_virtual_obj (some (record { oid = junk; vid = v })) VirtualQuery.from_vlan after
          ≡ (true, some (record { oid = x; vid = v })))
unfolding get_virtual_obj add_virtual_obj remove_virtual_obj
rebound_vid_survives x v w junk c h =
    let once : VirtualObj = record { oid = x; vid = v } in
    let twice : VirtualObj = record { oid = x; vid = w } in
    let m = put c.vid_to_obj v once in
    ground (
      arith,
      find-put_self (put c.obj_to_vid x once) x twice,
      find-erase (put m w twice) w v,
      find-put m w twice v,
      find-put_self c.vid_to_obj v once,
    )

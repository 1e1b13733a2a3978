-- ===== src/ObjCache/Brport/Preservation.antt =====
-- Removing a stored bridge port keeps the tables of the cache in agreement.
use opx_nas_ndi.Base.{
  ℕ, ◌≡◌, refl, ◌≢◌, inl, inr, true, some, List, [], ◌∷◌, ◌++◌, arith, nat_key, ◌==◌, if◌then◌else◌,
  any, drop_first, any-append, Bool-cases,
}
use opx_nas_ndi.Base.Table.{find, find-put, find-erase}
use opx_nas_ndi.ObjCache.Brport.{
  BrportObj, BridgePv, BrportCache, pv_key, pv_of, is_port, is_subport, brports_at,
}
use opx_nas_ndi.ObjCache.Brport.Consistency.{is_id, IsStored, IsConsistent, without}

any-drop_first_ne :
    (b k : ℕ) (l : List ℕ) → b ≢ k → any (is_id b) (drop_first (is_id k) l) ≡ any (is_id b) l
any-drop_first_ne b k [] h = refl
any-drop_first_ne b k (x ∷ l) h = ground (arith, any-drop_first_ne b k l)

once-drop_first_ne :
    (b k : ℕ) (l : List ℕ)
    → b ≢ k
    → any (is_id b) (drop_first (is_id b) (drop_first (is_id k) l))
      ≡ any (is_id b) (drop_first (is_id b) l)
once-drop_first_ne b k [] h = refl
once-drop_first_ne b k (x ∷ l) h = ground (arith, once-drop_first_ne b k l, any-drop_first_ne b k l)

pub once-append_ne :
    (b k : ℕ) (l : List ℕ)
    → b ≢ k
    → any (is_id b) (drop_first (is_id b) (l ++ k ∷ [])) ≡ any (is_id b) (drop_first (is_id b) l)
once-append_ne b k [] h = ground arith
once-append_ne b k (x ∷ l) h = ground (arith, once-append_ne b k l, any-append (is_id b) l k)

module _ (o : BrportObj) (c : BrportCache) where
  pub brports_at-without :
      (p : ℕ)
      → brports_at (without o c) p ≡ (
          if o.port_obj_id == p
          then drop_first (is_id o.brport_obj_id) (brports_at c p)
          else brports_at c p)
  unfolding without
  brports_at-without p =
      let l = drop_first (is_id o.brport_obj_id) (brports_at c o.port_obj_id) in
      ground (
        arith,
        find-erase c.port_to_brport_list o.port_obj_id p,
        find-put c.port_to_brport_list o.port_obj_id l p,
      )

  module _ (h : IsConsistent c) (e : find c.brport_to_port o.brport_obj_id ≡ some o) where
    without-stored :
        (b : ℕ) (p : BrportObj)
        → find (without o c).brport_to_port b ≡ some p
        → (find c.brport_to_port b ≡ some p) × (b ≢ o.brport_obj_id)
    unfolding without
    without-stored b p f = ground (arith, find-erase c.brport_to_port o.brport_obj_id b)

    without-IsStored :
        (b : ℕ) (p : BrportObj)
        → find (without o c).brport_to_port b ≡ some p
        → IsStored (without o c) b p
    without-IsStored b p f =
        let (at, ne) = without-stored b p f in
        let s = h.stored b p at in
        let so = h.stored o.brport_obj_id o e in
        let bs = brports_at-without p.port_obj_id in
        record {
          same_id = s.same_id;
          not_router = s.not_router;
          listed = rw bs (
              ground (
                arith,
                s.listed,
                any-drop_first_ne b o.brport_obj_id (brports_at c p.port_obj_id) ne,
              ));
          once = rw bs (
              ground (
                arith,
                s.once,
                once-drop_first_ne b o.brport_obj_id (brports_at c p.port_obj_id) ne,
              ));
          at_port = λ is.
              unfold without in
              ground (
                arith,
                s.same_id,
                s.at_port is,
                so.at_port,
                find-erase c.port_to_brport o.port_obj_id p.port_obj_id,
              );
          at_pv = λ is.
              unfold without in
              ground (
                arith,
                s.same_id,
                s.at_pv is,
                so.at_pv,
                find-erase c.pv_to_brport (pv_of o) (pv_of p),
              );
        }

    without-in_list :
        (p b : ℕ)
        → any (is_id b) (brports_at (without o c) p) ≡ true
        → (x : BrportObj) × (find (without o c).brport_to_port b ≡ some x) × (x.port_obj_id ≡ p)
    unfolding without
    without-in_list p b l =
        let so = h.stored o.brport_obj_id o e in
        let l' = rw (brports_at-without p) at l in
        elim (Bool-cases (b == o.brport_obj_id)) [
          | inl same ↦
              let (x, at, here) = h.in_list p b (ground (arith, l', so.once)) in
              absurd (ground (arith, l', so.once, at, here, e))
          | inr other ↦
              let (x, at, here) =
                h.in_list p b
                  (ground (arith, l', any-drop_first_ne b o.brport_obj_id (brports_at c p))) in
              (x, ground (arith, at, find-erase c.brport_to_port o.brport_obj_id b), here)
        ]

    without-in_ports :
        (p : ℕ) (x : BrportObj)
        → find (without o c).port_to_brport p ≡ some x
        → (x.port_obj_id ≡ p)
          × (find (without o c).brport_to_port x.brport_obj_id ≡ some x)
          × (is_port x.brport_type ≡ true)
    unfolding without
    without-in_ports p x f =
        let at : find c.port_to_brport p ≡ some x =
          ground (arith, find-erase c.port_to_brport o.port_obj_id p) in
        let (port, id, is) = h.in_ports p x at in
        let gone = find-erase c.port_to_brport o.port_obj_id p in
        (
          port,
          ground (
            arith,
            port,
            id,
            is,
            gone,
            find-erase c.brport_to_port o.brport_obj_id x.brport_obj_id,
          ),
          is,
        )

    without-in_pvs :
        (k : BridgePv) (x : BrportObj)
        → find (without o c).pv_to_brport k ≡ some x
        → (pv_of x ≡ k)
          × (find (without o c).brport_to_port x.brport_obj_id ≡ some x)
          × (is_subport x.brport_type ≡ true)
    unfolding without
    without-in_pvs k x f =
        let gone = find-erase c.pv_to_brport (pv_of o) k in
        let at : find c.pv_to_brport k ≡ some x = ground (arith, gone) in
        let (key, id, is) = h.in_pvs k x at in
        (
          key,
          ground (
            arith,
            key,
            id,
            is,
            gone,
            find-erase c.brport_to_port o.brport_obj_id x.brport_obj_id,
          ),
          is,
        )

    -- Removing a stored bridge port keeps the agreement.
    pub without-IsConsistent : IsConsistent (without o c)
    unfolding without
    without-IsConsistent = record {
      stored = without-IsStored;
      in_list = without-in_list;
      in_ports = without-in_ports;
      in_pvs = without-in_pvs;
      in_rifs = h.in_rifs;
      nonempty = λ p.
          let l = drop_first (is_id o.brport_obj_id) (brports_at c o.port_obj_id) in
          ground (
            arith,
            h.nonempty p,
            find-erase c.port_to_brport_list o.port_obj_id p,
            find-put c.port_to_brport_list o.port_obj_id l p,
          );
    }

-- ===== src/Vlan/Naming.antt =====
-- src/nas_ndi_vlan.cpp: `g_ndi_vlan_map` and the virtual object cache name the same SAI objects.
use mathlib.Core.Option
use opx_nas_ndi.Base.{
  ℕ, ◌≡◌, ◌≢◌, refl, inl, inr, false, none, some, arith, nat_key, Option-cases, Bool-cases,
  StdError, ok, std_err, npu, fail,
}
use opx_nas_ndi.Base.Replies.{reply, Reply-cases}
use opx_nas_ndi.Base.Table.{Table, find, put, erase, find-put, find-erase}
use opx_nas_ndi.NpuDb.{ndi_npu_id_get}
use opx_nas_ndi.ObjCache.Virtual.{
  VirtualObj, VirtualCache, add_virtual_obj, remove_virtual_obj, get_virtual_obj,
}
use opx_nas_ndi.ObjCache.Virtual.Bijection.{
  IsBijective, add_virtual_obj-IsBijective, remove_virtual_obj-IsBijective,
}
use opx_nas_ndi.Vlan.{
  Vlans, VlanApi, with_hw, no_db, get_sai_vlan_obj_id, add_sai_vlan_obj_id, del_sai_vlan_obj_id,
}
use opx_nas_ndi.Vlan.Objects.{mac_get_vlan_oid, mac_flush_vlan, create_vlan, delete_vlan}

-- The object of a VLAN in the one table is that in the other; the second is inverse to its reverse, and
-- no object is null.
pub record IsNamed (m : Table ℕ ℕ) (c : VirtualCache) : Type 0 where
  pub agree :
      (v : ℕ)
      → find c.vid_to_obj v
        ≡ Option.map
            (λ (oid : ℕ). let o : VirtualObj = record { oid = oid; vid = v } in o)
            (find m v)
  pub bijective : IsBijective c
  pub nonnull : (v oid : ℕ) → find m v ≡ some oid → oid ≢ 0

module _ (m : Table ℕ ℕ) (c : VirtualCache) (x : IsNamed m c) where
  -- The two queries by VLAN id agree.
  mac_get_vlan_oid_lem : (v : ℕ) → mac_get_vlan_oid v c ≡ find m v
  unfolding mac_get_vlan_oid get_virtual_obj
  mac_get_vlan_oid_lem v = elim (Option-cases (find m v)) [
    | inl e ↦ ground (arith, e, x.agree v)
    | inr (oid, e) ↦ ground (arith, e, x.agree v)
  ]

  put-IsNamed :
      (v oid : ℕ)
      → find m v ≡ none
      → oid ≢ 0
      → find c.obj_to_vid oid ≡ none
      → IsNamed (put m v oid) (add_virtual_obj (some (record { oid = oid; vid = v })) c).1
  unfolding add_virtual_obj
  put-IsNamed v oid absent nonnull new =
      let o : VirtualObj = record { oid = oid; vid = v } in
      record {
        agree = λ w. ground (arith, x.agree w, find-put m v oid w, find-put c.vid_to_obj v o w);
        bijective =
            add_virtual_obj-IsBijective o c x.bijective (ground (arith, absent, x.agree v)) new;
        nonnull = λ w oid' h. ground (arith, h, nonnull, x.nonnull w oid', find-put m v oid w);
      }

  erase-IsNamed :
      (v oid : ℕ)
      → find m v ≡ some oid
      → IsNamed (erase m v) (remove_virtual_obj (some (record { oid = oid; vid = v })) c).1
  unfolding remove_virtual_obj
  erase-IsNamed v oid e =
      let o : VirtualObj = record { oid = oid; vid = v } in
      let back : find c.obj_to_vid oid ≡ some o =
        (x.bijective.by_vid v o (ground (arith, e, x.agree v))).1 in
      record {
        agree = λ w. ground (arith, back, x.agree w, find-erase m v w, find-erase c.vid_to_obj v w);
        bijective = remove_virtual_obj-IsBijective o c x.bijective;
        nonnull = λ w oid' h. ground (arith, h, x.nonnull w oid', find-erase m v w);
      }

module _ {Hw : Type 0} (api : VlanApi Hw) where
  -- A new object is not null and names no VLAN.
  abbrev pub FreshVlan : ℕ → Vlans Hw → Type 0
  FreshVlan v s =
      (oid : ℕ)
      → (api.create_vlan v s.shared.hw).0 ≡ reply oid
      → (oid ≢ 0) × (find s.virtuals.obj_to_vid oid ≡ none)

  -- With an entry for the NPU, on a switch whose new VLAN objects are not null and name no VLAN,
  -- the creation of a VLAN returns and keeps the VLAN map and the virtual object cache naming the
  -- same objects; on success both name an object for the VLAN.
  pub create_vlan_lem :
      (n v : ℕ) (s : Vlans Hw)
      → no_db n s ≡ false
      → FreshVlan v s
      → IsNamed s.vlan_map s.virtuals
      → (rc : StdError) × (s' : Vlans Hw) × (create_vlan api n v s ≡ some (rc, s'))
        × IsNamed s'.vlan_map s'.virtuals
        × (rc ≡ ok
            → (get_sai_vlan_obj_id v s' ≢ 0)
              × (mac_get_vlan_oid v s'.virtuals ≡ some (get_sai_vlan_obj_id v s')))
  unfolding create_vlan get_sai_vlan_obj_id add_sai_vlan_obj_id
  create_vlan_lem n v s db fresh x = elim (Option-cases (find s.vlan_map v)) [
    | inr (oid, e) ↦ (
      ok,
      s,
      ground (arith, db, e, x.nonnull v oid e),
      x,
      λ h. (
        ground (arith, e, x.nonnull v oid e),
        ground (arith, e, mac_get_vlan_oid_lem s.vlan_map s.virtuals x v),
      ),
    )
    | inl e ↦
        let call = api.create_vlan v s.shared.hw in
        elim (Reply-cases call.0) [
          | inr (st, f) ↦ (
            std_err npu fail st,
            with_hw call.1 s,
            ground (arith, db, e, f),
            x,
            λ h. absurd (ground (arith, h)),
          )
          | inl (oid, f) ↦
              let (nonnull, new) = fresh oid f in
              let o : VirtualObj = record { oid = oid; vid = v } in
              let m' = put s.vlan_map v oid in
              let c' = (add_virtual_obj (some o) s.virtuals).1 in
              let named = put-IsNamed s.vlan_map s.virtuals x v oid e nonnull new in
              let stored = find-put s.vlan_map v oid v in
              (
                ok,
                record (with_hw call.1 s) { vlan_map = m'; virtuals = c' },
                ground (arith, db, e, f),
                named,
                λ h. (
                  ground (arith, stored, nonnull),
                  ground (arith, stored, mac_get_vlan_oid_lem m' c' named v),
                ),
              )
        ]
  ]

  -- The flush changes the switch only.
  mac_flush_vlan-keeps :
      (v : ℕ) (s : Vlans Hw) → (hw : Hw) × ((mac_flush_vlan api v s).1 ≡ with_hw hw s)
  unfolding mac_flush_vlan
  mac_flush_vlan-keeps v s = elim (Bool-cases (no_db ndi_npu_id_get s)) [
    | inl e ↦ (s.shared.hw, rw (mac_flush_vlan, e) refl)
    | inr e ↦ elim (Option-cases (mac_get_vlan_oid v s.virtuals)) [
      | inl f ↦ (s.shared.hw, rw (mac_flush_vlan, e, f) refl)
      | inr (oid, f) ↦
          let call = api.flush_dynamic_fdb_entries oid s.shared.hw in
          elim (Reply-cases call.0) [
            | inl (u, g) ↦ (call.1, rw (mac_flush_vlan, e, f, g) refl)
            | inr (st, g) ↦ (call.1, rw (mac_flush_vlan, e, f, g) refl)
          ]
    ]
  ]

  -- With an entry for the NPU, the deletion of a VLAN returns and keeps the VLAN map and the
  -- virtual object cache naming the same objects; on success neither names an object for the VLAN,
  -- and on an error the map names the same object as before.
  pub delete_vlan_lem :
      (n v : ℕ) (s : Vlans Hw)
      → no_db n s ≡ false
      → IsNamed s.vlan_map s.virtuals
      → (rc : StdError) × (s' : Vlans Hw) × (delete_vlan api n v s ≡ some (rc, s'))
        × IsNamed s'.vlan_map s'.virtuals
        × (rc ≡ ok → (get_sai_vlan_obj_id v s' ≡ 0) × (mac_get_vlan_oid v s'.virtuals ≡ none))
        × (rc ≢ ok → get_sai_vlan_obj_id v s' ≡ get_sai_vlan_obj_id v s)
  unfolding delete_vlan get_sai_vlan_obj_id del_sai_vlan_obj_id
  delete_vlan_lem n v s db x = elim (Option-cases (find s.vlan_map v)) [
    | inl e ↦ (
      ok,
      s,
      ground (arith, db, e),
      x,
      λ h. (ground (arith, e), ground (arith, e, mac_get_vlan_oid_lem s.vlan_map s.virtuals x v)),
      λ h. refl,
    )
    | inr (oid, e) ↦
        let (hw, flushed) = mac_flush_vlan-keeps v s in
        let call = api.remove_vlan oid hw in
        elim (Reply-cases call.0) [
          | inr (st, f) ↦ (
            std_err npu fail st,
            with_hw call.1 s,
            ground (arith, db, e, flushed, f, x.nonnull v oid e),
            x,
            λ h. absurd (ground (arith, h)),
            λ h. refl,
          )
          | inl (u, f) ↦
              let m' = erase s.vlan_map v in
              let c' = (remove_virtual_obj (some (record { oid = oid; vid = v })) s.virtuals).1 in
              let named = erase-IsNamed s.vlan_map s.virtuals x v oid e in
              let gone = find-erase s.vlan_map v v in
              (
                ok,
                record (with_hw call.1 s) { vlan_map = m'; virtuals = c' },
                ground (arith, db, e, flushed, f, x.nonnull v oid e),
                named,
                λ h. (
                  ground (arith, gone),
                  ground (arith, gone, mac_get_vlan_oid_lem m' c' named v),
                ),
                λ h. absurd (h refl),
              )
        ]
  ]

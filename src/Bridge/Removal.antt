-- ===== src/Bridge/Removal.antt =====
-- src/nas_ndi_bridge.cpp, `ndi_delete_bridge_port`: what it does to the bridge port cache.
use opx_nas_ndi.Base.{
  ℕ, zero, suc, ◌≡◌, ◌≢◌, refl, ap, inl, inr, Bool, true, false, some, List, [], ◌∷◌, arith,
  nat_key, resize, Bool-cases, StdError, StdError-cases, ok, std_err, npu, cfg,
}
use opx_nas_ndi.Base.Replies.{Reply-cases}
use opx_nas_ndi.Bridge.{
  BrportAttr, BridgeApi, Bridges, hw_of, brports_of, on_hw, with_stg, with_brports, without_db,
}
use opx_nas_ndi.Bridge.Creation.{set_bridge_port_attribute-cases}
use opx_nas_ndi.Bridge.Ports.{
  block, flush_bridge_port_entry, leave_groups, take_down, delete_bridge_port,
}
use opx_nas_ndi.NdiMap.{MapData, map_get, map_get_val_count}
use opx_nas_ndi.Stg.Cache.{port_stps_key, null_data}
use opx_nas_ndi.NpuDb.{ndi_npu_id_get}
use opx_nas_ndi.ObjCache.Brport.{BrportObj, BrportCache, is_1d_router, remove_bridge_port}
use opx_nas_ndi.Stg.{Stg, StpApi}
use opx_nas_ndi.Stg.Bulk.{remove_stp_ports, delete_counted, delete_port_stp_ports}
use opx_nas_ndi.Vlan.Defaults.{vlan_delete_default_member_brports}
use opx_nas_ndi.Vlan.Leaving.{vlan_delete_default_member_brports-keeps}

module _ {Hw : Type 0} (api : StpApi Hw) where
  -- The removal of STP ports leaves the bridge ports alone.
  remove_stp_ports-keeps :
      (brport : ℕ) (ds : List MapData) (g : Stg Hw)
      → (remove_stp_ports api brport ds g).brports ≡ g.brports
  unfolding remove_stp_ports
  remove_stp_ports-keeps brport [] g = refl
  remove_stp_ports-keeps brport (d ∷ ds) g =
      elim (Reply-cases (api.remove_stp_port d.val1 g.hw).0) [
        | inl (u, e) ↦ rw (remove_stp_ports, e) (remove_stp_ports-keeps brport ds _)
        | inr (st, e) ↦ rw (remove_stp_ports, e) (remove_stp_ports-keeps brport ds _)
      ]

  delete_counted-keeps :
      (brport count : ℕ) (g : Stg Hw) → (delete_counted api brport count g).1.brports ≡ g.brports
  unfolding delete_counted
  delete_counted-keeps brport zero g = refl
  delete_counted-keeps brport (suc more) g =
      let val =
        (map_get (port_stps_key brport)
          (record { count = suc more; buffer = resize (suc more) null_data [] }) g.map).1 in
      ground (arith, remove_stp_ports-keeps brport val.buffer g)

  delete_port_stp_ports-keeps :
      (n brport : ℕ) (g : Stg Hw) → (delete_port_stp_ports api n brport g).1.brports ≡ g.brports
  unfolding delete_port_stp_ports
  delete_port_stp_ports-keeps n brport g =
      ground
        (arith, delete_counted-keeps brport (map_get_val_count (port_stps_key brport) 0 g.map).1 g)

module _ {Hw : Type 0} (api : BridgeApi Hw) where
  -- What the steps of a deletion leave alone.
  abbrev SameTables : Bridges Hw → Bridges Hw → Type 0
  SameTables s s' =
      (brports_of s' ≡ brports_of s)
      × (s'.vlans.vlan_map ≡ s.vlans.vlan_map)
      × (s'.bcast_l2mc ≡ s.bcast_l2mc)

  flush_bridge_port_entry-keeps :
      (brport : ℕ) (s : Bridges Hw)
      → (b : Bool) × (hw : Hw) × (flush_bridge_port_entry api brport s ≡ (b, on_hw hw s))
  unfolding flush_bridge_port_entry
  flush_bridge_port_entry-keeps brport s = elim (Bool-cases (without_db ndi_npu_id_get s)) [
    | inl e ↦ (false, hw_of s, ground (arith, e))
    | inr e ↦
        let call = api.flush_fdb_entries brport (hw_of s) in
        elim (Reply-cases call.0) [
          | inl (u, f) ↦ (true, call.1, ground (arith, e, f))
          | inr (st, f) ↦ (false, call.1, ground (arith, e, f))
        ]
  ]

  leave_groups-keeps :
      (n brport : ℕ) (s : Bridges Hw) → SameTables s (leave_groups api n brport s).1
  unfolding leave_groups
  leave_groups-keeps n brport s =
      let (rc, g) = delete_port_stp_ports api.stp n brport s.vlans.shared in
      let kept = delete_port_stp_ports-keeps api.stp n brport s.vlans.shared in
      let s' = with_stg g s in
      let (rc', v) = vlan_delete_default_member_brports api.vlan n brport false s'.vlans in
      let only_hw = vlan_delete_default_member_brports-keeps api.vlan n brport false s'.vlans in
      elim (StdError-cases rc) [
        | inr (a, c, st, e) ↦ ground (arith, e, kept)
        | inl e ↦ elim (StdError-cases rc') [
          | inr (a, c, st, f) ↦ ground (arith, e, f, kept, only_hw)
          | inl f ↦ ground (arith, e, f, kept, only_hw)
        ]
      ]

  take_down-keeps :
      (n : ℕ) (info : BrportObj) (s : Bridges Hw) → SameTables s (take_down api n info s).1
  unfolding take_down
  take_down-keeps n info s =
      let b = info.brport_obj_id in
      let (hw, set) = set_bridge_port_attribute-cases api n b (BrportAttr.admin_state false) s in
      let (flushed, hw', f) = flush_bridge_port_entry-keeps b (on_hw hw s) in
      let left = leave_groups-keeps n b (on_hw hw s) in
      let left' = leave_groups-keeps n b (on_hw hw' s) in
      elim set [
        | inr (st, e) ↦ ground (arith, e)
        | inl e ↦ elim (Bool-cases (is_1d_router info.brport_type)) [
          | inl r ↦ ground (arith, e, r, left)
          | inr r ↦ elim (Bool-cases flushed) [
            | inr g ↦ ground (arith, e, r, f, g)
            | inl g ↦ ground (arith, e, r, f, g, left')
          ]
        ]
      ]

  -- What a deletion is to do to what is kept.
  pub record Deletes (info : BrportObj) (stray : ℕ) (s : Bridges Hw) (rc : StdError)
      (s' : Bridges Hw) : Type 0 where
    pub deleted :
        rc ≡ ok
        → brports_of s' ≡ (remove_bridge_port (some (block api info stray)) (brports_of s)).2
    pub refused : rc ≢ ok → brports_of s' ≡ brports_of s
    pub same_vlans : s'.vlans.vlan_map ≡ s.vlans.vlan_map
    pub same_groups : s'.bcast_l2mc ≡ s.bcast_l2mc

  pub delete_bridge_port_lem :
      (n : ℕ) (info : BrportObj) (stray : ℕ) (s : Bridges Hw)
      → let (rc, s') = delete_bridge_port api n info stray s in Deletes info stray s rc s'
  unfolding delete_bridge_port
  delete_bridge_port_lem n info stray s =
      let s1 = (take_down api n info s).1 in
      let keeps = take_down-keeps n info s in
      let fails : (a : StdError) (t : Bridges Hw)
          → a ≢ ok
          → SameTables s t
          → Deletes info stray s a t =
        λ a t h k. record {
          deleted = λ e. absurd (h e);
          refused = λ e. k.0;
          same_vlans = k.1;
          same_groups = k.2;
        } in
      elim (Bool-cases (without_db n s)) [
        | inl e ↦
            rw (delete_bridge_port, e)
              (fails (std_err npu cfg 0) s (λ h. ground (arith, h)) (refl, refl, refl))
        | inr e ↦ elim (Bool-cases (take_down api n info s).0) [
          | inr d ↦
              let out : delete_bridge_port api n info stray s
                  ≡ (std_err npu cfg api.status_failure, s1) =
                ground (arith, e, d) in
              rw (out)
                (fails (std_err npu cfg api.status_failure) s1 (λ h. ground (arith, h)) keeps)
          | inl d ↦
              let call = api.remove_bridge_port info.brport_obj_id (hw_of s1) in
              elim (Reply-cases call.0) [
                | inr (st, f) ↦
                    let out : delete_bridge_port api n info stray s
                        ≡ (std_err npu cfg st, on_hw call.1 s1) =
                      ground (arith, e, d, f) in
                    rw (out)
                      (fails (std_err npu cfg st) (on_hw call.1 s1) (λ h. ground (arith, h)) keeps)
                | inl (u, f) ↦
                    let c = (remove_bridge_port (some (block api info stray)) (brports_of s1)).2 in
                    let out : delete_bridge_port api n info stray s
                        ≡ (ok, with_brports c (on_hw call.1 s1)) =
                      ground (arith, e, d, f) in
                    rw (out) (record {
                      deleted = λ h.
                          ap
                            (λ (c : BrportCache).
                              (remove_bridge_port (some (block api info stray)) c).2)
                            keeps.0;
                      refused = λ h. absurd (h refl);
                      same_vlans = keeps.1;
                      same_groups = keeps.2;
                    })
              ]
        ]
      ]

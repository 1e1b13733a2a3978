-- ===== src/Bridge/Switched.antt =====
-- src/nas_ndi_bridge.cpp: the ports of the 1Q bridge in the bridge port cache.
use opx_nas_ndi.Base.{
  ℕ, ◌≡◌, ◌≢◌, refl, inl, inr, Bool, none, some, [], arith, nat_key, if◌then◌else◌, Option-cases,
  StdError-cases, ok, std_err, npu, cfg,
}
use opx_nas_ndi.Base.Table.{find, find-erase}
use opx_nas_ndi.Bridge.{BridgeApi, Bridges, brports_of}
use opx_nas_ndi.Bridge.Creation.{create_bridge_port_lem}
use opx_nas_ndi.Bridge.Members.{blank, delete_bridge_port_1q, create_bridge_port_1q}
use opx_nas_ndi.Bridge.Ports.{block, delete_bridge_port}
use opx_nas_ndi.Bridge.Queries.{asked_for, get_1q_bridge_port, get_1q_sai_port}
use opx_nas_ndi.Bridge.Removal.{delete_bridge_port_lem}
use opx_nas_ndi.ObjCache.Brport.{BrportType, BrportQuery, BrportObj, get_brport_block, block_of}
use opx_nas_ndi.ObjCache.Brport.Consistency.{IsConsistent, without, remove_bridge_port_alike}
use opx_nas_ndi.ObjCache.Brport.Preservation.{without-IsConsistent}
use opx_nas_ndi.ObjCache.Brport.Queries.{get_brport_block-add_bridge_port}

module _ {Hw : Type 0} (api : BridgeApi Hw) where
  -- A port of the 1Q bridge that is made with success is found by its port and its port by it; on
  -- an error the bridge port cache is as it was.
  pub create_bridge_port_1q_lem :
      (n port : ℕ) (lag : Bool) (s : Bridges Hw)
      → let (rc, s') = create_bridge_port_1q api n port lag s in
        (rc ≡ ok
          → (oid : ℕ) × (get_1q_bridge_port port (brports_of s') ≡ some oid)
            × (get_1q_sai_port oid (brports_of s') ≡ some port))
        × (rc ≢ ok → brports_of s' ≡ brports_of s)
  unfolding create_bridge_port_1q get_1q_bridge_port get_1q_sai_port
  create_bridge_port_1q_lem n port lag s =
      let obj : BrportObj = record (blank BrportType.port) {
        port_obj_id = port;
        port_type = if lag then api.port_type_lag else api.port_type_port;
      } in
      let made = create_bridge_port_lem api n s.default_1q_br_oid obj [] s in
      (
        λ h.
            let (oid, _, c, out) = made.created h in
            let new : BrportObj = record obj { brport_obj_id = oid } in
            (
              oid,
              ground (
                arith,
                c,
                get_brport_block-add_bridge_port new (asked_for 0 port 0 0) (brports_of s)
                    BrportQuery.from_port,
              ),
              ground (
                arith,
                c,
                get_brport_block-add_bridge_port new (asked_for oid 0 0 0) (brports_of s)
                    BrportQuery.from_brport,
              ),
            ),
        λ h. (made.refused h).0,
      )

  -- From a consistent bridge port cache the deletion of a port of the 1Q bridge leaves a consistent
  -- cache; on success the port had a bridge port, and neither the port nor that bridge port is
  -- found any more; on an error the cache is as it was.
  pub delete_bridge_port_1q_lem :
      (n port stray : ℕ) (s : Bridges Hw)
      → IsConsistent (brports_of s)
      → let (rc, s') = delete_bridge_port_1q api n port stray s in
        IsConsistent (brports_of s')
        × (rc ≡ ok
            → (b : ℕ) × (get_1q_bridge_port port (brports_of s) ≡ some b)
              × (get_1q_bridge_port port (brports_of s') ≡ none)
              × (get_1q_sai_port b (brports_of s') ≡ none))
        × (rc ≢ ok → brports_of s' ≡ brports_of s)
  unfolding delete_bridge_port_1q get_1q_bridge_port get_1q_sai_port get_brport_block block_of
      without
  delete_bridge_port_1q_lem n port stray s x =
      let c = brports_of s in
      elim (Option-cases (find c.port_to_brport port)) [
        | inl e ↦
            let run : delete_bridge_port_1q api n port stray s ≡ (std_err npu cfg 0, s) =
              ground (arith, e) in
            rw (run) (x, λ g. absurd (ground (arith, g)), λ _. refl)
        | inr (o, e) ↦
            let b = o.brport_obj_id in
            let (at, listed, type) = x.in_ports port o e in
            let info : BrportObj = record (blank BrportType.port) { brport_obj_id = b } in
            let out = delete_bridge_port api n info stray s in
            let deletes = delete_bridge_port_lem api n info stray s in
            let removed =
              remove_bridge_port_alike (block api info stray) o c x listed (ground (arith, type))
                (λ sub. absurd (ground (arith, sub, type))) in
            elim (StdError-cases out.0) [
              | inl h ↦
                  let run : delete_bridge_port_1q api n port stray s ≡ (ok, out.1) =
                    ground (arith, e, h) in
                  let now : brports_of out.1 ≡ without o c =
                    ground (arith, deletes.deleted h, removed) in
                  let kept : IsConsistent (brports_of out.1) =
                    rw (now) (without-IsConsistent o c x listed) in
                  let by_port = find-erase c.port_to_brport port port in
                  let by_id = find-erase c.brport_to_port b b in
                  rw (run) (
                    kept,
                    λ _. (
                      b,
                      ground (arith, e),
                      ground (arith, now, type, at, by_port),
                      ground (arith, now, by_id),
                    ),
                    λ g. absurd (g refl),
                  )
              | inr (a, c', st, h) ↦
                  let run : delete_bridge_port_1q api n port stray s ≡ (std_err npu cfg 0, out.1) =
                    ground (arith, e, h) in
                  let same : brports_of out.1 ≡ c = deletes.refused (λ g. ground (arith, g, h)) in
                  let kept : IsConsistent (brports_of out.1) = rw (same) x in
                  rw (run) (kept, λ g. absurd (ground (arith, g)), λ _. same)
            ]
      ]

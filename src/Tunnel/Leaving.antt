-- ===== src/Tunnel/Leaving.antt =====
-- src/nas_ndi_tunnel.cpp, `nas_ndi_remove_remote_endpoint`: what it leaves in the tunnel objects.
use opx_nas_ndi.Base.{
  ℕ, ◌≡◌, refl, inl, inr, none, some, List, arith, nat_key, ◌==◌, length, Bool-cases, Option-cases,
  StdError, StdError-cases, ok, std_err, npu, cfg, fail,
}
use opx_nas_ndi.Base.Table.{find, erase, is_empty, find-put, find-erase}
use opx_nas_ndi.Bridge.Members.{bridge_1d_tunnel_delete}
use opx_nas_ndi.Tunnel.{IpAddr, ip_key, TunnelObj, TunnelApi, Tunnels}
use opx_nas_ndi.Tunnel.Calls.{remove_encap_tunnel_map_entry}
use opx_nas_ndi.Tunnel.Objects.{
  remove, remove_encap_map_entry, remove_decap_map_entry, remove_tunnel_bridge_port, key_of,
  remove_tunnel_obj, remove_tunnel_obj-gone, get_tunnel_obj,
}
use opx_nas_ndi.Tunnel.Requests.{
  TunnelParam, no_ip, read_addresses, or_fail, delete_basic_tunnel_entry, stored, drop_tunnel,
  remove_entries, remove_remote_endpoint,
}

module _ {Hw : Type 0} (api : TunnelApi Hw) (npu_id : ℕ) where
  abbrev Answer : Type 0
  Answer = StdError × Tunnels Hw

  -- A step that succeeds is followed by the next.
  or_fail-ok :
      (r : Answer) (k : Tunnels Hw → Answer)
      → (or_fail api npu_id r k).0 ≡ ok
      → (r.0 ≡ ok) × (or_fail api npu_id r k ≡ k r.1)
  or_fail-ok (ok, s) k h = (refl, refl)
  or_fail-ok (std_err a c st, s) k h = absurd (ground (arith, h))

  module _ (remote local_addr : IpAddr) where
    -- The tunnel is gone, or the object that is left has no entry for the bridge.
    abbrev pub HasLeft : ℕ → Tunnels Hw → Type 0
    HasLeft bridge s =
        (obj : TunnelObj)
        → get_tunnel_obj remote local_addr s.tunnel_map ≡ some obj
        → (find obj.tunnel_bridge_ports bridge ≡ none)
          × (find obj.encap_map bridge ≡ none)
          × (find obj.decap_map bridge ≡ none)

    drop_tunnel_lem :
        (bridge : ℕ) (obj : TunnelObj) (s : Tunnels Hw)
        → HasLeft bridge s
        → (drop_tunnel api npu_id remote local_addr obj s).0 ≡ ok
        → HasLeft bridge (drop_tunnel api npu_id remote local_addr obj s).1
    unfolding drop_tunnel remove_tunnel_obj get_tunnel_obj
    drop_tunnel_lem bridge obj s left h = elim (Bool-cases (is_empty obj.tunnel_bridge_ports)) [
      | inr e ↦ rw (drop_tunnel, e) left
      | inl e ↦
          let last = λ (t : Tunnels Hw).
            let r : Answer = (
              ok,
              record t { tunnel_map = (remove_tunnel_obj remote local_addr t.tunnel_map).1 },
            ) in
            r in
          let deleted = delete_basic_tunnel_entry api npu_id obj s in
          let run : drop_tunnel api npu_id remote local_addr obj s
              ≡ or_fail api npu_id deleted last =
            ground (arith, e) in
          let (done, then_last) = or_fail-ok deleted last (ground (arith, h, run)) in
          let gone = remove_tunnel_obj-gone remote local_addr deleted.1.tunnel_map in
          λ obj' there. absurd (ground (arith, there, run, then_last, gone))
    ]

    remove_entries_lem :
        (bridge : ℕ) (obj : TunnelObj) (s : Tunnels Hw)
        → find obj.tunnel_bridge_ports bridge ≡ none
        → (remove_entries api npu_id remote local_addr bridge obj s).0 ≡ ok
        → HasLeft bridge (remove_entries api npu_id remote local_addr bridge obj s).1
    unfolding remove_entries remove_decap_map_entry remove_encap_map_entry remove get_tunnel_obj
    remove_entries_lem bridge obj s no_port h =
        let all = remove_entries api npu_id remote local_addr bridge obj s in
        elim (Option-cases (find obj.encap_map bridge)) [
          | inl e ↦
              absurd
                (let no : all.0 ≡ std_err npu cfg 0 = ground (arith, e) in ground (arith, h, no))
          | inr (encap, e) ↦ elim (Option-cases (find obj.decap_map bridge)) [
            | inl f ↦
                absurd (
                  let no : all.0 ≡ std_err npu cfg 0 = ground (arith, e, f) in
                  ground (arith, h, no))
            | inr (decap, f) ↦
                let obj' : TunnelObj = record obj {
                  decap_map = erase obj.decap_map bridge;
                  encap_map = erase obj.encap_map bridge;
                } in
                let last = λ (t : Tunnels Hw).
                  drop_tunnel api npu_id remote local_addr obj'
                    (stored api npu_id remote local_addr obj' t) in
                let r1 = remove_encap_tunnel_map_entry api npu_id encap.oid s in
                let r2 = remove_encap_tunnel_map_entry api npu_id decap.oid r1.1 in
                let second = λ (t : Tunnels Hw).
                  or_fail api npu_id (remove_encap_tunnel_map_entry api npu_id decap.oid t) last in
                let run : all ≡ or_fail api npu_id r1 second = ground (arith, e, f) in
                let (h1, e1) = or_fail-ok r1 second (ground (arith, h, run)) in
                let (h2, e2) = or_fail-ok r2 last (ground (arith, h, run, e1)) in
                let s2 = stored api npu_id remote local_addr obj' r2.1 in
                let k = key_of remote local_addr in
                let left : HasLeft bridge s2 = λ o there.
                  let same : o ≡ obj' =
                    ground (arith, there, find-put r2.1.tunnel_map k (some obj') k) in
                  (
                    ground (arith, same, no_port),
                    ground (arith, same, find-erase obj.encap_map bridge bridge),
                    ground (arith, same, find-erase obj.decap_map bridge bridge),
                  ) in
                let to_last : all ≡ last r2.1 = ground (arith, run, e1, e2) in
                rw (to_last) (drop_tunnel_lem bridge obj' s2 left (ground (arith, h, to_last)))
          ]
        ]

  -- When a remote endpoint whose attributes give the two addresses is removed from a bridge with
  -- success, a tunnel object that is left for the addresses has no entry for the bridge in any of
  -- its three maps.
  pub remove_remote_endpoint_lem :
      (bridge : ℕ) (params : List TunnelParam) (remote local_addr : IpAddr) (stray stray_rif : ℕ)
      (s : Tunnels Hw)
      → read_addresses api.sizeof_ip_addr params no_ip no_ip ≡ some (remote, local_addr)
      → (remove_remote_endpoint api npu_id bridge params stray stray_rif s).0 ≡ ok
      → HasLeft remote local_addr bridge
          (remove_remote_endpoint api npu_id bridge params stray stray_rif s).1
  unfolding remove_remote_endpoint remove_tunnel_bridge_port remove
  remove_remote_endpoint_lem bridge params remote local_addr stray stray_rif s addresses h =
      let all = remove_remote_endpoint api npu_id bridge params stray stray_rif s in
      elim (Bool-cases (length params == 2)) [
        | inr g ↦
            absurd
              (let no : all.0 ≡ std_err npu fail 0 = ground (arith, g) in ground (arith, h, no))
        | inl g ↦ elim (Option-cases (get_tunnel_obj remote local_addr s.tunnel_map)) [
          | inl e ↦ absurd (
              let no : all.0 ≡ std_err npu cfg 0 = ground (arith, g, addresses, e) in
              ground (arith, h, no))
          | inr (obj, e) ↦ elim (Option-cases (find obj.tunnel_bridge_ports bridge)) [
            | inl f ↦
                let out = bridge_1d_tunnel_delete api.bridge npu_id stray stray_rif s.bridges in
                absurd (elim (StdError-cases out.0) [
                  | inl i ↦
                      let no : all.0 ≡ std_err npu cfg 0 = ground (arith, g, addresses, e, f, i) in
                      ground (arith, h, no)
                  | inr (a, c, st, i) ↦
                      let no : all.0 ≡ std_err npu cfg 0 = ground (arith, g, addresses, e, f, i) in
                      ground (arith, h, no)
                ])
            | inr (p, f) ↦
                let out = bridge_1d_tunnel_delete api.bridge npu_id p.oid stray_rif s.bridges in
                let obj1 : TunnelObj = record obj {
                  tunnel_bridge_ports = erase obj.tunnel_bridge_ports bridge;
                } in
                let s1 : Tunnels Hw = record s { bridges = out.1 } in
                elim (StdError-cases out.0) [
                  | inr (a, c, st, i) ↦ absurd (
                      let no : all.0 ≡ std_err npu cfg 0 = ground (arith, g, addresses, e, f, i) in
                      ground (arith, h, no))
                  | inl i ↦
                      let run : all
                          ≡ remove_entries api npu_id remote local_addr bridge obj1
                              (stored api npu_id remote local_addr obj1 s1) =
                        ground (arith, g, addresses, e, f, i) in
                      rw (run) (
                        remove_entries_lem remote local_addr bridge obj1
                          (stored api npu_id remote local_addr obj1 s1)
                          (ground (arith, find-erase obj.tunnel_bridge_ports bridge bridge))
                          (ground (arith, h, run)))
                ]
          ]
        ]
      ]

-- ===== src/Tunnel/Lifetimes.antt =====
-- src/nas_ndi_tunnel.cpp: what the requests leave in the tunnel objects.
use opx_nas_ndi.Base.{
  ℕ, ◌≡◌, ◌∙◌, refl, inl, inr, true, false, Option, none, some, arith, nat_key, ◌==◌, if◌then◌else◌,
  Bool-cases, Option-cases, StdError, StdError-cases, ok, std_err, npu, cfg, param,
}
use opx_nas_ndi.Base.Replies.{Reply-cases}
use opx_nas_ndi.Base.Table.{find, put, find-put}
use opx_nas_ndi.Bridge.{hw_of, on_hw, without_db}
use opx_nas_ndi.Bridge.Members.{bridge_1d_tunnel_port_add}
use opx_nas_ndi.Tunnel.{ip_key, VniOid, TunnelObj, TunnelApi, Tunnels, TunnelMapType}
use opx_nas_ndi.Tunnel.Calls.{
  create_encap_tunnel_map_entry, create_decap_tunnel_map_entry, remove_encap_tunnel_map_entry,
  remove_decap_tunnel_map_entry,
}
use opx_nas_ndi.Tunnel.Endpoints.{
  TunInfo, create_tunnel_basic_entries, unless_null, store, give_up, add_bridge_port_to_tunnel,
  add_bridge_to_tunnel, handle_tunnel_creation,
}
use opx_nas_ndi.Tunnel.Objects.{
  insert, insert_encap_map_entry, insert_decap_map_entry, insert_tunnel_bridge_port, key_of,
  get_tunnel_obj, has_tunnel_obj,
}

module _ {Hw : Type 0} (api : TunnelApi Hw) (npu_id : ℕ) where
  -- The tunnel object of the addresses of a request.
  abbrev pub tunnel_of : TunInfo → Tunnels Hw → Option TunnelObj
  tunnel_of info s = get_tunnel_obj info.remote_src_ip info.local_src_ip s.tunnel_map

  -- A bridge is on the tunnel: it has its entry in each of the three maps, with the VNI.
  abbrev pub IsComplete : TunInfo → ℕ → Tunnels Hw → Type 0
  IsComplete info port s =
      (obj : TunnelObj) × (tunnel_of info s ≡ some obj)
      × (find obj.tunnel_bridge_ports info.bridge_oid
          ≡ some (record { vni = info.vni; oid = port }))
      × ((e : ℕ) × (find obj.encap_map info.bridge_oid ≡ some (record { vni = info.vni; oid = e })))
      × ((d : ℕ) × (find obj.decap_map info.bridge_oid ≡ some (record { vni = info.vni; oid = d })))

  -- Making an object of the switch changes the switch only.
  create_decap_tunnel_map_entry-cases :
      (br map vni : ℕ) (s : Tunnels Hw)
      → (rc : StdError) × (o : Option ℕ) × (hw : Hw) × (create_decap_tunnel_map_entry api npu_id br
            map vni s
          ≡ (rc, o, record s { bridges = on_hw hw s.bridges }))
  unfolding create_decap_tunnel_map_entry
  create_decap_tunnel_map_entry-cases br map vni s =
      elim (Bool-cases (without_db npu_id s.bridges)) [
        | inl e ↦ (std_err npu param 0, none, hw_of s.bridges, ground (arith, e))
        | inr e ↦
            let call =
              api.create_tunnel_map_entry TunnelMapType.vni_to_bridge_if map br vni
                (hw_of s.bridges) in
            elim (Reply-cases call.0) [
              | inr (st, f) ↦ (std_err npu cfg st, none, call.1, ground (arith, e, f))
              | inl (oid, f) ↦ (ok, some oid, call.1, ground (arith, e, f))
            ]
      ]

  create_encap_tunnel_map_entry-cases :
      (br map vni : ℕ) (s : Tunnels Hw)
      → (rc : StdError) × (o : Option ℕ) × (hw : Hw) × (create_encap_tunnel_map_entry api npu_id br
            map vni s
          ≡ (rc, o, record s { bridges = on_hw hw s.bridges }))
  unfolding create_encap_tunnel_map_entry
  create_encap_tunnel_map_entry-cases br map vni s =
      elim (Bool-cases (without_db npu_id s.bridges)) [
        | inl e ↦ (std_err npu param 0, none, hw_of s.bridges, ground (arith, e))
        | inr e ↦
            let call =
              api.create_tunnel_map_entry TunnelMapType.bridge_if_to_vni map br vni
                (hw_of s.bridges) in
            elim (Reply-cases call.0) [
              | inr (st, f) ↦ (std_err npu cfg st, none, call.1, ground (arith, e, f))
              | inl (oid, f) ↦ (ok, some oid, call.1, ground (arith, e, f))
            ]
      ]

  -- Removing one does, too.
  removed-keeps :
      (oid : ℕ) (s : Tunnels Hw)
      → ((unless_null api npu_id oid (remove_decap_tunnel_map_entry api npu_id) s).tunnel_map
          ≡ s.tunnel_map)
        × ((unless_null api npu_id oid (remove_encap_tunnel_map_entry api npu_id) s).tunnel_map
            ≡ s.tunnel_map)
  unfolding remove_decap_tunnel_map_entry remove_encap_tunnel_map_entry
  removed-keeps oid s = elim (Bool-cases (oid == 0)) [
    | inl z ↦ (ground (arith, z), ground (arith, z))
    | inr z ↦ elim (Bool-cases (without_db npu_id s.bridges)) [
      | inl e ↦ (ground (arith, z, e), ground (arith, z, e))
      | inr e ↦ elim (Reply-cases (api.remove_tunnel_map_entry oid (hw_of s.bridges)).0) [
        | inl (u, f) ↦ (ground (arith, z, e, f), ground (arith, z, e, f))
        | inr (st, f) ↦ (ground (arith, z, e, f), ground (arith, z, e, f))
      ]
    ]
  ]

  give_up-keeps :
      (encap decap : ℕ) (s : Tunnels Hw)
      → (give_up api npu_id encap decap s).2.tunnel_map ≡ s.tunnel_map
  give_up-keeps encap decap s =
      let s1 = unless_null api npu_id encap (remove_encap_tunnel_map_entry api npu_id) s in
      (removed-keeps decap s1).0 ∙ (removed-keeps encap s).1

  -- Where the tunnel object of the two addresses has a decap entry for the bridge, to put the
  -- bridge on the tunnel fails, whatever the switch answers, and changes no tunnel object.
  pub handle_tunnel_creation_stuck :
      (info : TunInfo) (obj : TunnelObj) (d : VniOid) (s : Tunnels Hw)
      → tunnel_of info s ≡ some obj
      → find obj.decap_map info.bridge_oid ≡ some d
      → let (done, port, s') = handle_tunnel_creation api npu_id info s in
        (done ≡ false) × (s'.tunnel_map ≡ s.tunnel_map)
  unfolding handle_tunnel_creation add_bridge_to_tunnel get_tunnel_obj has_tunnel_obj
      insert_decap_map_entry insert
  handle_tunnel_creation_stuck info obj d s t e =
      let (rc, o, hw, made) =
        create_decap_tunnel_map_entry-cases info.bridge_oid obj.decap_map_oid info.vni s in
      let s1 : Tunnels Hw = record s { bridges = on_hw hw s.bridges } in
      elim (Option-cases o) [
        | inl f ↦
            let run : handle_tunnel_creation api npu_id info s ≡ give_up api npu_id 0 0 s1 =
              ground (arith, t, made, f) in
            rw (run) (refl, give_up-keeps 0 0 s1)
        | inr (oid, f) ↦
            let run : handle_tunnel_creation api npu_id info s ≡ give_up api npu_id 0 oid s1 =
              ground (arith, t, e, made, f) in
            rw (run) (refl, give_up-keeps 0 oid s1)
      ]

  -- The end of an addition that succeeds.
  add_bridge_port_to_tunnel_lem :
      (info : TunInfo) (encap decap : ℕ) (obj : TunnelObj) (s : Tunnels Hw)
      → let (done, port, s') = add_bridge_port_to_tunnel api npu_id info encap decap obj s in
        done ≡ true
        → (p : ℕ) × (port ≡ some p)
          × (s'.tunnel_map
              ≡ put s.tunnel_map (key_of info.remote_src_ip info.local_src_ip) (
                  some (record obj {
                    tunnel_bridge_ports =
                        put obj.tunnel_bridge_ports info.bridge_oid
                          (record { vni = info.vni; oid = p });
                  })))
  unfolding add_bridge_port_to_tunnel insert_tunnel_bridge_port insert
  add_bridge_port_to_tunnel_lem info encap decap obj s =
      let add = add_bridge_port_to_tunnel api npu_id info encap decap obj s in
      let port =
        bridge_1d_tunnel_port_add api.bridge npu_id info.bridge_oid obj.tun_oid s.bridges in
      elim (Option-cases (find obj.tunnel_bridge_ports info.bridge_oid)) [
        | inr (o, e) ↦
            let no : add.0 ≡ false = ground (arith, e) in λ h. absurd (ground (arith, h, no))
        | inl e ↦ elim (Option-cases port.1) [
          | inl f ↦
              let no : add.0 ≡ false = ground (arith, e, f) in λ h. absurd (ground (arith, h, no))
          | inr (p, f) ↦ λ h. (p, ground (arith, e, f), ground (arith, e, f))
        ]
      ]

  add_bridge_to_tunnel_lem :
      (info : TunInfo) (obj : TunnelObj) (s : Tunnels Hw)
      → let (done, port, s') = add_bridge_to_tunnel api npu_id info obj s in
        done ≡ true → (p : ℕ) × (port ≡ some p) × IsComplete info p s'
  unfolding add_bridge_to_tunnel get_tunnel_obj insert_decap_map_entry insert_encap_map_entry insert
  add_bridge_to_tunnel_lem info obj s =
      let b = info.bridge_oid in
      let k = key_of info.remote_src_ip info.local_src_ip in
      let add = add_bridge_to_tunnel api npu_id info obj s in
      let never : add.0 ≡ false
          → add.0 ≡ true
          → (p : ℕ) × (add.1 ≡ some p) × IsComplete info p add.2 =
        λ no h. absurd (ground (arith, h, no)) in
      let (rc, o, hw, made) = create_decap_tunnel_map_entry-cases b obj.decap_map_oid info.vni s in
      let s1 : Tunnels Hw = record s { bridges = on_hw hw s.bridges } in
      elim (Option-cases o) [
        | inl f ↦ never (ground (arith, made, f))
        | inr (decap, f) ↦ elim (Option-cases (find obj.decap_map b)) [
          | inr (old, g) ↦ never (ground (arith, made, f, g))
          | inl g ↦
              let obj1 : TunnelObj = record obj {
                decap_map = put obj.decap_map b (record { vni = info.vni; oid = decap });
              } in
              let s2 = store api npu_id info obj1 s1 in
              let (rc', o', hw', made') =
                create_encap_tunnel_map_entry-cases b obj.encap_map_oid info.vni s2 in
              let s3 : Tunnels Hw = record s2 { bridges = on_hw hw' s2.bridges } in
              elim (Option-cases o') [
                | inl f' ↦ never (ground (arith, made, f, g, made', f'))
                | inr (encap, f') ↦ elim (Option-cases (find obj.encap_map b)) [
                  | inr (old, g') ↦ never (ground (arith, made, f, g, made', f', g'))
                  | inl g' ↦
                      let obj2 : TunnelObj = record obj1 {
                        encap_map = put obj.encap_map b (record { vni = info.vni; oid = encap });
                      } in
                      let s4 = store api npu_id info obj2 s3 in
                      let run : add
                          ≡ add_bridge_port_to_tunnel api npu_id info encap decap obj2 s4 =
                        ground (arith, made, f, g, made', f', g') in
                      λ h.
                        let (p, written, map) =
                          add_bridge_port_to_tunnel_lem info encap decap obj2 s4
                            (ground (arith, h, run)) in
                        let obj3 : TunnelObj = record obj2 {
                          tunnel_bridge_ports =
                              put obj.tunnel_bridge_ports b (record { vni = info.vni; oid = p });
                        } in
                        (
                          p,
                          ground (arith, run, written),
                          (
                            obj3,
                            ground (arith, run, map, find-put s4.tunnel_map k (some obj3) k),
                            ground (
                              arith,
                              find-put obj.tunnel_bridge_ports b
                                  (record { vni = info.vni; oid = p }) b,
                            ),
                            (
                              encap,
                              ground (
                                arith,
                                find-put obj.encap_map b (record { vni = info.vni; oid = encap }) b,
                              ),
                            ),
                            (
                              decap,
                              ground (
                                arith,
                                find-put obj.decap_map b (record { vni = info.vni; oid = decap }) b,
                              ),
                            ),
                          ),
                        )
                ]
              ]
        ]
      ]

  -- When a bridge is put on a tunnel with success, the id of a bridge port is written, the tunnel
  -- object of the two addresses is there, and it has the bridge with the VNI in each of its three
  -- maps, with that bridge port in the last.
  pub handle_tunnel_creation_lem :
      (info : TunInfo) (s : Tunnels Hw)
      → (handle_tunnel_creation api npu_id info s).0 ≡ true
      → let (done, port, s') = handle_tunnel_creation api npu_id info s in
        (p : ℕ) × (port ≡ some p) × IsComplete info p s'
  unfolding handle_tunnel_creation
  handle_tunnel_creation_lem info s =
      let first : StdError × Tunnels Hw =
        if has_tunnel_obj info.remote_src_ip info.local_src_ip s.tunnel_map
        then (ok, s)
        else create_tunnel_basic_entries api npu_id info.vrf_oid info.ulay_rif_oid info.local_src_ip
            info.remote_src_ip s in
      elim (StdError-cases first.0) [
        | inr (a, c, st, e) ↦
            let run : handle_tunnel_creation api npu_id info s ≡ (false, none, first.1) =
              ground (arith, e) in
            rw (run) (λ h. absurd (ground (arith, h)))
        | inl e ↦ elim (Option-cases (tunnel_of info first.1)) [
          | inl f ↦
              let run : handle_tunnel_creation api npu_id info s ≡ (false, none, first.1) =
                ground (arith, e, f) in
              rw (run) (λ h. absurd (ground (arith, h)))
          | inr (obj, f) ↦
              let run : handle_tunnel_creation api npu_id info s
                  ≡ add_bridge_to_tunnel api npu_id info obj first.1 =
                ground (arith, e, f) in
              rw (run) (add_bridge_to_tunnel_lem info obj first.1)
        ]
      ]

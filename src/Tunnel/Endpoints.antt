-- ===== src/Tunnel/Endpoints.antt =====
-- src/nas_ndi_tunnel.cpp: remote endpoints are added and removed. `break` out of a `do` block is the clean-up
-- that follows it, with the ids that are known then; an id that is not known is null.
use opx_nas_ndi.Base.{
  ℕ, Bool, true, false, Option, none, some, nat_key, ◌==◌, if◌then◌else◌, StdError, ok, std_err,
  npu, param,
}
use opx_nas_ndi.Base.Table.{put}
use opx_nas_ndi.Bridge.Members.{bridge_1d_tunnel_port_add}
use opx_nas_ndi.Tunnel.{IpAddr, ip_key, TunnelObj, TunnelApi, Tunnels}
use opx_nas_ndi.Tunnel.Calls.{
  create_encap_tunnel_map, create_decap_tunnel_map, remove_encap_tunnel_map,
  remove_decap_tunnel_map, create_encap_tunnel_map_entry, create_decap_tunnel_map_entry,
  remove_encap_tunnel_map_entry, remove_decap_tunnel_map_entry, create_tunnel, remove_tunnel,
  create_tunnel_term_entry, remove_tunnel_term_entry,
}
use opx_nas_ndi.Tunnel.Objects.{
  get, new_tunnel_obj, insert_encap_map_entry, insert_decap_map_entry, insert_tunnel_bridge_port,
  remove_decap_map_entry, key_of, insert_tunnel_obj, remove_tunnel_obj, get_tunnel_obj,
  has_tunnel_obj,
}

-- `tun_info_t`
pub record TunInfo : Type 0 where
  pub remote_src_ip : IpAddr
  pub local_src_ip : IpAddr
  pub vni : ℕ
  pub vrf_oid : ℕ
  pub ulay_rif_oid : ℕ
  pub bridge_oid : ℕ

abbrev pub id_or_null : Option ℕ → ℕ
id_or_null none = 0
id_or_null (some oid) = oid

module _ {Hw : Type 0} (api : TunnelApi Hw) (npu_id : ℕ) where
  abbrev pub unless_null : ℕ → (ℕ → Tunnels Hw → StdError × Tunnels Hw) → Tunnels Hw → Tunnels Hw
  unless_null oid op s = if oid == 0 then s else (op oid s).1

  -- The clean-up of `ndi_create_tunnel_basic_entries`, of the encap and the decap map, the termination entry
  -- and the tunnel.
  unfoldable pub clean_up_tunnel : ℕ → ℕ → ℕ → ℕ → IpAddr → IpAddr → Tunnels Hw → Tunnels Hw
  clean_up_tunnel encap decap term tunnel local_src_ip remote_src_ip s =
      let s1 = unless_null encap (remove_encap_tunnel_map api npu_id) s in
      let s2 = unless_null decap (remove_decap_tunnel_map api npu_id) s1 in
      let s3 = unless_null term (remove_tunnel_term_entry api npu_id) s2 in
      if tunnel == 0
      then s3
      else (let s4 = (remove_tunnel api npu_id tunnel s3).1 in
          record s4 { tunnel_map = (remove_tunnel_obj remote_src_ip local_src_ip s4.tunnel_map).1 })

  -- `ndi_create_tunnel_basic_entries`
  unfoldable pub create_tunnel_basic_entries :
      ℕ → ℕ → IpAddr → IpAddr → Tunnels Hw → StdError × Tunnels Hw
  unfolding clean_up_tunnel
  create_tunnel_basic_entries vrf_oid ulay_oid local_src_ip remote_src_ip s =
      let clean = λ (encap decap term tunnel : ℕ) (t : Tunnels Hw).
        clean_up_tunnel encap decap term tunnel local_src_ip remote_src_ip t in
      let rc = std_err npu param 0 in
      let (_, encap, s1) = create_encap_tunnel_map api npu_id s in
      elim encap [
        | none ↦ (rc, clean 0 0 0 0 s1)
        | some encap_oid ↦
            let (_, decap, s2) = create_decap_tunnel_map api npu_id s1 in
            elim decap [
              | none ↦ (rc, clean encap_oid 0 0 0 s2)
              | some decap_oid ↦
                  let (_, tunnel, s3) =
                    create_tunnel api npu_id ulay_oid encap_oid decap_oid local_src_ip s2 in
                  elim tunnel [
                    | none ↦ (rc, clean encap_oid decap_oid 0 0 s3)
                    | some tunnel_oid ↦
                        let (_, term, s4) =
                          create_tunnel_term_entry api npu_id vrf_oid tunnel_oid remote_src_ip
                            local_src_ip s3 in
                        elim term [
                          | none ↦ (rc, clean encap_oid decap_oid 0 tunnel_oid s4)
                          | some term_oid ↦
                              let obj =
                                new_tunnel_obj tunnel_oid encap_oid decap_oid term_oid local_src_ip
                                  remote_src_ip in
                              let (inserted, m) =
                                insert_tunnel_obj remote_src_ip local_src_ip (some obj)
                                  s4.tunnel_map in
                              if inserted
                              then (ok, record s4 { tunnel_map = m })
                              else (rc, clean encap_oid decap_oid term_oid tunnel_oid s4)
                        ]
                  ]
            ]
      ]

  -- The object behind the pointer is changed.
  abbrev pub store : TunInfo → TunnelObj → Tunnels Hw → Tunnels Hw
  store info obj s = record s {
    tunnel_map = put s.tunnel_map (key_of info.remote_src_ip info.local_src_ip) (some obj);
  }

  -- The clean-up of `ndi_handle_tunnel_creation`, of the encap and the decap entry.
  abbrev pub give_up : ℕ → ℕ → Tunnels Hw → Bool × Option ℕ × Tunnels Hw
  give_up encap decap s =
      let s1 = unless_null encap (remove_encap_tunnel_map_entry api npu_id) s in
      (false, none, unless_null decap (remove_decap_tunnel_map_entry api npu_id) s1)

  -- The end of `ndi_handle_tunnel_creation`: the bridge port, and its id when it is written.
  unfoldable pub add_bridge_port_to_tunnel :
      TunInfo → ℕ → ℕ → TunnelObj → Tunnels Hw → Bool × Option ℕ × Tunnels Hw
  add_bridge_port_to_tunnel info encap decap obj s =
      elim (get info.bridge_oid obj.tunnel_bridge_ports) [
        | some _ ↦ give_up encap decap s
        | none ↦
            let (_, made, b) =
              bridge_1d_tunnel_port_add api.bridge npu_id info.bridge_oid obj.tun_oid s.bridges in
            let s1 = record s { bridges = b } in
            elim made [
              | none ↦ give_up encap decap s1
              | some port ↦
                  let (inserted, obj') =
                    insert_tunnel_bridge_port info.bridge_oid info.vni port obj in
                  if inserted then (true, some port, store info obj' s1) else give_up encap decap s1
            ]
      ]

  -- `ndi_handle_tunnel_creation`, once the tunnel object is there.
  unfoldable pub add_bridge_to_tunnel :
      TunInfo → TunnelObj → Tunnels Hw → Bool × Option ℕ × Tunnels Hw
  unfolding add_bridge_port_to_tunnel
  add_bridge_to_tunnel info obj s =
      let (_, decap, s1) =
        create_decap_tunnel_map_entry api npu_id info.bridge_oid obj.decap_map_oid info.vni s in
      elim decap [
        | none ↦ give_up 0 0 s1
        | some decap_oid ↦
            let (inserted, obj1) = insert_decap_map_entry info.bridge_oid info.vni decap_oid obj in
            if inserted
            then (let s2 = store info obj1 s1 in
                let (_, encap, s3) =
                  create_encap_tunnel_map_entry api npu_id info.bridge_oid obj.encap_map_oid
                    info.vni s2 in
                elim encap [
                  | none ↦ give_up 0 decap_oid s3
                  | some encap_oid ↦
                      let (inserted', obj2) =
                        insert_encap_map_entry info.bridge_oid info.vni encap_oid obj1 in
                      if inserted'
                      then add_bridge_port_to_tunnel info encap_oid decap_oid obj2
                          (store info obj2 s3)
                      else give_up encap_oid decap_oid
                          (store info (remove_decap_map_entry info.vni obj1).1 s3)
                ])
            else give_up 0 decap_oid s1
      ]

  -- `ndi_handle_tunnel_creation`: the answer, and the bridge port when it is written.
  unfoldable pub handle_tunnel_creation : TunInfo → Tunnels Hw → Bool × Option ℕ × Tunnels Hw
  unfolding create_tunnel_basic_entries add_bridge_to_tunnel
  handle_tunnel_creation info s =
      let (rc, s1) =
        if has_tunnel_obj info.remote_src_ip info.local_src_ip s.tunnel_map
        then (ok, s)
        else create_tunnel_basic_entries info.vrf_oid info.ulay_rif_oid info.local_src_ip
            info.remote_src_ip s in
      elim rc [
        | std_err _ _ _ ↦ (false, none, s1)
        | ok ↦ elim (get_tunnel_obj info.remote_src_ip info.local_src_ip s1.tunnel_map) [
          | none ↦ (false, none, s1)
          | some obj ↦ add_bridge_to_tunnel info obj s1
        ]
      ]

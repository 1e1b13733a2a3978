-- ===== src/Tunnel/Requests.antt =====
-- src/nas_ndi_tunnel.cpp: the requests to add and to remove a remote endpoint. An attribute comes with the
-- length of its value.
use opx_nas_ndi.Base.{
  ℕ, Option, none, some, List, [], ◌∷◌, nat_key, ◌==◌, length, if◌then◌else◌, StdError, ok, std_err,
  npu, cfg, fail,
}
use opx_nas_ndi.Base.Table.{put, is_empty}
use opx_nas_ndi.Bridge.Members.{bridge_1d_tunnel_delete}
use opx_nas_ndi.Tunnel.{IpAddr, ip_key, TunnelObj, TunnelApi, Tunnels}
use opx_nas_ndi.Tunnel.Calls.{
  remove_encap_tunnel_map, remove_decap_tunnel_map, remove_encap_tunnel_map_entry, remove_tunnel,
  remove_tunnel_term_entry,
}
use opx_nas_ndi.Tunnel.Endpoints.{TunInfo, handle_tunnel_creation}
use opx_nas_ndi.Tunnel.Objects.{
  get, remove_encap_map_entry, remove_decap_map_entry, remove_tunnel_bridge_port, key_of,
  remove_tunnel_obj, get_tunnel_obj,
}

-- `tunnel_params[]`; `other_attr` is an attribute that the switch statements do not list.
pub data TunnelParam : Type 0 where
  remote_endpoint_addr : ℕ → IpAddr → TunnelParam
  source_ip_addr : ℕ → IpAddr → TunnelParam
  vni : ℕ → ℕ → TunnelParam
  other_attr : TunnelParam

-- `cus_param[]`
pub data CustomParam : Type 0 where
  vrf_oid underlay_oid bridge_oid : ℕ → ℕ → CustomParam
  other_custom : CustomParam

abbrev pub no_ip : IpAddr
no_ip = record { af_index = 0; u = 0 }

-- `memset(&info, 0, sizeof(tun_info_t))`
abbrev pub no_info : TunInfo
no_info = record {
  remote_src_ip = no_ip;
  local_src_ip = no_ip;
  vni = 0;
  vrf_oid = 0;
  ulay_rif_oid = 0;
  bridge_oid = 0;
}

module _ (sizeof_ip_addr : ℕ) where
  -- The loop over `tunnel_params` of `nas_ndi_add_remote_endpoint`: `none` for a value of another length.
  unfoldable pub read_params : List TunnelParam → TunInfo → Option TunInfo
  read_params [] info = some info
  read_params (TunnelParam.remote_endpoint_addr vlen ip ∷ ps) info =
      let rest = read_params ps (record info { remote_src_ip = ip }) in
      if vlen == sizeof_ip_addr then rest else none
  read_params (TunnelParam.source_ip_addr vlen ip ∷ ps) info =
      let rest = read_params ps (record info { local_src_ip = ip }) in
      if vlen == sizeof_ip_addr then rest else none
  read_params (TunnelParam.vni vlen v ∷ ps) info =
      let rest = read_params ps (record info { vni = v }) in if vlen == 4 then rest else none
  read_params (TunnelParam.other_attr ∷ ps) info = read_params ps info

  -- The loop of `nas_ndi_remove_remote_endpoint`, which does not list the VNI: the remote and the local address.
  unfoldable pub read_addresses : List TunnelParam → IpAddr → IpAddr → Option (IpAddr × IpAddr)
  read_addresses [] remote local_addr = some (remote, local_addr)
  read_addresses (TunnelParam.remote_endpoint_addr vlen ip ∷ ps) remote local_addr =
      let rest = read_addresses ps ip local_addr in if vlen == sizeof_ip_addr then rest else none
  read_addresses (TunnelParam.source_ip_addr vlen ip ∷ ps) remote local_addr =
      let rest = read_addresses ps remote ip in if vlen == sizeof_ip_addr then rest else none
  read_addresses (TunnelParam.vni vlen v ∷ ps) remote local_addr =
      read_addresses ps remote local_addr
  read_addresses (TunnelParam.other_attr ∷ ps) remote local_addr =
      read_addresses ps remote local_addr

-- The loop over `cus_param`.
unfoldable pub read_custom : List CustomParam → TunInfo → Option TunInfo
read_custom [] info = some info
read_custom (CustomParam.vrf_oid vlen v ∷ ps) info =
    let rest = read_custom ps (record info { vrf_oid = v }) in if vlen == 8 then rest else none
read_custom (CustomParam.underlay_oid vlen v ∷ ps) info =
    let rest = read_custom ps (record info { ulay_rif_oid = v }) in if vlen == 8 then rest else none
read_custom (CustomParam.bridge_oid vlen v ∷ ps) info =
    let rest = read_custom ps (record info { bridge_oid = v }) in if vlen == 8 then rest else none
read_custom (CustomParam.other_custom ∷ ps) info = read_custom ps info

module _ {Hw : Type 0} (api : TunnelApi Hw) (npu_id : ℕ) where
  -- `nas_ndi_add_remote_endpoint`: the answer, and the bridge port when it is written.
  unfoldable pub add_remote_endpoint :
      List TunnelParam → List CustomParam → Tunnels Hw → StdError × Option ℕ × Tunnels Hw
  unfolding read_params read_custom
  add_remote_endpoint tunnel_params cus_param s =
      if length tunnel_params == 3
      then (elim (read_params api.sizeof_ip_addr tunnel_params no_info) [
        | none ↦ (std_err npu fail 0, none, s)
        | some info ↦ elim (read_custom cus_param info) [
          | none ↦ (std_err npu fail 0, none, s)
          | some info' ↦
              let (done, port, s') = handle_tunnel_creation api npu_id info' s in
              (if done then ok else std_err npu cfg 0, port, s')
        ]
      ])
      else (std_err npu fail 0, none, s)

  -- `if (… != STD_ERR_OK) return STD_ERR(NPU, CFG, 0);`
  abbrev pub or_fail :
      StdError × Tunnels Hw → (Tunnels Hw → StdError × Tunnels Hw) → StdError × Tunnels Hw
  or_fail (ok, s) k = k s
  or_fail (std_err a c st, s) k = (std_err npu cfg 0, s)

  -- `ndi_delete_basic_tunnel_entry`
  unfoldable pub delete_basic_tunnel_entry : TunnelObj → Tunnels Hw → StdError × Tunnels Hw
  delete_basic_tunnel_entry obj s =
      or_fail (remove_tunnel_term_entry api npu_id obj.term_oid s) (λ s1.
        or_fail (remove_tunnel api npu_id obj.tun_oid s1) (λ s2.
          or_fail (remove_decap_tunnel_map api npu_id obj.decap_map_oid s2) (λ s3.
            or_fail (remove_encap_tunnel_map api npu_id obj.encap_map_oid s3) (λ s4. (ok, s4)))))

  -- The object behind the pointer is changed.
  abbrev pub stored : IpAddr → IpAddr → TunnelObj → Tunnels Hw → Tunnels Hw
  stored remote local_addr obj s = record s {
    tunnel_map = put s.tunnel_map (key_of remote local_addr) (some obj);
  }

  -- The end of `nas_ndi_remove_remote_endpoint`: the object goes with its last bridge port.
  unfoldable pub drop_tunnel : IpAddr → IpAddr → TunnelObj → Tunnels Hw → StdError × Tunnels Hw
  unfolding delete_basic_tunnel_entry
  drop_tunnel remote local_addr obj s =
      if is_empty obj.tunnel_bridge_ports
      then or_fail (delete_basic_tunnel_entry obj s) (λ s'.
        (ok, record s' { tunnel_map = (remove_tunnel_obj remote local_addr s'.tunnel_map).1 }))
      else (ok, s)

  -- The part between: the entries of the maps.
  unfoldable pub remove_entries :
      IpAddr → IpAddr → ℕ → TunnelObj → Tunnels Hw → StdError × Tunnels Hw
  unfolding drop_tunnel
  remove_entries remote local_addr bridge obj s = elim (get bridge obj.encap_map) [
    | none ↦ (std_err npu cfg 0, s)
    | some encap ↦ elim (get bridge obj.decap_map) [
      | none ↦ (std_err npu cfg 0, s)
      | some decap ↦ or_fail (remove_encap_tunnel_map_entry api npu_id encap.oid s) (λ s1.
          or_fail (remove_encap_tunnel_map_entry api npu_id decap.oid s1) (λ s2.
            let (removed, obj1) = remove_decap_map_entry bridge obj in
            let (removed', obj2) = remove_encap_map_entry bridge obj1 in
            if removed
            then (if removed'
                then drop_tunnel remote local_addr obj2 (stored remote local_addr obj2 s2)
                else (std_err npu cfg 0, stored remote local_addr obj1 s2))
            else (std_err npu cfg 0, s2)))
    ]
  ]

  -- `nas_ndi_remove_remote_endpoint`. `stray` and `stray_rif` are what the memory holds for the bridge port
  -- where the object has none, and for the field that `ndi_delete_bridge_port` does not set.
  unfoldable pub remove_remote_endpoint :
      ℕ → List TunnelParam → ℕ → ℕ → Tunnels Hw → StdError × Tunnels Hw
  unfolding read_addresses remove_entries
  remove_remote_endpoint bridge tunnel_params stray stray_rif s =
      if length tunnel_params == 2
      then (elim (read_addresses api.sizeof_ip_addr tunnel_params no_ip no_ip) [
        | none ↦ (std_err npu fail 0, s)
        | some (remote, local_addr) ↦ elim (get_tunnel_obj remote local_addr s.tunnel_map) [
          | none ↦ (std_err npu cfg 0, s)
          | some obj ↦
              let port : ℕ = elim (get bridge obj.tunnel_bridge_ports) [
                | none ↦ stray
                | some p ↦ p.oid
              ] in
              let (rc, b) = bridge_1d_tunnel_delete api.bridge npu_id port stray_rif s.bridges in
              or_fail (rc, record s { bridges = b })
                (λ s1.
                  let (removed, obj1) = remove_tunnel_bridge_port bridge obj in
                  if removed
                  then remove_entries remote local_addr bridge obj1
                      (stored remote local_addr obj1 s1)
                  else (std_err npu cfg 0, s1))
        ]
      ])
      else (std_err npu fail 0, s)

-- ===== src/Tunnel/Calls.antt =====
-- src/nas_ndi_tunnel.cpp: the functions that make and remove one object of the switch.
use opx_nas_ndi.Base.{ℕ, Option, none, some, if◌then◌else◌, StdError, ok, std_err, npu, cfg, param}
use opx_nas_ndi.Base.Replies.{Reply, reply, failed}
use opx_nas_ndi.Bridge.{hw_of, on_hw, without_db}
use opx_nas_ndi.Tunnel.{IpAddr, TunnelMapType, TunnelApi, Tunnels}

module _ {Hw : Type 0} where
  -- What the functions have in common: the id is written with success.
  abbrev pub makes : ℕ → (Hw → Reply ℕ × Hw) → Tunnels Hw → StdError × Option ℕ × Tunnels Hw
  makes npu_id call s =
      if without_db npu_id s.bridges
      then (std_err npu param 0, none, s)
      else (let (r, hw) = call (hw_of s.bridges) in
          let s' = record s { bridges = on_hw hw s.bridges } in
          elim r [ failed st ↦ (std_err npu cfg st, none, s') | reply oid ↦ (ok, some oid, s') ])

  abbrev pub unmakes : ℕ → (Hw → Reply (Unit {0}) × Hw) → Tunnels Hw → StdError × Tunnels Hw
  unmakes npu_id call s =
      if without_db npu_id s.bridges
      then (std_err npu param 0, s)
      else (let (r, hw) = call (hw_of s.bridges) in
          let s' = record s { bridges = on_hw hw s.bridges } in
          elim r [ failed st ↦ (std_err npu cfg st, s') | reply _ ↦ (ok, s') ])

module _ {Hw : Type 0} (api : TunnelApi Hw) (npu_id : ℕ) where
  -- `ndi_create_encap_tunnel_map`, `ndi_create_decap_tunnel_map`
  unfoldable pub create_encap_tunnel_map : Tunnels Hw → StdError × Option ℕ × Tunnels Hw
  create_encap_tunnel_map = makes npu_id (api.create_tunnel_map TunnelMapType.bridge_if_to_vni)

  unfoldable pub create_decap_tunnel_map : Tunnels Hw → StdError × Option ℕ × Tunnels Hw
  create_decap_tunnel_map = makes npu_id (api.create_tunnel_map TunnelMapType.vni_to_bridge_if)

  -- `ndi_remove_encap_tunnel_map`, `ndi_remove_decap_tunnel_map`
  unfoldable pub remove_encap_tunnel_map : ℕ → Tunnels Hw → StdError × Tunnels Hw
  remove_encap_tunnel_map oid = unmakes npu_id (api.remove_tunnel_map oid)

  unfoldable pub remove_decap_tunnel_map : ℕ → Tunnels Hw → StdError × Tunnels Hw
  remove_decap_tunnel_map oid = unmakes npu_id (api.remove_tunnel_map oid)

  -- `ndi_create_encap_tunnel_map_entry`, `ndi_create_decap_tunnel_map_entry`
  unfoldable pub create_encap_tunnel_map_entry :
      ℕ → ℕ → ℕ → Tunnels Hw → StdError × Option ℕ × Tunnels Hw
  create_encap_tunnel_map_entry bridge_oid map_oid vnid =
      makes npu_id
        (api.create_tunnel_map_entry TunnelMapType.bridge_if_to_vni map_oid bridge_oid vnid)

  unfoldable pub create_decap_tunnel_map_entry :
      ℕ → ℕ → ℕ → Tunnels Hw → StdError × Option ℕ × Tunnels Hw
  create_decap_tunnel_map_entry bridge_oid map_oid vnid =
      makes npu_id
        (api.create_tunnel_map_entry TunnelMapType.vni_to_bridge_if map_oid bridge_oid vnid)

  -- `ndi_remove_encap_tunnel_map_entry`, `ndi_remove_decap_tunnel_map_entry`
  unfoldable pub remove_encap_tunnel_map_entry : ℕ → Tunnels Hw → StdError × Tunnels Hw
  remove_encap_tunnel_map_entry oid = unmakes npu_id (api.remove_tunnel_map_entry oid)

  unfoldable pub remove_decap_tunnel_map_entry : ℕ → Tunnels Hw → StdError × Tunnels Hw
  remove_decap_tunnel_map_entry oid = unmakes npu_id (api.remove_tunnel_map_entry oid)

  -- `ndi_create_tunnel`, of the underlay interface, the encap and the decap map and the source address; and
  -- `ndi_remove_tunnel`
  unfoldable pub create_tunnel : ℕ → ℕ → ℕ → IpAddr → Tunnels Hw → StdError × Option ℕ × Tunnels Hw
  create_tunnel underlay_rif_oid encap_map_oid decap_map_oid src_ip =
      makes npu_id (api.create_tunnel underlay_rif_oid encap_map_oid decap_map_oid src_ip)

  unfoldable pub remove_tunnel : ℕ → Tunnels Hw → StdError × Tunnels Hw
  remove_tunnel oid = unmakes npu_id (api.remove_tunnel oid)

  -- `ndi_create_tunnel_term_entry`, `ndi_remove_tunnel_term_entry`
  unfoldable pub create_tunnel_term_entry :
      ℕ → ℕ → IpAddr → IpAddr → Tunnels Hw → StdError × Option ℕ × Tunnels Hw
  create_tunnel_term_entry vr_oid tunnel_oid remote_src_ip local_as_dst_ip =
      makes npu_id
        (api.create_tunnel_term_table_entry vr_oid tunnel_oid remote_src_ip local_as_dst_ip)

  unfoldable pub remove_tunnel_term_entry : ℕ → Tunnels Hw → StdError × Tunnels Hw
  remove_tunnel_term_entry oid = unmakes npu_id (api.remove_tunnel_term_table_entry oid)

  -- `ndi_create_underlay_rif`
  unfoldable pub create_underlay_rif : ℕ → Tunnels Hw → StdError × Option ℕ × Tunnels Hw
  create_underlay_rif vr_oid = makes npu_id (api.create_loopback_interface vr_oid)

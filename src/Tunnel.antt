-- ===== src/Tunnel.antt =====
-- src/nas_ndi_tunnel.cpp, src/nas_ndi_tunnel_obj.cpp, src/nas_ndi_tunnel_map.cpp: VXLAN tunnels between a
-- local and a remote address, and the bridges whose packets they carry.
pub mod Objects
pub mod Calls
pub mod Endpoints
pub mod Requests
pub mod Lifetimes
pub mod Leaving
use opx_nas_ndi.Base.{
  ℕ, ◌≡◌, ◌↔◌, Bool, true, false, ◌&&◌, Option, none, some, arith, nat_key, nat_beq, KeyTest,
  if◌then◌else◌,
}
use opx_nas_ndi.Base.Replies.{Reply}
use opx_nas_ndi.Base.Table.{Table, find, put, erase, is_empty}
use opx_nas_ndi.Bridge.{BridgeApi, Bridges}

-- `hal_ip_addr_t`; `u` stands for the 16 bytes of the union, as one number.
pub record IpAddr : Type 0 where
  pub af_index : ℕ
  pub u : ℕ

-- `br_ip_key_t`, as `ndi_br_ip_addr_comp_less` compares it: by the bytes of the addresses, not by their
-- families.
pub record IpKey : Type 0 where
  pub remote_ip : ℕ
  pub local_ip : ℕ

pub ip_beq_iff :
    (a b : IpKey)
    → ((nat_beq a.remote_ip b.remote_ip && nat_beq a.local_ip b.local_ip) ≡ true) ↔ (a ≡ b)
ip_beq_iff a b = ground arith

instance abbrev pub ip_key : KeyTest IpKey
ip_key = record {
  same = λ a b. nat_beq a.remote_ip b.remote_ip && nat_beq a.local_ip b.local_ip;
  same_iff = ip_beq_iff;
}

-- `vni_s_oid_map_t`
pub record VniOid : Type 0 where
  pub vni : ℕ
  pub oid : ℕ

-- `TunnelObj`: its three maps are by bridge.
pub record TunnelObj : Type 0 where
  pub tun_oid : ℕ
  pub encap_map_oid : ℕ
  pub decap_map_oid : ℕ
  pub term_oid : ℕ
  pub local_src_ip : IpAddr
  pub remote_src_ip : IpAddr
  pub encap_map : Table ℕ VniOid
  pub decap_map : Table ℕ VniOid
  pub tunnel_bridge_ports : Table ℕ VniOid

-- The types of a tunnel map: from bridges to VNIs, and back.
pub data TunnelMapType : Type 0 where
  bridge_if_to_vni vni_to_bridge_if : TunnelMapType

-- The calls of SAI that the code makes, with those of the bridge functions, on a switch of type `Hw`; and
-- the size of an address.
pub record TunnelApi (Hw : Type 0) : Type 0 where
  pub bridge : BridgeApi Hw
  pub create_tunnel_map : TunnelMapType → Hw → Reply ℕ × Hw
  pub remove_tunnel_map : ℕ → Hw → Reply (Unit {0}) × Hw
  pub create_tunnel_map_entry : TunnelMapType → ℕ → ℕ → ℕ → Hw → Reply ℕ × Hw
  pub remove_tunnel_map_entry : ℕ → Hw → Reply (Unit {0}) × Hw
  pub create_tunnel : ℕ → ℕ → ℕ → IpAddr → Hw → Reply ℕ × Hw
  pub remove_tunnel : ℕ → Hw → Reply (Unit {0}) × Hw
  pub create_tunnel_term_table_entry : ℕ → ℕ → IpAddr → IpAddr → Hw → Reply ℕ × Hw
  pub remove_tunnel_term_table_entry : ℕ → Hw → Reply (Unit {0}) × Hw
  pub create_loopback_interface : ℕ → Hw → Reply ℕ × Hw
  pub sizeof_ip_addr : ℕ

-- What the functions share: what the bridge functions share, and `nas_ndi_tunnel_obj_map`, whose pointers
-- own their objects and may be null.
pub record Tunnels (Hw : Type 0) : Type 0 where
  pub bridges : Bridges Hw
  pub tunnel_map : Table IpKey (Option TunnelObj)

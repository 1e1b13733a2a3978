-- ===== src/Tunnel/Objects.antt =====
-- src/nas_ndi_tunnel_obj.cpp: the maps of a tunnel object; src/nas_ndi_tunnel_map.cpp: the tunnel objects by
-- their addresses.
use opx_nas_ndi.Base.{
  ℕ, ◌≡◌, Bool, true, false, Option, none, some, arith, nat_key, ◌==◌, if◌then◌else◌, inl, inr,
  Option-cases,
}
use opx_nas_ndi.Base.Table.{Table, find, put, erase, empty, find-put, find-erase}
use opx_nas_ndi.Tunnel.{IpAddr, IpKey, ip_key, VniOid, TunnelObj}

-- `TunnelObj::_insert`, `TunnelObj::_remove`, `TunnelObj::_get`
unfoldable pub insert : ℕ → ℕ → ℕ → Table ℕ VniOid → Bool × Table ℕ VniOid
insert bridge_oid vni oid map = elim (find map bridge_oid) [
  | some _ ↦ (false, map)
  | none ↦ (true, put map bridge_oid (record { vni = vni; oid = oid }))
]

unfoldable pub remove : ℕ → Table ℕ VniOid → Bool × Table ℕ VniOid
remove br_oid map = elim (find map br_oid) [
  | none ↦ (false, map)
  | some _ ↦ (true, erase map br_oid)
]

abbrev pub get : ℕ → Table ℕ VniOid → Option VniOid
get br_oid map = find map br_oid

-- The constructor of `TunnelObj`.
abbrev pub new_tunnel_obj : ℕ → ℕ → ℕ → ℕ → IpAddr → IpAddr → TunnelObj
new_tunnel_obj tun_oid encap_map_oid decap_map_oid term_oid local_src_ip remote_src_ip = record {
  tun_oid = tun_oid;
  encap_map_oid = encap_map_oid;
  decap_map_oid = decap_map_oid;
  term_oid = term_oid;
  local_src_ip = local_src_ip;
  remote_src_ip = remote_src_ip;
  encap_map = empty;
  decap_map = empty;
  tunnel_bridge_ports = empty;
}

unfoldable pub insert_encap_map_entry : ℕ → ℕ → ℕ → TunnelObj → Bool × TunnelObj
unfolding insert
insert_encap_map_entry br_oid vni oid obj =
    let (done, map) = insert br_oid vni oid obj.encap_map in (done, record obj { encap_map = map })

unfoldable pub insert_decap_map_entry : ℕ → ℕ → ℕ → TunnelObj → Bool × TunnelObj
unfolding insert
insert_decap_map_entry br_oid vni oid obj =
    let (done, map) = insert br_oid vni oid obj.decap_map in (done, record obj { decap_map = map })

unfoldable pub insert_tunnel_bridge_port : ℕ → ℕ → ℕ → TunnelObj → Bool × TunnelObj
unfolding insert
insert_tunnel_bridge_port br_oid vni oid obj =
    let (done, map) = insert br_oid vni oid obj.tunnel_bridge_ports in
    (done, record obj { tunnel_bridge_ports = map })

unfoldable pub remove_encap_map_entry : ℕ → TunnelObj → Bool × TunnelObj
unfolding remove
remove_encap_map_entry br_oid obj =
    let (done, map) = remove br_oid obj.encap_map in (done, record obj { encap_map = map })

unfoldable pub remove_decap_map_entry : ℕ → TunnelObj → Bool × TunnelObj
unfolding remove
remove_decap_map_entry br_oid obj =
    let (done, map) = remove br_oid obj.decap_map in (done, record obj { decap_map = map })

unfoldable pub remove_tunnel_bridge_port : ℕ → TunnelObj → Bool × TunnelObj
unfolding remove
remove_tunnel_bridge_port br_oid obj =
    let (done, map) = remove br_oid obj.tunnel_bridge_ports in
    (done, record obj { tunnel_bridge_ports = map })

-- The key of a remote and a local address.
abbrev pub key_of : IpAddr → IpAddr → IpKey
key_of remote local_addr = record { remote_ip = remote.u; local_ip = local_addr.u }

abbrev pub TunnelMap : Type 0
TunnelMap = Table IpKey (Option TunnelObj)

unfoldable pub insert_tunnel_obj : IpAddr → IpAddr → Option TunnelObj → TunnelMap → Bool × TunnelMap
insert_tunnel_obj src_ip loc_ip tunnel_obj m = elim (find m (key_of src_ip loc_ip)) [
  | some _ ↦ (false, m)
  | none ↦ (true, put m (key_of src_ip loc_ip) tunnel_obj)
]

-- The object is deleted with its entry.
unfoldable pub remove_tunnel_obj : IpAddr → IpAddr → TunnelMap → Bool × TunnelMap
remove_tunnel_obj src_ip loc_ip m = elim (find m (key_of src_ip loc_ip)) [
  | none ↦ (false, m)
  | some obj ↦
      let m' = erase m (key_of src_ip loc_ip) in
      elim obj [ some _ ↦ (false, m') | none ↦ (true, m') ]
]

unfoldable pub get_tunnel_obj : IpAddr → IpAddr → TunnelMap → Option TunnelObj
get_tunnel_obj src_ip loc_ip m = elim (find m (key_of src_ip loc_ip)) [
  | none ↦ none
  | some obj ↦ obj
]

unfoldable pub has_tunnel_obj : IpAddr → IpAddr → TunnelMap → Bool
has_tunnel_obj src_ip loc_ip m = elim (find m (key_of src_ip loc_ip)) [
  | none ↦ false
  | some _ ↦ true
]

-- A tunnel object that is inserted where there is none is found by its addresses, whatever their families,
-- and no other is changed; its removal answers failure and leaves every entry of the map as it was before
-- the insertion.
pub remove_tunnel_obj-insert :
    (remote local_addr : IpAddr) (obj : TunnelObj) (m : TunnelMap) (r l : IpAddr)
    → has_tunnel_obj remote local_addr m ≡ false
    → let (inserted, m') = insert_tunnel_obj remote local_addr (some obj) m in
      let (removed, m'') = remove_tunnel_obj remote local_addr m' in
      (inserted ≡ true)
      × (get_tunnel_obj r l m'
          ≡ (if key_of remote local_addr == key_of r l then some obj else get_tunnel_obj r l m))
      × (removed ≡ false)
      × (find m'' (key_of r l) ≡ find m (key_of r l))
unfolding insert_tunnel_obj remove_tunnel_obj get_tunnel_obj has_tunnel_obj
remove_tunnel_obj-insert remote local_addr obj m r l h =
    elim (Option-cases (find m (key_of remote local_addr))) [
      | inr (o, e) ↦ absurd (ground (arith, e, h))
      | inl e ↦
          let k = key_of remote local_addr in
          let put_here = find-put m k (some obj) k in
          let put_there = find-put m k (some obj) (key_of r l) in
          let erased = find-erase (put m k (some obj)) k (key_of r l) in
          (
            ground (arith, e),
            ground (arith, e, put_there),
            ground (arith, e, put_here),
            ground (arith, e, put_here, put_there, erased),
          )
    ]

pub remove_tunnel_obj-gone :
    (remote local_addr : IpAddr) (m : TunnelMap)
    → get_tunnel_obj remote local_addr (remove_tunnel_obj remote local_addr m).1 ≡ none
unfolding remove_tunnel_obj get_tunnel_obj
remove_tunnel_obj-gone remote local_addr m =
    let k = key_of remote local_addr in
    elim (Option-cases (find m k)) [
      | inl e ↦ ground (arith, e)
      | inr (none, e) ↦ ground (arith, e, find-erase m k k)
      | inr (some obj, e) ↦ ground (arith, e, find-erase m k k)
    ]

-- ===== src/RouterInterface.antt =====
-- src/nas_ndi_router_interface.c: router interfaces are made, changed and removed, over the router interface
-- cache and the bridge ports. `none` is the end of the process by `STD_ASSERT`, or the use of an iterator at
-- the end of a table; the lock is held throughout.
pub mod Operations
pub mod Updates
pub mod Creation
pub mod Deletion
use opx_nas_ndi.Base.{
  ℕ, zero, suc, Bool, true, false, not, ◌&&◌, ◌||◌, Option, none, some, List, [], ◌∷◌, ◌++◌,
  nat_key, ◌==◌, if◌then◌else◌, StdError, ok, std_err, route, fail,
}
use opx_nas_ndi.Base.Replies.{Reply, reply, failed}
use opx_nas_ndi.Bridge.{BridgeApi, Bridges, hw_of, on_hw, without_db}
use opx_nas_ndi.Bridge.Members.{router_bridge_port_add_1d, router_bridge_port_delete_1d}
use opx_nas_ndi.PortMap.{sai_port_id_get}
use opx_nas_ndi.RifCache.{
  Attachment, RifEntry, RifCache, RifOp, create_rif, delete_rif, get_rif_id, rif_ref,
}
use opx_nas_ndi.Vlan.{get_sai_vlan_obj_id}

-- The flags of a request that the update of an interface goes through, and whether it has any other but
-- `NDI_RIF_ATTR_VIRTUAL`, for which the request has its own field.
pub record RifFlags : Type 0 where
  pub admin_v4_state : Bool
  pub admin_v6_state : Bool
  pub src_mac_address : Bool
  pub mtu : Bool
  pub pimv2_state : Bool
  pub pimv6_state : Bool
  pub other : Bool

-- One flag of those that the update goes through.
pub data RifFlag : Type 0 where
  admin_v4 admin_v6 mac mtu pimv2 pimv6 : RifFlag

-- `ndi_rif_entry_t`: what the cache reads of it, the flags and the values.
pub record RifRequest : Type 0 where
  pub entry : RifEntry
  pub flags : RifFlags
  pub v4_admin_state : Bool
  pub v6_admin_state : Bool
  pub pimv2_state : Bool
  pub pimv6_state : Bool
  pub mtu : ℕ

-- An attribute of an interface with its value.
pub data RifAttr : Type 0 where
  admin_v4_state admin_v6_state pimv2_enable pimv6_enable is_virtual : Bool → RifAttr
  src_mac_address mtu : ℕ → RifAttr

-- What an interface is made on: a SAI port or a LAG, the object of a VLAN, or a bridge.
pub data RifOwner : Type 0 where
  sai_port : ℕ → RifOwner
  vlan_object : ℕ → RifOwner
  bridge : RifOwner

-- The calls of SAI that the code makes, with those of the bridge functions.
pub record RifApi (Hw : Type 0) : Type 0 where
  pub bridge : BridgeApi Hw
  pub create_router_interface : ℕ → RifOwner → List RifAttr → Hw → Reply ℕ × Hw
  pub remove_router_interface : ℕ → Hw → Reply (Unit {0}) × Hw
  pub set_router_interface_attribute : ℕ → RifAttr → Hw → Reply (Unit {0}) × Hw

-- What the functions share: what the bridge functions share, and the cache.
pub record Rifs (Hw : Type 0) : Type 0 where
  pub bridges : Bridges Hw
  pub cache : RifCache

-- The test of the flags, in the order of `ndi_rif_update_attribute`.
abbrev pub next_flag : RifFlags → Option RifFlag
next_flag f =
    if f.admin_v4_state
    then some RifFlag.admin_v4
    else if f.admin_v6_state
    then some RifFlag.admin_v6
    else if f.src_mac_address
    then some RifFlag.mac
    else if f.mtu
    then some RifFlag.mtu
    else if f.pimv2_state
    then some RifFlag.pimv2
    else if f.pimv6_state
    then some RifFlag.pimv6
    else none

-- `flags &= ~rif_entry->flags`
abbrev pub clear : RifFlag → RifFlags → RifFlags
clear RifFlag.admin_v4 f = record f { admin_v4_state = false }
clear RifFlag.admin_v6 f = record f { admin_v6_state = false }
clear RifFlag.mac f = record f { src_mac_address = false }
clear RifFlag.mtu f = record f { mtu = false }
clear RifFlag.pimv2 f = record f { pimv2_state = false }
clear RifFlag.pimv6 f = record f { pimv6_state = false }

-- `flags` is not zero.
abbrev pub any_flag : RifFlags → Bool
any_flag f = elim (next_flag f) [ some _ ↦ true | none ↦ f.other ]

-- The attribute that a flag selects.
abbrev pub attr_of : RifRequest → RifFlag → RifAttr
attr_of e RifFlag.admin_v4 = RifAttr.admin_v4_state e.v4_admin_state
attr_of e RifFlag.admin_v6 = RifAttr.admin_v6_state e.v6_admin_state
attr_of e RifFlag.mac = RifAttr.src_mac_address e.entry.src_mac
attr_of e RifFlag.mtu = RifAttr.mtu e.mtu
attr_of e RifFlag.pimv2 = RifAttr.pimv2_enable e.pimv2_state
attr_of e RifFlag.pimv6 = RifAttr.pimv6_enable e.pimv6_state

-- The attributes of a new interface.
abbrev pub attr_if : Bool → RifAttr → List RifAttr
attr_if true a = a ∷ []
attr_if false a = []

abbrev pub new_attrs : RifRequest → List RifAttr
new_attrs e =
    attr_if e.flags.admin_v4_state (attr_of e RifFlag.admin_v4)
    ++ attr_if e.flags.admin_v6_state (attr_of e RifFlag.admin_v6)
    ++ attr_if e.flags.src_mac_address (attr_of e RifFlag.mac)
    ++ attr_if e.flags.mtu (attr_of e RifFlag.mtu)
    ++ attr_if e.entry.is_virtual (RifAttr.is_virtual true)
    ++ attr_if e.flags.pimv2_state (attr_of e RifFlag.pimv2)
    ++ attr_if e.flags.pimv6_state (attr_of e RifFlag.pimv6)

abbrev pub is_bridge : Attachment → Option ℕ
is_bridge (Attachment.bridge b) = some b
is_bridge _ = none

module _ {Hw : Type 0} (api : RifApi Hw) where
  abbrev pub rifs_on_hw : Hw → Rifs Hw → Rifs Hw
  rifs_on_hw hw s = record s { bridges = on_hw hw s.bridges }

  -- `ndi_rif_set_attribute` with one flag of those, or with none: an invalid attribute.
  unfoldable pub rif_set_attribute :
      RifRequest → ℕ → Option RifFlag → Rifs Hw → Option (StdError × Rifs Hw)
  rif_set_attribute e rif_id flag s =
      if without_db e.entry.npu_id s.bridges then none else (elim flag [
        | none ↦ some (std_err route fail 0, s)
        | some f ↦
            let (r, hw) =
              api.set_router_interface_attribute rif_id (attr_of e f) (hw_of s.bridges) in
            elim r [
              | failed st ↦ some (std_err route fail st, rifs_on_hw hw s)
              | reply _ ↦ some (ok, rifs_on_hw hw s)
            ]
      ])

  -- The loop of `ndi_rif_update_attribute`, with a number of rounds; `current` is the flag left in the
  -- request. The outer `none` is a loop that has not ended in these rounds.
  unfoldable pub update_loop :
      ℕ
      → RifRequest
      → ℕ
      → RifFlags
      → Option RifFlag
      → Rifs Hw
      → Option (Option (StdError × Rifs Hw))
  unfolding rif_set_attribute
  update_loop zero e rif_id flags current s = if any_flag flags then none else some (some (ok, s))
  update_loop (suc rounds) e rif_id flags current s =
      if any_flag flags
      then (let now : Option RifFlag = elim (next_flag flags) [
        | none ↦ current
        | some f ↦ some f
      ] in
          let left : RifFlags = elim now [ none ↦ flags | some f ↦ clear f flags ] in
          elim (rif_set_attribute e rif_id now s) [
            | none ↦ some none
            | some (std_err a c st, s') ↦ some (some (std_err a c st, s'))
            | some (ok, s') ↦ update_loop rounds e rif_id left now s'
          ])
      else some (some (ok, s))

  -- `ndi_rif_update_attribute`
  unfoldable pub update_attribute :
      ℕ → RifRequest → ℕ → Rifs Hw → Option (Option (StdError × Rifs Hw))
  unfolding update_loop
  update_attribute rounds e rif_id s = update_loop rounds e rif_id e.flags none s

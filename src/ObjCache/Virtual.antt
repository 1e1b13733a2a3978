-- ===== src/ObjCache/Virtual.antt =====
-- `ndi_virtual_obj_cache`: VLAN id to VLAN object id, and back. The shared objects are never written
-- after they are stored, so both tables hold them by value.
pub mod Bijection
use opx_nas_ndi.Base.{ℕ, Bool, true, false, Option, none, some, nat_key}
use opx_nas_ndi.Base.Table.{Table, find, put, erase, empty}

-- `ndi_virtual_obj_t`
pub record VirtualObj : Type 0 where
  pub oid : ℕ
  pub vid : ℕ

-- `ndi_virtual_obj_query_type_t`; `other` is a value that the enumeration does not list.
pub data VirtualQuery : Type 0 where
  from_obj from_vlan other : VirtualQuery

-- The members of `ndi_virtual_obj_cache`.
pub record VirtualCache : Type 0 where
  pub vid_to_obj : Table ℕ VirtualObj
  pub obj_to_vid : Table ℕ VirtualObj

abbrev pub no_virtual_objs : VirtualCache
no_virtual_objs = record { vid_to_obj = empty; obj_to_vid = empty }

unfoldable pub add_virtual_obj : Option VirtualObj → VirtualCache → Bool × VirtualCache
add_virtual_obj none c = (false, c)
add_virtual_obj (some v_obj) c = (
  true,
  record c {
    vid_to_obj = put c.vid_to_obj v_obj.vid v_obj;
    obj_to_vid = put c.obj_to_vid v_obj.oid v_obj;
  },
)

unfoldable pub remove_virtual_obj : Option VirtualObj → VirtualCache → Bool × VirtualCache
remove_virtual_obj none c = (false, c)
remove_virtual_obj (some obj) c = elim (find c.obj_to_vid obj.oid) [
  | none ↦ (false, c)
  | some it ↦ (
    true,
    record c { vid_to_obj = erase c.vid_to_obj it.vid; obj_to_vid = erase c.obj_to_vid obj.oid },
  )
]

-- The answer, and the caller's object with the field that was asked for.
unfoldable pub get_virtual_obj :
    Option VirtualObj → VirtualQuery → VirtualCache → Bool × Option VirtualObj
get_virtual_obj none q c = (false, none)
get_virtual_obj (some obj) VirtualQuery.from_obj c = elim (find c.obj_to_vid obj.oid) [
  | none ↦ (false, some obj)
  | some it ↦ (true, some (record obj { vid = it.vid }))
]
get_virtual_obj (some obj) VirtualQuery.from_vlan c = elim (find c.vid_to_obj obj.vid) [
  | none ↦ (false, some obj)
  | some it ↦ (true, some (record obj { oid = it.oid }))
]
get_virtual_obj (some obj) VirtualQuery.other c = (false, some obj)

-- ===== src/ObjCache/Brport.antt =====
-- `ndi_brport_cache`: bridge ports by their own id, by port, by port and VLAN, and by router
-- interface, with the list of the bridge ports of each port. The shared blocks are never written
-- after they are stored, so the tables hold them by value.
pub mod Queries
pub mod Removal
pub mod Consistency
pub mod Preservation
pub mod Addition
pub mod Histories
use opx_nas_ndi.Base.{
  ℕ, ◌≡◌, ◌↔◌, Bool, true, false, ◌&&◌, ◌||◌, Option, none, some, List, [], ◌∷◌, ◌++◌, arith,
  nat_key, nat_beq, nat_beq_iff, KeyTest, ◌==◌, if◌then◌else◌, any, drop_first,
}
use opx_nas_ndi.Base.Table.{Table, find, put, erase, empty}

-- `ndi_brport_type_t`
pub data BrportType : Type 0 where
  port subport_tag subport_untag tunnel router_1d router_1q : BrportType

-- `ndi_brport_query_type_t`; `other` is a value that the enumeration does not list.
pub data BrportQuery : Type 0 where
  from_port from_brport from_port_vlan from_rif other : BrportQuery

-- `ndi_brport_obj_t`. The type of the port comes from a header of another package: a number.
pub record BrportObj : Type 0 where
  pub brport_obj_id : ℕ
  pub port_obj_id : ℕ
  pub port_type : ℕ
  pub brport_type : BrportType
  pub vlan_id : ℕ
  pub rif_obj_id : ℕ

-- `ndi_bridge_pv_t`, equal when neither is less in the order on port and VLAN.
pub record BridgePv : Type 0 where
  pub port_id : ℕ
  pub vid : ℕ

pub pv_beq_iff :
    (a b : BridgePv) → ((nat_beq a.port_id b.port_id && nat_beq a.vid b.vid) ≡ true) ↔ (a ≡ b)
pv_beq_iff a b = ground arith

instance abbrev pub pv_key : KeyTest BridgePv
pv_key = record {
  same = λ a b. nat_beq a.port_id b.port_id && nat_beq a.vid b.vid;
  same_iff = pv_beq_iff;
}

-- The members of `ndi_brport_cache`.
pub record BrportCache : Type 0 where
  pub port_to_brport : Table ℕ BrportObj
  pub brport_to_port : Table ℕ BrportObj
  pub pv_to_brport : Table BridgePv BrportObj
  pub port_to_brport_list : Table ℕ (List ℕ)
  pub rif_to_brport : Table ℕ BrportObj

abbrev pub no_brports : BrportCache
no_brports = record {
  port_to_brport = empty;
  brport_to_port = empty;
  pv_to_brport = empty;
  port_to_brport_list = empty;
  rif_to_brport = empty;
}

-- The types that the code tests for.
abbrev pub is_1d_router : BrportType → Bool
is_1d_router BrportType.router_1d = true
is_1d_router _ = false

abbrev pub is_port : BrportType → Bool
is_port BrportType.port = true
is_port _ = false

abbrev pub is_subport : BrportType → Bool
is_subport BrportType.subport_tag = true
is_subport BrportType.subport_untag = true
is_subport _ = false

abbrev pub pv_of : BrportObj → BridgePv
pv_of obj = record { port_id = obj.port_obj_id; vid = obj.vlan_id }

-- The block that a query finds.
unfoldable pub block_of : BrportObj → BrportQuery → BrportCache → Option BrportObj
block_of obj BrportQuery.from_brport c = find c.brport_to_port obj.brport_obj_id
block_of obj BrportQuery.from_port_vlan c = find c.pv_to_brport (pv_of obj)
block_of obj BrportQuery.from_port c = find c.port_to_brport obj.port_obj_id
block_of obj BrportQuery.from_rif c = find c.rif_to_brport obj.rif_obj_id
block_of obj BrportQuery.other c = none

-- The block that is found is copied over the caller's object.
unfoldable pub get_brport_block :
    Option BrportObj → BrportQuery → BrportCache → Bool × Option BrportObj
unfolding block_of
get_brport_block none q c = (false, none)
get_brport_block (some obj) q c = elim (block_of obj q c) [
  | none ↦ (false, some obj)
  | some blk ↦ (true, some blk)
]

unfoldable pub get_brport_list : ℕ → List ℕ → BrportCache → Bool × List ℕ
get_brport_list port_oid list c = elim (find c.port_to_brport_list port_oid) [
  | none ↦ (false, list)
  | some brports ↦ (true, brports)
]

-- `_port_to_brport_list[port]`: a port with no entry has the empty list.
abbrev pub brports_at : BrportCache → ℕ → List ℕ
brports_at c p = elim (find c.port_to_brport_list p) [ none ↦ [] | some l ↦ l ]

unfoldable pub add_bridge_port : Option BrportObj → BrportCache → Bool × BrportCache
add_bridge_port none c = (false, c)
add_bridge_port (some obj) c =
    if is_1d_router obj.brport_type
    then (true, record c { rif_to_brport = put c.rif_to_brport obj.rif_obj_id obj })
    else (
      true,
      record c {
        port_to_brport =
            if is_port obj.brport_type
            then put c.port_to_brport obj.port_obj_id obj
            else c.port_to_brport;
        brport_to_port = put c.brport_to_port obj.brport_obj_id obj;
        pv_to_brport =
            if is_subport obj.brport_type
            then put c.pv_to_brport (pv_of obj) obj
            else c.pv_to_brport;
        port_to_brport_list =
            put c.port_to_brport_list obj.port_obj_id
              (brports_at c obj.port_obj_id ++ obj.brport_obj_id ∷ []);
      },
    )

-- The list of a port with one bridge port less; the entry is erased with its last bridge port.
abbrev pub store_list : Table ℕ (List ℕ) → ℕ → List ℕ → Table ℕ (List ℕ)
store_list t p [] = erase t p
store_list t p (b ∷ bs) = put t p (b ∷ bs)

-- The end of `remove_bridge_port`: the table by port, for the type PORT.
abbrev pub remove_port : BrportObj → BrportCache → Bool × Option BrportObj × BrportCache
remove_port obj c =
    if is_port obj.brport_type
    then (elim (find c.port_to_brport obj.port_obj_id) [
      | none ↦ (false, some obj, c)
      | some _ ↦
          (true, some obj, record c { port_to_brport = erase c.port_to_brport obj.port_obj_id })
    ])
    else (true, some obj, c)

-- Before it: the table by port and VLAN, for a subport.
abbrev pub remove_subport : BrportObj → BrportCache → Bool × Option BrportObj × BrportCache
remove_subport obj c =
    if is_subport obj.brport_type
    then (elim (find c.pv_to_brport (pv_of obj)) [
      | none ↦ (false, some obj, c)
      | some _ ↦ remove_port obj (record c { pv_to_brport = erase c.pv_to_brport (pv_of obj) })
    ])
    else remove_port obj c

-- The loop over the list of the port: the first entry with the id is erased. When no entry has it,
-- `operator[]` has still made an entry for the port.
abbrev pub remove_from_list : BrportObj → BrportCache → Bool × Option BrportObj × BrportCache
remove_from_list obj c =
    let bs = brports_at c obj.port_obj_id in
    let hit : ℕ → Bool = λ b. b == obj.brport_obj_id in
    if any hit bs
    then remove_subport obj (record c {
      port_to_brport_list = store_list c.port_to_brport_list obj.port_obj_id (drop_first hit bs);
    })
    else (
      false,
      some obj,
      record c { port_to_brport_list = put c.port_to_brport_list obj.port_obj_id bs },
    )

-- The answer, the caller's object with the port that the cache knew, and the cache.
unfoldable pub remove_bridge_port :
    Option BrportObj → BrportCache → Bool × Option BrportObj × BrportCache
remove_bridge_port none c = (false, none, c)
remove_bridge_port (some obj) c =
    if is_1d_router obj.brport_type
    then (elim (find c.rif_to_brport obj.rif_obj_id) [
      | none ↦ (false, some obj, c)
      | some _ ↦ (true, some obj, record c { rif_to_brport = erase c.rif_to_brport obj.rif_obj_id })
    ])
    else (elim (find c.brport_to_port obj.brport_obj_id) [
      | none ↦ (false, some obj, c)
      | some blk ↦
          remove_from_list (record obj { port_obj_id = blk.port_obj_id })
            (record c { brport_to_port = erase c.brport_to_port obj.brport_obj_id })
    ])

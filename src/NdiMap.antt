-- ===== src/NdiMap.antt =====
-- src/nas_ndi_map.cpp and inc/opx/nas_ndi_map.h: lists of value pairs under typed keys, in one hash
-- table behind one mutex, which every function holds throughout. Memory does not run out: the
-- `catch` branches, which answer `STD_ERR(NPU, FAIL, 0)`, are not taken.
pub mod Filtering
pub mod Contents
pub mod Reading
use Prim.Native.Nat.{bit_and}
use opx_nas_ndi.Base.{
  ℕ, zero, suc, ◌≡◌, ◌↔◌, Bool, true, false, not, ◌&&◌, Option, none, some, List, [], ◌∷◌, ◌++◌,
  arith, nat_beq, ltb, KeyTest, ◌==◌, nat_key, if◌then◌else◌, length, set, take, StdError, ok,
  std_err, npu, fail, nomem, nexist,
}
use opx_nas_ndi.Base.Table.{Table, find, put, erase}

-- `nas_ndi_map_type_t`
pub data MapType : Type 0 where
  nh_grp_member npu_vlan_id vlan_member_id vlan_ports stp_port_id port_stp_ports : MapType

-- The number of a constructor of the enumeration.
abbrev pub type_code : MapType → ℕ
type_code MapType.nh_grp_member = 0
type_code MapType.npu_vlan_id = 1
type_code MapType.vlan_member_id = 2
type_code MapType.vlan_ports = 3
type_code MapType.stp_port_id = 4
type_code MapType.port_stp_ports = 5

-- `nas_ndi_map_key_t`
pub record MapKey : Type 0 where
  pub type : MapType
  pub id1 : ℕ
  pub id2 : ℕ

-- `_nas_ndi_map_equal`
abbrev pub map_equal : MapKey → MapKey → Bool
map_equal key1 key2 =
    nat_beq (type_code key1.type) (type_code key2.type)
    && (nat_beq key1.id1 key2.id1 && nat_beq key1.id2 key2.id2)

pub map_equal_iff : (a b : MapKey) → (map_equal a b ≡ true) ↔ (a ≡ b)
map_equal_iff a b = ground arith

instance abbrev pub map_key_test : KeyTest MapKey
map_key_test = record { same = map_equal; same_iff = map_equal_iff }

-- `nas_ndi_map_data_t`
pub record MapData : Type 0 where
  pub val1 : ℕ
  pub val2 : ℕ

-- `nas_ndi_map_val_filter_t`: a value and a bit mask of the fields to match.
pub record MapFilter : Type 0 where
  pub value : MapData
  pub mask : ℕ

-- `nas_ndi_map_val_t`: a buffer of the caller's and its count.
pub record MapVal : Type 0 where
  pub count : ℕ
  pub buffer : List MapData

abbrev pub filter_none : ℕ
filter_none = 1

abbrev pub filter_val1 : ℕ
filter_val1 = 2

abbrev pub filter_val2 : ℕ
filter_val2 = 4

abbrev pub NdiMap : Type 0
NdiMap = Table MapKey (List MapData)

-- `(filter & flag) == flag`
abbrev pub has_flag : ℕ → ℕ → Bool
has_flag mask flag = bit_and mask flag == flag

unfoldable pub apply_filter : MapData → MapData → ℕ → Bool
apply_filter arg1 arg2 mask =
    if has_flag mask filter_none
    then true
    else if has_flag mask filter_val1 && not (arg1.val1 == arg2.val1)
    then false
    else if has_flag mask filter_val2 && not (arg1.val2 == arg2.val2)
    then false
    else true

-- The filter as a test of one stored pair.
abbrev pub matches : MapFilter → MapData → Bool
matches flt d = apply_filter flt.value d flt.mask

-- The loop pushes `data[0]` to `data[count - 1]`.
unfoldable pub map_insert : MapKey → MapVal → NdiMap → StdError × NdiMap
map_insert key value m = elim (find m key) [
  | some list ↦ (ok, put m key (list ++ take value.count value.buffer))
  | none ↦ (ok, put m key (take value.count value.buffer))
]

unfoldable pub map_delete : MapKey → NdiMap → StdError × NdiMap
map_delete key m = elim (find m key) [ some _ ↦ (ok, erase m key) | none ↦ (ok, m) ]

-- The first pair that passes the filter is erased; the answer says whether there was one.
unfoldable pub delete_internal : MapFilter → List MapData → StdError × List MapData
delete_internal flt [] = (std_err npu fail 0, [])
delete_internal flt (d ∷ list) =
    let (rc, rest) = delete_internal flt list in
    if matches flt d then (ok, list) else (rc, d ∷ rest)

-- `while (nas_ndi_map_delete_internal(...) == STD_ERR_OK);` with fuel; `none` when it runs out.
unfoldable pub delete_loop : ℕ → MapFilter → List MapData → Option (List MapData)
delete_loop zero flt list = none
delete_loop (suc fuel) flt list =
    let (rc, list') = delete_internal flt list in
    elim rc [ ok ↦ delete_loop fuel flt list' | std_err _ _ _ ↦ some list' ]

-- The fuel exceeds the length of the list by one: `delete_loop_keep` proves that it suffices, so the
-- answer for lack of fuel is never given.
unfoldable pub map_delete_elements : MapKey → MapFilter → NdiMap → StdError × NdiMap
map_delete_elements key flt m = elim (find m key) [
  | none ↦ (ok, m)
  | some list ↦ elim (delete_loop (suc (length list)) flt list) [
    | none ↦ (std_err npu fail 0, m)
    | some list' ↦ (ok, put m key list')
  ]
]

-- `for (i = 0; i < count; i++) value->data[i] = list.at(i)`; a write past the end of the buffer, which
-- the test of the counts excludes, would be lost.
unfoldable pub copy_from : ℕ → List MapData → List MapData → List MapData
copy_from i [] buffer = buffer
copy_from i (d ∷ list) buffer = copy_from (suc i) list (set buffer i d)

unfoldable pub map_get : MapKey → MapVal → NdiMap → StdError × MapVal
map_get key value m = elim (find m key) [
  | none ↦ (std_err npu nexist 0, value)
  | some list ↦
      let count = length list in
      if ltb value.count count
      then (std_err npu nomem 0, record value { count = count })
      else (ok, record { count = count; buffer = copy_from 0 list value.buffer })
]

-- The loop of `nas_ndi_map_get_elements`: `i` and the buffer when it ends or breaks.
unfoldable pub collect : MapFilter → ℕ → ℕ → List MapData → List MapData → ℕ × List MapData
collect flt count i buffer [] = (i, buffer)
collect flt count i buffer (d ∷ list) =
    let hit = matches flt d in
    let i' = if hit then suc i else i in
    let buffer' = if hit then set buffer i d else buffer in
    let rest = collect flt count i' buffer' list in if i' == count then (i', buffer') else rest

unfoldable pub map_get_elements : MapKey → MapVal → MapFilter → NdiMap → StdError × MapVal
map_get_elements key out flt m =
    if ltb 0 out.count
    then (elim (find m key) [
      | none ↦ (ok, out)
      | some list ↦
          let (i, buffer) = collect flt out.count 0 out.buffer list in
          (ok, record { count = i; buffer = buffer })
    ])
    else (ok, out)

unfoldable pub map_get_val_count : MapKey → ℕ → NdiMap → StdError × ℕ
map_get_val_count key count m = elim (find m key) [
  | none ↦ (std_err npu nexist 0, count)
  | some list ↦ (ok, length list)
]

-- ===== src/Tests/Pairs.antt =====
-- The map of value pairs, at the lists of the members of a next hop group.
use mathlib.Core.Option
use opx_nas_ndi.Base.{
  ◌≡◌, refl, none, some, [], ◌∷◌, ◌++◌, arith, ◌==◌, if◌then◌else◌, length, take, drop, ltb, ok,
  std_err, npu, nomem, nexist,
}
use opx_nas_ndi.Base.Table.{find, put, empty}
use opx_nas_ndi.NdiMap.{
  MapType, MapKey, MapData, MapVal, MapFilter, NdiMap, map_key_test, map_insert, map_delete,
  map_delete_elements, map_get, delete_loop, delete_internal, apply_filter, filter_val1,
}
use opx_nas_ndi.NdiMap.Filtering.{unmatched}
use opx_nas_ndi.NdiMap.Contents.{pairs_of, map_insert_lem, map_delete_lem, map_delete_elements_lem}
use opx_nas_ndi.NdiMap.Reading.{map_get_lem}

abbrev group : MapKey
group = record { type = MapType.nh_grp_member; id1 = 9; id2 = 0 }

abbrev other_group : MapKey
other_group = record { type = MapType.nh_grp_member; id1 = 10; id2 = 0 }

abbrev member1 : MapData
member1 = record { val1 = 1; val2 = 11 }

abbrev member2 : MapData
member2 = record { val1 = 2; val2 = 12 }

abbrev zeros : MapData
zeros = record { val1 = 0; val2 = 0 }

abbrev two : MapVal
two = record { count = 2; buffer = member1 ∷ member2 ∷ [] }

abbrev by_val1 : MapFilter
by_val1 = record { value = record { val1 = 1; val2 = 0 }; mask = filter_val1 }

stored : NdiMap
unfolding map_insert find put empty
stored = (map_insert group two empty).1

map_insert_lem_example :
    let (rc, m') = map_insert group two stored in
    (rc ≡ ok)
    × (find m' other_group ≡ (
        if group == other_group
        then some (pairs_of stored group ++ take 2 (member1 ∷ member2 ∷ []))
        else find stored other_group))
map_insert_lem_example = map_insert_lem group two stored other_group

map_delete_lem_example :
    let (rc, m') = map_delete group stored in
    (rc ≡ ok) × (find m' group ≡ (if group == group then none else find stored group))
map_delete_lem_example = map_delete_lem group stored group

map_delete_elements_lem_example :
    let (rc, m') = map_delete_elements group by_val1 stored in
    (rc ≡ ok)
    × (find m' group ≡ (
        if group == group
        then Option.map (unmatched by_val1) (find stored group)
        else find stored group))
map_delete_elements_lem_example = map_delete_elements_lem group by_val1 stored group

map_get_lem_example :
    map_get group (record { count = 1; buffer = zeros ∷ [] }) stored ≡ (elim (find stored group) [
      | none ↦ (std_err npu nexist 0, record { count = 1; buffer = zeros ∷ [] })
      | some l ↦
          if ltb 1 (length l)
          then (std_err npu nomem 0, record { count = length l; buffer = zeros ∷ [] })
          else (ok, record { count = length l; buffer = l ++ drop (length l) (zeros ∷ []) })
    ])
map_get_lem_example =
    map_get_lem group (record { count = 1; buffer = zeros ∷ [] }) stored (omega arith)

left_over : map_delete_elements group by_val1 stored ≡ (ok, put stored group (member2 ∷ []))
unfolding stored map_delete_elements delete_loop delete_internal apply_filter find put
left_over = refl

-- ===== src/NdiMap/Contents.antt =====
-- The table as a function from keys to lists: what each operation that writes does to every key.
use opx_nas_ndi.Base.{
  suc, ◌≡◌, inl, inr, none, some, List, [], ◌++◌, arith, Option-cases, ◌==◌, if◌then◌else◌, length,
  take, ok,
}
use mathlib.Core.Option
use opx_nas_ndi.Base.Table.{find, find-put, find-erase}
use opx_nas_ndi.NdiMap.{
  MapKey, MapData, MapVal, MapFilter, NdiMap, map_key_test, map_insert, map_delete,
  map_delete_elements,
}
use opx_nas_ndi.NdiMap.Filtering.{unmatched, delete_loop_keep}

-- The pairs under a key, none for a key that is absent.
abbrev pub pairs_of : NdiMap → MapKey → List MapData
pairs_of m key = elim (find m key) [ none ↦ [] | some l ↦ l ]

-- An insertion succeeds, makes the key present with the first `count` pairs of the buffer behind
-- those it had, and leaves every other key alone.
pub map_insert_lem :
    (key : MapKey) (value : MapVal) (m : NdiMap) (j : MapKey)
    → let (rc, m') = map_insert key value m in
      (rc ≡ ok)
      × (find m' j
          ≡ (if key == j then some (pairs_of m key ++ take value.count value.buffer) else find m j))
unfolding map_insert
map_insert_lem key value m j = elim (Option-cases (find m key)) [
  | inl e ↦ ground (arith, find-put m key (take value.count value.buffer) j)
  | inr (l, e) ↦ ground (arith, find-put m key (l ++ take value.count value.buffer) j)
]

-- A deletion succeeds, whether or not the key is present, makes it absent and leaves every other key
-- alone.
pub map_delete_lem :
    (key : MapKey) (m : NdiMap) (j : MapKey)
    → let (rc, m') = map_delete key m in
      (rc ≡ ok) × (find m' j ≡ (if key == j then none else find m j))
unfolding map_delete
map_delete_lem key m j = elim (Option-cases (find m key)) [
  | inl e ↦ ground (arith, map_key_test.same_iff key j)
  | inr (l, e) ↦ ground (arith, find-erase m key j)
]

-- A deletion by filter succeeds, erases under its key exactly the pairs that pass the filter, and
-- leaves every other key alone. The key stays present, with the empty list if every pair passed.
pub map_delete_elements_lem :
    (key : MapKey) (flt : MapFilter) (m : NdiMap) (j : MapKey)
    → let (rc, m') = map_delete_elements key flt m in
      (rc ≡ ok)
      × (find m' j ≡ (if key == j then Option.map (unmatched flt) (find m j) else find m j))
unfolding map_delete_elements
map_delete_elements_lem key flt m j = elim (Option-cases (find m key)) [
  | inl e ↦ ground (arith, map_key_test.same_iff key j)
  | inr (l, e) ↦
      let loop = delete_loop_keep (suc (length l)) flt l (omega arith) in
      ground (arith, loop, map_key_test.same_iff key j, find-put m key (unmatched flt l) j)
]

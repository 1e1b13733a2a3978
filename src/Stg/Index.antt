-- ===== src/Stg/Index.antt =====
-- The two indexes of the STP ports agree: by group and bridge port, and by bridge port.
use mathlib.Core.Option
use opx_nas_ndi.Base.{
  ℕ, ◌≡◌, refl, inl, inr, Bool, not, none, some, List, [], ◌∷◌, ◌++◌, arith, nat_key, ◌==◌,
  if◌then◌else◌, keep, ok, Option-cases,
}
use opx_nas_ndi.Base.Table.{find}
use opx_nas_ndi.NdiMap.{
  MapKey, MapData, MapVal, MapFilter, NdiMap, map_key_test, map_insert, map_delete, copy_from,
  apply_filter, filter_val1,
}
use opx_nas_ndi.NdiMap.Contents.{pairs_of, map_insert_lem, map_delete_lem, map_delete_elements_lem}
use opx_nas_ndi.NdiMap.Filtering.{unmatched}
use opx_nas_ndi.Stg.Cache.{
  stp_port_key, port_stps_key, get_stp_port_id_from_cache, add_port_to_cache, del_port_from_cache,
}

-- The test of a pair against an STP port.
abbrev pub has_port : ℕ → MapData → Bool
has_port p d = p == d.val1

abbrev pub pair : ℕ → ℕ → MapData
pair a b = record { val1 = a; val2 = b }

abbrev pub stps_of : NdiMap → ℕ → List MapData
stps_of m brport = pairs_of m (port_stps_key brport)

-- What the query by group and bridge port answers: the id of the one pair stored, and null for none
-- or for several.
pub get_stp_port_id_from_cache_lem :
    (stp br : ℕ) (m : NdiMap)
    → get_stp_port_id_from_cache stp br m ≡ (elim (find m (stp_port_key stp br)) [
      | none ↦ 0
      | some l ↦ elim l [ [] ↦ 0 | d ∷ ds ↦ elim ds [ [] ↦ d.val1 | _ ∷ _ ↦ 0 ] ]
    ])
unfolding get_stp_port_id_from_cache copy_from
get_stp_port_id_from_cache_lem stp br m = elim (Option-cases (find m (stp_port_key stp br))) [
  | inl e ↦ ground arith
  | inr (l, e) ↦ by_length l e
]
  where
    by_length :
        (l : List MapData)
        → find m (stp_port_key stp br) ≡ some l
        → get_stp_port_id_from_cache stp br m ≡ (elim (find m (stp_port_key stp br)) [
          | none ↦ 0
          | some l ↦ elim l [ [] ↦ 0 | d ∷ ds ↦ elim ds [ [] ↦ d.val1 | _ ∷ _ ↦ 0 ] ]
        ])
    by_length [] e = ground arith
    by_length (d ∷ []) e = ground arith
    by_length (d ∷ d' ∷ ds) e = ground arith

-- An addition succeeds, and puts one pair behind those of each of the two keys.
pub add_port_to_cache_lem :
    (stp br p : ℕ) (m : NdiMap) (j : MapKey)
    → let (rc, m') = add_port_to_cache stp br p m in
      (rc ≡ ok)
      × (find m' j ≡ (
          if port_stps_key br == j
          then some (stps_of m br ++ pair p stp ∷ [])
          else if stp_port_key stp br == j
          then some (pairs_of m (stp_port_key stp br) ++ pair p 0 ∷ [])
          else find m j))
unfolding add_port_to_cache
add_port_to_cache_lem stp br p m j =
    let v1 : MapVal = record { count = 1; buffer = pair p 0 ∷ [] } in
    let v2 : MapVal = record { count = 1; buffer = pair p stp ∷ [] } in
    let m1 = (map_insert (stp_port_key stp br) v1 m).1 in
    ground (
      arith,
      map_insert_lem (stp_port_key stp br) v1 m j,
      map_insert_lem (stp_port_key stp br) v1 m (port_stps_key br),
      map_insert_lem (port_stps_key br) v2 m1 j,
    )

-- The filter by STP port that the deletion makes.
by_port : ℕ → MapFilter
by_port p = record { value = pair p 0; mask = filter_val1 }

abbrev pub not_port : ℕ → MapData → Bool
not_port p d = not (has_port p d)

unmatched-by_port : (p : ℕ) (l : List MapData) → unmatched (by_port p) l ≡ keep (not_port p) l
unfolding by_port apply_filter
unmatched-by_port p [] = refl
unmatched-by_port p (d ∷ l) = ground (arith, unmatched-by_port p l)

-- A deletion succeeds, makes the key of the group and the bridge port absent and takes off the list of
-- the bridge port every pair with the STP port that the cache answers.
pub del_port_from_cache_lem :
    (stp br : ℕ) (m : NdiMap) (j : MapKey)
    → let p = get_stp_port_id_from_cache stp br m in
      let (rc, m') = del_port_from_cache stp br m in
      (rc ≡ ok)
      × (find m' j ≡ (
          if port_stps_key br == j
          then Option.map (keep (not_port p)) (find m j)
          else if stp_port_key stp br == j
          then none
          else find m j))
unfolding del_port_from_cache by_port
del_port_from_cache_lem stp br m j =
    let p = get_stp_port_id_from_cache stp br m in
    let m1 = (map_delete (stp_port_key stp br) m).1 in
    elim (Option-cases (find m j)) [
      | inl e ↦ ground (
        arith,
        map_delete_lem (stp_port_key stp br) m j,
        map_delete_elements_lem (port_stps_key br) (by_port p) m1 j,
      )
      | inr (l, e) ↦ ground (
        arith,
        unmatched-by_port p l,
        map_delete_lem (stp_port_key stp br) m j,
        map_delete_elements_lem (port_stps_key br) (by_port p) m1 j,
      )
    ]

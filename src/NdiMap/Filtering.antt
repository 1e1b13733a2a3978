-- ===== src/NdiMap/Filtering.antt =====
-- The deletion loop ends, and computes a filter.
use opx_nas_ndi.Base.{
  ℕ, zero, suc, ◌≡◌, refl, ◌<◌, ◌⊎◌, inl, inr, not, some, List, [], ◌∷◌, arith, Bool-cases, length,
  keep, ok, std_err, npu, fail,
}
use opx_nas_ndi.NdiMap.{MapFilter, MapData, matches, delete_internal, delete_loop}

-- What the loop leaves: the pairs that do not pass the filter, in order.
abbrev pub unmatched : MapFilter → List MapData → List MapData
unmatched flt = keep (λ d. not (matches flt d))

-- One call either fails, on a list where nothing passes the filter, or erases one pair that passes.
delete_internal-cases :
    (flt : MapFilter) (list : List MapData)
    → ((delete_internal flt list ≡ (std_err npu fail 0, list)) × (unmatched flt list ≡ list))
      ⊎ ((list' : List MapData) × (delete_internal flt list ≡ (ok, list'))
          × (unmatched flt list' ≡ unmatched flt list)
          × (suc (length list') ≡ length list))
unfolding delete_internal
delete_internal-cases flt [] = inl (refl, refl)
delete_internal-cases flt (d ∷ list) = elim (Bool-cases (matches flt d)) [
  | inl hit ↦ inr (list, ground arith, ground arith, refl)
  | inr miss ↦ elim (delete_internal-cases flt list) [
    | inl (e, none_left) ↦ inl (ground arith, ground arith)
    | inr (list', e, same, shorter) ↦ inr (d ∷ list', ground arith, ground arith, ground arith)
  ]
]

-- With fuel above the length of the list the loop ends, and has erased every pair that passes the
-- filter and nothing else, keeping the order.
pub delete_loop_keep :
    (fuel : ℕ) (flt : MapFilter) (list : List MapData)
    → length list < fuel
    → delete_loop fuel flt list ≡ some (unmatched flt list)
unfolding delete_loop
delete_loop_keep zero flt list h = absurd (ground arith)
delete_loop_keep (suc fuel) flt list h = elim (delete_internal-cases flt list) [
  | inl (e, none_left) ↦ ground arith
  | inr (list', e, same, shorter) ↦
      ground (arith, delete_loop_keep fuel flt (delete_internal flt list).1)
]

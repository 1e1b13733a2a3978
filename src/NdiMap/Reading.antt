-- ===== src/NdiMap/Reading.antt =====
-- What the reading operations write to the caller's buffer.
use opx_nas_ndi.Base.{
  ℕ, zero, suc, ◌-◌, ◌≡◌, refl, ◌≤◌, inl, inr, none, some, List, [], ◌∷◌, ◌++◌, arith, Option-cases,
  Bool-cases, if◌then◌else◌, length, take, drop, keep, set, ltb, ap, length-set, drop_all,
  append-nil, ok, std_err, npu, nomem, nexist,
}
use opx_nas_ndi.Base.Table.{find}
use opx_nas_ndi.NdiMap.{
  MapKey, MapData, MapVal, MapFilter, NdiMap, map_key_test, map_get, map_get_elements, copy_from,
  collect, matches, map_get_val_count,
}

copy_from-length :
    (i : ℕ) (xs buffer : List MapData) → length (copy_from i xs buffer) ≡ length buffer
unfolding copy_from
copy_from-length i [] buffer = refl
copy_from-length i (x ∷ xs) buffer =
    omega (arith, copy_from-length (suc i) xs (set buffer i x), length-set buffer i x)

-- A write behind the first cell leaves the first cell alone.
copy_from-suc :
    (i : ℕ) (xs : List MapData) (b : MapData) (buffer : List MapData)
    → copy_from (suc i) xs (b ∷ buffer) ≡ b ∷ copy_from i xs buffer
unfolding copy_from
copy_from-suc i [] b buffer = refl
copy_from-suc i (x ∷ xs) b buffer = copy_from-suc (suc i) xs b (set buffer i x)

pub copy_from-zero :
    (xs buffer : List MapData)
    → length xs ≤ length buffer
    → copy_from 0 xs buffer ≡ xs ++ drop (length xs) buffer
unfolding copy_from
copy_from-zero [] buffer h = refl
copy_from-zero (x ∷ xs) [] h = absurd (omega arith)
copy_from-zero (x ∷ xs) (b ∷ buffer) h =
    rw (copy_from-suc 0 xs x buffer) (ap (◌∷◌ x) (copy_from-zero xs buffer (omega arith)))

-- The protocol that the header describes. A present key: with a count below the number of its pairs
-- the answer is NOMEM, the count is set to that number and the buffer is untouched; otherwise the
-- pairs stand at the front of the buffer, the rest of it is untouched and the count is set to their
-- number. An absent key answers NEXIST and leaves the caller's value alone. The buffer has the cells
-- that its count promises.
pub map_get_lem :
    (key : MapKey) (value : MapVal) (m : NdiMap)
    → value.count ≤ length value.buffer
    → map_get key value m ≡ (elim (find m key) [
      | none ↦ (std_err npu nexist 0, value)
      | some l ↦
          if ltb value.count (length l)
          then (std_err npu nomem 0, record { count = length l; buffer = value.buffer })
          else (ok, record { count = length l; buffer = l ++ drop (length l) value.buffer })
    ])
unfolding map_get
map_get_lem key value m h = elim (Option-cases (find m key)) [
  | inl e ↦ ground arith
  | inr (l, e) ↦ ground (arith, copy_from-zero l value.buffer)
]

-- The calls in the order that the callers make them: the number of pairs, then a get with a buffer
-- of that size. The get succeeds and the buffer holds exactly the pairs.
pub map_get-map_get_val_count :
    (key : MapKey) (m : NdiMap) (junk n : ℕ) (buffer : List MapData)
    → map_get_val_count key junk m ≡ (ok, n)
    → length buffer ≡ n
    → (l : List MapData) × (find m key ≡ some l)
      × (map_get key (record { count = n; buffer = buffer }) m
          ≡ (ok, record { count = n; buffer = l }))
unfolding map_get_val_count map_get
map_get-map_get_val_count key m junk n buffer h len = elim (Option-cases (find m key)) [
  | inl e ↦ absurd (ground arith)
  | inr (l, e) ↦
      let size : length l ≡ n = ground arith in
      let copied = copy_from-zero l buffer (omega arith) in
      (l, e, ground (arith, size, copied, drop_all (length l) buffer (omega arith), append-nil l))
]

-- A write behind the first cell leaves the first cell alone.
collect-suc :
    (flt : MapFilter) (cap i : ℕ) (b : MapData) (buffer list : List MapData)
    → let (n, filled) = collect flt cap i buffer list in
      collect flt (suc cap) (suc i) (b ∷ buffer) list ≡ (suc n, b ∷ filled)
unfolding collect
collect-suc flt cap i b buffer [] = refl
collect-suc flt cap i b buffer (d ∷ list) = elim (Bool-cases (matches flt d)) [
  | inl hit ↦ ground (arith, hit, collect-suc flt cap (suc i) b (set buffer i d) list)
  | inr miss ↦ ground (arith, miss, collect-suc flt cap i b buffer list)
]

-- The first pairs that pass the filter, as many as the count asks for.
abbrev pub selected : MapFilter → ℕ → List MapData → List MapData
selected flt count list = take count (keep (matches flt) list)

collect_lem :
    (flt : MapFilter) (cap : ℕ) (buffer list : List MapData)
    → suc cap ≤ length buffer
    → let out = selected flt (suc cap) list in
      collect flt (suc cap) 0 buffer list ≡ (length out, out ++ drop (length out) buffer)
unfolding collect
collect_lem flt cap buffer [] h = refl
collect_lem flt cap [] (d ∷ list) h = absurd (omega arith)
collect_lem flt zero (b ∷ buffer) (d ∷ list) h = elim (Bool-cases (matches flt d)) [
  | inl hit ↦ ground (arith, hit)
  | inr miss ↦ ground (arith, miss, collect_lem flt 0 (b ∷ buffer) list h)
]
collect_lem flt (suc cap) (b ∷ buffer) (d ∷ list) h = elim (Bool-cases (matches flt d)) [
  | inl hit ↦ ground (
    arith,
    hit,
    collect-suc flt (suc cap) 0 d buffer list,
    collect_lem flt cap buffer list (omega arith),
  )
  | inr miss ↦ ground (arith, miss, collect_lem flt (suc cap) (b ∷ buffer) list h)
]

-- A present key: the answer is success, the count becomes the number of the pairs that are selected
-- and they stand at the front of the buffer in order. An absent key answers success too and leaves the
-- count, which the caller asked for, as it was.
pub map_get_elements_lem :
    (key : MapKey) (out : MapVal) (flt : MapFilter) (m : NdiMap)
    → out.count ≤ length out.buffer
    → map_get_elements key out flt m ≡ (elim (find m key) [
      | none ↦ (ok, out)
      | some l ↦
          let found = selected flt out.count l in
          (ok, record { count = length found; buffer = found ++ drop (length found) out.buffer })
    ])
unfolding map_get_elements
map_get_elements_lem key out flt m room = elim (Option-cases (find m key)) [
  | inl e ↦ ground (arith, e)
  | inr (l, e) ↦ elim (Bool-cases (ltb 0 out.count)) [
    | inr none_asked ↦
        let size : out.count ≡ 0 = ground (arith, none_asked) in ground (arith, e, none_asked, size)
    | inl asked ↦
        let size : out.count ≡ suc (out.count - 1) = ground (arith, asked) in
        let filled = collect_lem flt (out.count - 1) out.buffer l (omega arith) in
        ground (arith, e, asked, size, filled)
  ]
]

-- ===== src/PortMap/Entries.antt =====
-- The two-dimensional table under writes and growth.
use opx_nas_ndi.Base.{
  ℕ, zero, suc, ◌+◌, ◌^◌, ◌≡◌, ◌≤◌, ◌<◌, ◌⊎◌, inl, inr, none, some, List, [], ◌∷◌, arith, ltb,
  nat_key, ◌==◌, if◌then◌else◌, length, get_elem?, set, resize, length-resize, get_elem?-set_self,
  get_elem?-set_ne, get_elem?-resize_old, get_elem?-resize_new, Option-cases, Bool-cases,
}
use opx_nas_ndi.PortMap.{PortEntry, PortMap, blank, size_minus_one, grow, entry_at}

module _ {ℓ} {A : Type ℓ} where
  pub get_elem?-lt : (xs : List A) (i : ℕ) (x : A) → get_elem? xs i ≡ some x → i < length xs
  get_elem?-lt [] i x h = absurd (ground arith)
  get_elem?-lt (y ∷ xs) zero x h = omega arith
  get_elem?-lt (y ∷ xs) (suc i) x h = omega (arith, get_elem?-lt xs i x h)

  pub none-le : (xs : List A) (i : ℕ) → get_elem? xs i ≡ none → length xs ≤ i
  none-le [] i h = omega arith
  none-le (x ∷ xs) zero h = absurd (ground arith)
  none-le (x ∷ xs) (suc i) h = omega (arith, none-le xs i h)

  pub get_elem?-set :
      (xs : List A) (i : ℕ) (v x : A) (j : ℕ)
      → get_elem? xs i ≡ some x
      → get_elem? (set xs i v) j ≡ (if i == j then some v else get_elem? xs j)
  get_elem?-set xs i v x j h = elim (Bool-cases (i == j)) [
    | inl same ↦
        let e : i ≡ j = ground arith in
        rw (same, ← e) (get_elem?-set_self xs i v (get_elem?-lt xs i x h))
    | inr other ↦ rw (other) (get_elem?-set_ne xs i j v (ground arith))
  ]

-- The row of the entry's NPU is there.
pub entry_at-set :
    (m : PortMap) (n : ℕ) (row row' : List PortEntry) (k p : ℕ)
    → get_elem? m.tbl n ≡ some row
    → entry_at (record m { tbl = set m.tbl n row' }) k p
      ≡ (if n == k then get_elem? row' p else entry_at m k p)
entry_at-set m n row row' k p h = ground (arith, get_elem?-set m.tbl n row' row k)

-- A row that is not empty grows so that the port fits, and keeps what it has.
module _ (port : ℕ) (row : List PortEntry) (some_port : 0 < length row)
    (small : length row < 2 ^ 64) where
  grow-minus : size_minus_one (length row) + 1 ≡ length row
  grow-minus = omega arith

  pub grow-fits : port < length (grow port row)
  unfolding grow
  grow-fits = elim (Bool-cases (ltb (size_minus_one (length row)) port)) [
    | inl t ↦ rw t (omega (arith, length-resize (port + 1) blank row))
    | inr f ↦ rw f (ground (arith, grow-minus))
  ]

  -- What the row had stays.
  pub get_elem?-grow_old :
      (p : ℕ) (e : PortEntry) → get_elem? row p ≡ some e → get_elem? (grow port row) p ≡ some e
  unfolding grow
  get_elem?-grow_old p e h = elim (Bool-cases (ltb (size_minus_one (length row)) port)) [
    | inl t ↦
        ground
          (arith, grow-minus, get_elem?-resize_old (port + 1) blank row p, get_elem?-lt row p e h)
    | inr f ↦ rw f h
  ]

  -- What it has is what it had, or blank.
  pub get_elem?-grow :
      (p : ℕ) (e : PortEntry)
      → get_elem? (grow port row) p ≡ some e
      → (get_elem? row p ≡ some e) ⊎ ((get_elem? row p ≡ none) × (e ≡ blank))
  unfolding grow
  get_elem?-grow p e h = elim (Option-cases (get_elem? row p)) [
    | inr (x, at) ↦ inl (ground (arith, get_elem?-grow_old p x at))
    | inl gone ↦ elim (Bool-cases (ltb (size_minus_one (length row)) port)) [
      | inr f ↦ absurd (ground arith)
      | inl t ↦
          let inside : p < length (resize (port + 1) blank row) =
            get_elem?-lt (resize (port + 1) blank row) p e (ground arith) in
          let below : length row ≤ p = none-le row p gone in
          let size = length-resize (port + 1) blank row in
          inr
            (gone, ground (arith, get_elem?-resize_new (port + 1) blank row p below (omega arith)))
    ]
  ]

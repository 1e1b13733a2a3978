-- ===== src/Base/Table.antt =====
-- `std::map` and `std::unordered_map`: `find`, `operator[] =`, `erase`. `size`. The code never
-- iterates over a table but to print it, so clients have the laws below and not the entries.
use mathlib.Core.Path.{◌≡◌, refl}
use mathlib.Core.Logic.{◌≢◌}
use mathlib.Core.Bool.{Bool, true, false}
use mathlib.Core.Option.{Option, none, some}
use mathlib.Core.List.{List, [], ◌∷◌}
use native.Mathlib.Omega.{arith}
use opx_nas_ndi.Base.Tests.{KeyTest, ◌==◌, if◌then◌else◌, beq_refl, beq_ne}

pub record Table {ℓ} (K V : Type ℓ) : Type ℓ where
  entries : List (K × V)

module _ {ℓ} {K V : Type ℓ} ⦃e : KeyTest K⦄ where
  search_list : K → List (K × V) → Option V
  search_list k [] = none
  search_list k ((j, v) ∷ l) = if j == k then some v else search_list k l

  erase_list : K → List (K × V) → List (K × V)
  erase_list k [] = []
  erase_list k ((j, v) ∷ l) = let rest = erase_list k l in if j == k then rest else (j, v) ∷ rest

  unfoldable pub find : Table K V → K → Option V
  unfolding search_list
  find t k = search_list k t.entries

  unfoldable pub erase : Table K V → K → Table K V
  unfolding erase_list
  erase t k = record { entries = erase_list k t.entries }

  unfoldable pub put : Table K V → K → V → Table K V
  unfolding erase_list
  put t k v = record { entries = (k, v) ∷ erase_list k t.entries }

  search_list-erase_list :
      (k j : K) (l : List (K × V))
      → search_list j (erase_list k l) ≡ (if k == j then none else search_list j l)
  unfolding search_list erase_list
  search_list-erase_list k j [] = ground arith
  search_list-erase_list k j ((i, v) ∷ l) =
      ground (arith, search_list-erase_list k j l, e.same_iff i k, e.same_iff i j, e.same_iff k j)

  pub find-erase :
      (t : Table K V) (k j : K) → find (erase t k) j ≡ (if k == j then none else find t j)
  unfolding find erase
  find-erase t k j = search_list-erase_list k j t.entries

  pub find-put :
      (t : Table K V) (k : K) (v : V) (j : K)
      → find (put t k v) j ≡ (if k == j then some v else find t j)
  unfolding find put
  find-put t k v j = ground (arith, search_list-erase_list k j t.entries)

  pub find-put_self : (t : Table K V) (k : K) (v : V) → find (put t k v) k ≡ some v
  find-put_self t k v = ground (arith, find-put t k v k, beq_refl k)

  pub find-put_ne : (t : Table K V) (k : K) (v : V) (j : K) → k ≢ j → find (put t k v) j ≡ find t j
  find-put_ne t k v j h = ground (arith, find-put t k v j, beq_ne k j h)

  pub find-erase_self : (t : Table K V) (k : K) → find (erase t k) k ≡ none
  find-erase_self t k = ground (arith, find-erase t k k, beq_refl k)

  pub find-erase_ne : (t : Table K V) (k j : K) → k ≢ j → find (erase t k) j ≡ find t j
  find-erase_ne t k j h = ground (arith, find-erase t k j, beq_ne k j h)

-- `size() == 0`
unfoldable pub is_empty {ℓ} : {K V : Type ℓ} → Table K V → Bool
is_empty t = elim t.entries [ [] ↦ true | _ ∷ _ ↦ false ]

unfoldable pub empty {ℓ} : {K V : Type ℓ} → Table K V
empty = record { entries = [] }

pub find-empty {ℓ} : {K V : Type ℓ} ⦃e : KeyTest K⦄ (k : K) → find (empty {K = K} {V = V}) k ≡ none
unfolding find empty
find-empty k = refl

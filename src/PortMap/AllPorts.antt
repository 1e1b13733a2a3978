-- ===== src/PortMap/AllPorts.antt =====
-- What `ndi_port_get_all_sai_ports` writes, against the number that `ndi_port_get_sai_ports_len` gives.
use opx_nas_ndi.Base.{
  ℕ, suc, ◌+◌, ◌^◌, ◌≡◌, refl, ◌≤◌, ◌<◌, true, false, none, some, List, [], ◌∷◌, ◌++◌, arith,
  nat_key, length, get_elem?, set, ok, count_if, keep, map, drop,
}
use mathlib.Core.Option
use opx_nas_ndi.PortMap.{PortEntry, PortMap, size_minus_one}
use opx_nas_ndi.PortMap.Listing.{
  port_get_sai_ports_len, port_get_all_sai_ports, has_sai_port, fill_from,
}

-- The SAI ports that a row holds, in order.
abbrev pub sai_ports : List PortEntry → List ℕ
sai_ports row = map (λ e. e.sai_port) (keep has_sai_port row)

length-sai_ports : (row : List PortEntry) → length (sai_ports row) ≡ count_if has_sai_port row
length-sai_ports [] = refl
length-sai_ports (e ∷ row) = ground (arith, length-sai_ports row)

-- A write behind the first cell leaves the first cell alone.
fill_from-suc :
    (i : ℕ) (row : List PortEntry) (b : ℕ) (list : List ℕ)
    → fill_from (suc i) row (b ∷ list) ≡ Option.map (◌∷◌ b) (fill_from i row list)
unfolding fill_from
fill_from-suc i [] b list = refl
fill_from-suc i (e ∷ row) b list =
    ground (arith, fill_from-suc i row b list, fill_from-suc (suc i) row b (set list i e.sai_port))

fill_from-zero :
    (row : List PortEntry) (list : List ℕ)
    → length (sai_ports row) ≤ length list
    → fill_from 0 row list ≡ some (sai_ports row ++ drop (length (sai_ports row)) list)
unfolding fill_from
fill_from-zero [] list h = refl
fill_from-zero (e ∷ row) [] h = ground (arith, fill_from-zero row [])
fill_from-zero (e ∷ row) (b ∷ list) h = ground (
  arith,
  fill_from-suc 0 row e.sai_port list,
  fill_from-zero row (b ∷ list),
  fill_from-zero row list,
)

fill_from-overflow :
    (row : List PortEntry) (list : List ℕ)
    → length list < length (sai_ports row)
    → fill_from 0 row list ≡ none
unfolding fill_from
fill_from-overflow [] list h = absurd (omega arith)
fill_from-overflow (e ∷ row) [] h = ground (arith, fill_from-overflow row [])
fill_from-overflow (e ∷ row) (b ∷ list) h = ground (
  arith,
  fill_from-suc 0 row e.sai_port list,
  fill_from-overflow row (b ∷ list),
  fill_from-overflow row list,
)

module _ (n len : ℕ) (m : PortMap) (e : PortEntry) (rest : List PortEntry) (list : List ℕ)
    (at : get_elem? m.tbl n ≡ some (e ∷ rest)) (small : length (sai_ports rest) + 1 < 2 ^ 64) where
  -- With the CPU port in the first entry, at least two more SAI ports and room for as many as are
  -- counted, the list receives exactly the SAI ports behind the first entry, in order, and their
  -- number is the one that `ndi_port_get_sai_ports_len` reports.
  pub port_get_all_sai_ports_lem :
      has_sai_port e ≡ true
      → 1 < length (sai_ports rest)
      → length (sai_ports rest) ≤ len
      → length (sai_ports rest) ≤ length list
      → (port_get_sai_ports_len n m ≡ (ok, some (length (sai_ports rest))))
        × (port_get_all_sai_ports n list len m
            ≡ some (ok, sai_ports rest ++ drop (length (sai_ports rest)) list))
  unfolding port_get_all_sai_ports port_get_sai_ports_len
  port_get_all_sai_ports_lem cpu two room space =
      let size = length-sai_ports rest in
      let minus : size_minus_one (suc (count_if has_sai_port rest)) ≡ length (sai_ports rest) =
        omega arith in
      (
        ground (arith, at, cpu, minus),
        ground (arith, at, cpu, minus, fill_from-zero rest list space),
      )

  -- With the CPU port in the first entry and a single SAI port behind it, the call succeeds and
  -- writes nothing, although one port is counted.
  pub port_get_all_sai_ports_single :
      has_sai_port e ≡ true
      → length (sai_ports rest) ≡ 1
      → 1 ≤ len
      → (port_get_sai_ports_len n m ≡ (ok, some 1))
        × (port_get_all_sai_ports n list len m ≡ some (ok, list))
  unfolding port_get_all_sai_ports port_get_sai_ports_len
  port_get_all_sai_ports_single cpu one room =
      let size = length-sai_ports rest in
      let minus : size_minus_one (suc (count_if has_sai_port rest)) ≡ 1 = omega arith in
      (ground (arith, at, cpu, minus), ground (arith, at, cpu, minus))

  -- Without a SAI port in the first entry, so that the CPU port stands elsewhere, a list of the
  -- length that is counted is overrun.
  pub port_get_all_sai_ports_overrun :
      has_sai_port e ≡ false
      → 2 < length (sai_ports rest)
      → length list + 1 ≡ length (sai_ports rest)
      → len ≡ length list
      → (port_get_sai_ports_len n m ≡ (ok, some len)) × (port_get_all_sai_ports n list len m ≡ none)
  unfolding port_get_all_sai_ports port_get_sai_ports_len
  port_get_all_sai_ports_overrun no_cpu three counted same =
      let size = length-sai_ports rest in
      let minus : size_minus_one (count_if has_sai_port rest) ≡ len = omega arith in
      (
        ground (arith, at, no_cpu, minus),
        ground (arith, at, no_cpu, minus, fill_from-overflow rest list (omega arith)),
      )

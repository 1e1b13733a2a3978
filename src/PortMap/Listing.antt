-- ===== src/PortMap/Listing.antt =====
-- src/nas_ndi_port_map.cpp: the hardware ports of a port, and the lists of all SAI ports.
use opx_nas_ndi.Base.{
  ℕ, zero, suc, Bool, not, Option, none, some, List, [], ◌∷◌, ltb, nat_key, ◌==◌, if◌then◌else◌,
  length, get_elem?, set, count_if, StdError, ok, std_err, npu, fail, param,
}
use opx_nas_ndi.PortMap.{PortEntry, PortMap, size_minus_one, entry_at, port_is_valid}

-- `for (idx = 0; idx < n; idx++) out[idx] = in[idx]`: `none` if an index is past the end.
unfoldable pub copy_ports : ℕ → List ℕ → List ℕ → Option (List ℕ)
copy_ports zero from to = some to
copy_ports (suc n) [] to = none
copy_ports (suc n) (x ∷ from) [] = none
copy_ports (suc n) (x ∷ from) (y ∷ to) = elim (copy_ports n from to) [
  | none ↦ none
  | some rest ↦ some (x ∷ rest)
]

-- `ndi_hwport_list_get_list`: the caller's array, `none` for `nullptr`, and its count. The outer
-- `none` is an index past the end of the array or of the stored list.
unfoldable pub hwport_list_get_list :
    ℕ → ℕ → Option (List ℕ) → ℕ → PortMap → Option (StdError × Option (List ℕ) × ℕ)
hwport_list_get_list n port hwport count m =
    if not (port_is_valid n port m)
    then some (std_err npu param 0, hwport, count)
    else (elim (entry_at m n port) [
      | none ↦ none
      | some e ↦ elim hwport [
        | none ↦ some (ok, none, e.hwport_count)
        | some array ↦
            let short = ltb count e.hwport_count in
            let copied = if short then count else e.hwport_count in
            elim (copy_ports copied e.hwport_list array) [
              | none ↦ none
              | some array' ↦ some (ok, some array', if short then count else e.hwport_count)
            ]
      ]
    ])

-- `ndi_hwport_list_get`
unfoldable pub hwport_list_get :
    ℕ → ℕ → Option (List ℕ) → PortMap → Option (StdError × Option (List ℕ) × ℕ)
hwport_list_get n port hwport m = hwport_list_get_list n port hwport 1 m

-- `if (port->sai_port)`
abbrev pub has_sai_port : PortEntry → Bool
has_sai_port e = not (e.sai_port == 0)

-- `ndi_port_get_sai_ports_len`: the entries that hold a SAI port, less one for the CPU port.
unfoldable pub port_get_sai_ports_len : ℕ → PortMap → StdError × Option ℕ
port_get_sai_ports_len n m = elim (get_elem? m.tbl n) [
  | none ↦ (std_err npu param 0, none)
  | some row ↦ (ok, some (size_minus_one (count_if has_sai_port row)))
]

-- The loop from the second entry on.
unfoldable pub fill_from : ℕ → List PortEntry → List ℕ → Option (List ℕ)
fill_from i [] list = some list
fill_from i (e ∷ row) list =
    let skip = fill_from i row list in
    let write = fill_from (suc i) row (set list i e.sai_port) in
    if has_sai_port e then (if ltb i (length list) then write else none) else skip

-- `ndi_port_get_all_sai_ports`, with the caller's list and the length that it passes. `none` is a
-- write past the end of the list, or the step past the end of an empty row.
unfoldable pub port_get_all_sai_ports : ℕ → List ℕ → ℕ → PortMap → Option (StdError × List ℕ)
port_get_all_sai_ports n list len m = elim (get_elem? m.tbl n) [
  | none ↦ some (std_err npu param 0, list)
  | some row ↦
      let cur_len = size_minus_one (count_if has_sai_port row) in
      if ltb len cur_len
      then some (std_err npu fail 0, list)
      else if ltb 1 cur_len
      then (elim row [
        | [] ↦ none
        | e ∷ rest ↦ elim (fill_from 0 rest list) [ none ↦ none | some list' ↦ some (ok, list') ]
      ])
      else some (ok, list)
]

-- ===== src/PortMap/Addition.antt =====
-- What the addition and the deletion of a SAI port do to the active entries and to the map back.
use opx_nas_ndi.Base.{
  ℕ, ◌^◌, ◌≡◌, ◌<◌, Bool, true, false, ◌&&◌, Option, none, some, List, [], arith, nat_key, ◌==◌,
  if◌then◌else◌, length, get_elem?, set, StdError, ok, std_err, npu, cfg, get_elem?-some,
}
use opx_nas_ndi.Base.Table.{find, put, find-put}
use opx_nas_ndi.PortMap.{
  PortEntry, PortMap, SaiportEntry, grow, add_with, first_or_zero, saiport_map_add_entry,
}
use opx_nas_ndi.PortMap.Entries.{get_elem?-set, grow-fits}
use opx_nas_ndi.PortMap.Active.{active_at, active_at-set, only_active-grow}

-- The answer of an addition, and the map after it; undefined behaviour has neither.
abbrev pub answer : Option (StdError × Option ℕ × PortMap) → Option (StdError × Option ℕ)
answer none = none
answer (some (rc, port, m)) = some (rc, port)

abbrev pub map_after : PortMap → Option (StdError × Option ℕ × PortMap) → PortMap
map_after m none = m
map_after m (some (rc, port, m')) = m'

-- The row of the NPU is there, not empty, and small enough for `size_t`.
pub record HasRow (m : PortMap) (n : ℕ) : Type 0 where
  pub row : List PortEntry
  pub at : get_elem? m.tbl n ≡ some row
  pub nonempty : 0 < length row
  pub small : length row < 2 ^ 64

-- The entry that an addition writes.
abbrev pub new_entry : ℕ → List ℕ → Bool → PortEntry
new_entry sai_port hw_ports cpu = record {
  sai_port = sai_port;
  hwport_count = length hw_ports;
  hwport_list = hw_ports;
  active = true;
  cpu = cpu;
}

abbrev pub cpu_of : Option PortEntry → Bool
cpu_of none = false
cpu_of (some e) = e.cpu

module _ (n s : ℕ) (hw : List ℕ) (m : PortMap) (r : HasRow m n) where
  abbrev first : ℕ
  first = first_or_zero hw

  grown_entry : (e : PortEntry) × (get_elem? (grow first r.row) first ≡ some e)
  grown_entry = get_elem?-some (grow first r.row) first (grow-fits first r.row r.nonempty r.small)

  -- The first hardware port's entry is in use: the addition is refused and shows nothing.
  pub add_with_busy :
      (e : PortEntry) (k p : ℕ)
      → active_at m n first ≡ some e
      → (answer (add_with n s hw m) ≡ some (std_err npu cfg 0, none))
        × (active_at (map_after m (add_with n s hw m)) k p ≡ active_at m k p)
        × ((map_after m (add_with n s hw m)).saiport ≡ m.saiport)
  unfolding add_with
  add_with_busy e k p busy =
      let (x, at) = grown_entry in
      ground (
        arith,
        r.at,
        at,
        only_active-grow first r.row first r.nonempty r.small,
        only_active-grow first r.row p r.nonempty r.small,
        active_at-set m n r.row (grow first r.row) m.saiport k p r.at,
      )

  -- Otherwise it becomes the one new active entry, and the SAI port's one entry in the map back.
  pub add_with_free :
      (k p j : ℕ)
      → active_at m n first ≡ none
      → (cpu : Bool) × (answer (add_with n s hw m) ≡ some (ok, some first))
        × (active_at (map_after m (add_with n s hw m)) k p
            ≡ (if n == k && first == p then some (new_entry s hw cpu) else active_at m k p))
        × (find (map_after m (add_with n s hw m)).saiport j
            ≡ (if s == j then some (record { npu_id = n; npu_port = first }) else find m.saiport j))
  unfolding add_with saiport_map_add_entry
  add_with_free k p j free =
      let (x, at) = grown_entry in
      let g = grow first r.row in
      let idle : x.active ≡ false =
        ground (arith, at, r.at, only_active-grow first r.row first r.nonempty r.small) in
      let written = set g first (new_entry s hw x.cpu) in
      let back : SaiportEntry = record { npu_id = n; npu_port = first } in
      let facts = active_at-set m n r.row written (put m.saiport s back) k p r.at in
      let cells = get_elem?-set g first (new_entry s hw x.cpu) x p at in
      let grows = only_active-grow first r.row p r.nonempty r.small in
      (
        x.cpu,
        ground (arith, r.at, at, idle),
        ground (arith, r.at, at, idle, facts, cells, grows),
        ground (arith, r.at, at, idle, find-put m.saiport s back j),
      )

-- An NPU whose row is empty: the test on `size() - 1` wraps around, the row does not grow, and the
-- addition of any SAI port reads past its end.
pub add_with_empty_row :
    (n s : ℕ) (hw : List ℕ) (m : PortMap)
    → get_elem? m.tbl n ≡ some []
    → first_or_zero hw < 2 ^ 64
    → add_with n s hw m ≡ none
unfolding add_with grow
add_with_empty_row n s hw m at h = ground (arith, at)

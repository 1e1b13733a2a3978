-- ===== src/PortMap/Active.antt =====
-- The active entries of the port table, which is what the operations show of it.
use opx_nas_ndi.Base.{
  ℕ, ◌^◌, ◌≡◌, ◌<◌, inl, inr, true, false, Option, none, some, List, arith, nat_key, ◌==◌,
  if◌then◌else◌, length, get_elem?, set, Option-cases, ok, std_err, npu, param,
}
use opx_nas_ndi.Base.Table.{Table}
use opx_nas_ndi.PortMap.{
  PortEntry, PortMap, SaiportEntry, grow, entry_at, port_is_valid, sai_port_id_get,
}
use opx_nas_ndi.PortMap.Entries.{get_elem?-grow, get_elem?-grow_old, get_elem?-set}

abbrev pub only_active : Option PortEntry → Option PortEntry
only_active none = none
only_active (some e) = if e.active then some e else none

-- The entry of a port that is in use.
abbrev pub active_at : PortMap → ℕ → ℕ → Option PortEntry
active_at m n p = only_active (entry_at m n p)

pub active_at-set :
    (m : PortMap) (n : ℕ) (row row' : List PortEntry) (t : Table ℕ SaiportEntry) (k p : ℕ)
    → get_elem? m.tbl n ≡ some row
    → active_at (record { tbl = set m.tbl n row'; saiport = t }) k p
      ≡ (if n == k then only_active (get_elem? row' p) else active_at m k p)
active_at-set m n row row' t k p h = ground (arith, get_elem?-set m.tbl n row' row k)

-- Growth brings in no active entry.
pub only_active-grow :
    (port : ℕ) (row : List PortEntry) (p : ℕ)
    → 0 < length row
    → length row < 2 ^ 64
    → only_active (get_elem? (grow port row) p) ≡ only_active (get_elem? row p)
only_active-grow port row p pos small = elim (Option-cases (get_elem? (grow port row) p)) [
  | inr (e, at) ↦ ground (arith, at, get_elem?-grow port row pos small p e at)
  | inl gone ↦ elim (Option-cases (get_elem? row p)) [
    | inl old ↦ rw (gone, old)
    | inr (e, at) ↦ absurd (ground (arith, gone, get_elem?-grow_old port row pos small p e at))
  ]
]

-- A port is valid exactly if it is active, and then its SAI port is the one that the entry holds.
pub sai_port_id_get_lem :
    (n p : ℕ) (m : PortMap)
    → sai_port_id_get n p false m ≡ (elim (active_at m n p) [
      | none ↦ (std_err npu param 0, none)
      | some e ↦ (ok, some e.sai_port)
    ])
unfolding sai_port_id_get port_is_valid
sai_port_id_get_lem n p m = elim (Option-cases (entry_at m n p)) [
  | inl gone ↦ ground arith
  | inr (e, at) ↦ ground arith
]

pub port_is_valid_lem :
    (n p : ℕ) (m : PortMap)
    → port_is_valid n p m ≡ (elim (active_at m n p) [ none ↦ false | some e ↦ true ])
unfolding port_is_valid
port_is_valid_lem n p m = ground arith

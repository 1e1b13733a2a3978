-- ===== src/PortMap/Deletion.antt =====
-- The deletion of a SAI port, and its effect on the lists of ports.
use opx_nas_ndi.Base.{
  ℕ, zero, suc, ◌≡◌, refl, inl, inr, true, ◌&&◌, none, some, List, [], ◌∷◌, arith, nat_key, ◌==◌,
  if◌then◌else◌, get_elem?, set, Option-cases, ok, count_if,
}
use opx_nas_ndi.Base.Table.{find, erase, find-erase}
use opx_nas_ndi.PortMap.{PortEntry, PortMap, SaiportEntry, port_map_sai_port_delete, deactivated}
use opx_nas_ndi.PortMap.Entries.{get_elem?-set}
use opx_nas_ndi.PortMap.Active.{active_at, active_at-set}
use opx_nas_ndi.PortMap.Consistency.{IsConsistent}
use opx_nas_ndi.PortMap.Listing.{port_get_sai_ports_len, has_sai_port}

active_row :
    (m : PortMap) (n p : ℕ) (e : PortEntry)
    → active_at m n p ≡ some e
    → (row : List PortEntry) × (get_elem? m.tbl n ≡ some row)
      × (get_elem? row p ≡ some e)
      × (e.active ≡ true)
active_row m n p e h = elim (Option-cases (get_elem? m.tbl n)) [
  | inl gone ↦ absurd (ground (arith, h))
  | inr (row, at) ↦ (row, at, ground (arith, h), ground (arith, h))
]

-- In a port map whose active entries and map back are inverse to each other, a mapped SAI port is
-- deleted with success; its NDI port is handed back and is no longer active, the SAI port is no
-- longer mapped, and the other ports are as they were.
pub port_map_sai_port_delete_lem :
    (m : PortMap) (s : ℕ) (x : SaiportEntry) (k p j : ℕ)
    → IsConsistent m
    → find m.saiport s ≡ some x
    → let (rc, port, m') = port_map_sai_port_delete s m in
      (rc ≡ ok)
      × (port ≡ some x.npu_port)
      × (active_at m' k p ≡ (if x.npu_id == k && x.npu_port == p then none else active_at m k p))
      × (find m'.saiport j ≡ (if s == j then none else find m.saiport j))
unfolding port_map_sai_port_delete
port_map_sai_port_delete_lem m s x k p j c h =
    let (e, active, same) = c.mapped_active s x h in
    let (row, at, here, on) = active_row m x.npu_id x.npu_port e active in
    let cells = get_elem?-set row x.npu_port (deactivated e) e p here in
    let row' = set row x.npu_port (deactivated e) in
    let t = erase m.saiport s in
    let rows = active_at-set m x.npu_id row row' t k p at in
    (
      ground (arith, h, at, here, on, same),
      ground (arith, h, at, here, on, same),
      ground (arith, h, at, here, on, same, cells, rows),
      ground (arith, h, at, here, on, same, find-erase m.saiport s j),
    )

delete_absent :
    (s : ℕ) (m : PortMap) → find m.saiport s ≡ none → port_map_sai_port_delete s m ≡ (ok, none, m)
unfolding port_map_sai_port_delete
delete_absent s m gone = ground (arith, gone)

-- Deleting any SAI port keeps a consistent map consistent; one that is not mapped changes nothing and
-- is no error.
pub port_map_sai_port_delete-IsConsistent :
    (s : ℕ) (m : PortMap) → IsConsistent m → IsConsistent (port_map_sai_port_delete s m).2
port_map_sai_port_delete-IsConsistent s m c = elim (Option-cases (find m.saiport s)) [
  | inl gone ↦ rw (delete_absent s m gone) c
  | inr (x, h) ↦
      let (e, at, back) = c.mapped_active s x h in
      record {
        active_mapped = λ k p f g. ground (
          arith,
          g,
          back,
          at,
          port_map_sai_port_delete_lem m s x k p f.sai_port c h,
          c.active_mapped k p f,
          c.active_mapped x.npu_id x.npu_port e,
        );
        mapped_active = λ j y g.
            let (_, _, entry, maps) =
              port_map_sai_port_delete_lem m s x y.npu_id y.npu_port j c h in
            let (f, active, same) = c.mapped_active j y (ground (arith, g, maps)) in
            (f, ground (arith, g, maps, entry, active, same, back, at), same);
      }
]

count_if-set :
    (row : List PortEntry) (p : ℕ) (e : PortEntry)
    → get_elem? row p ≡ some e
    → count_if has_sai_port (set row p (deactivated e)) ≡ count_if has_sai_port row
count_if-set [] p e h = refl
count_if-set (x ∷ row) zero e h = ground arith
count_if-set (x ∷ row) (suc p) e h = ground (arith, count_if-set row p e h)

-- The number of ports that is reported never falls: a deleted port keeps its SAI port in the table,
-- and is counted after its deletion as before.
pub port_get_sai_ports_len-delete :
    (s n : ℕ) (m : PortMap)
    → port_get_sai_ports_len n (port_map_sai_port_delete s m).2 ≡ port_get_sai_ports_len n m
unfolding port_get_sai_ports_len port_map_sai_port_delete
port_get_sai_ports_len-delete s n m = elim (Option-cases (find m.saiport s)) [
  | inl gone ↦ ground (arith, gone)
  | inr (x, h) ↦ elim (Option-cases (get_elem? m.tbl x.npu_id)) [
    | inl gone ↦ ground (arith, h, gone)
    | inr (row, at) ↦ elim (Option-cases (get_elem? row x.npu_port)) [
      | inl gone ↦ ground (arith, h, at, gone)
      | inr (e, here) ↦ ground (
        arith,
        h,
        at,
        here,
        count_if-set row x.npu_port e here,
        get_elem?-set m.tbl x.npu_id (set row x.npu_port (deactivated e)) row n at,
      )
    ]
  ]
]

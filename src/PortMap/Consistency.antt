-- ===== src/PortMap/Consistency.antt =====
-- The port table and the map back are inverse to one another on the active entries.
use opx_nas_ndi.Base.{
  ℕ, ◌≡◌, ◌↔◌, inl, inr, false, none, some, List, [], arith, nat_key, ◌==◌, length, Option-cases,
  Bool-cases, ok,
}
use opx_nas_ndi.Base.Table.{find, empty, find-empty}
use opx_nas_ndi.PortMap.{
  PortEntry, PortMap, SaiportEntry, add_with, first_or_zero, npu_port_id_get, sai_port_id_get,
}
use opx_nas_ndi.PortMap.Active.{active_at, sai_port_id_get_lem}
use opx_nas_ndi.PortMap.Addition.{map_after, HasRow, new_entry, add_with_busy, add_with_free}

-- Each active entry is mapped back, and has the count of its hardware ports; each entry of the map
-- back leads to an active entry.
pub record IsConsistent (m : PortMap) : Type 0 where
  pub active_mapped :
      (n p : ℕ) (e : PortEntry)
      → active_at m n p ≡ some e
      → (find m.saiport e.sai_port ≡ some (record { npu_id = n; npu_port = p }))
        × (e.hwport_count ≡ length e.hwport_list)
  pub mapped_active :
      (s : ℕ) (x : SaiportEntry)
      → find m.saiport s ≡ some x
      → (e : PortEntry) × (active_at m x.npu_id x.npu_port ≡ some e) × (e.sai_port ≡ s)

abbrev pub no_ports : PortMap
no_ports = record { tbl = []; saiport = empty }

pub no_ports-IsConsistent : IsConsistent no_ports
no_ports-IsConsistent = record {
  active_mapped = λ n p e h. absurd (ground arith);
  mapped_active = λ s x h. absurd (ground (arith, find-empty {V = SaiportEntry} s));
}

-- In a consistent map the two queries are inverse: an NDI port has a SAI port exactly if that SAI
-- port has the NDI port.
pub sai_port_id_get_inverse :
    (m : PortMap) (n p s : ℕ)
    → IsConsistent m
    → (sai_port_id_get n p false m ≡ (ok, some s))
      ↔ (npu_port_id_get s m ≡ (ok, some (record { npu_id = n; npu_port = p })))
unfolding npu_port_id_get
sai_port_id_get_inverse m n p s c = (
  λ h. elim (Option-cases (active_at m n p)) [
    | inl gone ↦ absurd (ground (arith, h, sai_port_id_get_lem n p m))
    | inr (e, at) ↦ ground (arith, h, sai_port_id_get_lem n p m, c.active_mapped n p e at)
  ],
  λ h. elim (Option-cases (find m.saiport s)) [
    | inl gone ↦ absurd (ground (arith, h))
    | inr (x, at) ↦
        let (e, active, same) = c.mapped_active s x at in
        ground (arith, h, active, same, sai_port_id_get_lem n p m)
  ],
)

pub add_with-IsConsistent :
    (n s : ℕ) (hw : List ℕ) (m : PortMap)
    → HasRow m n
    → IsConsistent m
    → find m.saiport s ≡ none
    → IsConsistent (map_after m (add_with n s hw m))
add_with-IsConsistent n s hw m r c fresh =
    let first = first_or_zero hw in
    elim (Option-cases (active_at m n first)) [
      | inr (b, busy) ↦
          let same = λ (k p : ℕ). add_with_busy n s hw m r b k p busy in
          record {
            active_mapped = λ k p e h. ground (arith, h, same k p, c.active_mapped k p e);
            mapped_active = λ j x h.
                let (e, active, back) = c.mapped_active j x (ground (arith, h, same 0 0)) in
                (e, ground (arith, active, same x.npu_id x.npu_port), back);
          }
      | inl free ↦ record {
        active_mapped = λ k p e h.
            ground (
              arith,
              h,
              fresh,
              add_with_free n s hw m r k p e.sai_port free,
              c.active_mapped k p e,
            );
        mapped_active = λ j x h. elim (Bool-cases (s == j)) [
          | inl new ↦
              let (cpu, _, entry, back) = add_with_free n s hw m r x.npu_id x.npu_port j free in
              (new_entry s hw cpu, ground (arith, h, entry, back), ground arith)
          | inr old ↦
              let (cpu, _, entry, back) = add_with_free n s hw m r x.npu_id x.npu_port j free in
              let (e, active, same) = c.mapped_active j x (ground (arith, h, back)) in
              (e, ground (arith, active, entry, free, same), same)
        ];
      }
    ]

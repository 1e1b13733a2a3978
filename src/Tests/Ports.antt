-- ===== src/Tests/Ports.antt =====
-- The port map, on a switch with a CPU port and some ports.
use opx_nas_ndi.Base.{
  ℕ, zero, suc, ◌≡◌, refl, ◌↔◌, true, false, none, some, List, [], ◌∷◌, arith, nat_key, nat_beq,
  if◌then◌else◌, ◌&&◌, ok, resize,
}
use opx_nas_ndi.Base.Table.{find, put, empty}
use opx_nas_ndi.Base.Replies.{reply}
use opx_nas_ndi.NpuDb.{ndi_db_ptr_get}
use opx_nas_ndi.PortMap.{
  PortEntry, PortMap, Switch, blank, grow, add_with, port_map_sai_port_add,
  port_map_sai_port_delete, sai_port_id_get, npu_port_id_get, saiport_map_add_entry,
  sai_port_hwport_list_get,
}
use opx_nas_ndi.PortMap.Active.{active_at}
use opx_nas_ndi.PortMap.Addition.{map_after, HasRow, new_entry}
use opx_nas_ndi.PortMap.Consistency.{IsConsistent, sai_port_id_get_inverse, add_with-IsConsistent}
use opx_nas_ndi.PortMap.Deletion.{
  port_map_sai_port_delete-IsConsistent, port_map_sai_port_delete_lem,
}
use opx_nas_ndi.PortMap.Startup.{
  sai_port_map_create, per_npu_sai_port_map_update, add_ports, sai_cpu_port_add, sai_port_list_get,
  max_sai_port_get,
}

-- Two ports of two lanes each, and the CPU port 0.
abbrev small_switch : Switch
small_switch = record {
  db = record { base = 4096; entry_size = 8 };
  port_number = λ n. reply 3;
  port_list = λ n room. reply (501 ∷ 502 ∷ []);
  hw_lane_list = λ n s room. if nat_beq s 501 then reply (1 ∷ 2 ∷ []) else reply (3 ∷ 4 ∷ []);
  cpu_port = λ n. reply 500;
  cpu_port_id = λ n. 0;
}

program : Unit {0}
unfolding sai_port_map_create per_npu_sai_port_map_update add_ports sai_cpu_port_add
    sai_port_list_get max_sai_port_get port_map_sai_port_add grow resize put find empty
    saiport_map_add_entry sai_port_hwport_list_get ndi_db_ptr_get
program = tt

abbrev no_map : PortMap
no_map = record { tbl = []; saiport = empty }

created :
    sai_port_map_create small_switch no_map
    ≡ some (
      ok,
      record {
        tbl =
            (new_entry 500 (0 ∷ []) true
              ∷ new_entry 501 (1 ∷ 2 ∷ []) false
              ∷ blank
              ∷ new_entry 502 (3 ∷ 4 ∷ []) false
              ∷ [])
            ∷ [];
        saiport =
            put
              (put
                (put empty 500 (record { npu_id = 0; npu_port = 0 }))
                501
                (record { npu_id = 0; npu_port = 1 }))
              502
              (record { npu_id = 0; npu_port = 3 });
      },
    )
unfolding program sai_port_map_create
created = refl

-- One row of two idle entries.
abbrev idle : PortMap
idle = record { tbl = (blank ∷ blank ∷ []) ∷ []; saiport = empty }

idle-HasRow : HasRow idle 0
idle-HasRow = record {
  row = blank ∷ blank ∷ [];
  at = refl;
  nonempty = omega arith;
  small = omega arith;
}

idle_nowhere : (n p : ℕ) → active_at idle n p ≡ none
idle_nowhere zero zero = refl
idle_nowhere zero (suc zero) = refl
idle_nowhere zero (suc (suc p)) = refl
idle_nowhere (suc n) p = refl

idle-IsConsistent : IsConsistent idle
unfolding find empty
idle-IsConsistent = record {
  active_mapped = λ n p e h. absurd (ground (arith, h, idle_nowhere n p));
  mapped_active = λ s x h. absurd (ground (arith, h));
}

-- SAI port 501 with the hardware ports 1 and 2.
one : PortMap
unfolding program add_with
one = map_after idle (add_with 0 501 (1 ∷ 2 ∷ []) idle)

add_with-IsConsistent_example : IsConsistent (map_after idle (add_with 0 501 (1 ∷ 2 ∷ []) idle))
unfolding find empty
add_with-IsConsistent_example =
    add_with-IsConsistent 0 501 (1 ∷ 2 ∷ []) idle idle-HasRow idle-IsConsistent refl

one-IsConsistent : IsConsistent one
unfolding one
one-IsConsistent = add_with-IsConsistent_example

one-HasRow : HasRow one 0
unfolding one
one-HasRow = record {
  row = blank ∷ new_entry 501 (1 ∷ 2 ∷ []) false ∷ [];
  at = refl;
  nonempty = omega arith;
  small = omega arith;
}

sai_port_id_get_inverse_example :
    (sai_port_id_get 0 1 false one ≡ (ok, some 501))
    ↔ (npu_port_id_get 501 one ≡ (ok, some (record { npu_id = 0; npu_port = 1 })))
sai_port_id_get_inverse_example = sai_port_id_get_inverse one 0 1 501 one-IsConsistent

port_map_sai_port_delete-IsConsistent_example : IsConsistent (port_map_sai_port_delete 501 one).2
port_map_sai_port_delete-IsConsistent_example =
    port_map_sai_port_delete-IsConsistent 501 one one-IsConsistent

port_map_sai_port_delete_lem_example :
    let (rc, port, m') = port_map_sai_port_delete 501 one in
    (rc ≡ ok)
    × (port ≡ some 1)
    × (active_at m' 0 0 ≡ (if nat_beq 0 0 && nat_beq 1 0 then none else active_at one 0 0))
    × (find m'.saiport 7 ≡ (if nat_beq 501 7 then none else find one.saiport 7))
unfolding one find
port_map_sai_port_delete_lem_example =
    port_map_sai_port_delete_lem one 501 (record { npu_id = 0; npu_port = 1 }) 0 0 7
      one-IsConsistent refl

-- The CPU port, in use with two more ports or with one, or absent from the first entry.
abbrev cpu_entry : PortEntry
cpu_entry = new_entry 500 (0 ∷ []) true

abbrev port1 : PortEntry
port1 = new_entry 501 (1 ∷ []) false

abbrev port2 : PortEntry
port2 = new_entry 502 (2 ∷ []) false

abbrev port3 : PortEntry
port3 = new_entry 503 (3 ∷ []) false

abbrev row_of : List PortEntry → PortMap
row_of row = record { tbl = row ∷ []; saiport = empty }

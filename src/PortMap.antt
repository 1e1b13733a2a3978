-- ===== src/PortMap.antt =====
-- src/nas_ndi_port_map.cpp: the table from (NPU, NDI port) to SAI port and hardware ports, and the map
-- back. A reader or writer holds the locks over a whole function, so a function is one step.
-- `none` stands for undefined behaviour: an index past the end of a vector. NPU ids are not negative
-- and memory does not run out. Of the flags, which are two bits, each is a Boolean.
pub mod Entries
pub mod Listing
pub mod Startup
pub mod Active
pub mod Addition
pub mod Consistency
pub mod Deletion
pub mod AllPorts
pub mod RoundTrip
use opx_nas_ndi.Base.{
  ℕ, zero, suc, ◌+◌, ◌-◌, ◌%◌, ◌^◌, Bool, true, false, not, ◌&&◌, ◌||◌, Option, none, some, List,
  [], ◌∷◌, ltb, leb, nat_key, ◌==◌, if◌then◌else◌, length, get_elem?, set, resize, StdError, ok,
  std_err, npu, fail, param, cfg, nomem,
}
use opx_nas_ndi.Base.Replies.{Reply, reply, failed}
use opx_nas_ndi.NpuDb.{NpuDb, ndi_db_ptr_get, is_null}
use opx_nas_ndi.Base.Table.{Table, find, put, erase, empty}

-- `ndi_port_map_t`; `active` and `cpu` are the bits of its `flags`.
pub record PortEntry : Type 0 where
  pub sai_port : ℕ
  pub hwport_count : ℕ
  pub hwport_list : List ℕ
  pub active : Bool
  pub cpu : Bool

-- An entry that `resize` makes.
abbrev pub blank : PortEntry
blank = record { sai_port = 0; hwport_count = 0; hwport_list = []; active = false; cpu = false }

-- `ndi_saiport_map_t`
pub record SaiportEntry : Type 0 where
  pub npu_id : ℕ
  pub npu_port : ℕ

-- `g_ndi_port_map_tbl` and `g_saiport_map`
pub record PortMap : Type 0 where
  pub tbl : List (List PortEntry)
  pub saiport : Table ℕ SaiportEntry

-- The switch as the code reads it: `get_switch_attribute`, `get_port_attribute` and the port number
-- of the CPU that `nas_switch_get_cpu_port_id` gives. A list is asked for with the room for it. The calls are
-- reached through the entry of the NPU, whose table is `db`.
pub record Switch : Type 0 where
  pub db : NpuDb
  pub port_number : ℕ → Reply ℕ
  pub port_list : ℕ → ℕ → Reply (List ℕ)
  pub hw_lane_list : ℕ → ℕ → ℕ → Reply (List ℕ)
  pub cpu_port : ℕ → Reply ℕ
  pub cpu_port_id : ℕ → ℕ

abbrev pub ndi_max_npu : ℕ
ndi_max_npu = 1

abbrev pub ndi_max_hwport_per_port : ℕ
ndi_max_hwport_per_port = 10

-- `size() - 1` on `size_t`
abbrev pub size_minus_one : ℕ → ℕ
size_minus_one n = (n + 2 ^ 64 - 1) % 2 ^ 64

-- `g_ndi_port_map_tbl[npu][port]`
abbrev pub entry_of : Option (List PortEntry) → ℕ → Option PortEntry
entry_of none p = none
entry_of (some row) p = get_elem? row p

abbrev pub entry_at : PortMap → ℕ → ℕ → Option PortEntry
entry_at m n p = entry_of (get_elem? m.tbl n) p

unfoldable pub saiport_map_add_entry : ℕ → SaiportEntry → PortMap → PortMap
saiport_map_add_entry sai_port entry m = record m { saiport = put m.saiport sai_port entry }

-- `ndi_npu_port_id_get`
unfoldable pub npu_port_id_get : ℕ → PortMap → StdError × Option SaiportEntry
npu_port_id_get sai_port m = elim (find m.saiport sai_port) [
  | none ↦ (std_err npu fail 0, none)
  | some e ↦ (ok, some e)
]

-- `ndi_sai_port_hwport_list_get` into an array with room for `count` lanes; no caller passes `NULL`.
unfoldable pub sai_port_hwport_list_get : Switch → ℕ → ℕ → ℕ → StdError × List ℕ
sai_port_hwport_list_get sw n sai_port count =
    if is_null (ndi_db_ptr_get sw.db n)
    then (std_err npu param 0, [])
    else (elim (sw.hw_lane_list n sai_port count) [
      | failed st ↦ (std_err npu cfg st, [])
      | reply lanes ↦ (ok, lanes)
    ])

-- `hw_ports[0]`, where the array of the function's own is filled with zeros.
abbrev pub first_or_zero : List ℕ → ℕ
first_or_zero [] = 0
first_or_zero (x ∷ xs) = x

-- The row of an NPU, grown to hold a port, with the test as the code writes it.
unfoldable pub grow : ℕ → List PortEntry → List PortEntry
grow port row = if ltb (size_minus_one (length row)) port then resize (port + 1) blank row else row

-- The part of `ndi_port_map_sai_port_add` behind the choice of the hardware ports.
unfoldable pub add_at :
    ℕ → ℕ → List ℕ → ℕ → List PortEntry → PortMap → Option (StdError × Option ℕ × PortMap)
add_at n sai_port hw_ports first row m =
    let grown = record m { tbl = set m.tbl n row } in
    elim (get_elem? row first) [
      | none ↦ none
      | some e ↦
          if e.active
          then some (std_err npu cfg 0, none, grown)
          else some (
            ok,
            some first,
            saiport_map_add_entry sai_port (record { npu_id = n; npu_port = first })
                (record m {
                  tbl = set m.tbl n (
                      set row first (record {
                        sai_port = sai_port;
                        hwport_count = length hw_ports;
                        hwport_list = hw_ports;
                        active = true;
                        cpu = e.cpu;
                      }));
                }),
          )
    ]

unfoldable pub add_with : ℕ → ℕ → List ℕ → PortMap → Option (StdError × Option ℕ × PortMap)
unfolding add_at
add_with n sai_port hw_ports m = elim (get_elem? m.tbl n) [
  | none ↦ none
  | some row ↦
      let first = first_or_zero hw_ports in add_at n sai_port hw_ports first (grow first row) m
]

-- `ndi_port_map_sai_port_add`; `none` and the empty list of hardware ports are looked up. The answer
-- holds the NDI port, when one is written.
unfoldable pub port_map_sai_port_add :
    Switch → ℕ → ℕ → Option (List ℕ) → PortMap → Option (StdError × Option ℕ × PortMap)
unfolding add_with
port_map_sai_port_add sw n sai_port (some (h ∷ hs)) m = add_with n sai_port (h ∷ hs) m
port_map_sai_port_add sw n sai_port _ m =
    let (rc, lanes) = sai_port_hwport_list_get sw n sai_port ndi_max_hwport_per_port in
    elim rc [ ok ↦ add_with n sai_port lanes m | std_err s c st ↦ some (std_err s c st, none, m) ]

-- The entry of a port that is taken off the table.
abbrev pub deactivated : PortEntry → PortEntry
deactivated e = record e { hwport_list = []; active = false; hwport_count = 0 }

-- `ndi_port_map_sai_port_delete`: the NPU is the one that the map holds, whatever the caller names.
unfoldable pub port_map_sai_port_delete : ℕ → PortMap → StdError × Option ℕ × PortMap
port_map_sai_port_delete sai_port m = elim (find m.saiport sai_port) [
  | none ↦ (ok, none, m)
  | some it ↦ elim (get_elem? m.tbl it.npu_id) [
    | none ↦ (std_err npu fail 0, none, record m { saiport = erase m.saiport sai_port })
    | some row ↦ elim (get_elem? row it.npu_port) [
      | none ↦ (std_err npu fail 0, none, record m { saiport = erase m.saiport sai_port })
      | some e ↦
          if not (e.sai_port == sai_port) || not e.active then (std_err npu fail 0, none, m) else (
            ok,
            some it.npu_port,
            record {
              tbl = set m.tbl it.npu_id (set row it.npu_port (deactivated e));
              saiport = erase m.saiport sai_port;
            },
          )
    ]
  ]
]

-- `ndi_port_is_valid`
unfoldable pub port_is_valid : ℕ → ℕ → PortMap → Bool
port_is_valid n port m = elim (entry_at m n port) [ none ↦ false | some e ↦ e.active ]

-- `ndi_sai_port_id_get`; the caller's pointer may be `NULL`.
unfoldable pub sai_port_id_get : ℕ → ℕ → Bool → PortMap → StdError × Option ℕ
sai_port_id_get n port is_null m =
    if not (port_is_valid n port m) || is_null
    then (std_err npu param 0, none)
    else (elim (entry_at m n port) [ none ↦ (ok, none) | some e ↦ (ok, some e.sai_port) ])

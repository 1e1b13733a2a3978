-- ===== src/PortMap/Startup.antt =====
-- src/nas_ndi_port_map.cpp: how the tables are made when the switch comes up.
use opx_nas_ndi.Base.{
  ℕ, zero, suc, ◌+◌, true, Option, none, some, List, [], ◌∷◌, length, get_elem?, set, resize,
  StdError, ok, std_err, npu, cfg, param, if◌then◌else◌,
}
use opx_nas_ndi.Base.Replies.{reply, failed}
use opx_nas_ndi.NpuDb.{ndi_db_ptr_get, is_null}
use opx_nas_ndi.PortMap.{
  Switch, PortMap, blank, grow, saiport_map_add_entry, port_map_sai_port_add, ndi_max_npu,
}

-- `ndi_max_sai_port_get`
unfoldable pub max_sai_port_get : Switch → ℕ → StdError × ℕ
max_sai_port_get sw n =
    if is_null (ndi_db_ptr_get sw.db n)
    then (std_err npu param 0, 0)
    else (elim (sw.port_number n) [
      | failed st ↦ (std_err npu cfg st, 0)
      | reply max_port ↦ (ok, max_port)
    ])

-- `ndi_sai_port_list_get`
unfoldable pub sai_port_list_get : Switch → ℕ → ℕ → StdError × List ℕ
sai_port_list_get sw n room =
    if is_null (ndi_db_ptr_get sw.db n)
    then (std_err npu param 0, [])
    else (elim (sw.port_list n room) [
      | failed st ↦ (std_err npu cfg st, [])
      | reply ports ↦ (ok, ports)
    ])

-- The loop of `ndi_port_map_tbl_allocate` over the NPUs from `n` on.
unfoldable pub allocate_rows : Switch → ℕ → ℕ → PortMap → Option (StdError × PortMap)
allocate_rows sw zero n m = some (ok, m)
allocate_rows sw (suc rounds) n m =
    let (rc, max_port) = max_sai_port_get sw n in
    elim rc [
      | std_err _ _ _ ↦ some (std_err npu cfg 0, m)
      | ok ↦ elim (get_elem? m.tbl n) [
        | none ↦ none
        | some row ↦
            allocate_rows sw rounds (n + 1)
              (record m { tbl = set m.tbl n (resize max_port blank row) })
      ]
    ]

-- `ndi_port_map_tbl_allocate`
unfoldable pub port_map_tbl_allocate : Switch → PortMap → Option (StdError × PortMap)
unfolding allocate_rows
port_map_tbl_allocate sw m =
    allocate_rows sw ndi_max_npu 0 (record m { tbl = resize ndi_max_npu [] m.tbl })

-- `ndi_sai_cpu_port_add`: an entry that is there already is overwritten. The pointer to the entry of the NPU
-- is followed untested, and `none` is also a null pointer there.
unfoldable pub sai_cpu_port_add : Switch → ℕ → PortMap → Option (StdError × PortMap)
sai_cpu_port_add sw n m =
    let port = sw.cpu_port_id n in
    if is_null (ndi_db_ptr_get sw.db n) then none else (elim (get_elem? m.tbl n) [
      | none ↦ none
      | some row ↦
          let row' = grow port row in
          elim (sw.cpu_port n) [
            | failed st ↦ some (std_err npu cfg st, record m { tbl = set m.tbl n row' })
            | reply oid ↦ elim (get_elem? row' port) [
              | none ↦ none
              | some e ↦ some (
                ok,
                saiport_map_add_entry oid (record { npu_id = n; npu_port = port })
                    (record m {
                      tbl = set m.tbl n (
                          set row' port (record {
                            sai_port = oid;
                            hwport_count = 1;
                            hwport_list = 0 ∷ [];
                            active = true;
                            cpu = true;
                          }));
                    }),
              )
            ]
          ]
    ])

-- The loop over the SAI ports: the first failure ends it.
unfoldable pub add_ports : Switch → ℕ → List ℕ → PortMap → Option (StdError × PortMap)
add_ports sw n [] m = some (ok, m)
add_ports sw n (p ∷ ports) m = elim (port_map_sai_port_add sw n p none m) [
  | none ↦ none
  | some (rc, port, m') ↦ elim rc [
    | ok ↦ add_ports sw n ports m'
    | std_err s c st ↦ some (std_err s c st, m')
  ]
]

-- `ndi_per_npu_sai_port_map_update`; the room for the list of ports is the length of the row.
unfoldable pub per_npu_sai_port_map_update : Switch → ℕ → PortMap → Option (StdError × PortMap)
per_npu_sai_port_map_update sw n m = elim (get_elem? m.tbl n) [
  | none ↦ none
  | some row ↦ elim (sai_cpu_port_add sw n m) [
    | none ↦ none
    | some (rc, m') ↦ elim rc [
      | std_err s c st ↦ some (std_err s c st, m')
      | ok ↦
          let (rc', ports) = sai_port_list_get sw n (length row) in
          elim rc' [ std_err s c st ↦ some (std_err s c st, m') | ok ↦ add_ports sw n ports m' ]
    ]
  ]
]

-- The loop of `ndi_sai_port_map_create`.
unfoldable pub update_npus : Switch → ℕ → ℕ → PortMap → Option (StdError × PortMap)
update_npus sw zero n m = some (ok, m)
update_npus sw (suc rounds) n m = elim (per_npu_sai_port_map_update sw n m) [
  | none ↦ none
  | some (rc, m') ↦ elim rc [
    | ok ↦ update_npus sw rounds (n + 1) m'
    | std_err s c st ↦ some (std_err s c st, m')
  ]
]

-- `ndi_sai_port_map_create`
unfoldable pub sai_port_map_create : Switch → PortMap → Option (StdError × PortMap)
unfolding port_map_tbl_allocate update_npus
sai_port_map_create sw m = elim (port_map_tbl_allocate sw m) [
  | none ↦ none
  | some (rc, m') ↦ elim rc [
    | ok ↦ update_npus sw ndi_max_npu 0 m'
    | std_err s c st ↦ some (std_err s c st, m')
  ]
]

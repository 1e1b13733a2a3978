-- ===== src/Stg/Ports.antt =====
-- src/nas_ndi_stg.cpp: the operations on groups and their ports. A function that answers `bool` in the
-- code answers a Bool here.
use opx_nas_ndi.Base.{
  ℕ, zero, suc, Bool, true, false, Option, none, some, List, [], ◌∷◌, nat_key, ◌==◌, if◌then◌else◌,
  StdError, ok, std_err, stg, fail, param,
}
use opx_nas_ndi.Base.Replies.{Reply, reply, failed}
use opx_nas_ndi.NpuDb.{ndi_db_ptr_get, ndi_npu_id_get, is_null}
use opx_nas_ndi.PortMap.{sai_port_id_get}
use opx_nas_ndi.Stg.{Stg, StpApi, StgState, SaiStpState, stp_get_sai_state, stp_get_ndi_state}
use opx_nas_ndi.Stg.Cache.{
  sai_null_object_id, stg_get_brport, get_stp_port_id_from_cache, add_port_to_cache,
  del_port_from_cache,
}

module _ {Hw : Type 0} (api : StpApi Hw) where
  -- `ndi_db_ptr == NULL`
  abbrev pub no_db : ℕ → Stg Hw → Bool
  no_db n s = is_null (ndi_db_ptr_get s.db n)

  -- `ndi_stg_create_stp_port`
  unfoldable pub create_stp_port : ℕ → ℕ → SaiStpState → Stg Hw → Bool × Stg Hw
  create_stp_port stg_id brport state s =
      if no_db ndi_npu_id_get s
      then (false, s)
      else (let (r, hw) = api.create_stp_port stg_id brport state s.hw in
          elim r [
            | failed _ ↦ (false, record s { hw = hw })
            | reply stp_port_id ↦
                let (rc, m) = add_port_to_cache stg_id brport stp_port_id s.map in
                elim rc [
                  | ok ↦ (true, record s { map = m; hw = hw })
                  | std_err _ _ _ ↦ (false, record s { map = m; hw = hw })
                ]
          ])

  -- `ndi_stg_set_stp_port_state_internal`
  unfoldable pub set_stp_port_state_internal : ℕ → ℕ → SaiStpState → Stg Hw → StdError × Stg Hw
  set_stp_port_state_internal stg_id brport state s =
      let stp_port_id = get_stp_port_id_from_cache stg_id brport s.map in
      if stp_port_id == sai_null_object_id
      then (let (created, s') = create_stp_port stg_id brport state s in
          (if created then ok else std_err stg fail 0, s'))
      else (let (r, hw) = api.set_stp_port_state stp_port_id state s.hw in
          elim r [
            | failed st ↦ (std_err stg fail st, record s { hw = hw })
            | reply _ ↦ (ok, record s { hw = hw })
          ])

  -- `ndi_stg_create_default_stp_port`
  unfoldable pub create_default_stp_port : ℕ → Stg Hw → Bool × Stg Hw
  create_default_stp_port brport s =
      create_stp_port s.default_stg_id brport SaiStpState.forwarding s

  -- `ndi_stg_get_brport_state`: the answer, and the state when it is written.
  unfoldable pub get_brport_state : ℕ → ℕ → ℕ → Stg Hw → Bool × Option StgState
  get_brport_state n stg_id port s =
      if no_db n s then (false, none) else (elim (stg_get_brport port s.brports) [
        | none ↦ (false, none)
        | some brport ↦
            let stp_port_id = get_stp_port_id_from_cache stg_id brport s.map in
            let state : Reply SaiStpState =
              if stp_port_id == sai_null_object_id
              then reply SaiStpState.blocking
              else api.get_stp_port_state stp_port_id s.hw in
            elim state [
              | failed _ ↦ (false, none)
              | reply st ↦ elim (stp_get_ndi_state st) [
                | none ↦ (false, none)
                | some ndi ↦ (true, some ndi)
              ]
            ]
      ])

  -- `ndi_stg_set_brport_state`: where no bridge port is found, the error code that the code returns
  -- from a function of type `bool` converts to `true`.
  unfoldable pub set_brport_state : ℕ → ℕ → ℕ → StgState → Stg Hw → Bool × Stg Hw
  set_brport_state n stg_id port state s =
      if no_db n s then (false, s) else (elim (stp_get_sai_state state) [
        | none ↦ (false, s)
        | some sai_state ↦ elim (stg_get_brport port s.brports) [
          | none ↦ (true, s)
          | some brport ↦
              let (rc, s') = set_stp_port_state_internal stg_id brport sai_state s in
              elim rc [ ok ↦ (true, s') | std_err _ _ _ ↦ (false, s') ]
        ]
      ])

  -- `ndi_stg_add`: the id of the new group, when it is written.
  unfoldable pub stg_add : ℕ → Stg Hw → StdError × Option ℕ × Stg Hw
  stg_add n s =
      if no_db n s
      then (std_err stg param 0, none, s)
      else (let (r, hw) = api.create_stp s.hw in
          elim r [
            | failed st ↦ (std_err stg fail st, none, record s { hw = hw })
            | reply stp_id ↦ (ok, some stp_id, record s { hw = hw })
          ])

  -- The loop of `ndi_stg_delete_all_stp_ports`.
  unfoldable pub delete_stp_ports : List ℕ → Stg Hw → StdError × Stg Hw
  delete_stp_ports [] s = (ok, s)
  delete_stp_ports (p ∷ ports) s = elim (api.get_stp_port_stp p s.hw) [
    | failed st ↦ (std_err stg fail st, s)
    | reply (stp_id, brport) ↦
        let (r, hw) = api.remove_stp_port p s.hw in
        elim r [
          | failed st ↦ (std_err stg fail st, record s { hw = hw })
          | reply _ ↦
              let (rc, m) = del_port_from_cache stp_id brport s.map in
              elim rc [
                | ok ↦ delete_stp_ports ports (record s { map = m; hw = hw })
                | std_err _ _ _ ↦ (std_err stg fail 0, record s { map = m; hw = hw })
              ]
        ]
  ]

  -- `ndi_stg_delete_all_stp_ports`
  unfoldable pub delete_all_stp_ports : ℕ → Stg Hw → StdError × Stg Hw
  delete_all_stp_ports stg_id s = elim (api.get_stp_port_count stg_id s.hw) [
    | failed st ↦ (std_err stg fail st, s)
    | reply zero ↦ (ok, s)
    | reply (suc more) ↦ elim (api.get_stp_port_list stg_id (suc more) s.hw) [
      | failed st ↦ (std_err stg fail st, s)
      | reply ports ↦ delete_stp_ports ports s
    ]
  ]

  -- `ndi_stg_delete`
  unfoldable pub stg_delete : ℕ → ℕ → Stg Hw → StdError × Stg Hw
  stg_delete n stg_id s =
      if no_db n s
      then (std_err stg param 0, s)
      else (let (rc, s') = delete_all_stp_ports stg_id s in
          elim rc [
            | std_err _ _ _ ↦ (std_err stg fail 0, s')
            | ok ↦
                let (r, hw) = api.remove_stp stg_id s'.hw in
                elim r [
                  | failed st ↦ (std_err stg fail st, record s' { hw = hw })
                  | reply _ ↦ (ok, record s' { hw = hw })
                ]
          ])

  -- `ndi_stg_set_stp_port_state`
  unfoldable pub set_stp_port_state : ℕ → ℕ → ℕ → StgState → Stg Hw → StdError × Stg Hw
  set_stp_port_state n stg_id port_id state s =
      let (rc, port) = sai_port_id_get n port_id false s.ports in
      elim port [
        | none ↦ (std_err stg fail 0, s)
        | some obj_id ↦
            let (done, s') = set_brport_state n stg_id obj_id state s in
            (if done then ok else std_err stg fail 0, s')
      ]

  -- `ndi_stg_get_stp_port_state`
  unfoldable pub get_stp_port_state : ℕ → ℕ → ℕ → Stg Hw → StdError × Option StgState
  get_stp_port_state n stg_id port_id s =
      let (rc, port) = sai_port_id_get n port_id false s.ports in
      elim port [
        | none ↦ (std_err stg fail 0, none)
        | some obj_id ↦
            let (done, state) = get_brport_state n stg_id obj_id s in
            (if done then ok else std_err stg fail 0, state)
      ]

  -- `ndi_stg_set_stp_lag_state`
  unfoldable pub set_stp_lag_state : ℕ → ℕ → ℕ → StgState → Stg Hw → StdError × Stg Hw
  set_stp_lag_state n stg_id lag_id state s =
      let (done, s') = set_brport_state n stg_id lag_id state s in
      (if done then ok else std_err stg fail 0, s')

  -- `ndi_stg_get_stp_lag_state`
  unfoldable pub get_stp_lag_state : ℕ → ℕ → ℕ → Stg Hw → StdError × Option StgState
  get_stp_lag_state n stg_id lag_id s =
      let (done, state) = get_brport_state n stg_id lag_id s in
      (if done then ok else std_err stg fail 0, state)

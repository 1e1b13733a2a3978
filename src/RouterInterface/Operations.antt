-- ===== src/RouterInterface/Operations.antt =====
-- src/nas_ndi_router_interface.c: `ndi_rif_create` and `ndi_rif_delete`. `none` is as in RouterInterface.
use opx_nas_ndi.Base.{
  ℕ, Bool, false, Option, none, some, nat_key, ◌==◌, if◌then◌else◌, StdError, ok, std_err, route,
  fail,
}
use opx_nas_ndi.Base.Replies.{reply, failed}
use opx_nas_ndi.Bridge.{hw_of, without_db}
use opx_nas_ndi.Bridge.Members.{router_bridge_port_add_1d, router_bridge_port_delete_1d}
use opx_nas_ndi.PortMap.{sai_port_id_get}
use opx_nas_ndi.RifCache.{Attachment, RifOp, create_rif, delete_rif, get_rif_id, rif_ref}
use opx_nas_ndi.Vlan.{get_sai_vlan_obj_id}
use opx_nas_ndi.RouterInterface.{
  RifRequest, RifOwner, RifApi, Rifs, new_attrs, is_bridge, rifs_on_hw, update_attribute,
}

module _ {Hw : Type 0} (api : RifApi Hw) where
  -- The owner by the type of the interface; `stray` is what the memory holds for a SAI port that is not
  -- found.
  unfoldable pub rif_owner : Attachment → ℕ → ℕ → Rifs Hw → Option RifOwner
  rif_owner (Attachment.port n p) npu_id stray s =
      elim (sai_port_id_get n p false s.bridges.vlans.shared.ports).1 [
        | none ↦ some (RifOwner.sai_port stray)
        | some port ↦ some (RifOwner.sai_port port)
      ]
  rif_owner (Attachment.lag l) npu_id stray s = some (RifOwner.sai_port l)
  rif_owner (Attachment.vlan v) npu_id stray s =
      some (RifOwner.vlan_object (get_sai_vlan_obj_id v s.bridges.vlans))
  rif_owner (Attachment.bridge b) npu_id stray s = some RifOwner.bridge
  rif_owner (Attachment.unlisted u) npu_id stray s = none

  -- `ndi_rif_delete`: the answer is `STD_ERR_OK` wherever the end is reached. `stray` is what the memory
  -- holds for the field that `ndi_delete_bridge_port` does not set.
  unfoldable pub rif_delete : ℕ → ℕ → ℕ → Rifs Hw → Option (StdError × Rifs Hw)
  rif_delete npu_id rif_id stray s =
      if without_db npu_id s.bridges
      then none
      else (let (_, count, c) = rif_ref rif_id RifOp.get_op s.cache in
          let s1 = record s { cache = c } in
          let drop = λ (t : Rifs Hw). record t { cache = (delete_rif rif_id t.cache).1 } in
          let last : Bool = elim count [ none ↦ false | some n ↦ n == 1 ] in
          if last
          then (let (rc, b) =
                router_bridge_port_delete_1d api.bridge npu_id rif_id stray s1.bridges in
              let s2 = record s1 { bridges = b } in
              elim rc [
                | std_err _ _ _ ↦ some (std_err route fail api.bridge.status_failure, s2)
                | ok ↦
                    let (r, hw) = api.remove_router_interface rif_id (hw_of s2.bridges) in
                    elim r [
                      | failed _ ↦ some (ok, rifs_on_hw api hw s2)
                      | reply _ ↦ some (ok, drop (rifs_on_hw api hw s2))
                    ]
              ])
          else some (ok, drop s1))

  -- `ndi_rif_create` for a request whose key is in the cache, with the id that is there.
  unfoldable pub reuse :
      ℕ → RifRequest → ℕ → Rifs Hw → Option (Option (StdError × Option ℕ × Rifs Hw))
  unfolding update_attribute
  reuse rounds e id s =
      if e.entry.is_virtual
      then some (some (std_err route fail 0, none, s))
      else elim (update_attribute api rounds e id s) [
        | none ↦ none
        | some none ↦ some none
        | some (some (std_err a c st, s')) ↦ some (some (std_err a c st, none, s'))
        | some (some (ok, s')) ↦
            let (_, _, c) = rif_ref id RifOp.inc_op s'.cache in
            some (some (ok, some id, record s' { cache = c }))
      ]

  -- The end of `ndi_rif_create`: the cache gets the interface that SAI has made.
  unfoldable pub enter_rif : RifRequest → ℕ → Rifs Hw → Option (StdError × Option ℕ × Rifs Hw)
  unfolding create_rif
  enter_rif e id s = elim (create_rif (record e.entry { rif_id = id }) s.cache) [
    | none ↦ none
    | some (_, c) ↦ some (ok, some id, record s { cache = c })
  ]

  -- `ndi_rif_create` after SAI has made the interface: the bridge port of an interface on a bridge, with the
  -- removal of the interface where there is none.
  unfoldable pub join_bridge : RifRequest → ℕ → Rifs Hw → Option (StdError × Option ℕ × Rifs Hw)
  unfolding enter_rif
  join_bridge e id s = elim (is_bridge e.entry.attachment) [
    | none ↦ enter_rif e id s
    | some br ↦
        if e.entry.is_virtual
        then enter_rif e id s
        else (let (rc, _, b) =
              router_bridge_port_add_1d api.bridge e.entry.npu_id br id s.bridges in
            let s1 = record s { bridges = b } in
            elim rc [
              | ok ↦ enter_rif e id s1
              | std_err _ _ _ ↦
                  let (r, hw) = api.remove_router_interface id (hw_of s1.bridges) in
                  elim r [
                    | failed st ↦ some (std_err route fail st, some id, rifs_on_hw api hw s1)
                    | reply _ ↦ some (
                      std_err route fail api.bridge.status_success,
                      some id,
                      rifs_on_hw api hw s1,
                    )
                  ]
            ])
  ]

  -- `ndi_rif_create` for a request whose key is not in the cache.
  unfoldable pub make_rif : RifRequest → ℕ → Rifs Hw → Option (StdError × Option ℕ × Rifs Hw)
  unfolding join_bridge
  make_rif e stray s = elim (rif_owner e.entry.attachment e.entry.npu_id stray s) [
    | none ↦ some (std_err route fail 0, none, s)
    | some owner ↦
        let (r, hw) =
          api.create_router_interface e.entry.vrf_id owner (new_attrs e) (hw_of s.bridges) in
        elim r [
          | failed st ↦ some (std_err route fail st, none, rifs_on_hw api hw s)
          | reply id ↦ join_bridge e id (rifs_on_hw api hw s)
        ]
  ]

  -- `ndi_rif_create`: the answer, the id that is written, and the state. The rounds are those of the loop of
  -- `update_attribute`.
  unfoldable pub rif_create :
      ℕ → RifRequest → ℕ → Rifs Hw → Option (Option (StdError × Option ℕ × Rifs Hw))
  unfolding reuse make_rif
  rif_create rounds e stray s =
      if without_db e.entry.npu_id s.bridges
      then some none
      else (elim (get_rif_id e.entry s.cache).1 [
        | some id ↦ reuse rounds e id s
        | none ↦ some (make_rif e stray s)
      ])

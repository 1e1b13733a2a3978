-- ===== src/PortMap/RoundTrip.antt =====
-- A SAI port that is added with its hardware ports, looked up and deleted.
use opx_nas_ndi.Base.{
  ℕ, ◌≡◌, true, false, none, some, List, ◌∷◌, arith, nat_key, ok, std_err, npu, fail,
}
use opx_nas_ndi.Base.Table.{find}
use opx_nas_ndi.PortMap.{
  PortMap, SaiportEntry, Switch, add_with, npu_port_id_get, sai_port_id_get, port_is_valid,
  port_map_sai_port_add, port_map_sai_port_delete,
}
use opx_nas_ndi.PortMap.Active.{active_at, sai_port_id_get_lem, port_is_valid_lem}
use opx_nas_ndi.PortMap.Addition.{answer, map_after, HasRow, add_with_free}
use opx_nas_ndi.PortMap.Consistency.{IsConsistent, add_with-IsConsistent}
use opx_nas_ndi.PortMap.Deletion.{port_map_sai_port_delete_lem}

module _ (sw : Switch) (n s h : ℕ) (hs : List ℕ) (m : PortMap) (r : HasRow m n)
    (free : active_at m n h ≡ none) where
  abbrev added : PortMap
  added = map_after m (port_map_sai_port_add sw n s (some (h ∷ hs)) m)

  -- A SAI port whose first hardware port is not in use is added under that number, and the queries
  -- in both directions answer it.
  pub port_map_sai_port_add_lem :
      (answer (port_map_sai_port_add sw n s (some (h ∷ hs)) m) ≡ some (ok, some h))
      × (port_is_valid n h added ≡ true)
      × (sai_port_id_get n h false added ≡ (ok, some s))
      × (npu_port_id_get s added ≡ (ok, some (record { npu_id = n; npu_port = h })))
  unfolding port_map_sai_port_add npu_port_id_get
  port_map_sai_port_add_lem =
      let (cpu, rc, entry, back) = add_with_free n s (h ∷ hs) m r n h s free in
      let m' = map_after m (add_with n s (h ∷ hs) m) in
      (
        rc,
        ground (arith, entry, port_is_valid_lem n h m'),
        ground (arith, entry, sai_port_id_get_lem n h m'),
        ground (arith, back),
      )

  -- Deleted again, in a consistent map in which it was not mapped, it hands back the same NDI port;
  -- that port is no longer valid and the SAI port no longer found.
  pub port_map_sai_port_delete-add :
      IsConsistent m
      → find m.saiport s ≡ none
      → let (rc, port, m') = port_map_sai_port_delete s added in
        (rc ≡ ok)
        × (port ≡ some h)
        × (port_is_valid n h m' ≡ false)
        × (npu_port_id_get s m' ≡ (std_err npu fail 0, none))
  unfolding port_map_sai_port_add npu_port_id_get
  port_map_sai_port_delete-add c fresh =
      let c' = add_with-IsConsistent n s (h ∷ hs) m r c fresh in
      let (cpu, rc, entry, back) = add_with_free n s (h ∷ hs) m r n h s free in
      let m' = map_after m (add_with n s (h ∷ hs) m) in
      let x : SaiportEntry = record { npu_id = n; npu_port = h } in
      let mapped : find m'.saiport s ≡ some x = ground (arith, back) in
      let (ok_rc, port, gone, unmapped) = port_map_sai_port_delete_lem m' s x n h s c' mapped in
      (
        ok_rc,
        port,
        ground (arith, gone, port_is_valid_lem n h (port_map_sai_port_delete s m').2),
        ground (arith, unmapped),
      )

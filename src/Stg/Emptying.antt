-- ===== src/Stg/Emptying.antt =====
-- src/nas_ndi_stg.cpp, `ndi_stg_delete_port_stp_ports`: the STP ports of a bridge port are removed.
use opx_nas_ndi.Base.{
  ℕ, suc, ◌≡◌, refl, inl, inr, true, false, some, List, [], ◌∷◌, arith, nat_key, any, keep, length,
  resize, length-resize, ok, Option-cases,
}
use opx_nas_ndi.Base.Replies.{Reply, reply, failed}
use opx_nas_ndi.Base.Table.{find}
use opx_nas_ndi.NdiMap.{MapData, NdiMap, map_key_test, map_get_val_count}
use opx_nas_ndi.NdiMap.Reading.{map_get-map_get_val_count}
use opx_nas_ndi.Stg.{Stg, StpApi}
use opx_nas_ndi.Stg.Agreement.{has_pair, IsIndexed}
use opx_nas_ndi.Stg.Bulk.{remove_stp_ports, delete_counted, delete_port_stp_ports}
use opx_nas_ndi.Stg.Cache.{
  null_data, stp_port_key, port_stps_key, get_stp_port_id_from_cache, del_port_from_cache,
}
use opx_nas_ndi.Stg.Index.{has_port, not_port, stps_of, get_stp_port_id_from_cache_lem}
use opx_nas_ndi.Stg.Ports.{no_db}
use opx_nas_ndi.Stg.Removal.{del_port_from_cache-IsIndexed, stps_of-del}

keep-all : (p : ℕ) (l : List MapData) → any (has_port p) l ≡ false → keep (not_port p) l ≡ l
keep-all p [] h = refl
keep-all p (d ∷ l) h = ground (arith, h, keep-all p l)

-- The first pair of a bridge port is what the cache answers for its group, so its deletion leaves the
-- rest of the list.
first_deleted :
    (br : ℕ) (m : NdiMap) (d : MapData) (ds : List MapData)
    → IsIndexed m
    → stps_of m br ≡ d ∷ ds
    → stps_of (del_port_from_cache d.val2 br m).1 br ≡ ds
first_deleted br m d ds ix h =
    let there : any (has_pair d.val1 d.val2) (stps_of m br) ≡ true = ground (arith, h) in
    let back = ix.back br d.val1 d.val2 there in
    let answered : get_stp_port_id_from_cache d.val2 br m ≡ d.val1 =
      ground (arith, back, get_stp_port_id_from_cache_lem d.val2 br m) in
    ground (arith, h, answered, stps_of-del d.val2 br m br, keep-all d.val1 ds, ix.distinct br)

-- A bridge port with no STP port answers none in any group.
unanswered :
    (t br : ℕ) (m : NdiMap)
    → IsIndexed m
    → stps_of m br ≡ []
    → get_stp_port_id_from_cache t br m ≡ 0
unanswered t br m ix h = elim (Option-cases (find m (stp_port_key t br))) [
  | inl e ↦ ground (arith, e, get_stp_port_id_from_cache_lem t br m)
  | inr (l, e) ↦ absurd (ground (arith, h, (ix.single t br l e).2))
]

module _ {Hw : Type 0} (api : StpApi Hw) where
  remove_stp_ports-IsIndexed :
      (br : ℕ) (ds : List MapData) (s : Stg Hw)
      → IsIndexed s.map
      → IsIndexed (remove_stp_ports api br ds s).map
  unfolding remove_stp_ports
  remove_stp_ports-IsIndexed br [] s ix = ix
  remove_stp_ports-IsIndexed br (d ∷ ds) s ix =
      let hw' = (api.remove_stp_port d.val1 s.hw).1 in
      let deleted = (del_port_from_cache d.val2 br s.map).1 in
      by_reply _ _ (remove_stp_ports-IsIndexed br ds (record s { hw = hw' }) ix)
        (remove_stp_ports-IsIndexed br ds (record s { map = deleted; hw = hw' })
          (del_port_from_cache-IsIndexed d.val2 br s.map ix))
        (api.remove_stp_port d.val1 s.hw).0
    where
      by_reply :
          (a b : Stg Hw)
          → IsIndexed a.map
          → IsIndexed b.map
          → (r : Reply (Unit {0}))
          → IsIndexed (elim r as (λ _. Stg Hw) [ failed _ ↦ a | reply _ ↦ b ]).map
      by_reply a b kept removed (failed x) = kept
      by_reply a b kept removed (reply x) = removed

  remove_stp_ports-empty :
      (br : ℕ) (ds : List MapData) (s : Stg Hw)
      → ((p : ℕ) (hw : Hw) → (api.remove_stp_port p hw).0 ≡ reply tt)
      → IsIndexed s.map
      → stps_of s.map br ≡ ds
      → stps_of (remove_stp_ports api br ds s).map br ≡ []
  unfolding remove_stp_ports
  remove_stp_ports-empty br [] s removes ix h = h
  remove_stp_ports-empty br (d ∷ ds) s removes ix h =
      rw (remove_stp_ports, removes d.val1 s.hw)
        (remove_stp_ports-empty br ds
          (record s {
            map = (del_port_from_cache d.val2 br s.map).1;
            hw = (api.remove_stp_port d.val1 s.hw).1;
          })
          removes (del_port_from_cache-IsIndexed d.val2 br s.map ix)
          (first_deleted br s.map d ds ix h))

  delete_port_stp_ports-pairs :
      (n br : ℕ) (s : Stg Hw)
      → no_db api n s ≡ false
      → delete_port_stp_ports api n br s ≡ (ok, remove_stp_ports api br (stps_of s.map br) s)
  unfolding delete_port_stp_ports delete_counted remove_stp_ports map_get_val_count
  delete_port_stp_ports-pairs n br s db = elim (Option-cases (find s.map (port_stps_key br))) [
    | inl e ↦ ground (arith, e, db)
    | inr (l, e) ↦ by_list l e
  ]
    where
      by_list :
          (l : List MapData)
          → find s.map (port_stps_key br) ≡ some l
          → delete_port_stp_ports api n br s ≡ (ok, remove_stp_ports api br (stps_of s.map br) s)
      by_list [] e = ground (arith, e, db)
      by_list (d ∷ l) e =
          let buffer = resize (suc (length l)) null_data [] in
          let (l', e', got) =
            map_get-map_get_val_count (port_stps_key br) s.map 0 (suc (length l)) buffer
              (ground (arith, e)) (length-resize (suc (length l)) null_data []) in
          ground (arith, e, e', db, got)

  -- Whatever the switch answers, where the NPU has an entry and the two indexes agree, the removal of
  -- the STP ports of a bridge port succeeds and keeps the agreement.
  pub delete_port_stp_ports-IsIndexed :
      (n br : ℕ) (s : Stg Hw)
      → no_db api n s ≡ false
      → IsIndexed s.map
      → let (rc, s') = delete_port_stp_ports api n br s in (rc ≡ ok) × IsIndexed s'.map
  delete_port_stp_ports-IsIndexed n br s db ix =
      rw (delete_port_stp_ports-pairs n br s db)
        (refl, remove_stp_ports-IsIndexed br (stps_of s.map br) s ix)

  -- On a switch that removes every STP port it is asked to remove, where the NPU has an entry and the two
  -- indexes agree, the removal leaves the bridge port with an empty list, and the query answers null for it in every group.
  pub delete_port_stp_ports_lem :
      (n br : ℕ) (s : Stg Hw)
      → ((p : ℕ) (hw : Hw) → (api.remove_stp_port p hw).0 ≡ reply tt)
      → no_db api n s ≡ false
      → IsIndexed s.map
      → let (rc, s') = delete_port_stp_ports api n br s in
        (rc ≡ ok)
        × (stps_of s'.map br ≡ [])
        × ((t : ℕ) → get_stp_port_id_from_cache t br s'.map ≡ 0)
  delete_port_stp_ports_lem n br s removes db ix =
      let empty = remove_stp_ports-empty br (stps_of s.map br) s removes ix refl in
      let after = remove_stp_ports-IsIndexed br (stps_of s.map br) s ix in
      rw (delete_port_stp_ports-pairs n br s db) (
        refl,
        empty,
        λ t. unanswered t br (remove_stp_ports api br (stps_of s.map br) s).map after empty,
      )

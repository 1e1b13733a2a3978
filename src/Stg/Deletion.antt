-- ===== src/Stg/Deletion.antt =====
-- src/nas_ndi_stg.cpp, `ndi_stg_delete`: the deletion of a group with its STP ports keeps the agreement
-- of the two indexes.
use opx_nas_ndi.Base.{ℕ, zero, suc, ◌≡◌, inl, inr, false, List, [], ◌∷◌, arith, nat_key, Bool-cases}
use opx_nas_ndi.Base.Replies.{Reply-cases}
use mathlib.Core.Path.{subst, sym}
use opx_nas_ndi.Stg.{Stg, StpApi}
use opx_nas_ndi.Stg.Agreement.{IsIndexed}
use opx_nas_ndi.Stg.Bulk.{delete_port_stp_ports}
use opx_nas_ndi.Stg.Emptying.{delete_port_stp_ports-IsIndexed}
use opx_nas_ndi.Stg.Cache.{port_stps_key, del_port_from_cache}
use opx_nas_ndi.Stg.Index.{del_port_from_cache_lem}
use opx_nas_ndi.Stg.Ports.{no_db, delete_stp_ports, delete_all_stp_ports, stg_delete}
use opx_nas_ndi.Stg.Removal.{del_port_from_cache-IsIndexed}

module _ {Hw : Type 0} (api : StpApi Hw) where
  delete_stp_ports-IsIndexed :
      (ports : List ℕ) (s : Stg Hw)
      → IsIndexed s.map
      → IsIndexed (delete_stp_ports api ports s).1.map
  unfolding delete_stp_ports
  delete_stp_ports-IsIndexed [] s ix = ix
  delete_stp_ports-IsIndexed (p ∷ ports) s ix = elim (Reply-cases (api.get_stp_port_stp p s.hw)) [
    | inr (st, e) ↦ rw (delete_stp_ports, e) ix
    | inl ((stp, br), e) ↦ elim (Reply-cases (api.remove_stp_port p s.hw).0) [
      | inr (st, f) ↦ rw (delete_stp_ports, e, f) ix
      | inl (x, f) ↦
          let m' = (del_port_from_cache stp br s.map).1 in
          let hw' = (api.remove_stp_port p s.hw).1 in
          rw (delete_stp_ports, e, f, (del_port_from_cache_lem stp br s.map (port_stps_key br)).0)
            (delete_stp_ports-IsIndexed ports (record s { map = m'; hw = hw' })
              (del_port_from_cache-IsIndexed stp br s.map ix))
    ]
  ]

  delete_all_stp_ports-IsIndexed :
      (stg_id : ℕ) (s : Stg Hw)
      → IsIndexed s.map
      → IsIndexed (delete_all_stp_ports api stg_id s).1.map
  unfolding delete_all_stp_ports
  delete_all_stp_ports-IsIndexed stg_id s ix =
      elim (Reply-cases (api.get_stp_port_count stg_id s.hw)) [
        | inr (st, e) ↦ rw (delete_all_stp_ports, e) ix
        | inl (zero, e) ↦ rw (delete_all_stp_ports, e) ix
        | inl (suc more, e) ↦ elim (Reply-cases (api.get_stp_port_list stg_id (suc more) s.hw)) [
          | inr (st, f) ↦ rw (delete_all_stp_ports, e, f) ix
          | inl (ports, f) ↦ rw (delete_all_stp_ports, e, f) (delete_stp_ports-IsIndexed ports s ix)
        ]
      ]

  -- On any switch, where the two indexes agree they agree after the deletion of a group and after the
  -- removal of the STP ports of a bridge port, whatever these answer.
  pub stg_delete-IsIndexed :
      (n stg_id br : ℕ) (s : Stg Hw)
      → IsIndexed s.map
      → IsIndexed (stg_delete api n stg_id s).1.map
        × IsIndexed (delete_port_stp_ports api n br s).1.map
  unfolding stg_delete delete_port_stp_ports
  stg_delete-IsIndexed n stg_id br s ix =
      let kept = delete_all_stp_ports-IsIndexed stg_id s ix in
      elim (Bool-cases (no_db api n s)) [
        | inl e ↦ (rw (stg_delete, e) ix, rw (delete_port_stp_ports, e) ix)
        | inr e ↦ (by_answer e kept, (delete_port_stp_ports-IsIndexed api n br s e ix).1)
      ]
    where
      by_answer :
          no_db api n s ≡ false
          → IsIndexed (delete_all_stp_ports api stg_id s).1.map
          → IsIndexed (stg_delete api n stg_id s).1.map
      by_answer e kept =
          let s' = (delete_all_stp_ports api stg_id s).1 in
          let same : (stg_delete api n stg_id s).1.map ≡ s'.map = ground (arith, e) in
          subst IsIndexed (sym same) kept

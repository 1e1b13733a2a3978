-- ===== src/Stg/Lookup.antt =====
-- src/nas_ndi_stg.cpp: what the cache of STP ports answers after an addition or a deletion.
use opx_nas_ndi.Base.{
  ℕ, ◌≡◌, ◌&&◌, none, some, List, [], ◌∷◌, arith, nat_key, ◌==◌, if◌then◌else◌, ok, std_err, stg,
  fail,
}
use opx_nas_ndi.Base.Table.{find}
use opx_nas_ndi.NdiMap.{MapData, NdiMap, map_key_test}
use opx_nas_ndi.Stg.{Stg, StpApi, SaiStpState}
use opx_nas_ndi.Stg.Cache.{
  stp_port_key, get_stp_port_id_from_cache, add_port_to_cache, del_port_from_cache,
}
use opx_nas_ndi.Stg.Index.{
  get_stp_port_id_from_cache_lem, add_port_to_cache_lem, del_port_from_cache_lem,
}
use opx_nas_ndi.Stg.Ports.{create_stp_port, set_stp_port_state_internal}

-- After the addition of an STP port for a group and a bridge port that have none, the query answers it
-- for that group and bridge port, and for every other pair what it answered before.
pub get_stp_port_id_from_cache-add :
    (stp br p : ℕ) (m : NdiMap)
    → find m (stp_port_key stp br) ≡ none
    → (t b : ℕ)
    → get_stp_port_id_from_cache t b (add_port_to_cache stp br p m).1
      ≡ (if (stp == t) && (br == b) then p else get_stp_port_id_from_cache t b m)
get_stp_port_id_from_cache-add stp br p m absent t b =
    let m' = (add_port_to_cache stp br p m).1 in
    ground (
      arith,
      absent,
      get_stp_port_id_from_cache_lem t b m',
      get_stp_port_id_from_cache_lem t b m,
      add_port_to_cache_lem stp br p m (stp_port_key t b),
    )

-- After a deletion the query answers null for that group and bridge port, and for every other pair what
-- it answered before.
pub get_stp_port_id_from_cache-del :
    (stp br : ℕ) (m : NdiMap) (t b : ℕ)
    → get_stp_port_id_from_cache t b (del_port_from_cache stp br m).1
      ≡ (if (stp == t) && (br == b) then 0 else get_stp_port_id_from_cache t b m)
get_stp_port_id_from_cache-del stp br m t b =
    let m' = (del_port_from_cache stp br m).1 in
    ground (
      arith,
      get_stp_port_id_from_cache_lem t b m',
      get_stp_port_id_from_cache_lem t b m,
      del_port_from_cache_lem stp br m (stp_port_key t b),
    )

-- A second addition for a group and a bridge port that have an STP port makes the query answer null, as
-- its buffer has room for one pair; a state set afterwards creates another STP port.
pub set_stp_port_state_internal-add_again :
    {Hw : Type 0} (api : StpApi Hw) (stp br p : ℕ) (d : MapData) (ds : List MapData)
    (state : SaiStpState) (s : Stg Hw)
    → find s.map (stp_port_key stp br) ≡ some (d ∷ ds)
    → let s' = record s { map = (add_port_to_cache stp br p s.map).1 } in
      (get_stp_port_id_from_cache stp br s'.map ≡ 0)
      × (set_stp_port_state_internal api stp br state s' ≡ (
          let (created, s'') = create_stp_port api stp br state s' in
          (if created then ok else std_err stg fail 0, s'')))
unfolding set_stp_port_state_internal
set_stp_port_state_internal-add_again api stp br p d ds state s h =
    let m' = (add_port_to_cache stp br p s.map).1 in
    let null : get_stp_port_id_from_cache stp br m' ≡ 0 = by_rest ds h in
    (null, ground (arith, null))
  where
    by_rest :
        (l : List MapData)
        → find s.map (stp_port_key stp br) ≡ some (d ∷ l)
        → get_stp_port_id_from_cache stp br (add_port_to_cache stp br p s.map).1 ≡ 0
    by_rest [] e = ground (
      arith,
      e,
      get_stp_port_id_from_cache_lem stp br (add_port_to_cache stp br p s.map).1,
      add_port_to_cache_lem stp br p s.map (stp_port_key stp br),
    )
    by_rest (d' ∷ l) e = ground (
      arith,
      e,
      get_stp_port_id_from_cache_lem stp br (add_port_to_cache stp br p s.map).1,
      add_port_to_cache_lem stp br p s.map (stp_port_key stp br),
    )

-- ===== src/Stg/States.antt =====
-- src/nas_ndi_stg.cpp: the state of an STP port that is set is the state that is read back.
use opx_nas_ndi.Base.{
  ℕ, ◌≡◌, ◌≢◌, inl, inr, true, false, none, some, arith, nat_key, ◌==◌, ok, std_err, stg, fail,
  Option-cases, Bool-cases,
}
use opx_nas_ndi.Base.Replies.{reply, Reply-cases}
use opx_nas_ndi.Base.Table.{find}
use opx_nas_ndi.NpuDb.{ndi_npu_id_get}
use opx_nas_ndi.NdiMap.{NdiMap, map_key_test}
use opx_nas_ndi.Stg.{Stg, StpApi, StgState, SaiStpState, stp_get_sai_state, stp_get_ndi_state}
use opx_nas_ndi.Stg.Agreement.{IsIndexed}
use opx_nas_ndi.Stg.Cache.{
  stp_port_key, stg_get_brport, get_stp_port_id_from_cache, add_port_to_cache,
}
use opx_nas_ndi.Stg.Lookup.{get_stp_port_id_from_cache-add}
use opx_nas_ndi.Stg.Index.{get_stp_port_id_from_cache_lem, add_port_to_cache_lem}
use opx_nas_ndi.Stg.Ports.{
  no_db, create_stp_port, set_stp_port_state_internal, get_brport_state, set_brport_state,
  set_stp_lag_state, get_stp_lag_state,
}

-- A switch that keeps the state of an STP port: the state given at the creation or set later is the
-- one that it reports, and no STP port has the null id.
pub record KeepsState {Hw : Type 0} (api : StpApi Hw) : Type 0 where
  pub created :
      (stg_id brport : ℕ) (state : SaiStpState) (hw : Hw) (p : ℕ)
      → (api.create_stp_port stg_id brport state hw).0 ≡ reply p
      → (api.get_stp_port_state p (api.create_stp_port stg_id brport state hw).1 ≡ reply state)
        × (p ≢ 0)
  pub changed :
      (p : ℕ) (state : SaiStpState) (hw : Hw)
      → (api.set_stp_port_state p state hw).0 ≡ reply tt
      → api.get_stp_port_state p (api.set_stp_port_state p state hw).1 ≡ reply state

-- The state that is read back: `disabled` and `listening` are blocking on the switch.
abbrev pub on_switch : StgState → StgState
on_switch StgState.disabled = StgState.blocking
on_switch StgState.learning = StgState.learning
on_switch StgState.forwarding = StgState.forwarding
on_switch StgState.blocking = StgState.blocking
on_switch StgState.listening = StgState.blocking
on_switch StgState.unlisted = StgState.unlisted

tables :
    (state : StgState) (sai : SaiStpState)
    → stp_get_sai_state state ≡ some sai
    → stp_get_ndi_state sai ≡ some (on_switch state)
unfolding stp_get_sai_state stp_get_ndi_state
tables StgState.disabled sai h = ground (arith, h)
tables StgState.learning sai h = ground (arith, h)
tables StgState.forwarding sai h = ground (arith, h)
tables StgState.blocking sai h = ground (arith, h)
tables StgState.listening sai h = ground (arith, h)
tables StgState.unlisted sai h = ground (arith, h)

-- An agreeing cache answers null only for a key that is absent.
null_absent :
    (stp br : ℕ) (m : NdiMap)
    → IsIndexed m
    → get_stp_port_id_from_cache stp br m ≡ 0
    → find m (stp_port_key stp br) ≡ none
null_absent stp br m ix h = elim (Option-cases (find m (stp_port_key stp br))) [
  | inl e ↦ e
  | inr (l, e) ↦
      let (q, one, there) = ix.single stp br l e in
      absurd (
        ground
          (arith, h, e, one, (ix.back br q stp there).1, get_stp_port_id_from_cache_lem stp br m))
]

module _ {Hw : Type 0} (api : StpApi Hw) where
  -- An STP port that is created answers the query from then on.
  create_stp_port-answers :
      (stg_id br : ℕ) (state : SaiStpState) (s : Stg Hw)
      → KeepsState api
      → find s.map (stp_port_key stg_id br) ≡ none
      → let (done, s') = create_stp_port api stg_id br state s in
        done ≡ true
        → let p = get_stp_port_id_from_cache stg_id br s'.map in
          (p ≢ 0) × (api.get_stp_port_state p s'.hw ≡ reply state)
  unfolding create_stp_port
  create_stp_port-answers stg_id br state s keeps absent h =
      elim (Bool-cases (no_db api ndi_npu_id_get s)) [
        | inl e ↦ absurd (ground (arith, h, e))
        | inr e ↦ elim (Reply-cases (api.create_stp_port stg_id br state s.hw).0) [
          | inr (n, f) ↦ absurd (ground (arith, h, e, f))
          | inl (p, f) ↦
              let m' = (add_port_to_cache stg_id br p s.map).1 in
              let made = keeps.created stg_id br state s.hw p f in
              let added = add_port_to_cache_lem stg_id br p s.map (stp_port_key stg_id br) in
              let found : get_stp_port_id_from_cache stg_id br m' ≡ p =
                ground (arith, get_stp_port_id_from_cache-add stg_id br p s.map absent stg_id br) in
              ground (arith, h, e, f, made, added.0, found)
        ]
      ]

  set_stp_port_state_internal-answers :
      (stg_id br : ℕ) (state : SaiStpState) (s : Stg Hw)
      → KeepsState api
      → IsIndexed s.map
      → let (rc, s') = set_stp_port_state_internal api stg_id br state s in
        rc ≡ ok
        → let p = get_stp_port_id_from_cache stg_id br s'.map in
          (p ≢ 0) × (api.get_stp_port_state p s'.hw ≡ reply state)
  unfolding set_stp_port_state_internal
  set_stp_port_state_internal-answers stg_id br state s keeps ix h =
      let p = get_stp_port_id_from_cache stg_id br s.map in
      elim (Bool-cases (p == 0)) [
        | inl e ↦
            let absent = null_absent stg_id br s.map ix (ground (arith, e)) in
            ground (arith, h, e, create_stp_port-answers stg_id br state s keeps absent)
        | inr e ↦ elim (Reply-cases (api.set_stp_port_state p state s.hw).0) [
          | inr (n, f) ↦ absurd (ground (arith, h, e, f))
          | inl (x, f) ↦ ground (arith, h, e, f, keeps.changed p state s.hw)
        ]
      ]

  -- The bridge port cache, the table of NPUs and the port map are not written.
  set_stp_port_state_internal-others :
      (stg_id br : ℕ) (state : SaiStpState) (s : Stg Hw)
      → let s' = (set_stp_port_state_internal api stg_id br state s).1 in
        (s'.brports ≡ s.brports) × (s'.db ≡ s.db)
  unfolding set_stp_port_state_internal create_stp_port
  set_stp_port_state_internal-others stg_id br state s = ground arith

  -- On a switch that keeps states, with an agreeing cache and a bridge port for the LAG, a state that is
  -- set with success is read back with success: blocking for disabled and listening, itself otherwise.
  pub get_stp_lag_state-set :
      (n stg_id lag br : ℕ) (state : StgState) (s : Stg Hw)
      → KeepsState api
      → IsIndexed s.map
      → stg_get_brport lag s.brports ≡ some br
      → let (rc, s') = set_stp_lag_state api n stg_id lag state s in
        rc ≡ ok → get_stp_lag_state api n stg_id lag s' ≡ (ok, some (on_switch state))
  unfolding set_stp_lag_state get_stp_lag_state set_brport_state get_brport_state
  get_stp_lag_state-set n stg_id lag br state s keeps ix known h =
      elim (Bool-cases (no_db api n s)) [
        | inl e ↦ absurd (ground (arith, h, e))
        | inr e ↦ elim (Option-cases (stp_get_sai_state state)) [
          | inl f ↦ absurd (ground (arith, h, e, f))
          | inr (sai, f) ↦ ground (
            arith,
            h,
            e,
            f,
            known,
            tables state sai f,
            set_stp_port_state_internal-answers stg_id br sai s keeps ix,
            set_stp_port_state_internal-others stg_id br sai s,
          )
        ]
      ]

  -- Where the NPU has an entry and no bridge port is found for the LAG, setting a state that has a SAI
  -- state answers success and changes nothing, while reading the state answers failure.
  pub set_stp_lag_state_unknown :
      (n stg_id lag : ℕ) (state : StgState) (sai : SaiStpState) (s : Stg Hw)
      → no_db api n s ≡ false
      → stp_get_sai_state state ≡ some sai
      → stg_get_brport lag s.brports ≡ none
      → (set_stp_lag_state api n stg_id lag state s ≡ (ok, s))
        × (get_stp_lag_state api n stg_id lag s ≡ (std_err stg fail 0, none))
  unfolding set_stp_lag_state get_stp_lag_state set_brport_state get_brport_state
  set_stp_lag_state_unknown n stg_id lag state sai s db known unknown =
      (ground (arith, db, known, unknown), ground (arith, db, unknown))

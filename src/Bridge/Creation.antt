-- ===== src/Bridge/Creation.antt =====
-- src/nas_ndi_bridge.cpp, `ndi_create_bridge_port`: what it does to the bridge port cache.
use opx_nas_ndi.Base.{
  ℕ, ◌≡◌, ◌≢◌, ◌+◌, refl, inl, inr, ◌⊎◌, StdError-cases, Bool, true, false, Option, none, some,
  List, arith, nat_key, ltb, length, if◌then◌else◌, Option-cases, Bool-cases, StdError, ok, std_err,
  npu, cfg,
}
use opx_nas_ndi.Base.Replies.{reply, Reply-cases}
use opx_nas_ndi.Bridge.{
  Owner, BrportAttr, BridgeApi, Bridges, hw_of, brports_of, on_hw, with_stg, without_db,
  set_bridge_port_attribute,
}
use opx_nas_ndi.Bridge.Ports.{
  owner_of, attr_idx, sai_attrs_len, ndi2sai_brport_type, enter, join_bridge_1q, bring_up,
  create_bridge_port,
}
use opx_nas_ndi.ObjCache.Brport.{BrportObj, is_port, add_bridge_port}
use opx_nas_ndi.Stg.{Stg, StpApi, SaiStpState}
use opx_nas_ndi.Stg.Cache.{add_port_to_cache}
use opx_nas_ndi.Stg.Ports.{no_db, create_stp_port, create_default_stp_port}
use opx_nas_ndi.NdiMap.{NdiMap}
use opx_nas_ndi.NpuDb.{ndi_npu_id_get}

module _ {Hw : Type 0} (api : StpApi Hw) where
  -- The creation of an STP port changes the pairs and the switch only.
  create_default_stp_port-keeps :
      (brport : ℕ) (g : Stg Hw)
      → (b : Bool) × (m : NdiMap) × (hw : Hw) × (create_default_stp_port api brport g
          ≡ (b, record g { map = m; hw = hw }))
  unfolding create_default_stp_port create_stp_port
  create_default_stp_port-keeps brport g =
      let call = api.create_stp_port g.default_stg_id brport SaiStpState.forwarding g.hw in
      elim (Bool-cases (no_db api ndi_npu_id_get g)) [
        | inl e ↦ (false, g.map, g.hw, ground (arith, e))
        | inr e ↦ elim (Reply-cases call.0) [
          | inr (st, f) ↦ (false, g.map, call.1, ground (arith, e, f))
          | inl (p, f) ↦
              let (rc, m) = add_port_to_cache g.default_stg_id brport p g.map in
              elim (StdError-cases rc) [
                | inl h ↦ (true, m, call.1, ground (arith, e, f, h))
                | inr (a, c, st, h) ↦ (false, m, call.1, ground (arith, e, f, h))
              ]
        ]
      ]

module _ {Hw : Type 0} (api : BridgeApi Hw) where
  -- An attribute that is set changes the switch only.
  pub set_bridge_port_attribute-cases :
      (n brport : ℕ) (attr : BrportAttr) (s : Bridges Hw)
      → (hw : Hw) × ((set_bridge_port_attribute api n brport attr s ≡ (ok, on_hw hw s))
          ⊎ ((st : ℕ) × (set_bridge_port_attribute api n brport attr s
                ≡ (std_err npu cfg st, on_hw hw s))))
  unfolding set_bridge_port_attribute
  set_bridge_port_attribute-cases n brport attr s = elim (Bool-cases (without_db n s)) [
    | inl e ↦ (hw_of s, inr (0, ground (arith, e)))
    | inr e ↦
        let call = api.set_bridge_port_attribute brport attr (hw_of s) in
        elim (Reply-cases call.0) [
          | inl (u, f) ↦ (call.1, inl (ground (arith, e, f)))
          | inr (st, f) ↦ (call.1, inr (st, ground (arith, e, f)))
        ]
  ]

  -- The id with which the switch answers the call to make the bridge port for the owner of its type.
  pub IsGiven : ℕ → BrportObj → List BrportAttr → Bridges Hw → ℕ → Type 0
  IsGiven br obj attrs s oid =
      (owner : Owner) × (owner_of obj obj.brport_type ≡ some owner)
      × ((api.create_bridge_port (ndi2sai_brport_type obj.brport_type) br owner attrs (hw_of s)).0
          ≡ reply oid)

  -- What a creation is to do to what is kept: on success the cache has got the bridge port with an id as
  -- given, which is written but for a port of the 1Q bridge; otherwise the cache is as it was and no id
  -- is written.
  pub record Creates (given : ℕ → Type 0) (obj : BrportObj) (s : Bridges Hw) (rc : StdError)
      (out : Option ℕ) (s' : Bridges Hw) : Type 0 where
    pub created :
        rc ≡ ok
        → (oid : ℕ) × given oid
          × (brports_of s'
              ≡ (add_bridge_port (some (record obj { brport_obj_id = oid })) (brports_of s)).1)
          × (out ≡ (if is_port obj.brport_type then none else some oid))
    pub refused : rc ≢ ok → (brports_of s' ≡ brports_of s) × (out ≡ none)
    pub same_vlans : s'.vlans.vlan_map ≡ s.vlans.vlan_map
    pub same_groups : s'.bcast_l2mc ≡ s.bcast_l2mc

  -- Only the switch or the STP ports have changed.
  fails :
      (given : ℕ → Type 0) (obj : BrportObj) (a : StdError) (s s' : Bridges Hw)
      → a ≢ ok
      → brports_of s' ≡ brports_of s
      → s'.vlans.vlan_map ≡ s.vlans.vlan_map
      → s'.bcast_l2mc ≡ s.bcast_l2mc
      → Creates given obj s a none s'
  fails given obj a s s' h same v g = record {
    created = λ e. absurd (h e);
    refused = λ e. (same, refl);
    same_vlans = v;
    same_groups = g;
  }

  module _ (n : ℕ) (obj : BrportObj) (given : ℕ → Type 0) (oid : ℕ) (is : given oid) where
    -- The port of the 1Q bridge.
    join_bridge_1q-Creates :
        (s : Bridges Hw)
        → is_port obj.brport_type ≡ true
        → let (rc, s') = join_bridge_1q api n (record obj { brport_obj_id = oid }) s in
          Creates given obj s rc none s'
    unfolding join_bridge_1q
    join_bridge_1q-Creates s p =
        let new : BrportObj = record obj { brport_obj_id = oid } in
        let (hw, set) =
          set_bridge_port_attribute-cases n oid (BrportAttr.ingress_filtering true) s in
        let (hw', set') =
          set_bridge_port_attribute-cases n oid (BrportAttr.egress_filtering true) (on_hw hw s) in
        let (b, m, hw'', stp) =
          create_default_stp_port-keeps api.stp oid (on_hw hw' s).vlans.shared in
        elim set [
          | inr (st, e) ↦
              let out : join_bridge_1q api n new s
                  ≡ (std_err npu cfg api.status_failure, on_hw hw s) =
                ground (arith, e) in
              rw (out) (
                fails given obj (std_err npu cfg api.status_failure) s (on_hw hw s)
                  (λ h. ground (arith, h)) refl refl refl)
          | inl e ↦ elim set' [
            | inr (st, f) ↦
                let out : join_bridge_1q api n new s
                    ≡ (std_err npu cfg api.status_failure, on_hw hw' s) =
                  ground (arith, e, f) in
                rw (out) (
                  fails given obj (std_err npu cfg api.status_failure) s (on_hw hw' s)
                    (λ h. ground (arith, h)) refl refl refl)
            | inl f ↦
                let s3 : Bridges Hw =
                  with_stg (record (on_hw hw' s).vlans.shared { map = m; hw = hw'' }) s in
                elim (Bool-cases b) [
                  | inr g ↦
                      let out : join_bridge_1q api n new s ≡ (std_err npu cfg 0, s3) =
                        ground (arith, e, f, stp, g) in
                      rw (out) (
                        fails given obj (std_err npu cfg 0) s s3 (λ h. ground (arith, h)) refl refl
                          refl)
                  | inl g ↦
                      let out : join_bridge_1q api n new s ≡ (ok, enter api new s3) =
                        ground (arith, e, f, stp, g) in
                      rw (out) (record {
                        created = λ h. (oid, is, refl, ground (arith, p));
                        refused = λ h. absurd (h refl);
                        same_vlans = refl;
                        same_groups = refl;
                      })
                ]
          ]
        ]

    bring_up-Creates :
        (s : Bridges Hw)
        → let (rc, out, s') = bring_up api n (record obj { brport_obj_id = oid }) s in
          Creates given obj s rc out s'
    unfolding bring_up
    bring_up-Creates s =
        let new : BrportObj = record obj { brport_obj_id = oid } in
        let (hw, set) = set_bridge_port_attribute-cases n oid (BrportAttr.admin_state true) s in
        let call = api.remove_bridge_port oid hw in
        elim set [
          | inr (st, e) ↦ elim (Reply-cases call.0) [
            | inr (st', f) ↦
                let out : bring_up api n new s ≡ (std_err npu cfg st', none, on_hw call.1 s) =
                  ground (arith, e, f) in
                rw (out) (
                  fails given obj (std_err npu cfg st') s (on_hw call.1 s) (λ h. ground (arith, h))
                    refl refl refl)
            | inl (u, f) ↦
                let out : bring_up api n new s
                    ≡ (std_err npu cfg api.status_success, none, on_hw call.1 s) =
                  ground (arith, e, f) in
                rw (out) (
                  fails given obj (std_err npu cfg api.status_success) s (on_hw call.1 s)
                    (λ h. ground (arith, h)) refl refl refl)
          ]
          | inl e ↦ elim (Bool-cases (is_port obj.brport_type)) [
            | inr p ↦
                let out : bring_up api n new s ≡ (ok, some oid, enter api new (on_hw hw s)) =
                  ground (arith, e, p) in
                rw (out) (record {
                  created = λ h. (oid, is, refl, ground (arith, p));
                  refused = λ h. absurd (h refl);
                  same_vlans = refl;
                  same_groups = refl;
                })
            | inl p ↦
                let (rc, s') = join_bridge_1q api n new (on_hw hw s) in
                let out : bring_up api n new s ≡ (rc, none, s') = ground (arith, e, p) in
                let joins = join_bridge_1q-Creates (on_hw hw s) p in
                rw (out) (record {
                  created = joins.created;
                  refused = joins.refused;
                  same_vlans = joins.same_vlans;
                  same_groups = joins.same_groups;
                })
          ]
        ]

  -- Whatever the switch answers, a creation that succeeds has entered in the bridge port cache the
  -- bridge port with the id in the answer of the switch to the call that makes it for the owner of
  -- its type, and written that id but for a port of the 1Q bridge; one that fails leaves the cache
  -- as it was and writes no id; the VLAN map and the kept groups stay.
  pub create_bridge_port_lem :
      (n br : ℕ) (obj : BrportObj) (attrs : List BrportAttr) (s : Bridges Hw)
      → let (rc, out, s') = create_bridge_port api n br obj attrs s in
        Creates (IsGiven br obj attrs s) obj s rc out s'
  unfolding create_bridge_port IsGiven
  create_bridge_port_lem n br obj attrs s =
      let refuses : (a : StdError) → a ≢ ok → Creates (IsGiven br obj attrs s) obj s a none s =
        λ a h. fails (IsGiven br obj attrs s) obj a s s h refl refl refl in
      elim (Option-cases (owner_of obj obj.brport_type)) [
        | inl e ↦ rw (create_bridge_port, e) (refuses (std_err npu cfg 0) (λ h. ground (arith, h)))
        | inr (owner, e) ↦ elim (Bool-cases (without_db n s)) [
          | inl f ↦
              rw (create_bridge_port, e, f) (refuses (std_err npu cfg 0) (λ h. ground (arith, h)))
          | inr f ↦ elim (Bool-cases (ltb sai_attrs_len (attr_idx owner + length attrs))) [
            | inl g ↦
                rw (create_bridge_port, e, f, g)
                  (refuses (std_err npu cfg 0) (λ h. ground (arith, h)))
            | inr g ↦
                let call =
                  api.create_bridge_port (ndi2sai_brport_type obj.brport_type) br owner attrs
                    (hw_of s) in
                elim (Reply-cases call.0) [
                  | inr (st, h) ↦
                      let out : create_bridge_port api n br obj attrs s
                          ≡ (std_err npu cfg 0, none, on_hw call.1 s) =
                        ground (arith, e, f, g, h) in
                      rw (out) (
                        fails (IsGiven br obj attrs s) obj (std_err npu cfg 0) s (on_hw call.1 s)
                          (λ i. ground (arith, i)) refl refl refl)
                  | inl (oid, h) ↦
                      let (rc, o, s') =
                        bring_up api n (record obj { brport_obj_id = oid }) (on_hw call.1 s) in
                      let out : create_bridge_port api n br obj attrs s ≡ (rc, o, s') =
                        ground (arith, e, f, g, h) in
                      let given : IsGiven br obj attrs s oid = (owner, e, h) in
                      let up =
                        bring_up-Creates n obj (IsGiven br obj attrs s) oid given
                          (on_hw call.1 s) in
                      rw (out) (record {
                        created = up.created;
                        refused = up.refused;
                        same_vlans = up.same_vlans;
                        same_groups = up.same_groups;
                      })
                ]
          ]
        ]
      ]

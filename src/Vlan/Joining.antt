-- ===== src/Vlan/Joining.antt =====
-- src/nas_ndi_vlan.cpp, `ndi_add_port_to_vlan`: what it does to the members that are kept.
use opx_nas_ndi.Base.{
  ℕ, ◌≡◌, ◌≢◌, refl, inl, inr, Bool, false, Option, none, some, arith, nat_key, ◌==◌, Option-cases,
  Bool-cases, StdError, ok, std_err, npu, fail, cfg,
}
use opx_nas_ndi.Base.Replies.{reply, Reply-cases}
use opx_nas_ndi.Base.Table.{find}
use opx_nas_ndi.NdiMap.{MapKey, MapData, map_key_test}
use opx_nas_ndi.Stg.Cache.{stg_get_brport}
use opx_nas_ndi.Vlan.{Vlans, VlanApi, with_hw, with_map, no_db, get_sai_vlan_obj_id}
use opx_nas_ndi.Vlan.Members.{member_key, add_vlan_member_to_cache}
use opx_nas_ndi.Vlan.Membership.{
  IsSingle, MemberAt, member_cases, get_vlan_member_info_from_cache_lem,
  add_vlan_member_to_cache_lem, put-IsSingle,
}
use opx_nas_ndi.Vlan.Ports.{tagging, create_member, change_mode, add_port_to_vlan}

module _ {Hw : Type 0} (api : VlanApi Hw) where
  -- No member has the null id.
  abbrev pub NonNullMembers : Type 0
  NonNullMembers =
      (vlan brport mode : ℕ) (hw : Hw) (p : ℕ)
      → (api.create_vlan_member vlan brport mode hw).0 ≡ reply p
      → p ≢ 0

  -- What an addition of a port in a tagging mode is to do: on success the port is a member in that
  -- mode, on an error the members are as they were, and either way the others are.
  pub record Joins (n v p mode : ℕ) (s : Vlans Hw) (rc : StdError) (s' : Vlans Hw) : Type 0 where
    pub single : IsSingle s'.shared.map
    pub others :
        (j : MapKey) → (member_key n v p == j) ≡ false → find s'.shared.map j ≡ find s.shared.map j
    pub joined :
        rc ≡ ok
        → (d : MapData) × MemberAt n v p s'.shared.map (some d) × (d.val2 ≡ mode) × (d.val1 ≢ 0)
    pub refused : rc ≢ ok → s'.shared.map ≡ s.shared.map
    pub same_db : s'.shared.db ≡ s.shared.db

  -- Nothing is stored.
  unchanged :
      (n v p mode : ℕ) (rc : StdError) (s : Vlans Hw) (hw : Hw)
      → IsSingle s.shared.map
      → rc ≢ ok
      → Joins n v p mode s rc (with_hw hw s)
  unchanged n v p mode rc s hw x h = record {
    single = x;
    others = λ j e. refl;
    joined = λ e. absurd (h e);
    refused = λ e. refl;
    same_db = refl;
  }

  -- A pair is stored.
  stored :
      (n v p member mode : ℕ) (o : Option MapData) (s : Vlans Hw) (hw : Hw)
      → IsSingle s.shared.map
      → MemberAt n v p s.shared.map o
      → ((d : MapData) → o ≡ some d → d.val2 ≢ mode)
      → member ≢ 0
      → let (rc, m) = add_vlan_member_to_cache n v p member mode s.shared.map in
        (rc ≡ ok) × Joins n v p mode s rc (with_map m (with_hw hw s))
  stored n v p member mode o s hw x h differs nonnull =
      let new : MapData = record { val1 = member; val2 = mode } in
      let m' = (add_vlan_member_to_cache n v p member mode s.shared.map).1 in
      let rule =
        λ (j : MapKey). add_vlan_member_to_cache_lem n v p member mode s.shared.map o j h in
      let fresh : (elim o as (λ _. Bool) [ none ↦ false | some d ↦ d.val2 == mode ]) ≡ false =
        elim (Option-cases o) [
          | inl e ↦ ground (arith, e)
          | inr (d, e) ↦ ground (arith, e, differs d)
        ] in
      let here : MemberAt n v p m' (some new) = ground (arith, fresh, rule (member_key n v p)) in
      let others : (j : MapKey)
          → (member_key n v p == j) ≡ false
          → find m' j ≡ find s.shared.map j =
        λ j e. ground (arith, fresh, e, rule j) in
      let succeeds = (rule (member_key n v p)).0 in
      (
        succeeds,
        record {
          single =
              put-IsSingle n v p s.shared.map m' (some new) x (λ d e. ground (arith, e, nonnull))
                here others;
          others = others;
          joined = λ e. (new, here, refl, nonnull);
          refused = λ e. absurd (e succeeds);
          same_db = refl;
        },
      )

  -- The pair that is there has the mode.
  already :
      (n v p mode : ℕ) (d : MapData) (s : Vlans Hw)
      → IsSingle s.shared.map
      → MemberAt n v p s.shared.map (some d)
      → d.val2 ≡ mode
      → d.val1 ≢ 0
      → Joins n v p mode s ok s
  already n v p mode d s x here same nonnull = record {
    single = x;
    others = λ j e. refl;
    joined = λ e. (d, here, same, nonnull);
    refused = λ e. refl;
    same_db = refl;
  }

  create_member_lem :
      (n v p mode : ℕ) (s : Vlans Hw)
      → NonNullMembers
      → IsSingle s.shared.map
      → MemberAt n v p s.shared.map none
      → (rc : StdError) × (s' : Vlans Hw) × (create_member api n v p mode s ≡ some (rc, s'))
        × Joins n v p mode s rc s'
  unfolding create_member
  create_member_lem n v p mode s nonnull x h =
      elim (Option-cases (stg_get_brport p s.shared.brports)) [
        | inl e ↦ (
          std_err npu cfg 0,
          s,
          ground (arith, e),
          unchanged n v p mode (std_err npu cfg 0) s s.shared.hw x (λ f. ground (arith, f)),
        )
        | inr (br, e) ↦
            let call = api.create_vlan_member (get_sai_vlan_obj_id v s) br mode s.shared.hw in
            elim (Reply-cases call.0) [
              | inr (st, f) ↦ (
                std_err npu fail st,
                with_hw call.1 s,
                ground (arith, e, f),
                unchanged n v p mode (std_err npu fail st) s call.1 x (λ g. ground (arith, g)),
              )
              | inl (member, f) ↦
                  let m = (add_vlan_member_to_cache n v p member mode s.shared.map).1 in
                  let (done, joins) =
                    stored n v p member mode none s call.1 x h (λ d g. ground (arith, g))
                      (nonnull (get_sai_vlan_obj_id v s) br mode s.shared.hw member f) in
                  (
                    (add_vlan_member_to_cache n v p member mode s.shared.map).0,
                    with_map m (with_hw call.1 s),
                    ground (arith, e, f, done),
                    joins,
                  )
            ]
      ]

  change_mode_lem :
      (n v p mode : ℕ) (d : MapData) (s : Vlans Hw)
      → IsSingle s.shared.map
      → MemberAt n v p s.shared.map (some d)
      → d.val2 ≢ mode
      → d.val1 ≢ 0
      → let (rc, s') = change_mode api n v p d.val1 mode s in Joins n v p mode s rc s'
  unfolding change_mode
  change_mode_lem n v p mode d s x h differs nonnull =
      let call = api.set_tagging_mode d.val1 mode s.shared.hw in
      elim (Reply-cases call.0) [
        | inr (st, f) ↦
            rw (change_mode, f)
              (unchanged n v p mode (std_err npu fail st) s call.1 x (λ g. ground (arith, g)))
        | inl (u, f) ↦
            rw (change_mode, f)
              ((stored n v p d.val1 mode (some d) s call.1 x h (λ d' g. ground (arith, g, differs))
                nonnull).1)
      ]

  -- With an entry for the NPU, member ids of the switch that are not null and at most one pair for
  -- each key of a member, the addition of a port to a VLAN returns; on success the port is a member
  -- in the asked tagging mode, on an error the members are as they were, and either way all other
  -- keys are untouched and each key of a member still has at most one pair.
  pub add_port_to_vlan_lem :
      (n v p : ℕ) (istagged : Bool) (s : Vlans Hw)
      → NonNullMembers
      → no_db n s ≡ false
      → IsSingle s.shared.map
      → (rc : StdError) × (s' : Vlans Hw) × (add_port_to_vlan api n v p istagged s ≡ some (rc, s'))
        × Joins n v p (tagging api istagged) s rc s'
  unfolding add_port_to_vlan
  add_port_to_vlan_lem n v p istagged s nonnull db x =
      let mode = tagging api istagged in
      let (o, h, ids) = member_cases n v p s.shared.map x in
      let info = get_vlan_member_info_from_cache_lem n v p s.shared.map o h in
      elim (Option-cases o) [
        | inl e ↦
            let (rc, s', made, joins) =
              create_member_lem n v p mode s nonnull x (ground (arith, e, h)) in
            (rc, s', ground (arith, db, e, info, made), joins)
        | inr (d, e) ↦
            let here : MemberAt n v p s.shared.map (some d) = ground (arith, e, h) in
            elim (Bool-cases (d.val2 == mode)) [
              | inl same ↦ (
                ok,
                s,
                ground (arith, db, e, info, same, ids d e),
                already n v p mode d s x here (ground (arith, same)) (ids d e),
              )
              | inr other ↦
                  let out = change_mode api n v p d.val1 mode s in
                  (
                    out.0,
                    out.1,
                    ground (arith, db, e, info, other, ids d e),
                    change_mode_lem n v p mode d s x here (ground (arith, other)) (ids d e),
                  )
            ]
      ]

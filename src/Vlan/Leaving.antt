-- ===== src/Vlan/Leaving.antt =====
-- src/nas_ndi_vlan.cpp, `ndi_del_port_from_vlan` and `ndi_vlan_delete_default_member_brports`: what they
-- do to the members that are kept.
use opx_nas_ndi.Base.{
  ℕ, zero, suc, ◌≡◌, ◌≢◌, refl, ap, inl, inr, Bool, false, ◌||◌, none, some, List, [], ◌∷◌, arith,
  nat_key, ◌==◌, Option-cases, Bool-cases, StdError, ok, std_err, npu, fail,
}
use opx_nas_ndi.Base.Replies.{Reply-cases}
use opx_nas_ndi.Base.Table.{find}
use opx_nas_ndi.NdiMap.{MapKey, MapData, map_key_test, map_equal_iff}
use opx_nas_ndi.NdiMap.Contents.{map_delete_lem}
use opx_nas_ndi.Vlan.{Vlans, VlanApi, with_hw, with_map, no_db, get_sai_vlan_obj_id}
use opx_nas_ndi.Vlan.Defaults.{delete_members, vlan_delete_default_member_brports}
use opx_nas_ndi.Vlan.Members.{member_key, del_vlan_member_from_cache}
use opx_nas_ndi.Vlan.Membership.{
  IsSingle, MemberAt, member_cases, get_vlan_member_info_from_cache_lem, put-IsSingle,
}
use opx_nas_ndi.Vlan.Ports.{tagging, add_port_to_vlan, del_port_from_vlan}

module _ {Hw : Type 0} (api : VlanApi Hw) where
  -- What a deletion of a port is to do: on success the port is no member, on an error the members are
  -- as they were, and either way the others are.
  pub record Leaves (n v p : ℕ) (s : Vlans Hw) (rc : StdError) (s' : Vlans Hw) : Type 0 where
    pub single : IsSingle s'.shared.map
    pub others :
        (j : MapKey) → (member_key n v p == j) ≡ false → find s'.shared.map j ≡ find s.shared.map j
    pub left : rc ≡ ok → find s'.shared.map (member_key n v p) ≡ none
    pub refused : rc ≢ ok → s'.shared.map ≡ s.shared.map
    pub same_db : s'.shared.db ≡ s.shared.db

  -- With an entry for the NPU and at most one pair for each key of a member, the deletion of a port
  -- from a VLAN returns; on success the port is no member, on an error the members are as they
  -- were, and either way all other keys are untouched.
  pub del_port_from_vlan_lem :
      (n v p : ℕ) (s : Vlans Hw)
      → no_db n s ≡ false
      → IsSingle s.shared.map
      → (rc : StdError) × (s' : Vlans Hw) × (del_port_from_vlan api n v p s ≡ some (rc, s'))
        × Leaves n v p s rc s'
  unfolding del_port_from_vlan del_vlan_member_from_cache
  del_port_from_vlan_lem n v p s db x =
      let key = member_key n v p in
      let (o, h, ids) = member_cases n v p s.shared.map x in
      let info = get_vlan_member_info_from_cache_lem n v p s.shared.map o h in
      elim (Option-cases o) [
        | inl e ↦ (
          ok,
          s,
          ground (arith, db, e, info),
          record {
            single = x;
            others = λ j f. refl;
            left = λ f. ground (arith, e, h);
            refused = λ f. refl;
            same_db = refl;
          },
        )
        | inr (d, e) ↦
            let call = api.remove_vlan_member d.val1 s.shared.hw in
            let m' = (del_vlan_member_from_cache n v p s.shared.map).1 in
            elim (Reply-cases call.0) [
              | inr (st, f) ↦ (
                std_err npu fail st,
                with_hw call.1 s,
                ground (arith, db, e, info, f, ids d e),
                record {
                  single = x;
                  others = λ j g. refl;
                  left = λ g. absurd (ground (arith, g));
                  refused = λ g. refl;
                  same_db = refl;
                },
              )
              | inl (u, f) ↦
                  let gone : find m' key ≡ none =
                    ground (arith, map_delete_lem key s.shared.map key, map_equal_iff key key) in
                  let others : (j : MapKey) → (key == j) ≡ false → find m' j ≡ find s.shared.map j =
                    λ j g. ground (arith, g, map_delete_lem key s.shared.map j) in
                  (
                    ok,
                    with_map m' (with_hw call.1 s),
                    ground (arith, db, e, info, f, ids d e, map_delete_lem key s.shared.map key),
                    record {
                      single =
                          put-IsSingle n v p s.shared.map m' none x
                            (λ d' g. absurd (ground (arith, g))) gone others;
                      others = others;
                      left = λ g. gone;
                      refused = λ g. absurd (g refl);
                      same_db = refl;
                    },
                  )
            ]
      ]

  -- Only the switch is changed.
  delete_members-keeps :
      (brport : ℕ) (del_all : Bool) (members : List ℕ) (s : Vlans Hw)
      → let s' = (delete_members api brport del_all members s).1 in s' ≡ with_hw s'.shared.hw s
  unfolding delete_members
  delete_members-keeps brport del_all [] s = refl
  delete_members-keeps brport del_all (member ∷ members) s =
      let call = api.remove_vlan_member member s.shared.hw in
      let passed = delete_members-keeps brport del_all members s in
      elim (Reply-cases (api.get_member_brport member s.shared.hw)) [
        | inr (st, e) ↦ rw (delete_members, e) passed
        | inl (owner, e) ↦ elim (Bool-cases (owner == brport || del_all)) [
          | inr other ↦ rw (delete_members, e, other) passed
          | inl mine ↦ elim (Reply-cases call.0) [
            | inr (st, f) ↦ rw (delete_members, e, mine, f) refl
            | inl (u, f) ↦ elim (Bool-cases del_all) [
              | inr one ↦ rw (delete_members, e, mine, f, one) refl
              | inl all ↦
                  rw (delete_members, e, mine, f, all)
                    (delete_members-keeps brport del_all members (with_hw call.1 s))
            ]
          ]
        ]
      ]

  -- The deletion of members of the default VLAN changes the switch and nothing that is kept.
  pub vlan_delete_default_member_brports-keeps :
      (n brport : ℕ) (del_all : Bool) (s : Vlans Hw)
      → let s' = (vlan_delete_default_member_brports api n brport del_all s).1 in
        s' ≡ with_hw s'.shared.hw s
  unfolding vlan_delete_default_member_brports
  vlan_delete_default_member_brports-keeps n brport del_all s =
      let vlan = get_sai_vlan_obj_id s.default_vlan_id s in
      elim (Reply-cases (api.get_member_count vlan s.shared.hw)) [
        | inr (st, e) ↦ ground (arith, e)
        | inl (zero, e) ↦ ground (arith, e)
        | inl (suc more, e) ↦ elim (Reply-cases (api.get_member_list vlan (suc more) s.shared.hw)) [
          | inr (st, f) ↦ ground (arith, e, f)
          | inl (members, f) ↦ ground (arith, e, f, delete_members-keeps brport del_all members s)
        ]
      ]

  -- A port with a stored member of the default VLAN in some tagging mode, whose id is not null:
  -- after the members of the default VLAN are deleted for any bridge port or for all, the addition
  -- of the port in that mode answers success and changes nothing, with an entry for the NPU.
  pub add_port_to_vlan_stale :
      (n p brport : ℕ) (istagged del_all : Bool) (d : MapData) (s : Vlans Hw)
      → no_db n s ≡ false
      → MemberAt n s.default_vlan_id p s.shared.map (some d)
      → d.val1 ≢ 0
      → d.val2 ≡ tagging api istagged
      → let s' = (vlan_delete_default_member_brports api n brport del_all s).1 in
        add_port_to_vlan api n s.default_vlan_id p istagged s' ≡ some (ok, s')
  unfolding add_port_to_vlan
  add_port_to_vlan_stale n p brport istagged del_all d s db here nonnull same =
      let s' = (vlan_delete_default_member_brports api n brport del_all s).1 in
      let keeps = vlan_delete_default_member_brports-keeps n brport del_all s in
      let kept : s'.shared.map ≡ s.shared.map = ap (λ (t : Vlans Hw). t.shared.map) keeps in
      let kept_db : s'.shared.db ≡ s.shared.db = ap (λ (t : Vlans Hw). t.shared.db) keeps in
      let info =
        get_vlan_member_info_from_cache_lem n s.default_vlan_id p s'.shared.map (some d)
          (ground (arith, kept, here)) in
      ground (arith, db, kept_db, info, nonnull, same)

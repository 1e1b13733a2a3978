-- ===== src/Bridge/Flooded.antt =====
-- src/nas_ndi_bridge.cpp: the multicast group that is kept for the broadcast packets of a bridge.
use opx_nas_ndi.Base.{
  ℕ, ◌≡◌, inl, inr, Bool, true, false, ◌&&◌, Option, none, some, arith, nat_key, ◌==◌,
  if◌then◌else◌, Bool-cases, StdError, ok, std_err,
}
use opx_nas_ndi.Base.Replies.{Reply-cases}
use opx_nas_ndi.Base.Table.{find, find-put, find-erase}
use opx_nas_ndi.Bridge.{
  PktType, BridgeAttr, BridgeApi, Bridges, hw_of, without_db, set_bridge_attribute,
}
use opx_nas_ndi.Bridge.Flooding.{
  is_broadcast, is_all, get_l2mc_id_1d, or_return, set_subport_flooding, keep_group,
  set_mcast_flooding, flood_control_1d_bridge,
}

-- The group that a bridge has kept after the request: an older group stays.
abbrev pub group_after : ℕ → Bool → Option ℕ → Option ℕ
group_after grp true none = some grp
group_after grp true (some old) = some old
group_after grp false o = none

module _ {Hw : Type 0} (api : BridgeApi Hw) where
  set_bridge_attribute-keeps :
      (n br : ℕ) (attr : BridgeAttr) (s : Bridges Hw)
      → (set_bridge_attribute api n br attr s).1.bcast_l2mc ≡ s.bcast_l2mc
  unfolding set_bridge_attribute
  set_bridge_attribute-keeps n br attr s = elim (Bool-cases (without_db n s)) [
    | inl e ↦ ground (arith, e)
    | inr e ↦ elim (Reply-cases (api.set_bridge_attribute br attr (hw_of s)).0) [
      | inl (u, f) ↦ ground (arith, e, f)
      | inr (st, f) ↦ ground (arith, e, f)
    ]
  ]

  -- Whatever the switch answers, a request to flood broadcast packets of a bridge to a group keeps
  -- the group for it unless one was kept, a request not to flood them forgets the group, and the
  -- groups of other bridges, and all groups for another type of packets, stay.
  pub set_mcast_flooding_lem :
      (n br grp : ℕ) (pkt : PktType) (enable : Bool) (s : Bridges Hw) (b : ℕ)
      → find (set_mcast_flooding api n br grp pkt enable s).1.bcast_l2mc b ≡ (
          if is_broadcast pkt && br == b
          then group_after grp enable (find s.bcast_l2mc b)
          else find s.bcast_l2mc b)
  unfolding set_mcast_flooding
  set_mcast_flooding_lem n br grp pkt enable s b =
      let s0 = keep_group api br grp pkt enable s in
      let one =
        set_bridge_attribute api n br (BridgeAttr.flood_group pkt (if enable then grp else 0)) s0 in
      let kept =
        set_bridge_attribute-keeps n br (BridgeAttr.flood_group pkt (if enable then grp else 0))
          s0 in
      let kept' =
        set_bridge_attribute-keeps n br (BridgeAttr.flood_control pkt api.flood_control_l2mc_group)
          one.1 in
      let new = find-put s.bcast_l2mc br grp b in
      let gone = find-erase s.bcast_l2mc br b in ground (arith, kept, kept', new, gone)

  set_subport_flooding-keeps :
      (n br : ℕ) (pkt : PktType) (enable : Bool) (s : Bridges Hw)
      → (set_subport_flooding api n br pkt enable s).1.bcast_l2mc ≡ s.bcast_l2mc
  unfolding set_subport_flooding
  set_subport_flooding-keeps n br pkt enable s =
      let mode = if enable then api.flood_control_sub_ports else api.flood_control_none in
      ground (arith, set_bridge_attribute-keeps n br (BridgeAttr.flood_control pkt mode) s)

  -- What holds of the states before and after the first request and is kept by the second holds after both.
  or_return-keeps :
      (P : Bridges Hw → Type 0) (r : StdError × Bridges Hw) (k : Bridges Hw → StdError × Bridges Hw)
      → P r.1
      → ((t : Bridges Hw) → P t → P (k t).1)
      → P (or_return r k).1
  or_return-keeps P (ok, t) k p each = each t p
  or_return-keeps P (std_err a c st, t) k p each = p

  -- A request to flood keeps an older group.
  set_mcast_flooding-older :
      (n br grp old : ℕ) (pkt : PktType) (t : Bridges Hw)
      → find t.bcast_l2mc br ≡ some old
      → find (set_mcast_flooding api n br grp pkt true t).1.bcast_l2mc br ≡ some old
  set_mcast_flooding-older n br grp old pkt t h =
      ground (arith, h, set_mcast_flooding_lem n br grp pkt true t br)

  set_subport_flooding-older :
      (n br old : ℕ) (pkt : PktType) (enable : Bool) (t : Bridges Hw)
      → find t.bcast_l2mc br ≡ some old
      → find (set_subport_flooding api n br pkt enable t).1.bcast_l2mc br ≡ some old
  set_subport_flooding-older n br old pkt enable t h =
      ground (arith, h, set_subport_flooding-keeps n br pkt enable t)

  -- Where a group is kept for a bridge, the query for it answers that group after any request to
  -- flood packets of any type to any group.
  pub flood_control_1d_bridge_older :
      (n br grp old : ℕ) (pkt : PktType) (s : Bridges Hw)
      → get_l2mc_id_1d br s ≡ (ok, some old)
      → get_l2mc_id_1d br (flood_control_1d_bridge api n br grp pkt true s).1 ≡ (ok, some old)
  unfolding flood_control_1d_bridge get_l2mc_id_1d
  flood_control_1d_bridge_older n br grp old pkt s h =
      let IsOlder : Bridges Hw → Type 0 = λ t. find t.bcast_l2mc br ≡ some old in
      let older : IsOlder s = ground (arith, h) in
      let mcast = λ (p : PktType). set_mcast_flooding api n br grp p true in
      let subports = λ (p : PktType). set_subport_flooding api n br p true in
      let m = λ (p : PktType) (t : Bridges Hw) (o : IsOlder t).
        set_mcast_flooding-older n br grp old p t o in
      let f = λ (p : PktType) (t : Bridges Hw) (o : IsOlder t).
        set_subport_flooding-older n br old p true t o in
      elim (Bool-cases (grp == 0)) [
        | inl z ↦ elim (Bool-cases (is_all pkt)) [
          | inr one ↦ ground (arith, z, one, f pkt s older)
          | inl all ↦
              let last = λ (t : Bridges Hw) (o : IsOlder t).
                or_return-keeps IsOlder (subports PktType.broadcast t) (subports PktType.unicast)
                  (f PktType.broadcast t o) (f PktType.unicast) in
              ground (
                arith,
                z,
                all,
                or_return-keeps IsOlder (subports PktType.multicast s)
                    (λ (t : Bridges Hw).
                      or_return (subports PktType.broadcast t) (subports PktType.unicast))
                    (f PktType.multicast s older) last,
              )
        ]
        | inr nz ↦ elim (Bool-cases (is_all pkt)) [
          | inr one ↦ ground (arith, nz, one, m pkt s older)
          | inl all ↦
              let last = λ (t : Bridges Hw) (o : IsOlder t).
                or_return-keeps IsOlder (mcast PktType.multicast t) (mcast PktType.broadcast)
                  (m PktType.multicast t o) (m PktType.broadcast) in
              ground (
                arith,
                nz,
                all,
                or_return-keeps IsOlder (mcast PktType.unicast s)
                    (λ (t : Bridges Hw).
                      or_return (mcast PktType.multicast t) (mcast PktType.broadcast))
                    (m PktType.unicast s older) last,
              )
        ]
      ]

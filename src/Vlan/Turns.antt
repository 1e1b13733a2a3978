-- ===== src/Vlan/Turns.antt =====
-- src/nas_ndi_vlan.cpp: the loops over a tagged and an untagged list go through the two lists in turns.
use opx_nas_ndi.Base.{
  ℕ, ◌≡◌, refl, inl, inr, Bool, true, false, Option, none, some, List, [], ◌∷◌, arith, nat_key,
  ◌==◌, if◌then◌else◌, Option-cases, Bool-cases, StdError, ok, std_err, npu, fail,
}
use opx_nas_ndi.PortMap.{sai_port_id_get}
use opx_nas_ndi.Vlan.{Vlans, VlanApi, no_db, get_sai_vlan_obj_id}
use opx_nas_ndi.Vlan.Joining.{NonNullMembers, add_port_to_vlan_lem}
use opx_nas_ndi.Vlan.Leaving.{del_port_from_vlan_lem}
use opx_nas_ndi.Vlan.Membership.{IsSingle}
use opx_nas_ndi.Vlan.Ports.{
  NdiPort, and_then, in_turns, on_sai_port, add_port_to_vlan, del_port_from_vlan,
  add_or_del_ports_to_vlan, add_ports_to_vlan, del_ports_from_vlan, add_lag_to_vlan,
  del_lag_from_vlan,
}

-- The order of the loop: a tagged item, an untagged one, and what is left of the longer list.
abbrev pub interleave {ℓ} : {A : Type ℓ} → List A → List A → List (Bool × A)
interleave [] [] = []
interleave (t ∷ ts) [] = (true, t) ∷ interleave ts []
interleave [] (u ∷ us) = (false, u) ∷ interleave [] us
interleave (t ∷ ts) (u ∷ us) = (true, t) ∷ (false, u) ∷ interleave ts us

module _ {Hw : Type 0} (api : VlanApi Hw) where
  abbrev pub Run : Type 0
  Run = Option (StdError × Vlans Hw)

  -- One list after another item, up to the first error.
  abbrev pub one_by_one {ℓ} : {A : Type ℓ} → (A → Vlans Hw → Run) → List A → Vlans Hw → Run
  one_by_one f [] s = some (ok, s)
  one_by_one f (x ∷ xs) s = and_then api (f x s) (one_by_one f xs)

  -- What the loop does with an item of either list.
  abbrev pub either_list {ℓ} :
      {A : Type ℓ} → (A → Vlans Hw → Run) → (A → Vlans Hw → Run) → Bool × A → Vlans Hw → Run
  either_list f g (true, x) = f x
  either_list f g (false, x) = g x

  and_then-cong :
      (r : Run) (k k' : Vlans Hw → Run)
      → ((s : Vlans Hw) → k s ≡ k' s)
      → and_then api r k ≡ and_then api r k'
  and_then-cong none k k' h = refl
  and_then-cong (some (ok, s)) k k' h = h s
  and_then-cong (some (std_err a c st, s)) k k' h = refl

  -- The loop over a tagged and an untagged list does the same as a loop over the one list in which
  -- the two take turns while both last.
  pub in_turns_lem {ℓ} :
      {A : Type ℓ} (f g : A → Vlans Hw → Run) (ts us : List A) (s : Vlans Hw)
      → in_turns api f g ts us s ≡ one_by_one (either_list f g) (interleave ts us) s
  unfolding in_turns
  in_turns_lem f g [] [] s = refl
  in_turns_lem f g (t ∷ ts) [] s = and_then-cong (f t s) _ _ (in_turns_lem f g ts [])
  in_turns_lem f g [] (u ∷ us) s = and_then-cong (g u s) _ _ (in_turns_lem f g [] us)
  in_turns_lem f g (t ∷ ts) (u ∷ us) s =
      and_then-cong (f t s) _ _ (λ s'. and_then-cong (g u s') _ _ (in_turns_lem f g ts us))

  -- What a run keeps: it returns, and the state that it returns has the property.
  abbrev pub Keeps : (Vlans Hw → Type 0) → Run → Type 0
  Keeps P r = (rc : StdError) × (s' : Vlans Hw) × (r ≡ some (rc, s')) × P s'

  one_by_one-Keeps {ℓ} :
      {A : Type ℓ} (P : Vlans Hw → Type 0) (f : A → Vlans Hw → Run)
      → ((x : A) (s : Vlans Hw) → P s → Keeps P (f x s))
      → (xs : List A) (s : Vlans Hw) → P s
      → Keeps P (one_by_one f xs s)
  one_by_one-Keeps P f each [] s p = (ok, s, refl, p)
  one_by_one-Keeps P f each (x ∷ xs) s p = after (each x s p) (one_by_one-Keeps P f each xs)
    where
      after :
          {r : Run} {k : Vlans Hw → Run}
          → Keeps P r
          → ((t : Vlans Hw) → P t → Keeps P (k t))
          → Keeps P (and_then api r k)
      after (ok, t, e, q) rest = rw (e) (rest t q)
      after (std_err a c st, t, e, q) rest = (std_err a c st, t, rw (e) refl, q)

  -- What the loops over ports and LAGs rely on and keep.
  abbrev pub IsReady : ℕ → Vlans Hw → Type 0
  IsReady n s = (no_db n s ≡ false) × IsSingle s.shared.map

  module _ (nonnull : NonNullMembers api) (n v : ℕ) where
    joining-Keeps :
        (istagged : Bool) (p : ℕ) (s : Vlans Hw)
        → IsReady n s
        → Keeps (IsReady n) (add_port_to_vlan api n v p istagged s)
    joining-Keeps istagged p s (db, x) =
        let (rc, s', made, joins) = add_port_to_vlan_lem api n v p istagged s nonnull db x in
        (rc, s', made, (ground (arith, db, joins.same_db), joins.single))

    leaving-Keeps :
        (p : ℕ) (s : Vlans Hw) → IsReady n s → Keeps (IsReady n) (del_port_from_vlan api n v p s)
    leaving-Keeps p s (db, x) =
        let (rc, s', made, leaves) = del_port_from_vlan_lem api n v p s db x in
        (rc, s', made, (ground (arith, db, leaves.same_db), leaves.single))

    on_sai_port-Keeps :
        (op : ℕ → Vlans Hw → Run)
        → ((p : ℕ) (s : Vlans Hw) → IsReady n s → Keeps (IsReady n) (op p s))
        → (p : NdiPort) (s : Vlans Hw) → IsReady n s
        → Keeps (IsReady n) (on_sai_port api op p s)
    unfolding on_sai_port
    on_sai_port-Keeps op each p s ready =
        elim (Option-cases (sai_port_id_get p.npu_id p.npu_port false s.shared.ports).1) [
          | inl e ↦ (ok, s, rw (on_sai_port, e) refl, ready)
          | inr (port, e) ↦ rw (on_sai_port, e) (each port s ready)
        ]

    in_turns-Keeps {ℓ} :
        {A : Type ℓ} (f g : A → Vlans Hw → Run)
        → ((x : A) (s : Vlans Hw) → IsReady n s → Keeps (IsReady n) (f x s))
        → ((x : A) (s : Vlans Hw) → IsReady n s → Keeps (IsReady n) (g x s))
        → (ts us : List A) (s : Vlans Hw) → IsReady n s
        → Keeps (IsReady n) (in_turns api f g ts us s)
    in_turns-Keeps f g ef eg ts us s ready =
        rw (in_turns_lem f g ts us s)
          (one_by_one-Keeps (IsReady n) (either_list f g) either (interleave ts us) s ready)
      where
        either :
            (x : Bool × _) (s : Vlans Hw) → IsReady n s → Keeps (IsReady n) (either_list f g x s)
        either (true, x) = ef x
        either (false, x) = eg x

    -- With member ids of the switch that are not null, from a state with an entry for the NPU and
    -- at most one pair for each key of a member, the loops that add and delete ports and LAGs
    -- return, whatever the switch answers, in such a state.
    pub add_or_del_ports_to_vlan-IsReady :
        (ts us : List NdiPort) (lags lags' : List ℕ) (add_vlan : Bool) (s : Vlans Hw)
        → IsReady n s
        → Keeps (IsReady n) (add_or_del_ports_to_vlan api n v ts us add_vlan s)
          × Keeps (IsReady n) (add_lag_to_vlan api n v lags lags' s)
          × Keeps (IsReady n) (del_lag_from_vlan api n v lags lags' s)
    unfolding add_or_del_ports_to_vlan add_ports_to_vlan del_ports_from_vlan add_lag_to_vlan
        del_lag_from_vlan
    add_or_del_ports_to_vlan-IsReady ts us lags lags' add_vlan s ready =
        elim (Bool-cases (get_sai_vlan_obj_id v s == 0)) [
          | inl e ↦
              let rc = std_err npu fail api.status_failure in
              (
                (rc, s, rw (add_or_del_ports_to_vlan, e) refl, ready),
                (rc, s, rw (add_lag_to_vlan, e) refl, ready),
                (rc, s, rw (del_lag_from_vlan, e) refl, ready),
              )
          | inr e ↦ (
            rw (add_or_del_ports_to_vlan, e) (by_direction add_vlan),
            rw (add_lag_to_vlan, e)
                (in_turns-Keeps (λ l. add_port_to_vlan api n v l true)
                  (λ l. add_port_to_vlan api n v l false) (joining-Keeps true) (joining-Keeps false)
                  lags lags' s ready),
            rw (del_lag_from_vlan, e)
                (in_turns-Keeps (del_port_from_vlan api n v) (del_port_from_vlan api n v)
                  leaving-Keeps leaving-Keeps lags lags' s ready),
          )
        ]
      where
        by_direction :
            (add_vlan : Bool)
            → Keeps (IsReady n) (
                if add_vlan
                then add_ports_to_vlan api n v ts us s
                else del_ports_from_vlan api n v ts us s)
        by_direction true =
            in_turns-Keeps _ _ (on_sai_port-Keeps _ (joining-Keeps true))
              (on_sai_port-Keeps _ (joining-Keeps false)) ts us s ready
        by_direction false =
            in_turns-Keeps _ _ (on_sai_port-Keeps _ leaving-Keeps)
              (on_sai_port-Keeps _ leaving-Keeps) ts us s ready

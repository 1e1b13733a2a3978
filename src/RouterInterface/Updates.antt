-- ===== src/RouterInterface/Updates.antt =====
-- The loop of `ndi_rif_update_attribute`: when it ends, and when it does not.
use opx_nas_ndi.Base.{
  ℕ, zero, suc, ◌≡◌, ◌+◌, ◌≤◌, Bool, true, false, Option, none, some, arith, StdError, ok, std_err,
  route, fail, refl, ◌≢◌, ◌⊎◌, inl, inr, Bool-cases, Option-cases, StdError-cases,
}
use opx_nas_ndi.Base.Replies.{reply, Reply-cases}
use opx_nas_ndi.Bridge.{hw_of, without_db}
use opx_nas_ndi.RouterInterface.{
  RifFlags, RifFlag, RifRequest, RifAttr, RifApi, Rifs, next_flag, clear, attr_of, rifs_on_hw,
  rif_set_attribute, update_loop, update_attribute,
}

abbrev pub one : Bool → ℕ
one true = 1
one false = 0

-- How many of the flags that the loop goes through are set.
abbrev pub flags_left : RifFlags → ℕ
flags_left f =
    one f.admin_v4_state
    + one f.admin_v6_state
    + one f.src_mac_address
    + one f.mtu
    + one f.pimv2_state
    + one f.pimv6_state

-- A flag that is found is one of those left, and clearing it leaves one less.
flags_left-clear :
    (f : RifFlags) (a : RifFlag)
    → next_flag f ≡ some a
    → (suc (flags_left (clear a f)) ≡ flags_left f) × ((clear a f).other ≡ f.other)
flags_left-clear f RifFlag.admin_v4 h = ground (arith, h)
flags_left-clear f RifFlag.admin_v6 h = ground (arith, h)
flags_left-clear f RifFlag.mac h = ground (arith, h)
flags_left-clear f RifFlag.mtu h = ground (arith, h)
flags_left-clear f RifFlag.pimv2 h = ground (arith, h)
flags_left-clear f RifFlag.pimv6 h = ground (arith, h)

clear_other : (a : RifFlag) (f : RifFlags) → (clear a f).other ≡ f.other
clear_other a f = ground arith

flags_left_bound : (f : RifFlags) → flags_left f ≤ 6
flags_left_bound f = ground arith

module _ {Hw : Type 0} (api : RifApi Hw) (e : RifRequest) (rif_id : ℕ) where
  set_attribute_cases :
      (flag : Option RifFlag) (s : Rifs Hw)
      → let run = rif_set_attribute api e rif_id flag s in
        (run ≡ none)
        ⊎ ((rc : StdError) × (s' : Rifs Hw) × (run ≡ some (rc, s'))
            × (s'.cache ≡ s.cache)
            × (without_db e.entry.npu_id s'.bridges ≡ without_db e.entry.npu_id s.bridges))
  unfolding rif_set_attribute
  set_attribute_cases flag s = elim (Bool-cases (without_db e.entry.npu_id s.bridges)) [
    | inl db ↦ inl (ground (arith, db))
    | inr db ↦ elim (Option-cases flag) [
      | inl e0 ↦ inr (std_err route fail 0, s, ground (arith, db, e0), refl, refl)
      | inr (f, is) ↦
          let (r, hw) = api.set_router_interface_attribute rif_id (attr_of e f) (hw_of s.bridges) in
          elim (Reply-cases r) [
            | inl (a, h) ↦
                inr (ok, rifs_on_hw api hw s, ground (arith, db, is, h), refl, ground arith)
            | inr (st, h) ↦ inr (
              std_err route fail st,
              rifs_on_hw api hw s,
              ground (arith, db, is, h),
              refl,
              ground arith,
            )
          ]
    ]
  ]

  rif_set_attribute-returns :
      (flag : Option RifFlag) (s : Rifs Hw)
      → without_db e.entry.npu_id s.bridges ≡ false
      → rif_set_attribute api e rif_id flag s ≢ none
  unfolding rif_set_attribute
  rif_set_attribute-returns none s db = ground (arith, db)
  rif_set_attribute-returns (some f) s db =
      elim (Reply-cases
        (api.set_router_interface_attribute rif_id (attr_of e f) (hw_of s.bridges)).0) [
          | inl (a, h) ↦ ground (arith, db, h)
          | inr (st, h) ↦ ground (arith, db, h)
        ]

  -- With no other flag the loop ends within as many rounds as flags are left, and the cache is as before.
  update_loop_ends :
      (rounds : ℕ) (f : RifFlags) (now : Option RifFlag) (s : Rifs Hw)
      → f.other ≡ false
      → flags_left f ≤ rounds
      → (out : Option (StdError × Rifs Hw)) × (update_loop api rounds e rif_id f now s ≡ some out)
        × ((rc : StdError) (s' : Rifs Hw) → out ≡ some (rc, s') → s'.cache ≡ s.cache)
        × (without_db e.entry.npu_id s.bridges ≡ false → out ≢ none)
  unfolding update_loop
  update_loop_ends zero f now s h b = elim (Option-cases (next_flag f)) [
    | inl e0 ↦
        (some (ok, s), ground (arith, e0, h), λ rc s' o. ground (arith, o), λ db. ground arith)
    | inr (a, is) ↦ absurd (ground (arith, flags_left-clear f a is, b))
  ]
  update_loop_ends (suc r) f now s h b = elim (Option-cases (next_flag f)) [
    | inl e0 ↦
        (some (ok, s), ground (arith, e0, h), λ rc s' o. ground (arith, o), λ db. ground arith)
    | inr (a, is) ↦
        let (less, same) = flags_left-clear f a is in
        elim (set_attribute_cases (some a) s) [
          | inl died ↦ (
            none,
            ground (arith, is, died),
            λ rc s' o. ground (arith, o),
            λ db. absurd (rif_set_attribute-returns (some a) s db died),
          )
          | inr (rc1, s1, run, c, d) ↦ elim (StdError-cases rc1) [
            | inl good ↦
                let (out, ends, keeps, returns) =
                  update_loop_ends r (clear a f) (some a) s1 (ground (arith, same, h))
                    (ground (arith, less, b)) in
                (
                  out,
                  ground (arith, is, run, good, ends),
                  λ rc s' o. ground (arith, keeps rc s' o, c),
                  λ db. returns (ground (arith, db, d)),
                )
            | inr (x, y, st, bad) ↦ (
              some (std_err x y st, s1),
              ground (arith, is, run, bad),
              λ rc s' o. ground (arith, o, c),
              λ db. ground arith,
            )
          ]
        ]
  ]

  -- With an entry for the NPU and a request with no flag but those that the update supports, the
  -- update of a router interface returns within six rounds of its loop, whatever the switch
  -- answers, and leaves the cache alone.
  pub update_attribute_ends :
      (rounds : ℕ) (s : Rifs Hw)
      → without_db e.entry.npu_id s.bridges ≡ false
      → e.flags.other ≡ false
      → 6 ≤ rounds
      → (rc : StdError) × (s' : Rifs Hw) × (update_attribute api rounds e rif_id s
          ≡ some (some (rc, s')))
        × (s'.cache ≡ s.cache)
  unfolding update_attribute
  update_attribute_ends rounds s db h b =
      let (out, ends, keeps, returns) =
        update_loop_ends rounds e.flags none s h (ground (arith, flags_left_bound e.flags, b)) in
      elim (Option-cases out) [
        | inl died ↦ absurd (returns db died)
        | inr ((rc, s'), is) ↦ (rc, s', ground (arith, ends, is), keeps rc s' is)
      ]

  -- A switch that takes every attribute of the interface.
  unfoldable pub AcceptsAttributes : Type 0
  AcceptsAttributes =
      (a : RifAttr) (hw : Hw) → (api.set_router_interface_attribute rif_id a hw).0 ≡ reply tt

  set_attribute_accepted :
      (a : RifFlag) (s : Rifs Hw)
      → AcceptsAttributes
      → without_db e.entry.npu_id s.bridges ≡ false
      → (s' : Rifs Hw) × (rif_set_attribute api e rif_id (some a) s ≡ some (ok, s'))
        × (without_db e.entry.npu_id s'.bridges ≡ false)
  unfolding rif_set_attribute AcceptsAttributes
  set_attribute_accepted a s accepts db =
      let (_, hw) = api.set_router_interface_attribute rif_id (attr_of e a) (hw_of s.bridges) in
      (
        rifs_on_hw api hw s,
        ground (arith, db, accepts (attr_of e a) (hw_of s.bridges)),
        ground (arith, db),
      )

  -- With another flag and a flag to set, the loop goes on for any number of rounds.
  update_loop_stuck :
      (rounds : ℕ) (f : RifFlags) (now : Option RifFlag) (a : RifFlag) (s : Rifs Hw)
      → AcceptsAttributes
      → without_db e.entry.npu_id s.bridges ≡ false
      → f.other ≡ true
      → (next_flag f ≡ none → now ≡ some a)
      → update_loop api rounds e rif_id f now s ≡ none
  unfolding update_loop
  update_loop_stuck zero f now a s accepts db h left = ground (arith, h)
  update_loop_stuck (suc r) f now a s accepts db h left = elim (Option-cases (next_flag f)) [
    | inl e0 ↦
        let (s', run, db') = set_attribute_accepted a s accepts db in
        let again =
          update_loop_stuck r (clear a f) (some a) a s' accepts db'
            (ground (arith, h, clear_other a f)) (λ _. refl) in
        ground (arith, e0, left e0, run, again, h)
    | inr (b, is) ↦
        let (s', run, db') = set_attribute_accepted b s accepts db in
        let again =
          update_loop_stuck r (clear b f) (some b) b s' accepts db'
            (ground (arith, h, clear_other b f)) (λ _. refl) in
        ground (arith, is, run, again, h)
  ]

  -- With an entry for the NPU, on a switch that takes every attribute, the update of a router
  -- interface with a supported flag and one that it does not support has not returned after any
  -- number of rounds of its loop.
  pub update_attribute_stuck :
      (rounds : ℕ) (s : Rifs Hw)
      → AcceptsAttributes
      → without_db e.entry.npu_id s.bridges ≡ false
      → e.flags.other ≡ true
      → next_flag e.flags ≢ none
      → update_attribute api rounds e rif_id s ≡ none
  unfolding update_attribute
  update_attribute_stuck rounds s accepts db h some_flag =
      update_loop_stuck rounds e.flags none RifFlag.mtu s accepts db h (λ e0. absurd (some_flag e0))

-- ===== src/RouterInterface/Creation.antt =====
-- What `ndi_rif_create` leaves in the router interface cache.
use opx_nas_ndi.Base.{
  ℕ, nat_key, ◌≡◌, ◌≢◌, ◌≤◌, false, Option, none, some, arith, StdError, ok, std_err, route, fail,
  refl, inl, inr, Bool-cases, Option-cases, StdError-cases,
}
use opx_nas_ndi.Base.Replies.{Reply-cases}
use opx_nas_ndi.Base.Table.{find, put, find-put_self}
use opx_nas_ndi.Bridge.{hw_of, without_db}
use opx_nas_ndi.Bridge.Members.{router_bridge_port_add_1d}
use opx_nas_ndi.RifCache.{
  RifCache, RifOp, rif_key_test, rif_entry_db_key_gen, create_rif, get_rif_id, rif_ref,
}
use opx_nas_ndi.RouterInterface.{RifRequest, RifApi, Rifs, new_attrs, is_bridge, rifs_on_hw}
use opx_nas_ndi.RouterInterface.Operations.{
  rif_owner, reuse, enter_rif, join_bridge, make_rif, rif_create,
}
use opx_nas_ndi.RouterInterface.Updates.{update_attribute_ends}

module _ {Hw : Type 0} (api : RifApi Hw) (e : RifRequest) where
  -- With success the id is written and the cache finds it by the key; otherwise the cache is as before.
  pub Creates : RifCache → StdError → Option ℕ → Rifs Hw → Type 0
  Creates c rc out s' =
      (rc ≡ ok → (id : ℕ) × (out ≡ some id) × (get_rif_id e.entry s'.cache ≡ (ok, some id)))
      × (rc ≢ ok → s'.cache ≡ c)

  enter_rif_lem :
      (id : ℕ) (s : Rifs Hw)
      → find s.cache.by_key (rif_entry_db_key_gen e.entry) ≡ none
      → (s' : Rifs Hw) × (enter_rif api e id s ≡ some (ok, some id, s'))
        × (get_rif_id e.entry s'.cache ≡ (ok, some id))
  unfolding enter_rif create_rif get_rif_id
  enter_rif_lem id s missing =
      let key = rif_entry_db_key_gen e.entry in
      let c : RifCache = record {
        by_key = put s.cache.by_key key id;
        by_id = put s.cache.by_id id (record { key = key; ref_cnt = 1 });
      } in
      (
        record s { cache = c },
        ground (arith, missing),
        ground (arith, find-put_self s.cache.by_key key id),
      )

  succeeds :
      (id : ℕ) (c : RifCache) (s' : Rifs Hw)
      → get_rif_id e.entry s'.cache ≡ (ok, some id)
      → Creates c ok (some id) s'
  unfolding Creates
  succeeds id c s' finds = (λ _. (id, refl, finds), λ bad. absurd (bad refl))

  fails :
      (c : RifCache) (rc : StdError) (out : Option ℕ) (s' : Rifs Hw)
      → rc ≢ ok
      → s'.cache ≡ c
      → Creates c rc out s'
  unfolding Creates
  fails c rc out s' bad same = (λ good. absurd (bad good), λ _. same)

  -- A run that returns, with such a result.
  pub Returns : RifCache → Option (StdError × Option ℕ × Rifs Hw) → Type 0
  Returns c run =
      (rc : StdError) × (out : Option ℕ) × (s' : Rifs Hw) × (run ≡ some (rc, out, s'))
      × Creates c rc out s'

  returned :
      (c : RifCache) (rc : StdError) (out : Option ℕ) (s' : Rifs Hw)
      → Creates c rc out s'
      → Returns c (some (rc, out, s'))
  unfolding Returns
  returned c rc out s' creates = (rc, out, s', refl, creates)

  join_bridge-Returns :
      (id : ℕ) (s : Rifs Hw)
      → find s.cache.by_key (rif_entry_db_key_gen e.entry) ≡ none
      → Returns s.cache (join_bridge api e id s)
  unfolding join_bridge Returns
  join_bridge-Returns id s missing = elim (Option-cases (is_bridge e.entry.attachment)) [
    | inl off ↦
        let (s', made, finds) = enter_rif_lem id s missing in
        (ok, some id, s', ground (arith, off, made), succeeds id s.cache s' finds)
    | inr (br, on) ↦ elim (Bool-cases e.entry.is_virtual) [
      | inl virtual ↦
          let (s', made, finds) = enter_rif_lem id s missing in
          (ok, some id, s', ground (arith, on, virtual, made), succeeds id s.cache s' finds)
      | inr real ↦
          let (a, _, b) = router_bridge_port_add_1d api.bridge e.entry.npu_id br id s.bridges in
          let s1 : Rifs Hw = record s { bridges = b } in
          elim (StdError-cases a) [
            | inl good ↦
                let (s', made, finds) = enter_rif_lem id s1 missing in
                (
                  ok,
                  some id,
                  s',
                  ground (arith, on, real, good, made),
                  succeeds id s.cache s' finds,
                )
            | inr (x, y, st, bad) ↦
                let (r, hw) = api.remove_router_interface id (hw_of b) in
                let s' = rifs_on_hw api hw s1 in
                let refusal : ℕ → StdError = λ why. std_err route fail why in
                elim (Reply-cases r) [
                  | inl (_, gone) ↦
                      let rc = refusal api.bridge.status_success in
                      (
                        rc,
                        some id,
                        s',
                        ground (arith, on, real, bad, gone),
                        fails s.cache rc (some id) s' (ground arith) refl,
                      )
                  | inr (why, kept) ↦ (
                    refusal why,
                    some id,
                    s',
                    ground (arith, on, real, bad, kept),
                    fails s.cache (refusal why) (some id) s' (ground arith) refl,
                  )
                ]
          ]
    ]
  ]

  make_rif-Returns :
      (stray : ℕ) (s : Rifs Hw)
      → find s.cache.by_key (rif_entry_db_key_gen e.entry) ≡ none
      → Returns s.cache (make_rif api e stray s)
  unfolding make_rif Returns
  make_rif-Returns stray s missing =
      let refusal : ℕ → StdError = λ why. std_err route fail why in
      elim (Option-cases (rif_owner api e.entry.attachment e.entry.npu_id stray s)) [
        | inl off ↦ (
          refusal 0,
          none,
          s,
          ground (arith, off),
          fails s.cache (refusal 0) none s (ground arith) refl,
        )
        | inr (owner, on) ↦
            let (r, hw) =
              api.create_router_interface e.entry.vrf_id owner (new_attrs e) (hw_of s.bridges) in
            let s1 = rifs_on_hw api hw s in
            elim (Reply-cases r) [
              | inl (id, made) ↦
                  let (rc, out, s', run, creates) = join_bridge-Returns id s1 missing in
                  (rc, out, s', ground (arith, on, made, run), creates)
              | inr (why, not_made) ↦ (
                refusal why,
                none,
                s1,
                ground (arith, on, not_made),
                fails s.cache (refusal why) none s1 (ground arith) refl,
              )
            ]
      ]

  -- The count of references is not part of what the cache answers by key.
  get_rif_id-rif_ref :
      (id : ℕ) (op : RifOp) (c : RifCache)
      → get_rif_id e.entry (rif_ref id op c).2 ≡ get_rif_id e.entry c
  unfolding get_rif_id rif_ref
  get_rif_id-rif_ref id op c = elim (Option-cases (find c.by_id id)) [
    | inl gone ↦ ground (arith, gone)
    | inr (inst, there) ↦ ground (arith, there)
  ]

  reuse_ends :
      (rounds id : ℕ) (s : Rifs Hw)
      → get_rif_id e.entry s.cache ≡ (ok, some id)
      → without_db e.entry.npu_id s.bridges ≡ false
      → e.flags.other ≡ false
      → 6 ≤ rounds
      → (res : Option (StdError × Option ℕ × Rifs Hw)) × (reuse api rounds e id s ≡ some res)
        × Returns s.cache res
  unfolding reuse
  reuse_ends rounds id s held db h b = elim (Bool-cases e.entry.is_virtual) [
    | inl virtual ↦
        let rc : StdError = std_err route fail 0 in
        let res : Option (StdError × Option ℕ × Rifs Hw) = some (rc, none, s) in
        (
          res,
          ground (arith, virtual),
          returned s.cache rc none s (fails s.cache rc none s (ground arith) refl),
        )
    | inr real ↦
        let (rc1, s1, ends, same) = update_attribute_ends api e id rounds s db h b in
        elim (StdError-cases rc1) [
          | inl good ↦
              let s' : Rifs Hw = record s1 { cache = (rif_ref id RifOp.inc_op s1.cache).2 } in
              let finds : get_rif_id e.entry s'.cache ≡ (ok, some id) =
                ground (arith, get_rif_id-rif_ref id RifOp.inc_op s1.cache, same, held) in
              (
                some (ok, some id, s'),
                ground (arith, real, ends, good),
                returned s.cache ok (some id) s' (succeeds id s.cache s' finds),
              )
          | inr (x, y, st, bad) ↦
              let rc : StdError = std_err x y st in
              (
                some (rc, none, s1),
                ground (arith, real, ends, bad),
                returned s.cache rc none s1 (fails s.cache rc none s1 (ground arith) same),
              )
        ]
  ]

  -- With an entry for the NPU, a request with no flag but those that the update supports and at
  -- least six rounds of its loop, ndi_rif_create returns: with success the id is written and the
  -- cache answers it for the request, and with an error the cache is as it was.
  pub rif_create_lem :
      (rounds stray : ℕ) (s : Rifs Hw)
      → without_db e.entry.npu_id s.bridges ≡ false
      → e.flags.other ≡ false
      → 6 ≤ rounds
      → (res : Option (StdError × Option ℕ × Rifs Hw)) × (rif_create api rounds e stray s
          ≡ some res)
        × Returns s.cache res
  unfolding rif_create get_rif_id
  rif_create_lem rounds stray s db h b =
      elim (Option-cases (find s.cache.by_key (rif_entry_db_key_gen e.entry))) [
        | inl missing ↦
            (make_rif api e stray s, ground (arith, db, missing), make_rif-Returns stray s missing)
        | inr (id, there) ↦
            let (res, ends, returns) = reuse_ends rounds id s (ground (arith, there)) db h b in
            (res, ground (arith, db, there, ends), returns)
      ]

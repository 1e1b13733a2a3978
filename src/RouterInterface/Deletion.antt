-- ===== src/RouterInterface/Deletion.antt =====
-- What `ndi_rif_delete` does to the references in the router interface cache.
use opx_nas_ndi.Base.{
  ℕ, ◌+◌, ◌<◌, ◌^◌, ◌≡◌, ◌≢◌, ◌⊎◌, inl, inr, refl, false, none, some, arith, nat_key, ◌==◌,
  StdError, ok, std_err, route, fail, Bool-cases, StdError-cases,
}
use opx_nas_ndi.Base.Replies.{Reply, reply, failed, Reply-cases}
use opx_nas_ndi.Base.Table.{find, put, erase, find-put, find-erase, find-erase_self}
use opx_nas_ndi.Bridge.{Bridges, hw_of, without_db}
use opx_nas_ndi.Bridge.Members.{router_bridge_port_delete_1d}
use opx_nas_ndi.RifCache.{RifInst, RifCache, RifOp, rif_key_test, rif_ref, delete_rif, dec}
use opx_nas_ndi.RifCache.Counting.{SameTables}
use opx_nas_ndi.RifCache.Inverse.{IsInverse, delete_rif-IsInverse, rif_ref-IsInverse}
use opx_nas_ndi.RouterInterface.{RifApi, Rifs, rifs_on_hw}
use opx_nas_ndi.RouterInterface.Operations.{rif_delete}

-- The references to an interface; without an entry there are none.
abbrev pub refs : ℕ → RifCache → ℕ
refs id c = elim (find c.by_id id) [ none ↦ 0 | some i ↦ i.ref_cnt ]

-- One reference to an interface is given up: its count falls by one, with the last its key goes too, and
-- the other interfaces stay.
pub record GivesUp (id : ℕ) (i : RifInst) (c c' : RifCache) : Type 0 where
  pub counted : refs id c' + 1 ≡ refs id c
  pub gone : refs id c' ≡ 0 → (find c'.by_id id ≡ none) × (find c'.by_key i.key ≡ none)
  pub others : (j : ℕ) → id ≢ j → find c'.by_id j ≡ find c.by_id j

-- The cache after its count is read.
abbrev read : ℕ → RifInst → RifCache → RifCache
read id i c = record c { by_id = put c.by_id id i }

module _ (id : ℕ) (i : RifInst) (c : RifCache) (held : find c.by_id id ≡ some i) where
  rif_ref-read : rif_ref id RifOp.get_op c ≡ (ok, some i.ref_cnt, read id i c)
  unfolding rif_ref
  rif_ref-read = ground (arith, held)

  read-SameTables : SameTables (read id i c) c
  read-SameTables = record {
    keys = λ k. refl;
    ids = λ j. ground (arith, held, find-put c.by_id id i j);
  }

  delete_rif-GivesUp :
      0 < i.ref_cnt → i.ref_cnt < 2 ^ 32 → GivesUp id i c (delete_rif id (read id i c)).1
  unfolding delete_rif
  delete_rif-GivesUp low high =
      let c1 = read id i c in
      let at : find c1.by_id id ≡ some i = ground (arith, find-put c.by_id id i id) in
      elim (Bool-cases (i.ref_cnt == 1)) [
        | inl last ↦
            let c' : RifCache = record {
              by_key = erase c1.by_key i.key;
              by_id = erase c1.by_id id;
            } in
            let run : (delete_rif id c1).1 ≡ c' = ground (arith, at, last) in
            rw (run) (record {
              counted = ground (arith, held, last, find-erase c1.by_id id id);
              gone = λ _. (find-erase_self c1.by_id id, find-erase_self c1.by_key i.key);
              others =
                  λ j ne. ground (arith, ne, find-put c.by_id id i j, find-erase c1.by_id id j);
            })
        | inr more ↦
            let less : RifInst = record i { ref_cnt = dec i.ref_cnt } in
            let c' : RifCache = record c1 { by_id = put c1.by_id id less } in
            let run : (delete_rif id c1).1 ≡ c' = ground (arith, at, more, low, high) in
            let now = find-put c1.by_id id less in
            rw (run) (record {
              counted = ground (arith, held, more, low, high, now id);
              gone = λ none_left. absurd (ground (arith, none_left, more, low, high, now id));
              others = λ j ne. ground (arith, ne, find-put c.by_id id i j, now j);
            })
      ]

module _ {Hw : Type 0} (api : RifApi Hw) (n id stray : ℕ) (i : RifInst) where
  -- The removal of the bridge port of the interface, and the answer of the switch to the removal of the
  -- interface after it.
  abbrev pub off_bridge : Rifs Hw → StdError × Bridges Hw
  off_bridge s = router_bridge_port_delete_1d api.bridge n id stray s.bridges

  abbrev pub answer : Rifs Hw → Reply (Unit {0})
  answer s = (api.remove_router_interface id (hw_of (off_bridge s).1)).0

  -- What a removal is to do: the tables stay inverse, and either the answer is success and one reference
  -- is given up, which is not the last or goes with the interface, or the last reference stays, since the
  -- bridge port could not be removed, which is an error, or since the switch refused to remove the
  -- interface, which is none.
  pub record Deletes (s : Rifs Hw) (rc : StdError) (s' : Rifs Hw) : Type 0 where
    pub inverse : IsInverse s'.cache
    pub outcome :
        ((rc ≡ ok)
          × GivesUp id i s.cache s'.cache
          × ((1 < i.ref_cnt) ⊎ (((off_bridge s).0 ≡ ok) × (answer s ≡ reply tt))))
        ⊎ ((i.ref_cnt ≡ 1)
            × SameTables s'.cache s.cache
            × (((rc ≢ ok) × ((off_bridge s).0 ≢ ok))
                ⊎ ((rc ≡ ok) × (st : ℕ) × (answer s ≡ failed st))))

  -- With an entry for the NPU and inverse tables by key and by id, for a router interface with at
  -- least one reference, fewer than 2^32, ndi_rif_delete returns and keeps the tables inverse.
  -- Either it answers success and gives up one reference, the key going with the last one and the
  -- other interfaces staying; then there was another reference, or the switch has removed the
  -- interface, after its bridge port if it had one. Or the only reference stays and both tables
  -- answer as before: with an error, since the bridge port could not be removed, or with success,
  -- since the switch refused to remove the interface.
  pub rif_delete_lem :
      (s : Rifs Hw)
      → without_db n s.bridges ≡ false
      → IsInverse s.cache
      → find s.cache.by_id id ≡ some i
      → 0 < i.ref_cnt
      → i.ref_cnt < 2 ^ 32
      → (rc : StdError) × (s' : Rifs Hw) × (rif_delete api n id stray s ≡ some (rc, s'))
        × Deletes s rc s'
  unfolding rif_delete
  rif_delete_lem s db v held low high =
      let c1 = read id i s.cache in
      let counted = rif_ref-read id i s.cache held in
      let same = read-SameTables id i s.cache held in
      let v1 : IsInverse c1 = rw (counted) at (rif_ref-IsInverse id RifOp.get_op s.cache v) in
      let gives = delete_rif-GivesUp id i s.cache held low high in
      let v2 = delete_rif-IsInverse id c1 v1 in
      elim (Bool-cases (i.ref_cnt == 1)) [
        | inr more ↦
            let s' : Rifs Hw = record s { cache = (delete_rif id c1).1 } in
            (
              ok,
              s',
              ground (arith, db, counted, more),
              record { inverse = v2; outcome = inl (refl, gives, inl (ground (arith, more, low))) },
            )
        | inl last ↦
            let (rc, b) = off_bridge s in
            let s1 : Rifs Hw = record s { bridges = b; cache = c1 } in
            elim (StdError-cases rc) [
              | inr (x, y, st, bad) ↦ (
                std_err route fail api.bridge.status_failure,
                s1,
                ground (arith, db, counted, last, bad),
                record {
                  inverse = v1;
                  outcome = inr (ground arith, same, inl (ground arith, ground (arith, bad)));
                },
              )
              | inl good ↦
                  let (r, hw) = api.remove_router_interface id (hw_of b) in
                  elim (Reply-cases r) [
                    | inr (st, no_answer) ↦ (
                      ok,
                      rifs_on_hw api hw s1,
                      ground (arith, db, counted, last, good, no_answer),
                      record {
                        inverse = v1;
                        outcome = inr (ground arith, same, inr (refl, st, no_answer));
                      },
                    )
                    | inl (_, removed) ↦ (
                      ok,
                      record (rifs_on_hw api hw s1) { cache = (delete_rif id c1).1 },
                      ground (arith, db, counted, last, good, removed),
                      record { inverse = v2; outcome = inl (refl, gives, inr (good, removed)) },
                    )
                  ]
            ]
      ]

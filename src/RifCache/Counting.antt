-- ===== src/RifCache/Counting.antt =====
-- References to a router interface are counted: it goes with the last one.
use opx_nas_ndi.Base.{ℕ, ◌+◌, ◌^◌, ◌<◌, ◌≡◌, inl, inr, none, some, arith, nat_key, ok, Option-cases}
use opx_nas_ndi.Base.Table.{find, put, find-put, find-put_self, find-erase}
use opx_nas_ndi.RifCache.{
  RifKey, RifEntry, RifInst, RifCache, rif_key_test, rif_key_equal_iff, rif_entry_db_key_gen,
  create_rif, delete_rif, get_rif_id, inc, dec,
}
use opx_nas_ndi.RifCache.Inverse.{IsInverse}

-- Equal answers to every query.
pub record SameTables (c d : RifCache) : Type 0 where
  pub keys : (k : RifKey) → find c.by_key k ≡ find d.by_key k
  pub ids : (id : ℕ) → find c.by_id id ≡ find d.by_id id

-- The id under which a request is kept: that of its key, or else its own.
abbrev pub id_of : RifEntry → RifCache → ℕ
id_of e c = elim (find c.by_key (rif_entry_db_key_gen e)) [ none ↦ e.rif_id | some id ↦ id ]

-- A reference taken by create_rif and given back by delete_rif leaves both tables as they were, where
-- they are inverse, a new interface has an id that is not in use, and the count of a present one is
-- positive and below its largest value.
pub delete_rif-create_rif :
    (e : RifEntry) (c : RifCache)
    → IsInverse c
    → (find c.by_key (rif_entry_db_key_gen e) ≡ none → find c.by_id e.rif_id ≡ none)
    → ((inst : RifInst)
        → find c.by_id (id_of e c) ≡ some inst
        → (0 < inst.ref_cnt) × (inst.ref_cnt + 1 < 2 ^ 32))
    → (c' : RifCache) × (create_rif e c ≡ some (ok, c'))
      × (find c'.by_key (rif_entry_db_key_gen e) ≡ some (id_of e c))
      × SameTables (delete_rif (id_of e c) c').1 c
unfolding create_rif delete_rif
delete_rif-create_rif e c v new bounded =
    let k = rif_entry_db_key_gen e in
    elim (Option-cases (find c.by_key k)) [
      | inl f ↦
          let id = e.rif_id in
          let inst : RifInst = record { key = k; ref_cnt = 1 } in
          let keys' = put c.by_key k id in
          let ids' = put c.by_id id inst in
          let stored = find-put_self c.by_id id inst in
          (
            record { by_key = keys'; by_id = ids' },
            ground (arith, f),
            ground (arith, f, find-put_self c.by_key k id),
            record {
              keys = λ j. ground (
                arith,
                f,
                stored,
                rif_key_equal_iff k j,
                find-erase keys' k j,
                find-put c.by_key k id j,
              );
              ids = λ j.
                  ground
                    (arith, f, new f, stored, find-erase ids' id j, find-put c.by_id id inst j);
            },
          )
      | inr (id, f) ↦
          let (n, g) = v.of_key k id f in
          let one_more : RifInst = record { key = k; ref_cnt = inc n } in
          let same : RifInst = record { key = k; ref_cnt = n } in
          let ids' = put c.by_id id one_more in
          let bound : (0 < n) × (n + 1 < 2 ^ 32) = ground (arith, f, g, bounded same) in
          let back : dec (inc n) ≡ n = omega (arith, bound.0, bound.1) in
          let stored = find-put_self c.by_id id one_more in
          (
            record c { by_id = ids' },
            ground (arith, f, g),
            ground (arith, f),
            record {
              keys = λ j. ground (arith, f, stored, back, bound.0);
              ids = λ j. ground (
                arith,
                f,
                g,
                stored,
                back,
                bound.0,
                find-put ids' id same j,
                find-put c.by_id id one_more j,
              );
            },
          )
    ]

-- Where a new interface is created under an id that another key has, the id stays under the old key:
-- it answers the query for both, and after the deletion of the id a creation for the old key uses an
-- iterator at the end of the table by id.
pub create_rif_reused :
    (old new : RifEntry) (c : RifCache)
    → find c.by_key (rif_entry_db_key_gen old) ≡ some new.rif_id
    → find c.by_key (rif_entry_db_key_gen new) ≡ none
    → (c' : RifCache) × (create_rif new c ≡ some (ok, c'))
      × (get_rif_id old c' ≡ (ok, some new.rif_id))
      × (get_rif_id new c' ≡ (ok, some new.rif_id))
      × (create_rif old (delete_rif new.rif_id c').1 ≡ none)
unfolding create_rif delete_rif get_rif_id
create_rif_reused old new c taken absent =
    let j = rif_entry_db_key_gen old in
    let k = rif_entry_db_key_gen new in
    let id = new.rif_id in
    let inst : RifInst = record { key = k; ref_cnt = 1 } in
    let keys' = put c.by_key k id in
    let ids' = put c.by_id id inst in
    let stored = find-put_self c.by_id id inst in
    let other : find keys' j ≡ some id =
      ground (arith, taken, absent, rif_key_equal_iff k j, find-put c.by_key k id j) in
    (
      record { by_key = keys'; by_id = ids' },
      ground (arith, absent),
      ground (arith, other),
      ground (arith, find-put_self c.by_key k id),
      ground (
        arith,
        taken,
        absent,
        other,
        stored,
        rif_key_equal_iff k j,
        find-erase keys' k j,
        find-erase ids' id id,
      ),
    )

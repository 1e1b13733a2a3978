-- ===== src/RifCache/Inverse.antt =====
-- The two tables of the router interface cache are inverse to each other.
use opx_nas_ndi.Base.{
  ℕ, ◌≡◌, inl, inr, none, some, arith, nat_key, ◌==◌, ok, Option-cases, Bool-cases,
}
use mathlib.Core.Path.{subst}
use opx_nas_ndi.Base.Table.{find, put, erase, empty, find-put, find-erase, find-empty}
use opx_nas_ndi.RifCache.{
  RifKey, RifEntry, RifInst, RifCache, RifOp, rif_key_test, rif_key_equal_iff, rif_entry_db_key_gen,
  create_rif, delete_rif, rif_ref, inc, dec, counted,
}

pub record IsInverse (c : RifCache) : Type 0 where
  pub of_key :
      (k : RifKey) (id : ℕ)
      → find c.by_key k ≡ some id
      → (n : ℕ) × (find c.by_id id ≡ some (record { key = k; ref_cnt = n }))
  pub of_id :
      (id : ℕ) (inst : RifInst) → find c.by_id id ≡ some inst → find c.by_key inst.key ≡ some id

-- The table by id after a change of one count.
recount-IsInverse :
    (c : RifCache) (id n : ℕ) (inst : RifInst)
    → IsInverse c
    → find c.by_id id ≡ some inst
    → IsInverse (record c { by_id = put c.by_id id (record inst { ref_cnt = n }) })
recount-IsInverse c id n inst v e = record {
  of_key = λ k i h. elim (Bool-cases (id == i)) [
    | inl f ↦ (
      n,
      ground (arith, e, f, h, v.of_key k i h, find-put c.by_id id (record inst { ref_cnt = n }) i),
    )
    | inr f ↦
        let (x, g) = v.of_key k i h in
        (x, ground (arith, f, g, find-put c.by_id id (record inst { ref_cnt = n }) i))
  ];
  of_id = λ i inst' h. ground (
    arith,
    h,
    e,
    v.of_id id inst e,
    v.of_id i inst',
    find-put c.by_id id (record inst { ref_cnt = n }) i,
  );
}

-- Both tables after the first reference.
fresh-IsInverse :
    (c : RifCache) (k : RifKey) (id : ℕ)
    → IsInverse c
    → find c.by_key k ≡ none
    → find c.by_id id ≡ none
    → IsInverse (record {
      by_key = put c.by_key k id;
      by_id = put c.by_id id (record { key = k; ref_cnt = 1 });
    })
fresh-IsInverse c k id v absent new = record {
  of_key = λ j i h. elim (Bool-cases (k == j)) [
    | inl f ↦ (
      1,
      ground (
        arith,
        f,
        h,
        rif_key_equal_iff k j,
        find-put c.by_key k id j,
        find-put c.by_id id (record { key = k; ref_cnt = 1 }) i,
      ),
    )
    | inr f ↦
        let before : find c.by_key j ≡ some i = ground (arith, f, h, find-put c.by_key k id j) in
        let (n, g) = v.of_key j i before in
        (n, ground (arith, g, new, find-put c.by_id id (record { key = k; ref_cnt = 1 }) i))
  ];
  of_id = λ i inst h. ground (
    arith,
    h,
    absent,
    v.of_id i inst,
    rif_key_equal_iff k inst.key,
    find-put c.by_key k id inst.key,
    find-put c.by_id id (record { key = k; ref_cnt = 1 }) i,
  );
}

-- Both tables after the last reference.
gone-IsInverse :
    (c : RifCache) (id : ℕ) (inst : RifInst)
    → IsInverse c
    → find c.by_id id ≡ some inst
    → IsInverse (record { by_key = erase c.by_key inst.key; by_id = erase c.by_id id })
gone-IsInverse c id inst v e = record {
  of_key = λ k i h.
      let before : find c.by_key k ≡ some i = ground (arith, h, find-erase c.by_key inst.key k) in
      let (n, g) = v.of_key k i before in
      (
        n,
        ground (
          arith,
          h,
          e,
          g,
          rif_key_equal_iff inst.key k,
          find-erase c.by_key inst.key k,
          find-erase c.by_id id i,
        ),
      );
  of_id = λ i inst' h. ground (
    arith,
    h,
    e,
    v.of_id id inst e,
    v.of_id i inst',
    rif_key_equal_iff inst.key inst'.key,
    find-erase c.by_key inst.key inst'.key,
    find-erase c.by_id id i,
  );
}

-- An interface is created under an id that is not in use, deleted, or its count is read or changed.
pub data Step : RifCache → RifCache → Type 0 where
  created :
      {c c' : RifCache} (e : RifEntry)
      → find c.by_id e.rif_id ≡ none
      → create_rif e c ≡ some (ok, c')
      → Step c c'
  deleted : {c : RifCache} (id : ℕ) → Step c (delete_rif id c).1
  referenced : {c : RifCache} (id : ℕ) (op : RifOp) → Step c (rif_ref id op c).2

pub data Reach : RifCache → Type 0 where
  start : Reach (record { by_key = empty; by_id = empty })
  step : {c c' : RifCache} → Reach c → Step c c' → Reach c'

pub create_rif-IsInverse :
    (e : RifEntry) (c c' : RifCache)
    → IsInverse c
    → find c.by_id e.rif_id ≡ none
    → create_rif e c ≡ some (ok, c')
    → IsInverse c'
unfolding create_rif
create_rif-IsInverse e c c' v new h =
    let k = rif_entry_db_key_gen e in
    elim (Option-cases (find c.by_key k)) [
      | inl f ↦ subst IsInverse (ground (arith, f, h)) (fresh-IsInverse c k e.rif_id v f new)
      | inr (id, f) ↦
          let (n, g) = v.of_key k id f in
          subst IsInverse (ground (arith, f, g, h))
            (recount-IsInverse c id (inc n) (record { key = k; ref_cnt = n }) v g)
    ]

pub delete_rif-IsInverse : (id : ℕ) (c : RifCache) → IsInverse c → IsInverse (delete_rif id c).1
unfolding delete_rif
delete_rif-IsInverse id c v = elim (Option-cases (find c.by_id id)) [
  | inl e ↦ subst IsInverse (ground (arith, e)) v
  | inr (inst, e) ↦ elim (Bool-cases (dec inst.ref_cnt == 0)) [
    | inl last ↦ subst IsInverse (ground (arith, e, last)) (gone-IsInverse c id inst v e)
    | inr more ↦
        subst IsInverse (ground (arith, e, more))
          (recount-IsInverse c id (dec inst.ref_cnt) inst v e)
  ]
]

pub rif_ref-IsInverse :
    (id : ℕ) (op : RifOp) (c : RifCache) → IsInverse c → IsInverse (rif_ref id op c).2
unfolding rif_ref
rif_ref-IsInverse id op c v = elim (Option-cases (find c.by_id id)) [
  | inl e ↦ subst IsInverse (ground (arith, e)) v
  | inr (inst, e) ↦
      subst IsInverse (ground (arith, e))
        (recount-IsInverse c id (counted op inst.ref_cnt) inst v e)
]

start-IsInverse : IsInverse (record { by_key = empty; by_id = empty })
start-IsInverse = record {
  of_key = λ k id h. absurd (ground (arith, h, find-empty {V = ℕ} k));
  of_id = λ id inst h. absurd (ground (arith, h, find-empty {V = RifInst} id));
}

Step-IsInverse : (c c' : RifCache) → IsInverse c → Step c c' → IsInverse c'
Step-IsInverse c c' v (created e new h) = create_rif-IsInverse e c c' v new h
Step-IsInverse c c' v (deleted id) = delete_rif-IsInverse id c v
Step-IsInverse c c' v (referenced id op) = rif_ref-IsInverse id op c v

-- After any steps from empty tables, with each creation under an id that is not in use, the tables are
-- inverse to each other.
pub Reach-IsInverse : (c : RifCache) → Reach c → IsInverse c
Reach-IsInverse c start = start-IsInverse
Reach-IsInverse c (step {c = b} r s) = Step-IsInverse b c (Reach-IsInverse b r) s

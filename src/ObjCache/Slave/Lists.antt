-- ===== src/ObjCache/Slave/Lists.antt =====
-- The slave cache as a function from bridge ports to lists, with no entry for the empty list.
use opx_nas_ndi.Base.{
  ℕ, ◌≡◌, refl, ◌≢◌, inl, inr, none, some, List, [], ◌∷◌, ◌++◌, arith, Bool-cases, Option-cases,
  nat_key, ◌==◌, if◌then◌else◌, any, drop_first, drop_first_none,
}
use opx_nas_ndi.Base.Table.{find, find-put, find-erase, find-put_self}
use opx_nas_ndi.ObjCache.Slave.{
  Slave, SlaveObj, SlaveCache, add_brport_slave, remove_brport_slave, store_slaves, has_oid,
  for_each, brport_slave_callback,
}

-- The specification: the slaves of a bridge port, none where it has no entry.
abbrev pub slaves_of : SlaveCache → ℕ → List Slave
slaves_of c m = elim (find c m) [ none ↦ [] | some l ↦ l ]

-- No entry holds the empty list.
abbrev pub NoEmptyList : SlaveCache → Type 0
NoEmptyList c = (m : ℕ) → find c m ≢ some []

append-ne-nil : (xs : List Slave) (x : Slave) → xs ++ x ∷ [] ≢ []
append-ne-nil [] x = λ e. ground arith
append-ne-nil (y ∷ xs) x = λ e. ground arith

-- Adding appends to the list of the one bridge port.
pub slaves_of-add_brport_slave :
    (o : SlaveObj) (c : SlaveCache) (m : ℕ)
    → slaves_of (add_brport_slave (some o) c).1 m
      ≡ (if o.master_oid == m then slaves_of c m ++ o.slave ∷ [] else slaves_of c m)
unfolding add_brport_slave
slaves_of-add_brport_slave o c m = elim (Option-cases (find c o.master_oid)) [
  | inl e ↦ ground (arith, find-put c o.master_oid (o.slave ∷ []) m)
  | inr (l, e) ↦ ground (arith, find-put c o.master_oid (l ++ o.slave ∷ []) m)
]

slaves_of-store_slaves :
    (c : SlaveCache) (k : ℕ) (l : List Slave) (m : ℕ)
    → slaves_of (store_slaves c k l) m ≡ (if k == m then l else slaves_of c m)
unfolding store_slaves
slaves_of-store_slaves c k [] m = ground (arith, find-erase c k m)
slaves_of-store_slaves c k (x ∷ xs) m = ground (arith, find-put c k (x ∷ xs) m)

-- Removing answers whether the bridge port has the slave, drops its first occurrence there, and
-- leaves every other bridge port alone.
pub remove_brport_slave_lem :
    (o : SlaveObj) (c : SlaveCache) (m : ℕ)
    → let (found, c') = remove_brport_slave (some o) c in
      let hit = has_oid o.slave.slave_oid in
      (found ≡ any hit (slaves_of c o.master_oid))
      × (slaves_of c' m
          ≡ (if o.master_oid == m then drop_first hit (slaves_of c m) else slaves_of c m))
unfolding remove_brport_slave
remove_brport_slave_lem o c m = elim (Option-cases (find c o.master_oid)) [
  | inl e ↦ ground arith
  | inr (l, e) ↦ elim (Bool-cases (any (has_oid o.slave.slave_oid) l)) [
    | inl hit ↦
        ground (
          arith,
          slaves_of-store_slaves c o.master_oid (drop_first (has_oid o.slave.slave_oid) l) m,
        )
    | inr miss ↦ ground (arith, drop_first_none (has_oid o.slave.slave_oid) l)
  ]
]

-- No operation leaves an entry with an empty list behind.
pub add_brport_slave-NoEmptyList :
    (o : SlaveObj) (c : SlaveCache) → NoEmptyList c → NoEmptyList (add_brport_slave (some o) c).1
unfolding add_brport_slave
add_brport_slave-NoEmptyList o c h m = elim (Option-cases (find c o.master_oid)) [
  | inl e ↦ rw (e, add_brport_slave) (ground (arith, find-put c o.master_oid (o.slave ∷ []) m, h m))
  | inr (l, e) ↦
      rw (e, add_brport_slave)
        (ground
          (arith, find-put c o.master_oid (l ++ o.slave ∷ []) m, h m, append-ne-nil l o.slave))
]

store_slaves-NoEmptyList :
    (c : SlaveCache) (k : ℕ) (l : List Slave) → NoEmptyList c → NoEmptyList (store_slaves c k l)
unfolding store_slaves
store_slaves-NoEmptyList c k [] h m = ground (arith, find-erase c k m, h m)
store_slaves-NoEmptyList c k (x ∷ xs) h m = ground (arith, find-put c k (x ∷ xs) m, h m)

pub remove_brport_slave-NoEmptyList :
    (o : SlaveObj) (c : SlaveCache) → NoEmptyList c → NoEmptyList (remove_brport_slave (some o) c).1
unfolding remove_brport_slave
remove_brport_slave-NoEmptyList o c h m = elim (Option-cases (find c o.master_oid)) [
  | inl e ↦ ground (arith, h m)
  | inr (l, e) ↦ elim (Bool-cases (any (has_oid o.slave.slave_oid) l)) [
    | inl hit ↦ ground (
      arith,
      store_slaves-NoEmptyList c o.master_oid (drop_first (has_oid o.slave.slave_oid) l) h m,
    )
    | inr miss ↦ ground (arith, h m)
  ]
]

for_each-append {ℓ} :
    {S : Type ℓ} (fn : Slave → S → S) (xs ys : List Slave) (s : S)
    → for_each fn (xs ++ ys) s ≡ for_each fn ys (for_each fn xs s)
unfolding for_each
for_each-append fn [] ys s = refl
for_each-append fn (x ∷ xs) ys s = for_each-append fn xs ys (fn x s)

-- The callback runs once for each slave in order: a slave that was just added comes last.
pub brport_slave_callback-add {ℓ} :
    {S : Type ℓ} (o : SlaveObj) (c : SlaveCache) (fn : Slave → S → S) (s : S)
    → brport_slave_callback o.master_oid fn (add_brport_slave (some o) c).1 s
      ≡ fn o.slave (brport_slave_callback o.master_oid fn c s)
unfolding brport_slave_callback add_brport_slave for_each
brport_slave_callback-add o c fn s = elim (Option-cases (find c o.master_oid)) [
  | inl e ↦
      rw (e, add_brport_slave)
        (rw (find-put_self c o.master_oid (o.slave ∷ []), e, brport_slave_callback))
  | inr (l, e) ↦
      rw (e, add_brport_slave)
        (rw (find-put_self c o.master_oid (l ++ o.slave ∷ []), e, brport_slave_callback)
          (for_each-append fn l (o.slave ∷ []) s))
]

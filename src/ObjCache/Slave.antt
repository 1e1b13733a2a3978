-- ===== src/ObjCache/Slave.antt =====
-- `ndi_brport_slave_cache`: for each bridge port the VLAN member and STP ports made on it, in the
-- order of their creation.
pub mod Lists
use opx_nas_ndi.Base.{
  ℕ, Bool, true, false, Option, none, some, List, [], ◌∷◌, ◌++◌, nat_key, ◌==◌, if◌then◌else◌, any,
  drop_first,
}
use opx_nas_ndi.Base.Table.{Table, find, put, erase}

-- `ndi_brport_slave_type_t`
pub data SlaveType : Type 0 where
  vlan stp : SlaveType

-- `ndi_brport_slave_t`
pub record Slave : Type 0 where
  pub slave_oid : ℕ
  pub slave_type : SlaveType

-- `ndi_brport_slave_obj_t`
pub record SlaveObj : Type 0 where
  pub master_oid : ℕ
  pub slave : Slave

-- The member of `ndi_brport_slave_cache`.
abbrev pub SlaveCache : Type 0
SlaveCache = Table ℕ (List Slave)

unfoldable pub add_brport_slave : Option SlaveObj → SlaveCache → Bool × SlaveCache
add_brport_slave none c = (false, c)
add_brport_slave (some obj) c = elim (find c obj.master_oid) [
  | none ↦ (true, put c obj.master_oid (obj.slave ∷ []))
  | some slaves ↦ (true, put c obj.master_oid (slaves ++ obj.slave ∷ []))
]

abbrev pub has_oid : ℕ → Slave → Bool
has_oid oid s = s.slave_oid == oid

-- The entry is erased with its last slave.
store_slaves : SlaveCache → ℕ → List Slave → SlaveCache
store_slaves c master [] = erase c master
store_slaves c master (s ∷ slaves) = put c master (s ∷ slaves)

-- The loop erases the first slave with the id and returns; with no such slave it falls through.
unfoldable pub remove_brport_slave : Option SlaveObj → SlaveCache → Bool × SlaveCache
unfolding store_slaves
remove_brport_slave none c = (false, c)
remove_brport_slave (some obj) c = elim (find c obj.master_oid) [
  | none ↦ (false, c)
  | some slaves ↦
      let hit = has_oid obj.slave.slave_oid in
      if any hit slaves
      then (true, store_slaves c obj.master_oid (drop_first hit slaves))
      else (false, c)
]

-- The answer, and the caller's list, which is only written on success.
unfoldable pub get_brport_slave_list : ℕ → List Slave → SlaveCache → Bool × List Slave
get_brport_slave_list oid list c = elim (find c oid) [
  | none ↦ (false, list)
  | some slaves ↦ (true, slaves)
]

-- The callback acts on a state of the caller's.
unfoldable pub for_each {ℓ} : {S : Type ℓ} → (Slave → S → S) → List Slave → S → S
for_each fn [] s = s
for_each fn (x ∷ xs) s = for_each fn xs (fn x s)

unfoldable pub brport_slave_callback {ℓ} : {S : Type ℓ} → ℕ → (Slave → S → S) → SlaveCache → S → S
unfolding for_each
brport_slave_callback oid fn c s = elim (find c oid) [
  | none ↦ s
  | some slaves ↦ for_each fn slaves s
]

-- ===== src/Vlan/Membership.antt =====
-- The members in the map of value pairs: at most one pair for a port in a VLAN.
use mathlib.Core.Option
use opx_nas_ndi.Base.{
  ℕ, ◌+◌, ◌*◌, ◌^◌, ◌≡◌, ◌≢◌, inl, inr, Bool, false, Option, none, some, List, [], ◌∷◌, arith,
  nat_key, ◌==◌, if◌then◌else◌, Option-cases, Bool-cases, ok, std_err, npu, nexist,
}
use opx_nas_ndi.Base.Table.{find}
use opx_nas_ndi.NdiMap.{
  MapType, MapKey, MapData, MapVal, NdiMap, map_key_test, map_equal_iff, map_delete, copy_from,
}
use opx_nas_ndi.NdiMap.Contents.{map_insert_lem, map_delete_lem}
use opx_nas_ndi.Vlan.Members.{member_key, get_vlan_member_info_from_cache, add_vlan_member_to_cache}

-- Every member key that is present holds one pair, and the id in it is not null.
pub record IsSingle (m : NdiMap) : Type 0 where
  pub single :
      (id1 id2 : ℕ) (l : List MapData)
      → find m (record { type = MapType.vlan_member_id; id1 = id1; id2 = id2 }) ≡ some l
      → (d : MapData) × (l ≡ d ∷ []) × (d.val1 ≢ 0)

-- What the query answers for a key with one pair, and for an absent key.
pub get_vlan_member_info_from_cache_lem :
    (n v p : ℕ) (m : NdiMap) (o : Option MapData)
    → find m (member_key n v p) ≡ Option.map (λ d. d ∷ []) o
    → get_vlan_member_info_from_cache n v p m
      ≡ (elim o [ none ↦ (std_err npu nexist 0, none) | some d ↦ (ok, some d) ])
unfolding get_vlan_member_info_from_cache copy_from
get_vlan_member_info_from_cache_lem n v p m none h = ground (arith, h)
get_vlan_member_info_from_cache_lem n v p m (some d) h = ground (arith, h)

-- The pair of a port in a VLAN.
abbrev pub MemberAt : ℕ → ℕ → ℕ → NdiMap → Option MapData → Type 0
MemberAt n v p m o = find m (member_key n v p) ≡ Option.map (λ d. d ∷ []) o

pub member_cases :
    (n v p : ℕ) (m : NdiMap)
    → IsSingle m
    → (o : Option MapData) × MemberAt n v p m o × ((d : MapData) → o ≡ some d → d.val1 ≢ 0)
member_cases n v p m x = elim (Option-cases (find m (member_key n v p))) [
  | inl e ↦ (none, ground (arith, e), λ d h. ground (arith, h))
  | inr (l, e) ↦
      let (d, one, nonnull) = x.single (n * 2 ^ 32 + v) p l e in
      (some d, ground (arith, e, one), λ d' h. ground (arith, h, nonnull))
]

-- An addition to a cache with one pair or none stores the pair given, unless it has its tagging mode.
pub add_vlan_member_to_cache_lem :
    (n v p member mode : ℕ) (m : NdiMap) (o : Option MapData) (j : MapKey)
    → MemberAt n v p m o
    → let new : MapData = record { val1 = member; val2 = mode } in
      let kept : Bool = elim o [ none ↦ false | some d ↦ d.val2 == mode ] in
      let (rc, m') = add_vlan_member_to_cache n v p member mode m in
      (rc ≡ ok)
      × (find m' j ≡ (
          if kept then find m j else if member_key n v p == j then some (new ∷ []) else find m j))
unfolding add_vlan_member_to_cache
add_vlan_member_to_cache_lem n v p member mode m none j h =
    let val : MapVal = record { count = 1; buffer = record { val1 = member; val2 = mode } ∷ [] } in
    ground (
      arith,
      h,
      get_vlan_member_info_from_cache_lem n v p m none,
      map_insert_lem (member_key n v p) val m j,
    )
add_vlan_member_to_cache_lem n v p member mode m (some d) j h =
    let key = member_key n v p in
    let val : MapVal = record { count = 1; buffer = record { val1 = member; val2 = mode } ∷ [] } in
    let m1 = (map_delete key m).1 in
    ground (
      arith,
      h,
      get_vlan_member_info_from_cache_lem n v p m (some d),
      map_delete_lem key m j,
      map_delete_lem key m key,
      map_insert_lem key val m1 j,
    )

-- A change of one member key to a pair with an id keeps the others.
pub put-IsSingle :
    (n v p : ℕ) (m m' : NdiMap) (o : Option MapData)
    → IsSingle m
    → ((d : MapData) → o ≡ some d → d.val1 ≢ 0)
    → MemberAt n v p m' o
    → ((j : MapKey) → (member_key n v p == j) ≡ false → find m' j ≡ find m j)
    → IsSingle m'
put-IsSingle n v p m m' o x nonnull here others = record {
  single = λ id1 id2 l h.
      let j : MapKey = record { type = MapType.vlan_member_id; id1 = id1; id2 = id2 } in
      elim (Bool-cases (member_key n v p == j)) [
        | inr other ↦ x.single id1 id2 l (ground (arith, h, others j other))
        | inl same ↦
            let at : member_key n v p ≡ j = (map_equal_iff (member_key n v p) j).0 same in
            let stored : some l ≡ Option.map (λ (d : MapData). d ∷ []) o =
              ground (arith, h, here, at) in
            elim (Option-cases o) [
              | inl e ↦ absurd (ground (arith, e, stored))
              | inr (d, e) ↦ (d, ground (arith, e, stored), nonnull d e)
            ]
      ];
}

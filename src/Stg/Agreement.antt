-- ===== src/Stg/Agreement.antt =====
-- The agreement of the two indexes of the STP ports, and additions that keep it.
use opx_nas_ndi.Base.{
  ℕ, ◌≡◌, ◌≢◌, refl, inl, inr, Bool, true, false, ◌&&◌, none, some, List, [], ◌∷◌, ◌++◌, arith,
  nat_key, nat_beq, any, Option-cases, any-append,
}
use opx_nas_ndi.Base.Table.{find}
use opx_nas_ndi.NdiMap.{MapData, NdiMap, map_key_test}
use opx_nas_ndi.Stg.Cache.{stp_port_key, port_stps_key, add_port_to_cache}
use opx_nas_ndi.Stg.Index.{has_port, pair, stps_of, add_port_to_cache_lem}

-- No STP port stands twice in a list.
abbrev pub Distinct : List MapData → Type 0
Distinct [] = Unit
Distinct (d ∷ l) = (any (has_port d.val1) l ≡ false) × Distinct l

-- Whether a list has an STP port with its group.
abbrev pub has_pair : ℕ → ℕ → MapData → Bool
has_pair p stp d = nat_beq p d.val1 && nat_beq stp d.val2

-- The agreement: each entry of a group and a bridge port holds one STP port, which the list of the
-- bridge port has with that group; each pair of a list has such an entry and is not null; and no list
-- has an STP port twice.
pub record IsIndexed (m : NdiMap) : Type 0 where
  pub single :
      (stp br : ℕ) (l : List MapData)
      → find m (stp_port_key stp br) ≡ some l
      → (p : ℕ) × (l ≡ pair p 0 ∷ []) × (any (has_pair p stp) (stps_of m br) ≡ true)
  pub back :
      (br p stp : ℕ)
      → any (has_pair p stp) (stps_of m br) ≡ true
      → (find m (stp_port_key stp br) ≡ some (pair p 0 ∷ [])) × (p ≢ 0)
  pub distinct : (br : ℕ) → Distinct (stps_of m br)

Distinct-append :
    (l : List MapData) (p stp : ℕ)
    → Distinct l
    → any (has_port p) l ≡ false
    → Distinct (l ++ pair p stp ∷ [])
Distinct-append [] p stp d h = (refl, tt)
Distinct-append (x ∷ l) p stp d h = (
  ground (arith, h, d.0, any-append (has_port x.val1) l (pair p stp)),
  Distinct-append l p stp d.1 (ground (arith, h)),
)

-- Where the indexes agree, the addition of an STP port that is not null and that the bridge port does
-- not list, for a group and a bridge port that have none, keeps the agreement.
pub add_port_to_cache-IsIndexed :
    (stp br p : ℕ) (m : NdiMap)
    → IsIndexed m
    → find m (stp_port_key stp br) ≡ none
    → any (has_port p) (stps_of m br) ≡ false
    → p ≢ 0
    → IsIndexed (add_port_to_cache stp br p m).1
add_port_to_cache-IsIndexed stp br p m ix absent new nonnull = record {
  single = λ t b l h. elim (Option-cases (find m (stp_port_key t b))) [
    | inl e ↦ (
      p,
      ground (arith, h, e, absent, add_port_to_cache_lem stp br p m (stp_port_key t b)),
      ground (
        arith,
        h,
        e,
        absent,
        add_port_to_cache_lem stp br p m (stp_port_key t b),
        add_port_to_cache_lem stp br p m (port_stps_key b),
        any-append (has_pair p t) (stps_of m br) (pair p stp),
      ),
    )
    | inr (l', e) ↦
        let (q, one, there) = ix.single t b l' e in
        (
          q,
          ground (arith, h, e, one, absent, add_port_to_cache_lem stp br p m (stp_port_key t b)),
          ground (
            arith,
            h,
            e,
            there,
            absent,
            add_port_to_cache_lem stp br p m (port_stps_key b),
            any-append (has_pair q t) (stps_of m br) (pair p stp),
          ),
        )
  ];
  back = λ b q t h.
      let at = add_port_to_cache_lem stp br p m (stp_port_key t b) in
      let list = add_port_to_cache_lem stp br p m (port_stps_key b) in
      ground (
        arith,
        h,
        at,
        list,
        ix.back b q t,
        absent,
        nonnull,
        any-append (has_pair q t) (stps_of m br) (pair p stp),
      );
  distinct = λ b.
      let list = add_port_to_cache_lem stp br p m (port_stps_key b) in
      ground
        (arith, list, ix.distinct b, Distinct-append (stps_of m br) p stp (ix.distinct br) new);
}

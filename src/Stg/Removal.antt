-- ===== src/Stg/Removal.antt =====
-- Deletions keep the agreement of the two indexes of the STP ports.
use opx_nas_ndi.Base.{
  ℕ, ◌≡◌, ◌≢◌, ◌⊎◌, refl, inl, inr, true, false, not, ◌&&◌, none, some, List, [], ◌∷◌, arith,
  nat_key, ◌==◌, nat_beq, if◌then◌else◌, any, keep, Option-cases, Bool-cases,
}
use opx_nas_ndi.Base.Table.{find}
use opx_nas_ndi.NdiMap.{MapData, NdiMap, map_key_test}
use opx_nas_ndi.Stg.Cache.{
  stp_port_key, port_stps_key, get_stp_port_id_from_cache, del_port_from_cache,
}
use opx_nas_ndi.Stg.Index.{
  has_port, not_port, pair, stps_of, get_stp_port_id_from_cache_lem, del_port_from_cache_lem,
}
use opx_nas_ndi.Stg.Agreement.{Distinct, has_pair, IsIndexed}

-- A deletion takes a pair with another STP port off no list.
any-keep :
    (p q stp : ℕ) (l : List MapData)
    → any (has_pair q stp) (keep (not_port p) l) ≡ (any (has_pair q stp) l && not (nat_beq p q))
any-keep p q stp [] = refl
any-keep p q stp (d ∷ l) = ground (arith, any-keep p q stp l)

any_port-keep :
    (p q : ℕ) (l : List MapData)
    → any (has_port q) l ≡ false
    → any (has_port q) (keep (not_port p) l) ≡ false
any_port-keep p q [] h = refl
any_port-keep p q (d ∷ l) h = ground (arith, h, any_port-keep p q l (ground (arith, h)))

Distinct-keep : (p : ℕ) (l : List MapData) → Distinct l → Distinct (keep (not_port p) l)
Distinct-keep p [] d = tt
Distinct-keep p (x ∷ l) d = elim (Bool-cases (not_port p x)) [
  | inl e ↦ ground (arith, e, Distinct-keep p l d.1, any_port-keep p x.val1 l d.0)
  | inr e ↦ ground (arith, e, Distinct-keep p l d.1)
]

-- A pair with a group is one with the STP port.
pair-port : (p s : ℕ) (l : List MapData) → any (has_pair p s) l ≡ true → any (has_port p) l ≡ true
pair-port p s [] h = h
pair-port p s (x ∷ l) h = ground (arith, h, pair-port p s l)

-- One STP port belongs to one group.
same_group :
    (p s t : ℕ) (l : List MapData)
    → Distinct l
    → any (has_pair p s) l ≡ true
    → any (has_pair p t) l ≡ true
    → s ≡ t
same_group p s t [] d hs ht = ground (arith, hs)
same_group p s t (x ∷ l) d hs ht =
    ground (arith, hs, ht, d.0, pair-port p s l, pair-port p t l, same_group p s t l d.1)

-- The STP port that an agreeing cache answers stands in the list of the bridge port.
pub answered_pair :
    (stp br : ℕ) (m : NdiMap)
    → IsIndexed m
    → let p = get_stp_port_id_from_cache stp br m in
      p ≢ 0 → any (has_pair p stp) (stps_of m br) ≡ true
answered_pair stp br m ix h = elim (Option-cases (find m (stp_port_key stp br))) [
  | inl e ↦ ground (arith, h, e, get_stp_port_id_from_cache_lem stp br m)
  | inr (l, e) ↦
      let (q, one, there) = ix.single stp br l e in
      ground (arith, h, e, one, there, get_stp_port_id_from_cache_lem stp br m)
]

-- The list of a bridge port after a deletion.
pub stps_of-del :
    (stp br : ℕ) (m : NdiMap) (b : ℕ)
    → let p = get_stp_port_id_from_cache stp br m in
      stps_of (del_port_from_cache stp br m).1 b
      ≡ (if br == b then keep (not_port p) (stps_of m b) else stps_of m b)
stps_of-del stp br m b = elim (Option-cases (find m (port_stps_key b))) [
  | inl e ↦ ground (arith, e, del_port_from_cache_lem stp br m (port_stps_key b))
  | inr (l, e) ↦ ground (arith, e, del_port_from_cache_lem stp br m (port_stps_key b))
]

-- A pair of another group has another STP port than the cache answers.
other_group :
    (stp br : ℕ) (m : NdiMap) (q t : ℕ)
    → IsIndexed m
    → any (has_pair q t) (stps_of m br) ≡ true
    → get_stp_port_id_from_cache stp br m ≡ q
    → t ≡ stp
other_group stp br m q t ix h same =
    let there = answered_pair stp br m ix in
    ground (
      arith,
      h,
      same,
      there,
      (ix.back br q t h).1,
      same_group q t stp (stps_of m br) (ix.distinct br) h,
    )

-- Where the indexes agree, they agree after any deletion.
pub del_port_from_cache-IsIndexed :
    (stp br : ℕ) (m : NdiMap) → IsIndexed m → IsIndexed (del_port_from_cache stp br m).1
del_port_from_cache-IsIndexed stp br m ix =
    let p = get_stp_port_id_from_cache stp br m in
    record {
      single = λ t b l h. by_entry t b l h (Option-cases (find m (stp_port_key t b)));
      back = λ b q t h.
          let before : any (has_pair q t) (stps_of m b) ≡ true =
            ground (arith, h, stps_of-del stp br m b, any-keep p q t (stps_of m b)) in
          ground (
            arith,
            h,
            ix.back b q t before,
            stps_of-del stp br m b,
            any-keep p q t (stps_of m b),
            get_stp_port_id_from_cache_lem stp br m,
            del_port_from_cache_lem stp br m (stp_port_key t b),
          );
      distinct =
          λ b. ground (arith, stps_of-del stp br m b, ix.distinct b, Distinct-keep p (stps_of m b));
    }
  where
    by_entry :
        (t b : ℕ) (l : List MapData)
        → find (del_port_from_cache stp br m).1 (stp_port_key t b) ≡ some l
        → (find m (stp_port_key t b) ≡ none)
          ⊎ ((l' : List MapData) × (find m (stp_port_key t b) ≡ some l'))
        → (p : ℕ) × (l ≡ pair p 0 ∷ [])
          × (any (has_pair p t) (stps_of (del_port_from_cache stp br m).1 b) ≡ true)
    by_entry t b l h (inl e) =
        absurd (ground (arith, h, e, del_port_from_cache_lem stp br m (stp_port_key t b)))
    by_entry t b l h (inr (l', e)) =
        let p = get_stp_port_id_from_cache stp br m in
        let (q, one, there) = ix.single t b l' e in
        (
          q,
          ground (arith, h, e, one, del_port_from_cache_lem stp br m (stp_port_key t b)),
          ground (
            arith,
            h,
            there,
            stps_of-del stp br m b,
            any-keep p q t (stps_of m b),
            other_group stp br m q t ix,
            del_port_from_cache_lem stp br m (stp_port_key t b),
          ),
        )

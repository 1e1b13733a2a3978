-- ===== src/RifCache.antt =====
-- src/nas_ndi_router_interface_utl.cpp and inc/opx/nas_ndi_router_interface_utl.h: the router interfaces
-- by key and by id, with a count of references.
pub mod Inverse
pub mod Counting
use opx_nas_ndi.Base.{
  ℕ, ◌+◌, ◌-◌, ◌%◌, ◌^◌, ◌≡◌, ◌↔◌, Bool, true, false, ◌&&◌, Option, none, some, arith, nat_beq,
  KeyTest, ◌==◌, nat_key, if◌then◌else◌, StdError, ok, std_err, route, fail,
}
use opx_nas_ndi.Base.Table.{Table, find, put, erase}

-- `rif_type` with the member of the union `attachment` that it selects; for a type that the code does
-- not list the union stays zero.
pub data Attachment : Type 0 where
  port : ℕ → ℕ → Attachment
  lag : ℕ → Attachment
  vlan : ℕ → Attachment
  bridge : ℕ → Attachment
  unlisted : ℕ → Attachment

abbrev pub same_attachment : Attachment → Attachment → Bool
same_attachment (Attachment.port n p) (Attachment.port m q) = nat_beq n m && nat_beq p q
same_attachment (Attachment.lag a) (Attachment.lag b) = nat_beq a b
same_attachment (Attachment.vlan a) (Attachment.vlan b) = nat_beq a b
same_attachment (Attachment.bridge a) (Attachment.bridge b) = nat_beq a b
same_attachment (Attachment.unlisted a) (Attachment.unlisted b) = nat_beq a b
same_attachment _ _ = false

same_attachment_iff : (a b : Attachment) → (same_attachment a b ≡ true) ↔ (a ≡ b)
same_attachment_iff a b = ground arith

abbrev pub same_mac : Option ℕ → Option ℕ → Bool
same_mac none none = true
same_mac (some a) (some b) = nat_beq a b
same_mac _ _ = false

same_mac_iff : (a b : Option ℕ) → (same_mac a b ≡ true) ↔ (a ≡ b)
same_mac_iff a b = ground arith

-- What `ndi_rif_entry_key_equal` compares: the MAC address counts for a virtual interface only, so
-- `mac` is `none` exactly if `is_virtual` is false.
pub record RifKey : Type 0 where
  pub npu_id : ℕ
  pub vrf_oid : ℕ
  pub attachment : Attachment
  pub mac : Option ℕ

-- `ndi_rif_entry_key_equal`
abbrev pub rif_key_equal : RifKey → RifKey → Bool
rif_key_equal k1 k2 =
    nat_beq k1.npu_id k2.npu_id
    && (nat_beq k1.vrf_oid k2.vrf_oid
        && (same_mac k1.mac k2.mac && same_attachment k1.attachment k2.attachment))

pub rif_key_equal_iff : (k1 k2 : RifKey) → (rif_key_equal k1 k2 ≡ true) ↔ (k1 ≡ k2)
rif_key_equal_iff k1 k2 =
    ground (arith, same_mac_iff k1.mac k2.mac, same_attachment_iff k1.attachment k2.attachment)

instance abbrev pub rif_key_test : KeyTest RifKey
rif_key_test = record { same = rif_key_equal; same_iff = rif_key_equal_iff }

-- `ndi_rif_entry_t`, the request: `is_virtual` is the flag `NDI_RIF_ATTR_VIRTUAL`.
pub record RifEntry : Type 0 where
  pub npu_id : ℕ
  pub vrf_id : ℕ
  pub attachment : Attachment
  pub is_virtual : Bool
  pub src_mac : ℕ
  pub rif_id : ℕ

-- `ndi_rif_entry_db_key_gen`
abbrev pub rif_entry_db_key_gen : RifEntry → RifKey
rif_entry_db_key_gen e = record {
  npu_id = e.npu_id;
  vrf_oid = e.vrf_id;
  attachment = e.attachment;
  mac = if e.is_virtual then some e.src_mac else none;
}

-- `ndi_rif_entry_db_t`, as the table by id owns it.
pub record RifInst : Type 0 where
  pub key : RifKey
  pub ref_cnt : ℕ

-- `ndi_rif_entry_db` and `ndi_rif_id_db`. The pointers of the second are shared with nothing and never
-- `NULL`, so it holds its instances by value.
pub record RifCache : Type 0 where
  pub by_key : Table RifKey ℕ
  pub by_id : Table ℕ RifInst

-- `ref_cnt++` and `ref_cnt--` on 32 bits.
abbrev pub inc : ℕ → ℕ
inc n = (n + 1) % 2 ^ 32

abbrev pub dec : ℕ → ℕ
dec n = (n + 2 ^ 32 - 1) % 2 ^ 32

-- `ndi_rif_utl_create_rif`; `none` is the use of an iterator at the end of the table by id.
unfoldable pub create_rif : RifEntry → RifCache → Option (StdError × RifCache)
create_rif e c =
    let key = rif_entry_db_key_gen e in
    elim (find c.by_key key) [
      | none ↦ some (
        ok,
        record {
          by_key = put c.by_key key e.rif_id;
          by_id = put c.by_id e.rif_id (record { key = key; ref_cnt = 1 });
        },
      )
      | some id ↦ elim (find c.by_id id) [
        | none ↦ none
        | some inst ↦
            some
              (ok, record c { by_id = put c.by_id id (record inst { ref_cnt = inc inst.ref_cnt }) })
      ]
    ]

-- `ndi_rif_utl_delete_rif`
unfoldable pub delete_rif : ℕ → RifCache → StdError × RifCache
delete_rif rif_id c = elim (find c.by_id rif_id) [
  | none ↦ (std_err route fail 0, c)
  | some inst ↦
      if dec inst.ref_cnt == 0
      then (ok, record { by_key = erase c.by_key inst.key; by_id = erase c.by_id rif_id })
      else (
        ok,
        record c { by_id = put c.by_id rif_id (record inst { ref_cnt = dec inst.ref_cnt }) },
      )
]

-- `ndi_rif_utl_get_rif_id`: the id, when it is written.
unfoldable pub get_rif_id : RifEntry → RifCache → StdError × Option ℕ
get_rif_id e c = elim (find c.by_key (rif_entry_db_key_gen e)) [
  | none ↦ (std_err route fail 0, none)
  | some id ↦ (ok, some id)
]

-- `ndi_rif_utl_op_t`
pub data RifOp : Type 0 where
  inc_op dec_op get_op : RifOp

-- `switch (op)`
abbrev pub counted : RifOp → ℕ → ℕ
counted RifOp.inc_op n = inc n
counted RifOp.dec_op n = dec n
counted RifOp.get_op n = n

-- `ndi_rif_utl_rif_ref`: the answer, the count when it is written, and the cache.
unfoldable pub rif_ref : ℕ → RifOp → RifCache → StdError × Option ℕ × RifCache
rif_ref rif_id op c = elim (find c.by_id rif_id) [
  | none ↦ (std_err route fail 0, none, c)
  | some inst ↦
      let n = counted op inst.ref_cnt in
      (ok, some n, record c { by_id = put c.by_id rif_id (record inst { ref_cnt = n }) })
]

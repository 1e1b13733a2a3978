-- ===== src/NpuDb.antt =====
-- src/nas_ndi_utils.cpp, lines 50 to 72: the table of the NPUs and the pointer to an entry. An address
-- is a number and `NULL` is 0.
use opx_nas_ndi.Base.{ℕ, ◌+◌, ◌*◌, Bool, nat_key, ◌==◌}

-- `g_nas_ndi_db_tbl`, and the size of an entry, which other packages fix.
pub record NpuDb : Type 0 where
  pub base : ℕ
  pub entry_size : ℕ

abbrev pub ndi_npu_id_get : ℕ
ndi_npu_id_get = 0

unfoldable pub ndi_db_ptr_get : NpuDb → ℕ → ℕ
ndi_db_ptr_get db npu_id = db.base + npu_id * db.entry_size

-- `ndi_db_ptr == NULL`
abbrev pub is_null : ℕ → Bool
is_null p = p == 0

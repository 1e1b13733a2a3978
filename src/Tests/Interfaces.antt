-- ===== src/Tests/Interfaces.antt =====
-- The router interface cache, at two ports.
use opx_nas_ndi.Base.{◌≡◌, refl, false, some, arith, nat_key, ok}
use opx_nas_ndi.Base.Table.{find, put, empty}
use opx_nas_ndi.RifCache.{
  Attachment, RifEntry, RifCache, rif_key_test, rif_entry_db_key_gen, create_rif, delete_rif,
}
use opx_nas_ndi.RifCache.Counting.{SameTables, id_of, delete_rif-create_rif}
use opx_nas_ndi.RifCache.Inverse.{IsInverse, Reach, created, start, step, Reach-IsInverse}

abbrev on_port : RifEntry
on_port = record {
  npu_id = 0;
  vrf_id = 1;
  attachment = Attachment.port 0 5;
  is_virtual = false;
  src_mac = 99;
  rif_id = 600;
}

-- Another port, with the same id.
abbrev on_other_port : RifEntry
on_other_port = record {
  npu_id = 0;
  vrf_id = 1;
  attachment = Attachment.port 0 6;
  is_virtual = false;
  src_mac = 99;
  rif_id = 600;
}

-- The MAC address of an interface that is not virtual is not compared.
abbrev on_port_again : RifEntry
on_port_again = record on_port { src_mac = 77; rif_id = 601 }

abbrev nothing : RifCache
nothing = record { by_key = empty; by_id = empty }

abbrev one_rif : RifCache
one_rif = record {
  by_key = put empty (rif_entry_db_key_gen on_port) 600;
  by_id = put empty 600 (record { key = rif_entry_db_key_gen on_port; ref_cnt = 1 });
}

made : create_rif on_port nothing ≡ some (ok, one_rif)
unfolding create_rif find empty put
made = refl

-- A second reference and two deletions.
counted_down :
    create_rif on_port_again one_rif
    ≡ some (
      ok,
      record {
        by_key = put empty (rif_entry_db_key_gen on_port) 600;
        by_id = put empty 600 (record { key = rif_entry_db_key_gen on_port; ref_cnt = 2 });
      },
    )
unfolding create_rif find empty put
counted_down = refl

reached : Reach one_rif
unfolding find empty
reached = step start (created on_port refl made)

Reach-IsInverse_example : IsInverse one_rif
Reach-IsInverse_example = Reach-IsInverse one_rif reached

delete_rif-create_rif_example :
    (c' : RifCache) × (create_rif on_port_again one_rif ≡ some (ok, c'))
    × (find c'.by_key (rif_entry_db_key_gen on_port_again) ≡ some (id_of on_port_again one_rif))
    × SameTables (delete_rif (id_of on_port_again one_rif) c').1 one_rif
unfolding find empty put
delete_rif-create_rif_example =
    delete_rif-create_rif on_port_again one_rif (Reach-IsInverse one_rif reached)
      (λ h. absurd (ground (arith, h))) (λ inst h. ground (arith, h))

-- ===== src/Paging/Tests.antt =====
-- Tests of the model of src/memory/paging/paging.c, and the inputs at which its theorems are applied.
use unagi_os.Common.{◌+◌, ◌%◌, ◌*◌, ◌^◌, ◌<◌, ◌≡◌, refl, [], ◌∷◌, some, arith, inr}
use unagi_os.Paging.{
  DirectoryEntry, Memory, pd_entry_set_flags, pd_entry_to_val, pd_table_set,
  vaddress_to_page_indexes, paging_set_page, total_entries, page_size,
}
use unagi_os.Paging.Entries.{set_flags_to_val, vaddress_to_page_indexes_lem}
use unagi_os.Paging.Walk.{walk, paging_set_page_lem}

-- an entry whose table is at 0x100000
abbrev entry : DirectoryEntry
entry = record {
  p = 1;
  r_w = 1;
  u_s = 1;
  a = 0;
  pwt = 0;
  pcd = 0;
  avl1 = 0;
  ps = 0;
  avl0 = 0;
  higher_address = 0x100;
}

abbrev empty : Memory
empty = λ t i. record {
  p = 0;
  r_w = 0;
  u_s = 0;
  pwt = 0;
  pcd = 0;
  a = 0;
  d = 0;
  pat = 0;
  g = 0;
  avl = 0;
  higher_address = 0;
}

-- The flag "write through", bit 3 of a directory's entry, is stored in the field that is its bit 4.
write_through : ((pd_entry_set_flags entry 8).pwt ≡ 1) × ((pd_entry_set_flags entry 8).a ≡ 0)
unfolding pd_entry_set_flags
write_through = (refl, refl)

vaddress_to_page_indexes_lem_example :
    ((vaddress_to_page_indexes 0x12345678).0 < total_entries)
    × ((vaddress_to_page_indexes 0x12345678).1 < total_entries)
    × ((vaddress_to_page_indexes 0x12345678).0 * 2 ^ 22
          + (vaddress_to_page_indexes 0x12345678).1 * 2 ^ 12
          + 0x12345678 % page_size
        ≡ 0x12345678)
vaddress_to_page_indexes_lem_example = vaddress_to_page_indexes_lem 0x12345678 (omega arith)

paging_set_page_lem_example :
    (mem' : Memory) × (paging_set_page (entry ∷ entry ∷ []) 0x1000 0x5007 empty ≡ some mem')
    × (walk (entry ∷ entry ∷ []) mem' 0x1234 ≡ some (pd_table_set 0x5007))
paging_set_page_lem_example =
    paging_set_page_lem (entry ∷ entry ∷ []) empty 0x1000 0x5007 0x100000 (omega arith) refl
      (omega arith) 0x1234 0x100000 refl (inr refl)

set_flags_to_val_example : pd_entry_to_val (pd_entry_set_flags entry 0x107) ≡ 0x100 * 2 ^ 12 + 0x107
set_flags_to_val_example = set_flags_to_val entry 0x107

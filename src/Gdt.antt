-- ===== src/Gdt.antt =====
-- src/gdt/gdt.c and gdt.h: segment descriptors, and the table that they are appended to; with the
-- loop of src/kernel/process.c that appends one descriptor for each task.
--
-- `gdt_migration`, which copies the boot loader's table at its address in memory, is not modelled.
pub mod Append
mod Tests
use unagi_os.Common.{
  ℕ, zero, suc, ◌+◌, ◌*◌, ◌/◌, ◌%◌, ◌^◌, Option, none, some, List, [], ◌∷◌, ltb, if◌then◌else◌,
  length, set, ◌>>=◌,
}

-- `GDT32SD`
pub record SegmentDescriptor : Type 0 where
  pub limit_low : ℕ
  pub base_low : ℕ
  pub base_mid : ℕ
  pub access_byte : ℕ
  pub limit_high : ℕ
  pub flags : ℕ
  pub base_high : ℕ

-- `GDTR32`'s limit, and the array of descriptors
pub record Gdt : Type 0 where
  pub limit : ℕ
  pub gdts : List SegmentDescriptor

-- `gdt_set_segmdesc`, which sets every field
unfoldable pub set_segmdesc : ℕ → ℕ → ℕ → SegmentDescriptor
set_segmdesc limit base ar = record {
  flags = 0xc;
  limit_low = limit % 2 ^ 16;
  base_low = base % 2 ^ 16;
  base_mid = base / 2 ^ 16 % 2 ^ 8;
  access_byte = ar % 2 ^ 8;
  limit_high = limit / 2 ^ 16 % 2 ^ 4;
  base_high = base / 2 ^ 24 % 2 ^ 8;
}

-- `gdt_append`: the selector, and the table. A write behind the array is a fault.
unfoldable pub append : SegmentDescriptor → Gdt → Option (ℕ × Gdt)
append sd g =
    let d_len = (g.limit + 1) / 8 in
    if ltb d_len (length g.gdts)
    then some
        (d_len * 8 % 2 ^ 16, record { limit = (g.limit + 8) % 2 ^ 16; gdts = set g.gdts d_len sd })
    else none

-- The loop of `mprocess_init` with `n` tasks left, at the task `i`, whose `TSS32` of 108 bytes is at
-- `tss i`: the selectors that it assigns to the tasks, those that `gdt_append` returns, and the table.
unfoldable pub append_tss : (ℕ → ℕ) → ℕ → ℕ → Gdt → Option (List (ℕ × ℕ) × Gdt)
append_tss tss zero i g = some ([], g)
append_tss tss (suc n) i g = do
  (selector, g') ← append (set_segmdesc 108 (tss i) 0x89) g
  (rest, g'') ← append_tss tss n (i + 1) g'
  some (((3 + i) * 8, selector) ∷ rest, g'')

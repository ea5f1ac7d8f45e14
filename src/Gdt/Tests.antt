-- ===== src/Gdt/Tests.antt =====
-- Tests of the model of src/gdt/gdt.c, and the inputs at which its theorems are applied.
use unagi_os.Common.{ltb, if◌then◌else◌, ℕ, ◌+◌, ◌*◌, replicate}
use unagi_os.Gdt.{SegmentDescriptor, Gdt}

abbrev null_descriptor : SegmentDescriptor
null_descriptor = record {
  limit_low = 0;
  base_low = 0;
  base_mid = 0;
  access_byte = 0;
  limit_high = 0;
  flags = 0;
  base_high = 0;
}

-- the table of the boot loader, with its three descriptors
abbrev booted : Gdt
booted = record { limit = 23; gdts = replicate 8192 null_descriptor }

-- where the task states of 108 bytes stand
abbrev states : ℕ → ℕ
states i = if ltb i 1000 then 0x1000 + 108 * i else 0

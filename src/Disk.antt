-- ===== src/Disk.antt =====
-- src/disk/disk.c and disk.h: reading sectors from the first ATA drive, by its ports.
--
-- The ports are hardware: `Ports` has the effect of each instruction on a state of the device. A
-- `DISK *` is 0 for `NULL`, and 1 for `&disk`. An `int32_t` is held as its two's complement, and a
-- buffer is the list of its bytes. A wait whose fuel runs out is `none`.
pub mod Ata
pub mod Stream
mod Tests
use unagi_os.Common.{
  ℕ, zero, suc, ◌+◌, ◌*◌, ◌/◌, ◌%◌, ◌^◌, Bool, true, false, Option, none, some, List, [], ◌∷◌, ◌++◌,
  ◌==◌, if◌then◌else◌, ◌>>=◌,
}
use unagi_os.Common.Int.{ℤ, pos}
use unagi_os.Status.{eio}

-- `_io_out8`, `_io_in8` and `_io_in16`
pub record Ports (S : Type 0) : Type 0 where
  pub out8 : ℕ → ℕ → S → S
  pub in8 : ℕ → S → ℕ × S
  pub in16 : ℕ → S → ℕ × S

-- `ATA_DATA_RW`, `ATA_SECTOR_COUNT_RW`, …, `ATA_STATUS_R`, which is `ATA_CMD_W`
abbrev pub data_port : ℕ
data_port = 0x1f0

abbrev pub count_port : ℕ
count_port = 0x1f2

abbrev pub lba_low_port : ℕ
lba_low_port = 0x1f3

abbrev pub lba_mid_port : ℕ
lba_mid_port = 0x1f4

abbrev pub lba_high_port : ℕ
lba_high_port = 0x1f5

abbrev pub device_port : ℕ
device_port = 0x1f6

abbrev pub status_port : ℕ
status_port = 0x1f7

-- `OS_DISK_SECTOR_SIZE`
abbrev pub sector_size : ℕ
sector_size = 512

-- `DISK`
pub record Disk : Type 0 where
  pub kind : ℕ
  pub bytes : ℕ

-- `DISK *`, with `NULL` and `&disk`
abbrev pub DiskPtr : Type 0
DiskPtr = ℕ

abbrev pub null : DiskPtr
null = 0

abbrev pub disk_address : DiskPtr
disk_address = 1

module _ {S : Type 0} (io : Ports S) where
  -- the writes of `disk_read_sector`; the bit 0x40 is clear in `lba >> 24`, so `|` adds
  unfoldable pub command : ℕ → ℕ → S → S
  command lba0 total s =
      let lba = lba0 % 2 ^ 28 in
      let s1 = io.out8 count_port (total % 256) s in
      let s2 = io.out8 lba_low_port (lba % 256) s1 in
      let s3 = io.out8 lba_mid_port (lba / 2 ^ 8 % 256) s2 in
      let s4 = io.out8 lba_high_port (lba / 2 ^ 16 % 256) s3 in
      let s5 = io.out8 device_port (lba / 2 ^ 24 + 0x40) s4 in io.out8 status_port 0x20 s5

  -- `while (!(s & 0x08))`
  unfoldable pub wait_ready : ℕ → S → Option S
  wait_ready zero s = none
  wait_ready (suc fuel) s =
      let (status, s1) = io.in8 status_port s in
      let rest = wait_ready fuel s1 in if status / 8 % 2 == 1 then some s1 else rest

  -- the inner loop of `disk_read_sector`, with `n` words left
  unfoldable pub read_words : ℕ → S → List ℕ × S
  read_words zero s = ([], s)
  read_words (suc n) s =
      let (w, s1) = io.in16 data_port s in
      let (rest, s2) = read_words n s1 in (w % 256 ∷ w / 256 % 256 ∷ rest, s2)

  -- the outer loop, with `n` sectors left; 256 is `OS_DISK_SECTOR_SIZE / 2`
  unfoldable pub read_loop : ℕ → ℕ → S → Option (List ℕ × S)
  unfolding wait_ready read_words
  read_loop wait zero s = some ([], s)
  read_loop wait (suc n) s = do
    s1 ← wait_ready wait s
    let (sector, s2) = read_words 256 s1
    (rest, s3) ← read_loop wait n s2
    some (sector ++ rest, s3)

  -- `disk_read_sector`, which always returns 0
  unfoldable pub read_sector : ℕ → ℕ → ℕ → S → Option (ℤ × List ℕ × S)
  unfolding command read_loop
  read_sector wait lba total s =
      read_loop wait total (command lba total s) >>= λ (bytes, s1). some (pos 0, bytes, s1)

  -- `disk_read_block`, with the bytes that it stores in the buffer
  unfoldable pub read_block : ℕ → DiskPtr → ℕ → ℕ → S → Option (ℤ × List ℕ × S)
  unfolding read_sector
  read_block wait disk lba total s =
      if disk == disk_address then read_sector wait lba total s else some (eio, [], s)

-- `disk_search_and_init`, with `OS_DISK_TYPE_REAL`
abbrev pub search_and_init : Disk
search_and_init = record { kind = 0; bytes = sector_size }

-- `disk_get`
unfoldable pub get : ℕ → DiskPtr
get index = if index == 0 then disk_address else null

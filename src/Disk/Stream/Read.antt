-- ===== src/Disk/Stream/Read.antt =====
-- What `dstream_read` of src/disk/dstream.c reads: the bytes of the disk from a position on.
use unagi_os.Common.{ℕ}
use unagi_os.Common.Int.{pos}
use unagi_os.Disk.{disk_address}
use unagi_os.Disk.Stream.{DiskStream}

-- a stream of the first disk, at a position
abbrev pub stream_at : ℕ → DiskStream
stream_at p = record { pos = p; disk = disk_address }

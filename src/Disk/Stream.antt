-- ===== src/Disk/Stream.antt =====
-- src/disk/dstream.c: bytes from any position of a disk.
--
-- A position and a length are `int32_t` that are not negative; a sum of theirs that does not fit is a
-- fault, and so is an access behind the end of the buffer: `none`.
pub mod Read
pub mod Session
use unagi_os.Common.{
  ℕ, zero, suc, ◌+◌, ◌-◌, ◌/◌, ◌%◌, ◌^◌, Bool, true, false, ◌||◌, Option, none, some, List, [], ◌∷◌,
  ◌++◌, ◌==◌, ltb, leb, if◌then◌else◌, ◌>>=◌, get_elem?,
}
use unagi_os.Common.Int.{ℤ, pos, negsuc}
use unagi_os.Status.{eio}
use unagi_os.Disk.{Ports, DiskPtr, null, sector_size, get, read_block}

-- `DISK_STREAM`
pub record DiskStream : Type 0 where
  pub pos : ℕ
  pub disk : DiskPtr

-- `dstream_new`, with the address that `kzalloc` gives: `some none` is `NULL`
unfoldable pub new : ℕ → ℕ → Option (Option DiskStream)
new address disk_id =
    let disk = get disk_id in
    if disk == null
    then some none
    else if address == null
    then none
    else some (some (record { pos = 0; disk = disk }))

-- `dstream_seek`
unfoldable pub seek : Option DiskStream → ℕ → ℤ × Option DiskStream
seek none p = (eio, none)
seek (some d) p = (pos 0, some (record d { pos = p }))

-- the loop of `dstream_read`, with `n` bytes left, at the `i`th of the buffer
unfoldable pub copy : List ℕ → ℕ → ℕ → Option (List ℕ)
copy buf i zero = some []
copy buf i (suc n) = do c ← get_elem? buf i; rest ← copy buf (i + 1) n; some (c ∷ rest)

abbrev pub is_negative : ℤ → Bool
is_negative (pos n) = false
is_negative (negsuc n) = true

-- `bytes_to_read`
abbrev pub count : ℕ → ℕ → ℕ
count offset total = if ltb (offset + total) sector_size then total else sector_size - offset

module _ {S : Type 0} (io : Ports S) (wait : ℕ) where
  -- `dstream_read`: what it returns, the bytes that it stores, the stream and the device
  unfoldable pub read : ℕ → DiskStream → ℕ → S → Option (ℤ × List ℕ × DiskStream × S)
  unfolding copy
  read zero d total s = none
  read (suc fuel) d total s =
      let offset = d.pos % sector_size in
      let n = count offset total in
      let next = record d { pos = d.pos + n } in
      read_block io wait d.disk (d.pos / sector_size) 1 s >>= λ (res, buf, s1).
      let more = (do
        head ← copy buf offset n
        (ignored, rest, d', s2) ← read fuel next (total - n) s1
        some (pos 0, head ++ rest, d', s2)) in
      let last = copy buf offset n >>= λ head. some (pos 0, head, next, s1) in
      if is_negative res
      then some (eio, [], d, s1)
      else if leb (2 ^ 31) (offset + total) || leb (2 ^ 31) (d.pos + n)
      then none
      else if ltb n total
      then more
      else last

-- ===== src/Disk/Tests.antt =====
-- Tests of the models of src/disk/disk.c and src/disk/dstream.c, with a concrete drive.
use unagi_os.Common.{ℕ, ◌+◌, ◌-◌, ◌*◌, ◌%◌, ◌≡◌, refl, some, none, [], ◌==◌, if◌then◌else◌}
use unagi_os.Common.Int.{pos}
use unagi_os.Status.{eio}
use unagi_os.Disk.{
  Ports, read_block, count_port, lba_low_port, lba_mid_port, lba_high_port, device_port,
  status_port, get,
}
use unagi_os.Disk.Ata.{first_word}
use unagi_os.Disk.Stream.{DiskStream, new, seek, read}
use unagi_os.Disk.Stream.Read.{stream_at}

-- A drive: its registers; the word that it gives next, how many words of a sector are ready, how many
-- sectors follow, and for how many reads of its status it prepares the next one.
record Drive : Type 0 where
  reg : ℕ → ℕ
  next_word : ℕ
  ready : ℕ
  sectors : ℕ
  delay : ℕ

-- its content
abbrev words : ℕ → ℕ
words i = (i * 7 + 300) % 65536

-- the command 0x20
abbrev start : Drive → Drive
start s = record s {
  next_word =
      first_word (s.reg lba_low_port) (s.reg lba_mid_port) (s.reg lba_high_port)
        (s.reg device_port);
  ready = 0;
  sectors = s.reg count_port;
  delay = 1;
}

abbrev write_register : ℕ → ℕ → Drive → Drive
write_register p v s = record s { reg = λ q. if q == p then v else s.reg q }

-- Without a sector that is ready the data register gives 0xffff.
abbrev drive : Ports Drive
drive = record {
  out8 = λ p v s. if p == status_port then start s else write_register p v s;
  in8 = λ p s.
      if s.delay == 0
      then (0x58, record s { ready = 256; sectors = s.sectors - 1 })
      else (0x80, record s { delay = s.delay - 1 });
  in16 = λ p s. if s.ready == 0 then (0xffff, s) else (
    words s.next_word,
    record s { next_word = s.next_word + 1; ready = s.ready - 1; delay = 1 },
  );
}

abbrev Idle : Drive → Type 0
Idle s = (s.ready ≡ 0) × (s.sectors ≡ 0)

abbrev Holds : Drive → ℕ → ℕ → Type 0
Holds s p v = s.reg p ≡ v

abbrev Waits : Drive → ℕ → ℕ → ℕ → Type 0
Waits s i n b = (s.next_word ≡ i) × (s.ready ≡ 0) × (s.sectors ≡ n) × (s.delay ≡ b)

abbrev Ready : Drive → ℕ → ℕ → ℕ → Type 0
Ready s i k n = (s.next_word ≡ i) × (s.ready ≡ k) × (s.sectors ≡ n)

abbrev idle : Drive
idle = record { reg = λ p. 0; next_word = 0; ready = 0; sectors = 0; delay = 0 }

abbrev first_id : ℕ
first_id = 0

-- the stream of a disk that is not there
abbrev lost : DiskStream
lost = record { pos = 7; disk = 9 }

read-lost : read drive 2 1 lost 3 idle ≡ some (eio, [], lost, idle)
unfolding read read_block
read-lost = refl

first_disk : new 0x100 0 ≡ some (some (stream_at 0))
unfolding new get
first_disk = refl

second_disk : new 0x100 1 ≡ some none
unfolding new get
second_disk = refl

sought : seek (some (stream_at 0)) 510 ≡ (pos 0, some (stream_at 510))
unfolding seek
sought = refl

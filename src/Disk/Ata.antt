-- ===== src/Disk/Ata.antt =====
-- The device behind the ports of src/disk/disk.c, as ATA documents it for a read with 28-bit addresses,
-- and what `disk_read_sector` gets from it.
use unagi_os.Common.{
  ℕ, zero, suc, ◌+◌, ◌*◌, ◌/◌, ◌%◌, ◌^◌, ◌<◌, ◌≡◌, ◌≢◌, refl, ◌⊎◌, inl, inr, Bool, ◌&&◌, leb, true,
  false, some, List, [], ◌∷◌, ◌++◌, ◌==◌, if◌then◌else◌, ◌>>=◌, arith, ap, sym, subst, ◌∙◌,
}
use unagi_os.Common.Int.{pos}
use unagi_os.Disk.{
  Ports, data_port, count_port, lba_low_port, lba_mid_port, lba_high_port, device_port, status_port,
  sector_size, disk_address, command, wait_ready, read_words, read_loop, read_block,
}

-- the byte at a position of a disk with these 16-bit words, the low byte first
abbrev pub byte_at : (ℕ → ℕ) → ℕ → ℕ
byte_at words p = if p % 2 == 0 then words (p / 2) % 256 else words (p / 2) / 256 % 256

-- the `n` bytes from the position `p` on
abbrev pub bytes_at : (ℕ → ℕ) → ℕ → ℕ → List ℕ
bytes_at words p zero = []
bytes_at words p (suc n) = byte_at words p ∷ bytes_at words (p + 1) n

-- the registers of the task file
abbrev pub is_register : ℕ → Bool
is_register p = leb count_port p && leb p device_port

-- the word that the registers of a 28-bit address give
abbrev pub first_word : ℕ → ℕ → ℕ → ℕ → ℕ
first_word low mid high device = (low + mid * 2 ^ 8 + high * 2 ^ 16 + device % 16 * 2 ^ 24) * 256

-- What follows a sector: the wait for the next one, or the end of the command.
abbrev pub Following :
    {S : Type 0} → (S → Type 0) → (S → ℕ → ℕ → ℕ → Type 0) → ℕ → S → ℕ → ℕ → Type 0
Following Idle Waits busy s i zero = Idle s
Following Idle Waits busy s i (suc n) = Waits s i (suc n) busy

-- A device with the content `words`. In `Idle s` it has no command and takes the writes of its
-- registers; in `Holds s p v` its register `p` holds `v`. In `Waits s i n b` it has `n` sectors to
-- give, from the `i`th word on, and prepares the first of them, for at most `b` more reads of its status.
-- In `Ready s i k n` it has DRQ set and gives `k` words, from the `i`th on, and then `n` more sectors. Only
-- in `Ready` does a read of the data register give a word of the content.
pub record Serves {S : Type 0} (io : Ports S) (words : ℕ → ℕ) (busy : ℕ) (Idle : S → Type 0)
    (Holds : S → ℕ → ℕ → Type 0) (Waits Ready : S → ℕ → ℕ → ℕ → Type 0) : Type 0 where
  pub stays : (s : S) (p v : ℕ) → Idle s → is_register p ≡ true → Idle (io.out8 p v s)
  pub writes :
      (s : S) (p v : ℕ) → Idle s → is_register p ≡ true → v < 256 → Holds (io.out8 p v s) p v
  pub keeps :
      (s : S) (p v q w : ℕ)
      → Idle s
      → is_register p ≡ true
      → q ≢ p
      → Holds s q w
      → Holds (io.out8 p v s) q w
  -- READ SECTORS of `n` sectors, to the first drive by a logical address
  pub starts :
      (s : S) (n low mid high device : ℕ)
      → Idle s
      → Holds s count_port n
      → Holds s lba_low_port low
      → Holds s lba_mid_port mid
      → Holds s lba_high_port high
      → Holds s device_port device
      → 0 < n
      → device / 64 % 2 ≡ 1
      → device / 16 % 2 ≡ 0
      → Waits (io.out8 status_port 0x20 s) (first_word low mid high device) n busy
  pub polls :
      (s : S) (i n b : ℕ)
      → Waits s i (suc n) b
      → (((io.in8 status_port s).0 / 8 % 2 == 1) ≡ true × Ready (io.in8 status_port s).1 i 256 n)
        ⊎ ((b' : ℕ) × (b ≡ suc b')
            × (((io.in8 status_port s).0 / 8 % 2 == 1) ≡ false)
            × Waits (io.in8 status_port s).1 i (suc n) b')
  pub reads :
      (s : S) (i k n : ℕ)
      → Ready s i (suc (suc k)) n
      → ((io.in16 data_port s).0 ≡ words i) × Ready (io.in16 data_port s).1 (i + 1) (suc k) n
  pub ends :
      (s : S) (i n : ℕ)
      → Ready s i 1 n
      → ((io.in16 data_port s).0 ≡ words i)
        × Following Idle Waits busy (io.in16 data_port s).1 (i + 1) n

even_byte : (words : ℕ → ℕ) (i : ℕ) → byte_at words (2 * i) ≡ words i % 256
even_byte words i =
    let half : 2 * i / 2 ≡ i = omega arith in
    let even : 2 * i % 2 ≡ 0 = omega arith in rw (even, half) refl

odd_byte : (words : ℕ → ℕ) (i : ℕ) → byte_at words (2 * i + 1) ≡ words i / 256 % 256
odd_byte words i =
    let half : (2 * i + 1) / 2 ≡ i = omega arith in
    let odd : (2 * i + 1) % 2 ≡ 1 = omega arith in rw (odd, half) refl

bytes_at-word :
    (words : ℕ → ℕ) (i n : ℕ)
    → bytes_at words (2 * i) (2 * suc n)
      ≡ words i % 256 ∷ words i / 256 % 256 ∷ bytes_at words (2 * (i + 1)) (2 * n)
bytes_at-word words i n =
    let two : 2 * suc n ≡ suc (suc (2 * n)) = omega arith in
    let next : 2 * i + 1 + 1 ≡ 2 * (i + 1) = omega arith in
    rw (two, even_byte words i, odd_byte words i, next) refl

pub bytes_at-append :
    (words : ℕ → ℕ) (p n k : ℕ)
    → bytes_at words p n ++ bytes_at words (p + n) k ≡ bytes_at words p (n + k)
bytes_at-append words p zero k =
    let same : p + 0 ≡ p = omega arith in let all : 0 + k ≡ k = omega arith in rw (same, all) refl
bytes_at-append words p (suc n) k =
    let next : p + suc n ≡ p + 1 + n = omega arith in
    let more : suc n + k ≡ suc (n + k) = omega arith in
    rw (next, more, bytes_at-append words (p + 1) n k) refl

module _ {S : Type 0} (io : Ports S) (words : ℕ → ℕ) (busy : ℕ) (Idle : S → Type 0)
    (Holds : S → ℕ → ℕ → Type 0) (Waits Ready : S → ℕ → ℕ → ℕ → Type 0)
    (device : Serves io words busy Idle Holds Waits Ready) where
  -- the registers after the writes of `disk_read_sector`, and the command
  command_lem :
      (lba n : ℕ) (s : S)
      → Idle s
      → lba < 2 ^ 28
      → 0 < n
      → n < 256
      → Waits (command io lba n s) (lba * 256) n busy
  unfolding command
  command_lem lba n s idle lt some_sector few =
      let a = lba % 2 ^ 28 in
      let n' = n % 256 in
      let low = a % 256 in
      let mid = a / 2 ^ 8 % 256 in
      let high = a / 2 ^ 16 % 256 in
      let dev = a / 2 ^ 24 + 0x40 in
      let s1 = io.out8 count_port n' s in
      let s2 = io.out8 lba_low_port low s1 in
      let s3 = io.out8 lba_mid_port mid s2 in
      let s4 = io.out8 lba_high_port high s3 in
      let s5 = io.out8 device_port dev s4 in
      let idle1 = device.stays s count_port n' idle refl in
      let idle2 = device.stays s1 lba_low_port low idle1 refl in
      let idle3 = device.stays s2 lba_mid_port mid idle2 refl in
      let idle4 = device.stays s3 lba_high_port high idle3 refl in
      let idle5 = device.stays s4 device_port dev idle4 refl in
      let count1 = device.writes s count_port n' idle refl (omega arith) in
      let count2 =
        device.keeps s1 lba_low_port low count_port n' idle1 refl (λ e. absurd (omega (arith, e)))
          count1 in
      let count3 =
        device.keeps s2 lba_mid_port mid count_port n' idle2 refl (λ e. absurd (omega (arith, e)))
          count2 in
      let count4 =
        device.keeps s3 lba_high_port high count_port n' idle3 refl (λ e. absurd (omega (arith, e)))
          count3 in
      let count5 =
        device.keeps s4 device_port dev count_port n' idle4 refl (λ e. absurd (omega (arith, e)))
          count4 in
      let low2 = device.writes s1 lba_low_port low idle1 refl (omega arith) in
      let low3 =
        device.keeps s2 lba_mid_port mid lba_low_port low idle2 refl
          (λ e. absurd (omega (arith, e))) low2 in
      let low4 =
        device.keeps s3 lba_high_port high lba_low_port low idle3 refl
          (λ e. absurd (omega (arith, e))) low3 in
      let low5 =
        device.keeps s4 device_port dev lba_low_port low idle4 refl (λ e. absurd (omega (arith, e)))
          low4 in
      let mid3 = device.writes s2 lba_mid_port mid idle2 refl (omega arith) in
      let mid4 =
        device.keeps s3 lba_high_port high lba_mid_port mid idle3 refl
          (λ e. absurd (omega (arith, e))) mid3 in
      let mid5 =
        device.keeps s4 device_port dev lba_mid_port mid idle4 refl (λ e. absurd (omega (arith, e)))
          mid4 in
      let high4 = device.writes s3 lba_high_port high idle3 refl (omega arith) in
      let high5 =
        device.keeps s4 device_port dev lba_high_port high idle4 refl
          (λ e. absurd (omega (arith, e))) high4 in
      let dev5 = device.writes s4 device_port dev idle4 refl (omega (arith, lt)) in
      let at : first_word low mid high dev ≡ lba * 256 = ap (λ k. k * 256) (omega (arith, lt)) in
      let same : n' ≡ n = omega (arith, few) in
      let started =
        device.starts s5 n' low mid high dev idle5 count5 low5 mid5 high5 dev5
          (omega (arith, same, some_sector)) (omega (arith, lt)) (omega (arith, lt)) in
      let end = io.out8 status_port 0x20 s5 in
      subst (λ k. Waits end (lba * 256) k busy) same (subst (λ i. Waits end i n' busy) at started)

  wait_ready_lem :
      (wait b : ℕ) (s : S) (i n : ℕ)
      → b < wait
      → Waits s i (suc n) b
      → (s' : S) × (wait_ready io wait s ≡ some s') × Ready s' i 256 n
  unfolding wait_ready
  wait_ready_lem zero b s i n h d = absurd (omega arith)
  wait_ready_lem (suc wait) b s i n h d = elim (device.polls s i n b d) [
    | inl (ready, due) ↦ ((io.in8 status_port s).1, rw ready refl, due)
    | inr (b', e, not_ready, due) ↦
        let (s', r, due') =
          wait_ready_lem wait b' (io.in8 status_port s).1 i n (omega (arith, h, e)) due in
        (s', rw (not_ready, r) refl, due')
  ]

  read_words_step :
      (n i : ℕ) (s s' : S) (rest : List ℕ)
      → (io.in16 data_port s).0 ≡ words i
      → read_words io n (io.in16 data_port s).1 ≡ (rest, s')
      → read_words io (suc n) s ≡ (words i % 256 ∷ words i / 256 % 256 ∷ rest, s')
  unfolding read_words
  read_words_step n i s s' rest e r = rw (e, r) refl

  read_words_zero : (s : S) → read_words io 0 s ≡ ([], s)
  unfolding read_words
  read_words_zero s = refl

  -- the words of a sector that are left
  read_words_lem :
      (k : ℕ) (s : S) (i n : ℕ)
      → Ready s i (suc k) n
      → (s' : S) × (read_words io (suc k) s ≡ (bytes_at words (2 * i) (2 * suc k), s'))
        × Following Idle Waits busy s' (i + suc k) n
  read_words_lem zero s i n d =
      let (e, due) = device.ends s i n d in
      let s1 = (io.in16 data_port s).1 in
      (
        s1,
        read_words_step 0 i s s1 [] e (read_words_zero s1)
            ∙ ap (λ l. (l, s1)) (sym (bytes_at-word words i 0)),
        due,
      )
  read_words_lem (suc k) s i n d =
      let (e, due) = device.reads s i k n d in
      let s1 = (io.in16 data_port s).1 in
      let (s', r, due') = read_words_lem k s1 (i + 1) n due in
      let rest = bytes_at words (2 * (i + 1)) (2 * suc k) in
      (
        s',
        read_words_step (suc k) i s s' rest e r
            ∙ ap (λ l. (l, s')) (sym (bytes_at-word words i (suc k))),
        subst (λ j. Following Idle Waits busy s' j n) (omega arith) due',
      )

  read_loop_ready :
      (wait n : ℕ) (s s1 : S)
      → wait_ready io wait s ≡ some s1
      → read_loop io wait (suc n) s ≡ (
          read_loop io wait n (read_words io 256 s1).1 >>= λ x.
          some ((read_words io 256 s1).0 ++ x.0, x.1))
  unfolding read_loop
  read_loop_ready wait n s s1 e = rw e refl

  read_loop_step :
      (wait n : ℕ) (s s1 s2 s3 : S) (sector rest : List ℕ)
      → wait_ready io wait s ≡ some s1
      → read_words io 256 s1 ≡ (sector, s2)
      → read_loop io wait n s2 ≡ some (rest, s3)
      → read_loop io wait (suc n) s ≡ some (sector ++ rest, s3)
  read_loop_step wait n s s1 s2 s3 sector rest e r l =
      read_loop_ready wait n s s1 e ∙ rw (r, l) refl

  -- the sectors that are left
  read_loop_lem :
      (wait n : ℕ) (s : S) (i : ℕ)
      → busy < wait
      → Following Idle Waits busy s i n
      → (s' : S) × (read_loop io wait n s ≡ some (bytes_at words (2 * i) (n * 512), s')) × Idle s'
  unfolding read_loop
  read_loop_lem wait zero s i h d = (s, refl, d)
  read_loop_lem wait (suc n) s i h d =
      let (s1, e1, d1) = wait_ready_lem wait busy s i n h d in
      let (s2, e2, d2) = read_words_lem 255 s1 i n d1 in
      let (s3, e3, d3) = read_loop_lem wait n s2 (i + 256) h d2 in
      let at : 2 * (i + 256) ≡ 2 * i + 512 = omega arith in
      let size : 512 + n * 512 ≡ suc n * 512 = omega arith in
      let joined : bytes_at words (2 * i) 512 ++ bytes_at words (2 * (i + 256)) (n * 512)
          ≡ bytes_at words (2 * i) (suc n * 512) =
        rw at (bytes_at-append words (2 * i) 512 (n * 512) ∙ ap (bytes_at words (2 * i)) size) in
      (
        s3,
        read_loop_step wait n s s1 s2 s3 (bytes_at words (2 * i) 512)
              (bytes_at words (2 * (i + 256)) (n * 512)) e1 e2 e3
            ∙ ap (λ l. some (l, s3)) joined,
        d3,
      )

  following : (s : S) (i n : ℕ) → 0 < n → Waits s i n busy → Following Idle Waits busy s i n
  following s i zero h w = absurd (omega arith)
  following s i (suc n) h w = w

  -- On an idle drive that follows ATA and is ready after at most `busy` reads of its status,
  -- `disk_read_block` of `n` sectors of the disk, fewer than 256 and one at least, returns 0, and stores the
  -- bytes of these sectors; the drive is idle again.
  pub read_block_lem :
      (wait lba n : ℕ) (s : S)
      → Idle s
      → busy < wait
      → lba < 2 ^ 28
      → 0 < n
      → n < 256
      → (s' : S) × (read_block io wait disk_address lba n s
          ≡ some (pos 0, bytes_at words (lba * sector_size) (n * sector_size), s'))
        × Idle s'
  unfolding read_block
  read_block_lem wait lba n s idle h lt some_sector few =
      let started = command_lem lba n s idle lt some_sector few in
      let due = following (command io lba n s) (lba * 256) n some_sector started in
      let (s', e, idle') = read_loop_lem wait n (command io lba n s) (lba * 256) h due in
      let at : 2 * (lba * 256) ≡ lba * 512 = omega arith in (s', rw (e, at) refl, idle')

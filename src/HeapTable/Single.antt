-- ===== src/HeapTable/Single.antt =====
-- Requests of one block to the allocator of src/memory/heap.c.
use unagi_os.Common.{
  ℕ, zero, suc, ◌+◌, ◌-◌, ◌*◌, ◌/◌, ◌≤◌, ◌<◌, ◌^◌, ◌≡◌, refl, ◌⊎◌, true, false, List, [], ◌∷◌, some,
  arith, ap, inl, inr, length, set, length-set, get_elem?-set_self, ltb,
}
use unagi_os.Common.Words.{add32, sub32}
use unagi_os.Kutil.Align.{align_address_to_upper, align_address_to_upper-IsUpper}
use unagi_os.HeapTable.{
  Heap, block_size, entry_free, entry_taken, get_start_block, mark_middle, mark_blocks_taken,
  malloc_blocks, malloc, mark_blocks_free, free, block_to_address, address_to_block, put,
}
use unagi_os.HeapTable.Search.{is_free, NoRunBefore, get_start_block_lem}

set-set : (xs : List ℕ) (i v w : ℕ) → set (set xs i v) i w ≡ set xs i w
set-set [] i v w = refl
set-set (x ∷ xs) zero v w = refl
set-set (x ∷ xs) (suc i) v w = ap (λ m. x ∷ m) (set-set xs i v w)

one_block :
    (size : ℕ)
    → 0 < size
    → size ≤ block_size
    → align_address_to_upper size block_size / block_size ≡ 1
one_block size some_byte fits =
    let u = align_address_to_upper-IsUpper size block_size (omega arith) (omega arith) in
    omega (arith, u.multiple, u.above, u.near)

module _ (h : Heap) (i : ℕ) (in_table : i < length h.entries)
    (small : length h.entries < 2 ^ 31) where
  abbrev taken : Heap
  taken = record h { entries = set h.entries i entry_taken }

  mark_one : mark_blocks_taken i 1 h ≡ some taken
  unfolding mark_blocks_taken mark_middle
  mark_one =
      let last : sub32 (add32 i 1) 1 ≡ i = omega arith in
      let none_between : i - i - 1 ≡ 0 = omega arith in
      let first : put i 0x41 h.entries ≡ some (set h.entries i 0x41) = ground arith in
      let done : put i entry_taken (set h.entries i 0x41) ≡ some (set h.entries i entry_taken) =
        rw (length-set h.entries i 0x41, set-set h.entries i 0x41 entry_taken) (ground arith) in
      rw (last, none_between, first, done) refl

  free_one : mark_blocks_free i taken ≡ some (record h { entries = set h.entries i entry_free })
  unfolding mark_blocks_free
  free_one =
      rw
        (
          get_elem?-set_self h.entries i entry_taken in_table,
          set-set h.entries i entry_taken entry_free,
        )
        refl

-- What a request of one block gives: either the address of a free block `i`, whose entry alone is
-- now taken, and with which `heap_free` makes the entry free; or 0 where no block is free.
abbrev pub OneBlock : Heap → ℕ → Heap → Type 0
OneBlock h ptr h' =
    ((i : ℕ) × (i < h.total_blocks)
      × (is_free h.entries i ≡ true)
      × (ptr ≡ h.start_addr + i * block_size)
      × (h' ≡ record h { entries = set h.entries i entry_taken })
      × (free ptr h' ≡ some (record h { entries = set h.entries i entry_free })))
    ⊎ ((ptr ≡ 0) × (h' ≡ h) × NoRunBefore h.entries 1 h.total_blocks)

module _ (h : Heap) (size : ℕ) (some_byte : 0 < size) (fits : size ≤ block_size)
    (len : h.total_blocks ≤ length h.entries) (small : length h.entries < 2 ^ 31)
    (bound : h.start_addr + h.total_blocks * block_size < 2 ^ 32) where
  malloc_value :
      (r : ℕ) (h' : Heap)
      → get_start_block h 1 ≡ some r
      → ltb r (2 ^ 31) ≡ true
      → mark_blocks_taken r 1 h ≡ some h'
      → malloc size h ≡ some (block_to_address h r, h')
  unfolding malloc malloc_blocks
  malloc_value r h' e lt m = rw (one_block size some_byte fits, e, lt, m) refl

  malloc_none :
      (r : ℕ) → get_start_block h 1 ≡ some r → ltb r (2 ^ 31) ≡ false → malloc size h ≡ some (0, h)
  unfolding malloc malloc_blocks
  malloc_none r e lt = rw (one_block size some_byte fits, e, lt) refl

  free_again :
      (i : ℕ) (lt : i < h.total_blocks)
      → free (block_to_address h i) (taken h i (omega arith) small)
        ≡ some (record h { entries = set h.entries i entry_free })
  unfolding free
  free_again i lt =
      let block : address_to_block (taken h i (omega arith) small) (block_to_address h i) ≡ i =
        omega (arith, bound, lt) in
      rw block (free_one h i (omega arith) small)

  -- `heap_malloc` of 1 to 4096 bytes, over a table of fewer than 2 ^ 31 entries, which has one for each
  -- block, for memory below 2 ^ 32, returns: it takes one free block, which `heap_free` gives back, or
  -- returns 0 and changes nothing if no block is free.
  pub malloc_single : (ptr : ℕ) × (h' : Heap) × (malloc size h ≡ some (ptr, h')) × OneBlock h ptr h'
  malloc_single =
      let (r, e, f) = get_start_block_lem h 1 (omega arith) len small in
      elim f [
        | inl (lt, run, _) ↦ (
          block_to_address h r,
          record h { entries = set h.entries r entry_taken },
          malloc_value r _ e (ground arith) (mark_one h r (omega arith) small),
          inl (
            r,
            lt,
            run.1 r (omega arith) (omega arith),
            omega (arith, bound, lt),
            refl,
            free_again r lt,
          ),
        )
        | inr (failed, none_free) ↦
            (0, h, malloc_none r e (ground (arith, failed)), inr (refl, refl, none_free))
      ]

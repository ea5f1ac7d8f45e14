-- ===== src/Heapdl/Tests.antt =====
-- Tests of the model of src/memory/heapdl.c, and the inputs at which its theorems are applied.
use unagi_os.Common.{ℕ, ◌+◌, ◌≤◌, ◌≡◌, refl, ◌⊎◌, false, [], ◌∷◌, Option, some, arith, ◌>>=◌}
use unagi_os.Kutil.Align.{align_address_to_upper, align_address_to_lower}
use unagi_os.Dlist
use unagi_os.Dlist.{Node, Links}
use unagi_os.Heapdl.{
  Heap, header_size, init, chunk_init, chunk_free, chunk_merge, chunk_engage, chunk_slice,
  chunk_calc_free_offset, chunk_calc_actual_free, chunk_calc_chunk_by_ptr, malloc_loop, malloc,
  free, get_free, get_usage, get_chunksfree,
}
use unagi_os.Heapdl.Rep.{IsWell}
use unagi_os.Heapdl.Init.{init-IsWell}
use unagi_os.Heapdl.Slice.{chunk_slice-IsWell}
use unagi_os.Heapdl.Engage.{chunk_engage-IsWell}
use unagi_os.Heapdl.Search.{Outcome, malloc_lem}
use unagi_os.Heapdl.Safety.{
  Released, free_lem, malloc-Disjoint, Owns, Steps-Owns, here, next, release,
}

-- memory in which every `DLIST` is a circle of one
abbrev blank : Heap
blank = record {
  all = record { next = λ x. x; prev = λ x. x };
  free = record { next = λ x. x; prev = λ x. x };
  is_used = λ x. false;
  size = λ x. 0;
  first = 0;
  last = 0;
  free_chunk_head = 0;
  mem_all = 0;
  mem_free = 0;
}

-- the heap of the 40 KB from 0x1000 on
abbrev small : Heap
small = init 0x1000 0xb000 blank

small_fields : (small.first ≡ 0x1000) × (small.last ≡ 0xafe0) × (get_free small ≡ 0x9fa0)
unfolding init get_free align_address_to_upper align_address_to_lower
small_fields = (refl, refl, refl)

-- two blocks of 4096 bytes, the first freed: the bytes in use and the number of free chunks
two_blocks : Option (ℕ × ℕ)
unfolding init chunk_init malloc malloc_loop free chunk_free chunk_merge chunk_engage chunk_slice
    chunk_calc_free_offset chunk_calc_actual_free chunk_calc_chunk_by_ptr get_usage get_chunksfree
    Dlist.entries Dlist.for_each Dlist.init Dlist.insert_after Dlist.insert_before Dlist.remove
    align_address_to_upper align_address_to_lower
two_blocks = do
  (a, h1) ← malloc 9 4096 small
  (b, h2) ← malloc 9 4096 h1
  n ← get_chunksfree 9 (free a h2)
  some (get_usage (free a h2), n)

small_size : small.size 0x1020 ≡ 0x9fc0
unfolding init align_address_to_upper align_address_to_lower
small_size = refl

small-IsWell :
    IsWell small (0x1020 ∷ []) (0x1020 ∷ []) × (small.size 0x1020 ≡ small.mem_free + header_size)
unfolding align_address_to_upper
small-IsWell = init-IsWell 0x1000 0xb000 blank (omega arith) (omega arith)

malloc_lem_example :
    (r : ℕ × Heap) × (malloc 2 4096 small ≡ some r)
    × Outcome small (0x1020 ∷ []) (0x1020 ∷ []) 4096 r
malloc_lem_example =
    malloc_lem small (0x1020 ∷ []) (0x1020 ∷ []) (small-IsWell.0) 4096 2 (omega arith)

free_lem_example : Released small (0x1020 ∷ []) 0x1020 (free (0x1020 + header_size) small)
free_lem_example = free_lem small (0x1020 ∷ []) (0x1020 ∷ []) 0x1020 (small-IsWell.0) refl

-- The heap in which `malloc` has cut 4096 bytes from the only chunk.
abbrev cut : Heap
cut = chunk_engage 0x1020 (chunk_slice 0x1020 4096 small)

cut-IsWell : IsWell cut (0x1020 ∷ 0x2040 ∷ []) (0x2040 ∷ [])
cut-IsWell =
    chunk_engage-IsWell (chunk_slice 0x1020 4096 small) (0x1020 ∷ 0x2040 ∷ []) [] 0x1020
      (0x2040 ∷ [])
      (chunk_slice-IsWell small [] 0x1020 [] [] [] (small-IsWell.0) 4096
        (omega (arith, small_size)))

cut-Owns : Owns 0x1020 0x1020 cut
unfolding init chunk_init chunk_engage chunk_slice chunk_calc_free_offset chunk_calc_actual_free
    align_address_to_upper align_address_to_lower
cut-Owns = (0x1020 ∷ 0x2040 ∷ [], 0x2040 ∷ [], cut-IsWell, refl, refl, refl)

Steps-Owns_example : Owns 0x1020 0x1020 (free (0x2040 + header_size) cut)
Steps-Owns_example =
    Steps-Owns
      (next here
        (release (0x1020 ∷ 0x2040 ∷ []) (0x2040 ∷ []) 0x2040 cut-IsWell refl (omega arith) refl))
      cut-Owns

-- the heap in which `malloc` has cut 100 bytes from the chunk behind
abbrev cut_again : Heap
cut_again = chunk_engage 0x2040 (chunk_slice 0x2040 100 cut)

malloc-cut : malloc 2 100 cut ≡ some (0x2060, cut_again)
unfolding malloc malloc_loop init chunk_init chunk_engage chunk_slice chunk_calc_free_offset
    chunk_calc_actual_free align_address_to_upper align_address_to_lower Dlist.remove
    Dlist.insert_after Dlist.init
malloc-cut = refl

malloc-Disjoint_example : (0x2060 + 100 ≤ 0x1020) ⊎ (0x1020 + 0x1020 ≤ 0x2060)
malloc-Disjoint_example =
    malloc-Disjoint (0x1020 ∷ 0x2040 ∷ []) (0x2040 ∷ []) 2 100 0x2060 cut-Owns here cut-IsWell
      (omega arith) malloc-cut (λ e. absurd (omega (arith, e)))

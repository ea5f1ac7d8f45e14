-- ===== src/HeapTable/Tests.antt =====
-- Tests of the model of src/memory/heap.c, and the inputs at which its theorems are applied.
use unagi_os.Common.{ℕ, ◌≡◌, refl, some, none, [], ◌∷◌, arith}
use unagi_os.HeapTable.{
  Heap, get_start_block, start_loop, malloc, malloc_blocks, mark_blocks_taken, mark_middle,
}
use unagi_os.HeapTable.Search.{Found, get_start_block_lem}
use unagi_os.HeapTable.Single.{OneBlock, malloc_single}
use unagi_os.Kutil.Align.{align_address_to_upper}

-- five blocks, of which the first and the third are taken
abbrev some_taken : Heap
some_taken = record { entries = 1 ∷ 0 ∷ 1 ∷ 0 ∷ 0 ∷ []; total_blocks = 5; start_addr = 0x1000000 }

-- A run of two blocks is named by its last one.
last_of_run : get_start_block some_taken 2 ≡ some 4
unfolding get_start_block start_loop
last_of_run = refl

-- Two blocks asked of the table are marked from the last of the run on, beyond the table's end.
two_blocks : malloc 8192 some_taken ≡ none
unfolding malloc malloc_blocks get_start_block start_loop mark_blocks_taken mark_middle
    align_address_to_upper
two_blocks = refl

get_start_block_lem_example :
    (r : ℕ) × (get_start_block some_taken 2 ≡ some r) × Found (1 ∷ 0 ∷ 1 ∷ 0 ∷ 0 ∷ []) 2 5 r
get_start_block_lem_example =
    get_start_block_lem some_taken 2 (omega arith) (omega arith) (omega arith)

malloc_single_example :
    (ptr : ℕ) × (h' : Heap) × (malloc 100 some_taken ≡ some (ptr, h')) × OneBlock some_taken ptr h'
malloc_single_example =
    malloc_single some_taken 100 (omega arith) (omega arith) (omega arith) (omega arith)
      (omega arith)

-- ===== src/Memory/Tests.antt =====
-- The input at which the theorem on src/memory/memory.c is applied.
use unagi_os.Common.{ℕ, ◌≤◌, ◌≡◌, some, [], ◌∷◌, arith, true}
use unagi_os.Kutil.Align.{align_address_to_upper}
use unagi_os.Heapdl.{Heap}
use unagi_os.Heapdl.Malloc.{Allocated}
use unagi_os.Memory.{k_mm_init, kmalloc}
use unagi_os.Memory.Boot.{first_kmalloc, only_chunk}

-- memory with 7 in every field
abbrev sevens : Heap
sevens = record {
  all = record { next = λ x. 7; prev = λ x. 7 };
  free = record { next = λ x. 7; prev = λ x. 7 };
  is_used = λ x. true;
  size = λ x. 7;
  first = 7;
  last = 7;
  free_chunk_head = 7;
  mem_all = 7;
  mem_free = 7;
}

first_kmalloc_example :
    (r : ℕ × Heap) × (kmalloc 2 5000 (k_mm_init sevens) ≡ some r)
    × Allocated (k_mm_init sevens) (only_chunk ∷ []) (align_address_to_upper 5000 4096) r.0 r.1
    × (5000 ≤ align_address_to_upper 5000 4096)
first_kmalloc_example = first_kmalloc sevens 5000 (omega arith) (omega arith)

-- ===== src/Heapdl.antt =====
-- src/memory/heapdl.c and heapdl.h: the kernel's allocator, chunks threaded by two `DLIST`s.
--
-- A chunk is named by its address. The two `DLIST`s of each `CHUNK` are kept apart, `all` and
-- `free`, each as the links between the chunks' addresses (`container_of` undoes the offset of the
-- member). The bytes of a chunk behind its header are not modelled. Addresses and sizes are 32-bit.
pub mod Tiling
pub mod Rep
pub mod Engage
pub mod Slice
pub mod Merge
pub mod Marked
pub mod Free
pub mod Malloc
pub mod Search
pub mod Init
pub mod Safety
mod Tests
use unagi_os.Common.{
  ℕ, zero, suc, Bool, true, false, Option, none, some, not, ◌||◌, ◌==◌, ltb, if◌then◌else◌, List,
  [], ◌∷◌, ◌>>=◌, length,
}
use unagi_os.Common.Words.{add32, sub32}
use unagi_os.Kutil.Align.{align_address_to_upper, align_address_to_lower}
use unagi_os.Dlist
use unagi_os.Dlist.{Node, Links}

-- The static variables and the headers of all chunks.
pub record Heap : Type 0 where
  pub all : Links
  pub free : Links
  pub is_used : Node → Bool
  pub size : Node → ℕ
  pub first : Node
  pub last : Node
  pub free_chunk_head : Node
  pub mem_all : ℕ
  pub mem_free : ℕ

-- `NULL`
abbrev pub null : Node
null = 0

-- `OS_HEAP_BLOCK_SIZE`
abbrev pub block_size : ℕ
block_size = 4096

-- `sizeof(CHUNK)`: 21 bytes of fields with padding are 24, rounded up to the alignment of 16
abbrev pub size_of_chunk : ℕ
size_of_chunk = 32

-- `align_address_to_upper(sizeof(CHUNK), OS_MEMORY_ALIGN)`
abbrev pub header_size : ℕ
header_size = 32

abbrev pub update {ℓ} : {A : Type ℓ} → (Node → A) → Node → A → Node → A
update f p v x = if x == p then v else f x

abbrev pub set_all : Links → Heap → Heap
set_all m h = record h { all = m }

abbrev pub set_free : Links → Heap → Heap
set_free m h = record h { free = m }

abbrev pub set_used : Node → Bool → Heap → Heap
set_used p b h = record h { is_used = update h.is_used p b }

abbrev pub set_size : Node → ℕ → Heap → Heap
set_size p n h = record h { size = update h.size p n }

-- `chunk_init`
pub chunk_init : Node → Heap → Heap
unfolding align_address_to_upper
chunk_init p h = record h {
  all = Dlist.init p h.all;
  free = Dlist.init p h.free;
  is_used = update h.is_used p false;
  size = update h.size p (align_address_to_upper size_of_chunk 16);
}

-- `k_heapdl_mm_init`
unfoldable pub init : ℕ → ℕ → Heap → Heap
unfolding chunk_init align_address_to_upper
init mem_start mem_end h0 =
    let first = align_address_to_upper mem_start block_size in
    let second = add32 first size_of_chunk in
    let last = sub32 (align_address_to_lower mem_end block_size) size_of_chunk in
    let h = chunk_init last (chunk_init second (chunk_init first h0)) in
    let all = (Dlist.insert_after second last (Dlist.insert_after first second h.all).1).1 in
    let second_size = sub32 last second in
    let mem = sub32 second_size (align_address_to_upper size_of_chunk 16) in
    record h {
      all = all;
      free = (Dlist.insert_after first second h.free).1;
      is_used = update (update h.is_used first true) last true;
      size = update h.size second second_size;
      first = first;
      last = last;
      free_chunk_head = first;
      mem_all = mem;
      mem_free = mem;
    }

-- `chunk_calc_actual_free`
pub chunk_calc_actual_free : Node → Heap → ℕ
unfolding align_address_to_upper
chunk_calc_actual_free p h = sub32 (h.size p) (align_address_to_upper size_of_chunk 16)

-- `chunk_calc_free_offset`
pub chunk_calc_free_offset : Node → ℕ
unfolding align_address_to_upper
chunk_calc_free_offset p = add32 p (align_address_to_upper size_of_chunk 16)

-- `chunk_calc_chunk_by_ptr`
pub chunk_calc_chunk_by_ptr : ℕ → Node
unfolding align_address_to_upper
chunk_calc_chunk_by_ptr ptr = sub32 ptr (align_address_to_upper size_of_chunk 16)

-- `chunk_slice`
pub chunk_slice : Node → ℕ → Heap → Heap
unfolding chunk_init chunk_calc_free_offset chunk_calc_actual_free
chunk_slice p s h0 =
    let b = add32 (chunk_calc_free_offset p) s in
    let h = chunk_init b h0 in
    let b_size = sub32 (chunk_calc_actual_free p h) s in
    let h' = set_size b b_size h in
    record h' {
      size = update h'.size p (sub32 (h'.size p) b_size);
      all = (Dlist.insert_after p b h'.all).1;
      free = (Dlist.insert_after p b h'.free).1;
    }

-- `chunk_engage`
pub chunk_engage : Node → Heap → Heap
chunk_engage p h = record h {
  is_used = update h.is_used p true;
  free = (Dlist.remove p h.free).1;
  mem_free = sub32 h.mem_free (h.size p);
}

-- `chunk_merge`
pub chunk_merge : Node → Node → Heap → Heap
chunk_merge a b h = record h {
  all = (Dlist.remove b h.all).1;
  free = (Dlist.remove b h.free).1;
  size = update h.size a (add32 (h.size a) (h.size b));
  mem_free = add32 h.mem_free size_of_chunk;
}

-- `chunk_free`
pub chunk_free : Node → Heap → Heap
chunk_free p h0 =
    let h = record h0 {
      is_used = update h0.is_used p false;
      mem_free = add32 h0.mem_free (sub32 (h0.size p) size_of_chunk);
    } in
    let prev_chunk = h.all.prev p in
    let next_chunk = h.all.next p in
    if not (h.is_used prev_chunk)
    then chunk_merge prev_chunk p (set_free (Dlist.insert_after prev_chunk p h.free).1 h)
    else if not (h.is_used next_chunk)
    then chunk_merge p next_chunk (set_free (Dlist.insert_before next_chunk p h.free).1 h)
    else set_free (Dlist.insert_after h.free_chunk_head p h.free).1 h

-- The loop of `k_heapdl_mm_malloc` from the chunk `pos` on: the returned pointer and the heap.
-- `none` means that the fuel ran out.
pub malloc_loop : ℕ → ℕ → Node → Heap → Option (ℕ × Heap)
malloc_loop zero s pos h = none
malloc_loop (suc fuel) s pos h =
    let rest = malloc_loop fuel s (h.free.next pos) h in
    let chunk_free = chunk_calc_actual_free pos h in
    if pos == h.free_chunk_head
    then some (null, h)
    else if ltb (h.size pos) s
    then rest
    else if ltb chunk_free s
    then rest
    else if ltb (sub32 chunk_free s) block_size
    then some (chunk_calc_free_offset pos, chunk_engage pos h)
    else some (chunk_calc_free_offset pos, chunk_engage pos (chunk_slice pos s h))

-- `k_heapdl_mm_malloc`
pub malloc : ℕ → ℕ → Heap → Option (ℕ × Heap)
malloc fuel s h =
    let search = malloc_loop fuel s (h.free.next h.free_chunk_head) h in
    if (ltb h.mem_free s || h.mem_free == 0) || h.free.next h.free_chunk_head == h.free_chunk_head
    then some (null, h)
    else search

-- `k_heapdl_mm_free`
pub free : ℕ → Heap → Heap
free ptr h =
    let chunk = chunk_calc_chunk_by_ptr ptr in
    if ptr == null then h else if h.is_used chunk then chunk_free chunk h else h

-- `k_heapdl_mm_get_free`
pub get_free : Heap → ℕ
get_free h = h.mem_free

-- `k_heapdl_mm_get_usage`
pub get_usage : Heap → ℕ
get_usage h = sub32 h.mem_all h.mem_free

-- `debug__k_heapdl_mm_get_chunksfree`
pub get_chunksfree : ℕ → Heap → Option ℕ
get_chunksfree fuel h = Dlist.entries fuel h.free h.free_chunk_head >>= λ xs. some (length xs)

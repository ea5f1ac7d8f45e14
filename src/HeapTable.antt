-- ===== src/HeapTable.antt =====
-- src/memory/heap.c and heap.h: the block allocator over a table with one byte for each block.
--
-- The address of the heap and sizes are 32-bit. A read or a write outside the table's array is a
-- fault: `none`.
pub mod Search
pub mod Single
mod Tests
use unagi_os.Common.{
  ℕ, zero, suc, ◌+◌, ◌-◌, ◌*◌, ◌/◌, ◌%◌, ◌^◌, Bool, true, false, not, ◌||◌, Option, none, some,
  List, [], ◌∷◌, ◌==◌, ltb, if◌then◌else◌, get_elem?, set, length, replicate, ◌>>=◌,
}
use unagi_os.Common.Int.{ℤ, pos, negsuc}
use unagi_os.Common.Words.{add32, sub32, count32}
use unagi_os.Status.{einvarg}
use unagi_os.Kutil.Align.{align_address_to_upper}

-- `struct heap` with the `struct heap_table` it points to
pub record Heap : Type 0 where
  pub entries : List ℕ
  pub total_blocks : ℕ
  pub start_addr : ℕ

-- `HBLOCK_SIZE`, and `HEAP_BLOCK_TABLE_ENTRY_…`
abbrev pub block_size : ℕ
block_size = 4096

abbrev pub entry_free : ℕ
entry_free = 0

abbrev pub entry_taken : ℕ
entry_taken = 1

-- `HEAP_BLOCK_HAS_NEXT`, `HEAP_BLOCK_IS_FIRST`: bits that `entry_taken` does not have
abbrev pub has_next : ℕ
has_next = 0x80

abbrev pub is_first : ℕ
is_first = 0x40

-- `-ENOMEM` as the `uint32_t` that `heap_get_start_block` returns
abbrev pub enomem32 : ℕ
enomem32 = 2 ^ 32 - 3

-- `heap_validate_alignment`
pub validate_alignment : ℕ → Bool
validate_alignment ptr = ptr % block_size == 0

-- `heap_validate_table`
pub validate_table : ℕ → ℕ → ℕ → ℤ
validate_table heap_start heap_end total_blocks =
    if total_blocks == sub32 heap_end heap_start / block_size then pos 0 else einvarg

-- The bytes of the table from the first on, `n` of them set to 0 by `kmemset`.
pub clear : ℕ → List ℕ → Option (List ℕ)
clear zero xs = some xs
clear (suc n) [] = none
clear (suc n) (x ∷ xs) = clear n xs >>= λ ys. some (0 ∷ ys)

abbrev is_negative : ℤ → Bool
is_negative (pos n) = false
is_negative (negsuc n) = true

-- `heap_create`: the result, and the heap behind `heap`. Arguments that are not aligned leave the
-- heap as it was, with the result 0.
pub create : Heap → ℕ → ℕ → List ℕ → ℕ → Option (ℤ × Heap)
unfolding validate_alignment validate_table clear
create heap heap_start heap_end entries total_blocks =
    let made = (do
      cleared ← clear total_blocks entries
      some (
        pos 0,
        record { entries = cleared; total_blocks = total_blocks; start_addr = heap_start },
      )) in
    let res = validate_table heap_start heap_end total_blocks in
    if not (validate_alignment heap_start) || not (validate_alignment heap_end)
    then some (pos 0, heap)
    else if is_negative res
    then some (res, heap)
    else made

-- `heap_get_entry_type`
abbrev pub get_entry_type : ℕ → ℕ
get_entry_type entry = entry % 16

-- The loop of `heap_get_start_block` with `n` blocks left, at the block `i`, behind `counter` free
-- blocks.
unfoldable pub start_loop : List ℕ → ℕ → ℕ → ℕ → ℕ → Option ℕ
start_loop entries total zero i counter = some enomem32
start_loop entries total (suc n) i counter =
    let reset = start_loop entries total n (i + 1) 0 in
    let counted = start_loop entries total n (i + 1) (add32 counter 1) in
    get_elem? entries i >>= λ entry.
    if get_entry_type entry == entry_free
    then if add32 counter 1 == total then some i else counted
    else reset

-- `heap_get_start_block`
unfoldable pub get_start_block : Heap → ℕ → Option ℕ
get_start_block h total = start_loop h.entries total h.total_blocks 0 0

-- `heap_block_to_address`
abbrev pub block_to_address : Heap → ℕ → ℕ
block_to_address h block = add32 h.start_addr (block * block_size % 2 ^ 32)

-- `heap->table->entries[i] = e`
abbrev pub put : ℕ → ℕ → List ℕ → Option (List ℕ)
put i e xs = if ltb i (length xs) then some (set xs i e) else none

-- the middle loop of `heap_mark_blocks_taken` with `n` blocks left, at the block `i`
unfoldable pub mark_middle : ℕ → ℕ → ℕ → List ℕ → Option (List ℕ)
mark_middle zero i e xs = some xs
mark_middle (suc n) i e xs = put i e xs >>= λ ys. mark_middle n (i + 1) e ys

-- `heap_mark_blocks_taken`. The middle entries run from `start_block + 1` to `end_block - 1`.
unfoldable pub mark_blocks_taken : ℕ → ℕ → Heap → Option Heap
mark_blocks_taken start_block total_blocks h = do
  let end_block = sub32 (add32 start_block total_blocks) 1
  let entry = if ltb 1 total_blocks then entry_taken + has_next else entry_taken
  first ← put start_block (entry + is_first) h.entries
  middle ← mark_middle (end_block - start_block - 1) (start_block + 1) entry first
  done ← put end_block entry_taken middle
  some (record h { entries = done })

-- `heap_malloc_blocks`: the address, or 0 where `start_block` is negative as an `int`
unfoldable pub malloc_blocks : ℕ → Heap → Option (ℕ × Heap)
malloc_blocks total_blocks h = do
  start_block ← get_start_block h total_blocks
  let marked = mark_blocks_taken start_block total_blocks h >>= λ h'.
      some (block_to_address h start_block, h')
  if ltb start_block (2 ^ 31) then marked else some (0, h)

-- `heap_malloc`, whose `heap_table_heap_align_to_upper` is `align_address_to_upper`
unfoldable pub malloc : ℕ → Heap → Option (ℕ × Heap)
malloc size h = malloc_blocks (align_address_to_upper size block_size / block_size) h

-- `heap_address_to_block`: the difference becomes unsigned as `HBLOCK_SIZE` is
abbrev pub address_to_block : Heap → ℕ → ℕ
address_to_block h ptr = sub32 ptr h.start_addr / block_size

-- `heap_mark_blocks_free`, whose loop ends after one turn
unfoldable pub mark_blocks_free : ℕ → Heap → Option Heap
mark_blocks_free i h = get_elem? h.entries i >>= λ entry.
    some (if entry % 2 == entry_free then h else record h { entries = set h.entries i entry_free })

-- `heap_free`
unfoldable pub free : ℕ → Heap → Option Heap
free ptr h = mark_blocks_free (address_to_block h ptr) h

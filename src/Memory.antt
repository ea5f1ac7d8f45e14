-- ===== src/Memory.antt =====
-- src/memory/memory.c: the kernel's allocation, with the settings of src/config.h (the chunk
-- allocator of src/memory/heapdl.c). The bytes of the memory are not modelled.
pub mod Boot
mod Tests
use unagi_os.Common.{ℕ, ◌+◌, ◌*◌, Option}
use unagi_os.Kutil.Align.{align_address_to_upper}
use unagi_os.Heapdl
use unagi_os.Heapdl.{Heap, block_size}

-- `OS_HEAP_ADDRESS`, `OS_HEAP_SIZE_BYTES`
abbrev pub heap_address : ℕ
heap_address = 0x01000000

abbrev pub heap_size_bytes : ℕ
heap_size_bytes = 0x07000000

-- `k_mm_init`
unfoldable pub k_mm_init : Heap → Heap
k_mm_init h = Heapdl.init heap_address (heap_address + heap_size_bytes) h

-- `kmalloc`, with the fuel of the search
unfoldable pub kmalloc : ℕ → ℕ → Heap → Option (ℕ × Heap)
kmalloc fuel size h = Heapdl.malloc fuel (align_address_to_upper size block_size) h

-- `kfree`
unfoldable pub kfree : ℕ → Heap → Heap
kfree ptr h = Heapdl.free ptr h

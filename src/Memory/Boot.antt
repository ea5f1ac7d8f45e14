-- ===== src/Memory/Boot.antt =====
-- The kernel's first allocation after src/memory/memory.c has set up the heap.
use unagi_os.Common.{ℕ, ◌+◌, ◌-◌, ◌≤◌, ◌<◌, ◌≡◌, refl, inl, inr, [], ◌∷◌, some, arith}
use unagi_os.Kutil.Align.{
  align_address_to_upper, align_address_to_lower, align_address_to_upper-IsUpper,
}
use unagi_os.Dlist.{Node}
use unagi_os.Heapdl.{Heap, header_size, block_size, init}
use unagi_os.Heapdl.Rep.{IsWell}
use unagi_os.Heapdl.Init.{init-IsWell}
use unagi_os.Heapdl.Malloc.{Allocated}
use unagi_os.Heapdl.Search.{malloc_lem}
use unagi_os.Memory.{heap_address, heap_size_bytes, k_mm_init, kmalloc}

-- the only chunk of the new heap
abbrev pub only_chunk : Node
only_chunk = 0x01000020

module _ (h0 : Heap) where
  booted-IsWell :
      IsWell (k_mm_init h0) (only_chunk ∷ []) (only_chunk ∷ [])
      × ((k_mm_init h0).size only_chunk ≡ (k_mm_init h0).mem_free + header_size)
  unfolding k_mm_init align_address_to_upper
  booted-IsWell =
      init-IsWell heap_address (heap_address + heap_size_bytes) h0 (omega arith) (omega arith)

  booted_free : (k_mm_init h0).mem_free ≡ 0x06ffffa0
  unfolding k_mm_init init align_address_to_upper align_address_to_lower
  booted_free = refl

  -- Of the heap that `k_mm_init` sets up, whatever the memory held, `kmalloc` allocates any number of
  -- bytes up to 112 MB less one block, rounded up to whole blocks.
  pub first_kmalloc :
      (size : ℕ)
      → 0 < size
      → size ≤ heap_size_bytes - block_size
      → (r : ℕ × Heap) × (kmalloc 2 size (k_mm_init h0) ≡ some r)
        × Allocated
            (k_mm_init h0)
            (only_chunk ∷ [])
            (align_address_to_upper size block_size)
            r.0
            r.1
        × (size ≤ align_address_to_upper size block_size)
  unfolding kmalloc
  first_kmalloc size some_byte fits =
      let u = align_address_to_upper-IsUpper size block_size (omega arith) (omega arith) in
      let (r, e, o) =
        malloc_lem (k_mm_init h0) (only_chunk ∷ []) (only_chunk ∷ []) booted-IsWell.0
          (align_address_to_upper size block_size) 2 (omega arith) in
      (
        r,
        e,
        elim o [
          | inr a ↦ a
          | inl (_, inl few) ↦ absurd (omega (arith, few, booted_free, u.multiple, u.near))
          | inl (_, inr (inl nothing)) ↦ absurd (omega (arith, nothing, booted_free))
          | inl (_, inr (inr none_fits)) ↦ absurd (
              omega (
                arith,
                none_fits only_chunk refl,
                booted-IsWell.1,
                booted_free,
                u.multiple,
                u.near,
              ))
        ],
        u.above,
      )

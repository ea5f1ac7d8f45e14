-- ===== src/Heapdl/Init.antt =====
-- `k_heapdl_mm_init` of src/memory/heapdl.c makes a well-formed heap of one free chunk.
use unagi_os.Common.{
  ℕ, ◌+◌, ◌-◌, ◌≤◌, ◌<◌, ◌^◌, ◌≡◌, refl, true, false, [], ◌∷◌, arith, ◌==◌, ne→==, ◌∙◌, sym,
  if◌then◌else◌, ==_cases, inl, inr,
}
use unagi_os.Common.Words.{add32, sub32}
use unagi_os.Kutil.Align.{
  align_address_to_upper, align_address_to_lower, align_address_to_upper-IsUpper,
  align_address_to_lower-IsLower, IsUpper, IsLower,
}
use unagi_os.Dlist
use unagi_os.Dlist.{Node, Links}
use unagi_os.Dlist.Chain.{Circle}
use unagi_os.Dlist.Circle.{init-Circle, insert_after-Circle}
use unagi_os.Dlist.Inner.{insert_after_inner, apart_one}
use unagi_os.Dlist.Frame.{init-other, insert_after-Untouched}
use unagi_os.Heapdl.{Heap, header_size, size_of_chunk, block_size, init}
use unagi_os.Heapdl.Rep.{IsWell, alone_kept}

module _ (mem_start mem_end : ℕ) (h0 : Heap) (below : mem_end < 2 ^ 32)
    (room : mem_start + block_size + block_size + block_size ≤ mem_end) where
  abbrev pub first_chunk : ℕ
  first_chunk = align_address_to_upper mem_start block_size

  abbrev pub last_chunk : ℕ
  last_chunk = align_address_to_lower mem_end block_size - size_of_chunk

  upper : IsUpper mem_start block_size first_chunk
  upper = align_address_to_upper-IsUpper mem_start block_size (omega arith) (omega arith)

  lower : IsLower mem_end block_size (align_address_to_lower mem_end block_size)
  lower = align_address_to_lower-IsLower mem_end block_size (omega arith) below

  fields :
      ((init mem_start mem_end h0).first ≡ first_chunk)
      × ((init mem_start mem_end h0).last ≡ last_chunk)
      × ((init mem_start mem_end h0).free_chunk_head ≡ first_chunk)
  unfolding init
  fields = (refl, omega (arith, upper, lower), refl)

  abbrev second_chunk : ℕ
  second_chunk = first_chunk + size_of_chunk

  apart : (second_chunk + size_of_chunk < last_chunk) × (last_chunk + size_of_chunk ≤ mem_end)
  apart = omega (arith, upper.near, lower.near, lower.below)

  second_lem : add32 first_chunk size_of_chunk ≡ second_chunk
  second_lem = omega (arith, apart)

  last_lem : sub32 (align_address_to_lower mem_end block_size) size_of_chunk ≡ last_chunk
  last_lem = omega (arith, apart, lower.below)

  -- the links of three chunks that are each in a circle of one
  abbrev three : Links → Links
  three m = Dlist.init last_chunk (Dlist.init second_chunk (Dlist.init first_chunk m))

  module _ (m : Links) where
    three_first : Circle (three m) first_chunk []
    three_first =
        init-other (Dlist.init second_chunk (Dlist.init first_chunk m)) last_chunk first_chunk []
          (init-other (Dlist.init first_chunk m) second_chunk first_chunk []
            (init-Circle first_chunk m) (ground arith))
          (ground (arith, apart))

    three_second : Circle (three m) second_chunk []
    three_second =
        init-other (Dlist.init second_chunk (Dlist.init first_chunk m)) last_chunk second_chunk []
          (init-Circle second_chunk (Dlist.init first_chunk m)) (ground (arith, apart))

    three_last : Circle (three m) last_chunk []
    three_last = init-Circle last_chunk (Dlist.init second_chunk (Dlist.init first_chunk m))

    two :
        Circle
          (Dlist.insert_after first_chunk second_chunk (three m)).1
          first_chunk
          (second_chunk ∷ [])
    two =
        insert_after-Circle (three m) first_chunk [] second_chunk [] three_first three_second
          (apart_one (first_chunk ∷ []) second_chunk (ground arith))

    two_last : Circle (Dlist.insert_after first_chunk second_chunk (three m)).1 last_chunk []
    two_last =
        alone_kept (three m) (Dlist.insert_after first_chunk second_chunk (three m)).1 last_chunk
          (insert_after-Untouched (three m) first_chunk [] three_first first_chunk (ground arith)
            second_chunk three_second last_chunk (ground (arith, apart)))
          three_last

    all_linked :
        Circle
          (Dlist.insert_after second_chunk last_chunk
            (Dlist.insert_after first_chunk second_chunk (three m)).1).1
          first_chunk
          (second_chunk ∷ last_chunk ∷ [])
    all_linked =
        insert_after_inner (Dlist.insert_after first_chunk second_chunk (three m)).1 first_chunk []
          second_chunk [] last_chunk two two_last (ground (arith, apart))

  abbrev made : Heap
  made = init mem_start mem_end h0

  all' : Circle made.all first_chunk (second_chunk ∷ last_chunk ∷ [])
  unfolding init
  all' = rw (second_lem, last_lem) (all_linked h0.all)

  free' : Circle made.free first_chunk (second_chunk ∷ [])
  unfolding init
  free' = rw (second_lem, last_lem) (two h0.free)

  size' :
      (made.size first_chunk ≡ header_size)
      × (made.size second_chunk ≡ last_chunk - second_chunk)
      × (made.mem_free ≡ last_chunk - second_chunk - header_size)
      × (made.mem_all ≡ made.mem_free)
  unfolding init
  size' =
      rw (second_lem, last_lem)
        (ground (arith, apart), ground (arith, apart), ground (arith, apart), refl)

  used' :
      (x : Node)
      → made.is_used x ≡ (
          if x == last_chunk
          then true
          else if x == first_chunk
          then true
          else if x == second_chunk
          then false
          else h0.is_used x)
  unfolding init
  used' x = rw (second_lem, last_lem) (ground (arith, apart))

  -- A region with room for three blocks becomes a heap with one chunk, which is free and begins
  -- behind the header of the first chunk; `mem_free` counts its bytes behind its header.
  pub init-IsWell :
      IsWell (init mem_start mem_end h0) (second_chunk ∷ []) (second_chunk ∷ [])
      × ((init mem_start mem_end h0).size second_chunk
          ≡ (init mem_start mem_end h0).mem_free + header_size)
  init-IsWell = (
    record {
      chunks = rw (fields.0, fields.1) all';
      tiled = rw (fields.0, fields.1) (omega (arith, size'), omega (arith, size', apart));
      headers = λ x k. elim (==_cases x second_chunk) [
        | inl e ↦ rw e (omega (arith, size', apart))
        | inr n ↦
            let e : x ≡ first_chunk = ground (arith, fields.0, ne→== x second_chunk n) in
            rw e (omega (arith, size'))
      ];
      bound = omega (arith, fields.1, apart);
      head = fields.2 ∙ sym fields.0;
      frees = rw (fields.0) free';
      first_used = rw (fields.0) (ground (arith, used' first_chunk, apart));
      last_used = rw (fields.1) (ground (arith, used' last_chunk));
      free_exactly = λ x. ground (arith, used' x, apart);
      alone = λ x k u. absurd (ground (arith, used' x, apart));
    },
    omega (arith, size', apart),
  )

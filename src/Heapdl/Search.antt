-- ===== src/Heapdl/Search.antt =====
-- `k_heapdl_mm_malloc` of src/memory/heapdl.c ends, and what it returns.
use unagi_os.Common.{
  ℕ, zero, suc, ◌+◌, ◌-◌, ◌≤◌, ◌<◌, ◌≡◌, refl, ◌≢◌, ◌⊎◌, true, false, List, [], ◌∷◌, some, arith,
  ltb, ==_refl, ne→==, ◌∙◌, sym, ==_cases, Bool-cases, lt_cases, inl, inr, length,
}
use unagi_os.Dlist.{Node, Links}
use unagi_os.Dlist.Chain.{has, Chain, Circle}
use unagi_os.Heapdl.{
  Heap, header_size, null, block_size, chunk_engage, chunk_slice, chunk_calc_free_offset,
  malloc_loop, malloc,
}
use unagi_os.Heapdl.Rep.{IsWell, mem_mid, mid-ne-first}
use unagi_os.Heapdl.Malloc.{
  Allocated, engage_whole, engage_slice, actual_free, end_of_free, header_of_free,
}

-- No chunk of `xs` has room for `s` bytes.
abbrev pub NoRoom : Heap → ℕ → List Node → Type 0
NoRoom h s xs = (x : Node) → has x xs ≡ true → h.size x < s + header_size

-- What `k_heapdl_mm_malloc` gives: `NULL` and the same heap, for one of three reasons, or a chunk.
abbrev pub Outcome : Heap → List Node → List Node → ℕ → ℕ × Heap → Type 0
Outcome h mid fs s r =
    ((r ≡ (null, h)) × ((h.mem_free < s) ⊎ (h.mem_free ≡ 0) ⊎ NoRoom h s fs))
    ⊎ Allocated h mid s r.0 r.1

no_free :
    (m : Links) (a : Node) (xs : List Node)
    → Circle m a xs
    → m.next a ≡ a
    → (x : Node) → has x xs ≡ false
no_free m a [] c e x = refl
no_free m a (y ∷ xs) c e x = let q : y ≡ a = sym c.0.0.0 ∙ e in ground (arith, c.1.0)

module _ (h : Heap) (mid fs : List Node) (w : IsWell h mid fs) (s : ℕ) where
  -- What the loop gives if `xs` is left of the free chunks.
  abbrev Searched : List Node → ℕ × Heap → Type 0
  Searched xs r = ((r ≡ (null, h)) × NoRoom h s xs) ⊎ Allocated h mid s r.0 r.1

  -- The body of the loop at a free chunk with room.
  loop_fits :
      (fuel : ℕ) (x : Node)
      → has x fs ≡ true
      → x ≢ h.first
      → s + header_size ≤ h.size x
      → (r : ℕ × Heap) × (malloc_loop (suc fuel) s x h ≡ some r) × Allocated h mid s r.0 r.1
  unfolding malloc_loop
  loop_fits fuel x k n fit = elim (lt_cases (h.size x - header_size - s) block_size) [
    | inl near ↦ (
      (chunk_calc_free_offset x, chunk_engage x h),
      rw (actual_free h mid fs w s x k, w.head)
          (ground (arith, ne→== x h.first n, end_of_free h mid fs w s x k, w.bound)),
      engage_whole h mid fs w s x k fit,
    )
    | inr far ↦ (
      (chunk_calc_free_offset x, chunk_engage x (chunk_slice x s h)),
      rw (actual_free h mid fs w s x k, w.head)
          (ground (arith, ne→== x h.first n, end_of_free h mid fs w s x k, w.bound)),
      engage_slice h mid fs w s x k (omega arith),
    )
  ]

  loop_skips :
      (fuel : ℕ) (x : Node)
      → has x fs ≡ true
      → x ≢ h.first
      → h.size x < s + header_size
      → malloc_loop (suc fuel) s x h ≡ malloc_loop fuel s (h.free.next x) h
  unfolding malloc_loop
  loop_skips fuel x k n small =
      rw (actual_free h mid fs w s x k, w.head)
        (ground (arith, ne→== x h.first n, header_of_free h mid fs w s x k))

  loop_lem :
      (fuel : ℕ) (a : Node) (xs : List Node)
      → length xs < fuel
      → Chain h.free a xs h.first
      → ((x : Node) → has x xs ≡ true → has x fs ≡ true)
      → (r : ℕ × Heap) × (malloc_loop fuel s (h.free.next a) h ≡ some r) × Searched xs r
  unfolding malloc_loop
  loop_lem zero a xs f c sub = absurd (omega arith)
  loop_lem (suc fuel) a [] f c sub =
      ((null, h), rw (c.0, w.head) (ground (arith, ==_refl h.first)), inl (refl, λ x k. cc))
  loop_lem (suc fuel) a (x ∷ xs) f c sub =
      let k : has x fs ≡ true = sub x (ground (arith, ==_refl x)) in
      let n : x ≢ h.first = mid-ne-first w x (mem_mid w x k) in
      elim (lt_cases (h.size x) (s + header_size)) [
        | inr fit ↦ let (r, e, al) = loop_fits fuel x k n fit in (r, rw c.0.0 e, inr al)
        | inl small ↦
            let (r, e, q) = loop_lem fuel x xs (omega arith) c.1 (λ y j. sub y (ground arith)) in
            (
              r,
              rw c.0.0 (loop_skips fuel x k n small ∙ e),
              elim q [
                | inl (same, none_fits) ↦ inl (
                  same,
                  λ y j. elim (==_cases y x) [
                    | inl d ↦ rw d small
                    | inr d ↦ none_fits y (ground (arith, ne→== y x d))
                  ],
                )
                | inr al ↦ inr al
              ],
            )
      ]

  -- With fuel for each free chunk `k_heapdl_mm_malloc` ends. It allocates a chunk with room for `s`
  -- bytes, or it returns `NULL` and changes nothing; then `mem_free` is 0 or below `s`, or no free
  -- chunk has room.
  pub malloc_lem :
      (fuel : ℕ)
      → length fs < fuel
      → (r : ℕ × Heap) × (malloc fuel s h ≡ some r) × Outcome h mid fs s r
  unfolding malloc
  malloc_lem fuel f = elim (Bool-cases (ltb h.mem_free s)) [
    | inl t ↦ ((null, h), rw t, inl (refl, inl (ground arith)))
    | inr t ↦ elim (==_cases h.mem_free 0) [
      | inl z ↦ ((null, h), ground arith, inl (refl, inr (inl z)))
      | inr nz ↦ elim (==_cases (h.free.next h.first) h.first) [
        | inl e ↦ (
          (null, h),
          rw w.head (ground (arith, e)),
          inl (refl, inr (inr (λ x k. cc (no_free h.free h.first fs w.frees e x)))),
        )
        | inr ne ↦
            let (r, e, q) = loop_lem fuel h.first fs f w.frees.0 (λ x k. k) in
            (
              r,
              rw w.head (ground (arith, e)),
              elim q [ inl (same, none_fits) ↦ inl (same, inr (inr none_fits)) | inr al ↦ inr al ],
            )
      ]
    ]
  ]

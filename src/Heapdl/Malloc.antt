-- ===== src/Heapdl/Malloc.antt =====
-- `k_heapdl_mm_malloc` of src/memory/heapdl.c: its loop, and what it allocates.
use unagi_os.Common.{
  ℕ, ◌+◌, ◌-◌, ◌≤◌, ◌≡◌, refl, ◌≢◌, true, false, List, ◌∷◌, ◌++◌, arith, ==_refl, ne→==, subst,
  subst₂,
}
use unagi_os.Dlist.{Node}
use unagi_os.Dlist.Chain.{has}
use unagi_os.Dlist.Update.{has-append}
use unagi_os.Dlist.Inner.{split_at}
use unagi_os.Heapdl.{
  Heap, header_size, chunk_engage, chunk_slice, chunk_calc_free_offset, chunk_calc_actual_free,
}
use unagi_os.Heapdl.Tiling.{Tiled_end}
use unagi_os.Heapdl.Rep.{IsWell, Keeps, mem_mid, unused_of_free}
use unagi_os.Heapdl.Engage.{chunk_engage-IsWell}
use unagi_os.Heapdl.Slice.{chunk_slice-IsWell, size'-first, size'-other, used', b_mid}

-- The used chunks of `mid'` are `p` and used chunks of `mid`.
abbrev pub NoOther : Heap → List Node → Node → Heap → List Node → Type 0
NoOther h mid p h' mid' =
    (x : Node)
    → has x mid' ≡ true
    → h'.is_used x ≡ true
    → x ≢ p
    → (has x mid ≡ true) × (h.is_used x ≡ true)

-- A call gave a pointer behind the header of the chunk `p`, which was free and is now used, with
-- room for `s` bytes; the heap is well formed, and the other used chunks are those before.
pub record Allocated (h : Heap) (mid : List Node) (s ptr : ℕ) (h' : Heap) : Type 0 where
  pub chunk : Node
  pub mid' : List Node
  pub gs : List Node
  pub pointer : ptr ≡ chunk + header_size
  pub was_chunk : has chunk mid ≡ true
  pub was_unused : h.is_used chunk ≡ false
  pub well : IsWell h' mid' gs
  pub is_chunk : has chunk mid' ≡ true
  pub now_used : h'.is_used chunk ≡ true
  pub room : s + header_size ≤ h'.size chunk
  pub keeps : Keeps h mid chunk h' mid'
  pub no_other : NoOther h mid chunk h' mid'

module _ (h : Heap) (mid fs : List Node) (w : IsWell h mid fs) (s : ℕ) where
  -- A chunk ends before the last one, so its size is below 2 ^ 32.
  pub end_of_free : (x : Node) → has x fs ≡ true → x + h.size x ≤ h.last
  end_of_free x k =
      Tiled_end h.size h.first mid h.last x w.headers w.tiled (ground (arith, mem_mid w x k))

  pub header_of_free : (x : Node) → has x fs ≡ true → header_size ≤ h.size x
  header_of_free x k = w.headers x (ground (arith, mem_mid w x k))

  pub actual_free :
      (x : Node) → has x fs ≡ true → chunk_calc_actual_free x h ≡ h.size x - header_size
  unfolding chunk_calc_actual_free
  actual_free x k = omega (arith, end_of_free x k, header_of_free x k, w.bound)

  offset_lem : (x : Node) → has x fs ≡ true → chunk_calc_free_offset x ≡ x + header_size
  unfolding chunk_calc_free_offset
  offset_lem x k = omega (arith, end_of_free x k, header_of_free x k, w.bound)

  pub engage_whole :
      (p : Node)
      → has p fs ≡ true
      → s + header_size ≤ h.size p
      → Allocated h mid s (chunk_calc_free_offset p) (chunk_engage p h)
  unfolding chunk_engage
  engage_whole p k fit =
      let (u, v, e) = split_at p fs k in
      record {
        chunk = p;
        mid' = mid;
        gs = u ++ v;
        pointer = offset_lem p k;
        was_chunk = mem_mid w p k;
        was_unused = unused_of_free w p k;
        well = chunk_engage-IsWell h mid u p v (subst (IsWell h mid) e w);
        is_chunk = mem_mid w p k;
        now_used = ground (arith, ==_refl p);
        room = fit;
        keeps = λ x i t n. (i, ground (arith, ne→== x p n), refl);
        no_other = λ x i t n. (i, ground (arith, ne→== x p n));
      }

  pub engage_slice :
      (p : Node)
      → has p fs ≡ true
      → s + header_size + header_size ≤ h.size p
      → Allocated h mid s (chunk_calc_free_offset p) (chunk_engage p (chunk_slice p s h))
  unfolding chunk_engage
  engage_slice p k fit =
      let (u, v, e) = split_at p fs k in
      let (l, r, d) = split_at p mid (mem_mid w p k) in
      let w' : IsWell h (l ++ p ∷ r) (u ++ p ∷ v) = subst₂ (IsWell h) d e w in
      let bn = p + header_size + s in
      record {
        chunk = p;
        mid' = l ++ p ∷ bn ∷ r;
        gs = u ++ bn ∷ v;
        pointer = offset_lem p k;
        was_chunk = mem_mid w p k;
        was_unused = unused_of_free w p k;
        well =
            chunk_engage-IsWell (chunk_slice p s h) (l ++ p ∷ bn ∷ r) u p (bn ∷ v)
              (chunk_slice-IsWell h l p r u v w' s fit);
        is_chunk = ground (arith, has-append p l (p ∷ bn ∷ r), ==_refl p);
        now_used = ground (arith, ==_refl p);
        room = omega (arith, size'-first h l p r u v w' s fit);
        keeps = λ x i t n.
            let j : has x (l ++ p ∷ r) ≡ true = rw (← d) i in
            let nb : x ≢ bn = λ q. cc (b_mid h l p r u v w' s fit) in
            (
              ground (arith, j, has-append x l (p ∷ bn ∷ r), has-append x l (p ∷ r)),
              ground (arith, ne→== x p n, ne→== x bn nb, used' h l p r u v w' s fit x),
              size'-other h l p r u v w' s fit x n nb,
            );
        no_other = λ x i t n.
            let nb : x ≢ bn = ground (arith, ne→== x p n, used' h l p r u v w' s fit x) in
            (
              rw d (
                  ground
                    (arith, has-append x l (p ∷ bn ∷ r), has-append x l (p ∷ r), ne→== x bn nb)),
              ground (arith, ne→== x p n, ne→== x bn nb, used' h l p r u v w' s fit x),
            );
      }

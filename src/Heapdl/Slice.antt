-- ===== src/Heapdl/Slice.antt =====
-- `chunk_slice` of src/memory/heapdl.c keeps the heap well formed.
use unagi_os.Common.{
  ℕ, ◌+◌, ◌-◌, ◌≤◌, ◌≡◌, refl, ◌≢◌, true, false, not, ◌&&◌, List, [], ◌∷◌, ◌++◌, arith, ◌==◌,
  ==_refl, ne→==, sym, ==_cases, Bool-cases, inl, inr, if◌then◌else◌, subst,
}
use mathlib.Core.List.{append_assoc}
use unagi_os.Common.Words.{add32}
use unagi_os.Dlist
use unagi_os.Dlist.{Node, Links}
use unagi_os.Dlist.Chain.{has, Circle}
use unagi_os.Dlist.Update.{has-append, Distinct-split, ne_of_has}
use unagi_os.Dlist.Circle.{init-Circle}
use unagi_os.Dlist.Inner.{insert_after_inner}
use unagi_os.Dlist.Frame.{init-other, insert_after-Untouched}
use unagi_os.Heapdl.{Heap, header_size, chunk_slice}
use unagi_os.Heapdl.Tiling.{
  Tiled, HasHeaders, Tiled-split, Tiled-append, Tiled_end, Tiled_start, Tiled_other,
}
use unagi_os.Heapdl.Rep.{IsWell, mid-ne-first, used_out, alone_kept}

module _ (h : Heap) (l : List Node) (p : Node) (r u v : List Node)
    (w : IsWell h (l ++ p ∷ r) (u ++ p ∷ v)) (s : ℕ)
    (room : s + header_size + header_size ≤ h.size p) where
  -- where the second chunk starts
  abbrev pub b : Node
  b = p + header_size + s

  left : Tiled h.size h.first l p
  left = (Tiled-split h.size h.first l p r h.last w.tiled).0

  right : Tiled h.size p r h.last
  right = (Tiled-split h.size h.first l p r h.last w.tiled).1

  headers_left : HasHeaders h.size (h.first ∷ l)
  headers_left x k = w.headers x (ground (arith, has-append x l (p ∷ r)))

  headers_right : HasHeaders h.size (p ∷ r)
  headers_right x k = w.headers x (ground (arith, has-append x l (p ∷ r)))

  p_end : p + h.size p ≤ h.last
  p_end = Tiled_end h.size p r h.last p headers_right right (ground (arith, ==_refl p))

  p_mid : has p (l ++ p ∷ r) ≡ true
  p_mid = ground (arith, has-append p l (p ∷ r), ==_refl p)

  p_free : has p (u ++ p ∷ v) ≡ true
  p_free = ground (arith, has-append p u (p ∷ v), ==_refl p)

  b_left : has b (h.first ∷ l) ≡ false
  b_left = elim (Bool-cases (has b (h.first ∷ l))) [
    | inl k ↦ absurd (omega (arith, Tiled_end h.size h.first l p b headers_left left k))
    | inr k ↦ k
  ]

  b_right : has b r ≡ false
  b_right = elim (Bool-cases (has b r)) [
    | inl k ↦ absurd (omega (arith, Tiled_start h.size p r h.last b headers_right right k))
    | inr k ↦ k
  ]

  b-ne-p : b ≢ p
  b-ne-p = omega arith

  b-ne-last : b ≢ h.last
  b-ne-last = omega (arith, p_end)

  b-ne-first : b ≢ h.first
  b-ne-first e = ground (arith, b_left, ==_refl b)

  pub b_mid : has b (l ++ p ∷ r) ≡ false
  b_mid = ground (arith, has-append b l (p ∷ r), b_left, b_right, ne→== b p b-ne-p)

  b_chunks : has b (h.first ∷ (l ++ p ∷ (r ++ h.last ∷ []))) ≡ false
  b_chunks = ground (
    arith,
    has-append b l (p ∷ (r ++ h.last ∷ [])),
    has-append b r (h.last ∷ []),
    b_left,
    b_right,
    ne→== b p b-ne-p,
    ne→== b h.last b-ne-last,
  )

  b_frees : has b (h.first ∷ (u ++ p ∷ v)) ≡ false
  b_frees = ground (arith, w.free_exactly b, b_mid, ne→== b h.first b-ne-first)

  -- the sizes after the call
  abbrev pub size' : Node → ℕ
  size' = (chunk_slice p s h).size

  address : add32 (add32 p 32) s ≡ b
  address = omega (arith, p_end, w.bound)

  pub size'-first : size' p ≡ header_size + s
  unfolding chunk_slice
  size'-first =
      rw address (ground (arith, ne→== p b (λ e. b-ne-p (sym e)), ==_refl p, p_end, w.bound))

  size'-second : size' b ≡ h.size p - header_size - s
  unfolding chunk_slice
  size'-second =
      rw address (
        ground
          (arith, ne→== p b (λ e. b-ne-p (sym e)), ne→== b p b-ne-p, ==_refl b, p_end, w.bound))

  pub size'-other : (x : Node) → x ≢ p → x ≢ b → size' x ≡ h.size x
  unfolding chunk_slice
  size'-other x n m = rw address (ground (arith, ne→== x p n, ne→== x b m))

  distinct_mid : (has p l ≡ false) × (has p r ≡ false)
  distinct_mid =
      let (d, dn, da) = Distinct-split (l ++ p ∷ r) (h.last ∷ []) w.chunks.1.1 in
      let (dl, dp, apart) = Distinct-split l (p ∷ r) d in
      (
        elim (Bool-cases (has p l)) [ inl k ↦ ground (arith, apart p k, ==_refl p) | inr k ↦ k ],
        dp.0,
      )

  -- outside the two chunks the sizes are those before
  size'-left : (x : Node) → has x (h.first ∷ l) ≡ true → size' x ≡ h.size x
  size'-left x k =
      size'-other x
        (ne_of_has (h.first ∷ l) x p k
          (ground (arith, distinct_mid, ne→== p h.first (mid-ne-first w p p_mid))))
        (ne_of_has (h.first ∷ l) x b k b_left)

  size'-right : (x : Node) → has x r ≡ true → size' x ≡ h.size x
  size'-right x k = size'-other x (ne_of_has r x p k distinct_mid.1) (ne_of_has r x b k b_right)

  tiled' : Tiled size' h.first (l ++ p ∷ b ∷ r) h.last
  tiled' =
      Tiled-append size' h.first l p (b ∷ r) h.last
        (Tiled_other h.size size' h.first h.first l p
          (omega (arith, size'-left h.first (ground (arith, ==_refl h.first))))
          (λ x k. size'-left x (ground arith)) left)
        (
          omega (arith, size'-first),
          Tiled_other h.size size' p b r h.last (omega (arith, size'-second)) size'-right right,
        )

  headers' : HasHeaders size' (h.first ∷ (l ++ p ∷ b ∷ r))
  headers' x k = elim (==_cases x p) [
    | inl e ↦ rw e (omega (arith, size'-first))
    | inr n ↦ elim (==_cases x b) [
      | inl e ↦ rw e (omega (arith, size'-second))
      | inr m ↦ rw (size'-other x n m) (
          w.headers x
            (ground (arith, has-append x l (p ∷ b ∷ r), has-append x l (p ∷ r), ne→== x b m)))
    ]
  ]

  all' : (chunk_slice p s h).all ≡ (Dlist.insert_after p b (Dlist.init b h.all)).1
  unfolding chunk_slice
  all' = rw address refl

  free' : (chunk_slice p s h).free ≡ (Dlist.insert_after p b (Dlist.init b h.free)).1
  unfolding chunk_slice
  free' = rw address refl

  pub used' : (x : Node) → (chunk_slice p s h).is_used x ≡ (if x == b then false else h.is_used x)
  unfolding chunk_slice
  used' x = rw address refl

  chunks' : Circle (chunk_slice p s h).all h.first ((l ++ p ∷ b ∷ r) ++ h.last ∷ [])
  chunks' =
      let old = subst (Circle h.all h.first) (append_assoc l (p ∷ r) (h.last ∷ [])) w.chunks in
      subst (λ m. Circle m h.first ((l ++ p ∷ b ∷ r) ++ h.last ∷ [])) (sym all')
        (subst (Circle (Dlist.insert_after p b (Dlist.init b h.all)).1 h.first)
          (sym (append_assoc l (p ∷ b ∷ r) (h.last ∷ [])))
          (insert_after_inner (Dlist.init b h.all) h.first l p (r ++ h.last ∷ []) b
            (init-other h.all b h.first (l ++ p ∷ (r ++ h.last ∷ [])) old b_chunks)
            (init-Circle b h.all) b_chunks))

  frees_init : Circle (Dlist.init b h.free) h.first (u ++ p ∷ v)
  frees_init = init-other h.free b h.first (u ++ p ∷ v) w.frees b_frees

  frees' : Circle (chunk_slice p s h).free h.first (u ++ p ∷ b ∷ v)
  frees' =
      subst (λ m. Circle m h.first (u ++ p ∷ b ∷ v)) (sym free')
        (insert_after_inner (Dlist.init b h.free) h.first u p v b frees_init (init-Circle b h.free)
          b_frees)

  free_exactly' :
      (x : Node)
      → has x (u ++ p ∷ b ∷ v) ≡ (has x (l ++ p ∷ b ∷ r) && not ((chunk_slice p s h).is_used x))
  free_exactly' x = ground (
    arith,
    used' x,
    w.free_exactly x,
    has-append x u (p ∷ b ∷ v),
    has-append x u (p ∷ v),
    has-append x l (p ∷ b ∷ r),
    has-append x l (p ∷ r),
  )

  alone' :
      (x : Node)
      → has x (l ++ p ∷ b ∷ r) ≡ true
      → (chunk_slice p s h).is_used x ≡ true
      → Circle (chunk_slice p s h).free x []
  alone' x k used =
      let n : x ≢ b = ground (arith, used' x) in
      let old : h.is_used x ≡ true = ground (arith, used' x) in
      let mid : has x (l ++ p ∷ r) ≡ true =
        ground (arith, has-append x l (p ∷ b ∷ r), has-append x l (p ∷ r), ne→== x b n) in
      let out = used_out w x mid old in
      subst (λ m. Circle m x []) (sym free')
        (alone_kept (Dlist.init b h.free) (Dlist.insert_after p b (Dlist.init b h.free)).1 x
          (insert_after-Untouched (Dlist.init b h.free) h.first (u ++ p ∷ v) frees_init p
            (ground (arith, p_free)) b (init-Circle b h.free) x (ground (arith, ne→== x b n)))
          (init-other h.free b x [] (w.alone x mid old) (ground (arith, n))))

  -- The chunk is split in two free chunks, of which the first has `s` bytes behind its header.
  pub chunk_slice-IsWell : IsWell (chunk_slice p s h) (l ++ p ∷ b ∷ r) (u ++ p ∷ b ∷ v)
  unfolding chunk_slice
  chunk_slice-IsWell = record {
    chunks = chunks';
    tiled = tiled';
    headers = headers';
    bound = w.bound;
    head = w.head;
    frees = frees';
    first_used = ground (arith, used' h.first, w.first_used, b-ne-first);
    last_used = ground (arith, used' h.last, w.last_used, b-ne-last);
    free_exactly = free_exactly';
    alone = alone';
  }

-- ===== src/Heapdl/Marked.antt =====
-- The parts of `chunk_free` of src/memory/heapdl.c: the marked chunk, and its merge with a neighbour.
use unagi_os.Common.{
  ◌≡◌, refl, ◌≢◌, true, false, ◌||◌, List, [], ◌∷◌, ◌++◌, arith, ◌==◌, ==_refl, ne→==, sym,
  ==_cases, inl, inr, if◌then◌else◌, subst,
}
use mathlib.Core.List.{append_assoc}
use unagi_os.Common.Words.{add32, sub32}
use unagi_os.Dlist
use unagi_os.Dlist.{Node, Links}
use unagi_os.Dlist.Chain.{has, Circle}
use unagi_os.Dlist.Update.{has-append}
use unagi_os.Dlist.Inner.{insert_after_inner, insert_before_inner}
use unagi_os.Dlist.Frame.{Untouched, insert_after-Untouched, insert_before-Untouched}
use unagi_os.Heapdl.{Heap, size_of_chunk, update, chunk_merge}
use unagi_os.Heapdl.Rep.{
  Keeps, IsWell, unused_of_free, mid-ne-first, mid-ne-last, used_out, alone_kept,
}
use unagi_os.Heapdl.Merge.{chunk_merge-IsWell}

-- the heap of `chunk_free` once the chunk is marked, with the links `m` of the free chunks
abbrev pub marked : Heap → Node → Links → Heap
marked h p m = record h {
  is_used = update h.is_used p false;
  mem_free = add32 h.mem_free (sub32 (h.size p) size_of_chunk);
  free = m;
}

module _ (h : Heap) (mid fs : List Node) (w : IsWell h mid fs) (p : Node) where
  -- The marked chunk is among the free chunks again.
  pub marked-IsWell :
      (m : Links) (gs : List Node)
      → has p mid ≡ true
      → Circle m h.first gs
      → ((x : Node) → has x gs ≡ ((x == p) || has x fs))
      → Untouched h.free m (p ∷ h.first ∷ fs)
      → IsWell (marked h p m) mid gs
  marked-IsWell m gs i c exact same = record {
    chunks = w.chunks;
    tiled = w.tiled;
    headers = w.headers;
    bound = w.bound;
    head = w.head;
    frees = c;
    first_used = ground (arith, w.first_used, mid-ne-first w p i);
    last_used = ground (arith, w.last_used, mid-ne-last w p i);
    free_exactly = λ x. elim (==_cases x p) [
      | inl e ↦ rw e (ground (arith, exact p, ==_refl p))
      | inr n ↦ ground (arith, exact x, w.free_exactly x, ne→== x p n)
    ];
    alone = λ x k used.
        let n : x ≢ p = ground arith in
        let old : h.is_used x ≡ true = ground arith in
        alone_kept h.free m x (same x (ground (arith, ne→== x p n, used_out w x k old)))
          (w.alone x k old);
  }

-- The chunk `q` before `p` is free: it takes the space of `p`.
module _ (h : Heap) (l : List Node) (q p : Node) (r u v : List Node)
    (w : IsWell h (l ++ q ∷ p ∷ r) (u ++ q ∷ v)) (used : h.is_used p ≡ true) where
  abbrev mid_q : List Node
  mid_q = l ++ q ∷ p ∷ r

  p_in : has p mid_q ≡ true
  p_in = ground (arith, has-append p l (q ∷ p ∷ r), ==_refl p)

  q_in : has q (u ++ q ∷ v) ≡ true
  q_in = ground (arith, has-append q u (q ∷ v), ==_refl q)

  abbrev links_q : Links
  links_q = (Dlist.insert_after q p h.free).1

  marked-q : IsWell (marked h p links_q) mid_q (u ++ q ∷ p ∷ v)
  marked-q =
      marked-IsWell h mid_q (u ++ q ∷ v) w p links_q (u ++ q ∷ p ∷ v) p_in
        (insert_after_inner h.free h.first u q v p w.frees (w.alone p p_in used)
          (used_out w p p_in used))
        (λ x. ground (arith, has-append x u (q ∷ p ∷ v), has-append x u (q ∷ v)))
        (insert_after-Untouched h.free h.first (u ++ q ∷ v) w.frees q (ground (arith, q_in)) p
          (w.alone p p_in used))

  pub merged_prev-IsWell :
      IsWell (chunk_merge q p (marked h p links_q)) (l ++ q ∷ r) ((u ++ q ∷ []) ++ v)
  merged_prev-IsWell =
      chunk_merge-IsWell (marked h p links_q) l q p r (u ++ q ∷ []) v
        (subst (IsWell (marked h p links_q) mid_q) (sym (append_assoc u (q ∷ []) (p ∷ v))) marked-q)

  pub merged_prev-Keeps : Keeps h mid_q p (chunk_merge q p (marked h p links_q)) (l ++ q ∷ r)
  unfolding chunk_merge
  merged_prev-Keeps x k t n =
      let nq : x ≢ q = λ e. cc (subst (λ y. h.is_used y ≡ true) e t, unused_of_free w q q_in) in
      (
        ground (arith, has-append x l (q ∷ p ∷ r), has-append x l (q ∷ r), ne→== x p n),
        ground (arith, ne→== x p n),
        ground (arith, ne→== x q nq),
      )

-- The chunk `q` behind `p` is free: `p` takes its space.
module _ (h : Heap) (l : List Node) (p q : Node) (r u v : List Node)
    (w : IsWell h (l ++ p ∷ q ∷ r) (u ++ q ∷ v)) (used : h.is_used p ≡ true) where
  abbrev mid_p : List Node
  mid_p = l ++ p ∷ q ∷ r

  p_in' : has p mid_p ≡ true
  p_in' = ground (arith, has-append p l (p ∷ q ∷ r), ==_refl p)

  q_in' : has q (u ++ q ∷ v) ≡ true
  q_in' = ground (arith, has-append q u (q ∷ v), ==_refl q)

  abbrev links_p : Links
  links_p = (Dlist.insert_before q p h.free).1

  marked_p : IsWell (marked h p links_p) mid_p (u ++ p ∷ q ∷ v)
  marked_p =
      marked-IsWell h mid_p (u ++ q ∷ v) w p links_p (u ++ p ∷ q ∷ v) p_in'
        (insert_before_inner h.free h.first u q v p w.frees (w.alone p p_in' used)
          (used_out w p p_in' used))
        (λ x. ground (arith, has-append x u (p ∷ q ∷ v), has-append x u (q ∷ v)))
        (insert_before-Untouched h.free h.first (u ++ q ∷ v) w.frees q (ground (arith, q_in')) p
          (w.alone p p_in' used))

  pub merged_next-IsWell :
      IsWell (chunk_merge p q (marked h p links_p)) (l ++ p ∷ r) ((u ++ p ∷ []) ++ v)
  merged_next-IsWell =
      chunk_merge-IsWell (marked h p links_p) l p q r (u ++ p ∷ []) v
        (subst (IsWell (marked h p links_p) mid_p) (sym (append_assoc u (p ∷ []) (q ∷ v))) marked_p)

  pub merged_next-Keeps : Keeps h mid_p p (chunk_merge p q (marked h p links_p)) (l ++ p ∷ r)
  unfolding chunk_merge
  merged_next-Keeps x k t n =
      let nq : x ≢ q = λ e. cc (subst (λ y. h.is_used y ≡ true) e t, unused_of_free w q q_in') in
      (
        ground (arith, has-append x l (p ∷ q ∷ r), has-append x l (p ∷ r), ne→== x q nq),
        ground (arith, ne→== x p n),
        ground (arith, ne→== x p n),
      )

pub merged_used :
    (h : Heap) (p a b : Node) (m : Links) (x : Node)
    → (chunk_merge a b (marked h p m)).is_used x ≡ (if x == p then false else h.is_used x)
unfolding chunk_merge
merged_used h p a b m x = refl

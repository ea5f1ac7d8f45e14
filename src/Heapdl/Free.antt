-- ===== src/Heapdl/Free.antt =====
-- `chunk_free` of src/memory/heapdl.c keeps the heap well formed and every other used chunk.
use unagi_os.Common.{
  ◌≡◌, refl, ◌≢◌, ◌⊎◌, true, false, List, [], ◌∷◌, ◌++◌, arith, ◌==◌, ==_refl, ne→==, ◌∙◌, sym,
  Bool-cases, inl, inr, if◌then◌else◌, subst, ap,
}
use mathlib.Core.List.{append_assoc}
use unagi_os.Dlist
use unagi_os.Dlist.{Node, Links}
use unagi_os.Dlist.Chain.{has, Circle, last_of, first_of_chain, prev-Chain, next-Chain, Chain-split}
use unagi_os.Dlist.Update.{has-append, Distinct-split, ne_of_has}
use unagi_os.Dlist.Circle.{insert_after-Circle}
use unagi_os.Dlist.Inner.{split_at, apart_one}
use unagi_os.Dlist.Frame.{insert_after-Untouched}
use unagi_os.Heapdl.{Heap, chunk_merge, chunk_free}
use unagi_os.Dlist.Splice.{has_first, has_last}
use unagi_os.Heapdl.Rep.{Keeps, IsWell, mid-ne-first, mid-ne-last, used_out}
use unagi_os.Heapdl.Marked.{
  marked, marked-IsWell, merged_prev-IsWell, merged_prev-Keeps, merged_next-IsWell,
  merged_next-Keeps, merged_used,
}

last_split :
    (a : Node) (l : List Node) → (l ≡ []) ⊎ ((l' : List Node) × (l ≡ l' ++ last_of a l ∷ []))
last_split a [] = inl refl
last_split a (x ∷ l) = elim (last_split x l) [
  | inl e ↦ inr ([], rw (e, last_of))
  | inr (l', e) ↦ inr (x ∷ l', ap (λ t. x ∷ t) e)
]

module _ (h : Heap) (l : List Node) (p : Node) (r fs : List Node) (w : IsWell h (l ++ p ∷ r) fs)
    (used : h.is_used p ≡ true) where
  -- What `chunk_free` gives.
  abbrev pub Freed : Heap → Type 0
  Freed h' =
      (mid' : List Node) × (gs : List Node) × IsWell h' mid' gs
      × Keeps h (l ++ p ∷ r) p h' mid'
      × ((x : Node) → h'.is_used x ≡ (if x == p then false else h.is_used x))

  p_mid : has p (l ++ p ∷ r) ≡ true
  p_mid = ground (arith, has-append p l (p ∷ r), ==_refl p)

  p_alone : Circle h.free p []
  p_alone = w.alone p p_mid used

  p_out : has p (h.first ∷ fs) ≡ false
  p_out = used_out w p p_mid used

  prev_p : h.all.prev p ≡ last_of h.first l
  prev_p = prev-Chain h.all h.first l p (
      (Chain-split h.all h.first l p (r ++ h.last ∷ []) h.first
        (subst (Circle h.all h.first) (append_assoc l (p ∷ r) (h.last ∷ [])) w.chunks).0).0)

  next_p : h.all.next p ≡ first_of_chain (r ++ h.last ∷ []) h.first
  next_p = next-Chain h.all p (r ++ h.last ∷ []) h.first (
      (Chain-split h.all h.first l p (r ++ h.last ∷ []) h.first
        (subst (Circle h.all h.first) (append_assoc l (p ∷ r) (h.last ∷ [])) w.chunks).0).1)

  p_out_left : has p (h.first ∷ l) ≡ false
  p_out_left =
      let (d, _, _) = Distinct-split (l ++ p ∷ r) (h.last ∷ []) w.chunks.1.1 in
      let (_, _, apart) = Distinct-split l (p ∷ r) d in
      ground (arith, apart p, ==_refl p, ne→== p h.first (mid-ne-first w p p_mid))

  p_out_right : has p (h.first ∷ (r ++ h.last ∷ [])) ≡ false
  p_out_right =
      let (d, _, _) = Distinct-split (l ++ p ∷ r) (h.last ∷ []) w.chunks.1.1 in
      let (_, dp, _) = Distinct-split l (p ∷ r) d in
      ground (
        arith,
        dp.0,
        has-append p r (h.last ∷ []),
        ne→== p h.first (mid-ne-first w p p_mid),
        ne→== p h.last (mid-ne-last w p p_mid),
      )

  prev-ne : h.all.prev p ≢ p
  prev-ne =
      ne_of_has (h.first ∷ l) (h.all.prev p) p (has_last h.first l (h.all.prev p) prev_p) p_out_left

  next-ne : h.all.next p ≢ p
  next-ne =
      ne_of_has (h.first ∷ (r ++ h.last ∷ [])) (h.all.next p) p
        (has_first (r ++ h.last ∷ []) h.first (h.all.next p) next_p) p_out_right

  -- Neither neighbour is free: the chunk goes behind the head of the free chunks.
  Freed-plain :
      h.is_used (h.all.prev p) ≡ true → h.is_used (h.all.next p) ≡ true → Freed (chunk_free p h)
  unfolding chunk_free
  Freed-plain a b =
      let m = (Dlist.insert_after h.first p h.free).1 in
      let result : chunk_free p h ≡ marked h p m =
        rw w.head
          (ground (arith, ne→== (h.all.prev p) p prev-ne, ne→== (h.all.next p) p next-ne)) in
      rw result (
        l ++ p ∷ r,
        p ∷ fs,
        marked-IsWell h (l ++ p ∷ r) fs w p m (p ∷ fs) p_mid
            (insert_after-Circle h.free h.first fs p [] w.frees p_alone
              (apart_one (h.first ∷ fs) p p_out))
            (λ x. refl)
            (insert_after-Untouched h.free h.first fs w.frees h.first
              (ground (arith, ==_refl h.first)) p p_alone),
        (λ x k t n. (k, ground (arith, ne→== x p n), refl)),
        (λ x. refl),
      )

  abbrev q : Node
  q = h.all.prev p

  split_prev :
      h.is_used q ≡ false
      → (l' : List Node) × (u : List Node) × (v : List Node) × (l ++ p ∷ r ≡ l' ++ q ∷ p ∷ r)
        × (fs ≡ u ++ q ∷ v)
  split_prev a = elim (last_split h.first l) [
    | inl e ↦
        let own : q ≡ h.first = prev_p ∙ ap (last_of h.first) e in
        cc (subst (λ x. h.is_used x ≡ false) own a, w.first_used)
    | inr (l', e) ↦
        let shape : l ++ p ∷ r ≡ l' ++ q ∷ p ∷ r =
          ap (λ t. t ++ p ∷ r) (e ∙ ap (λ t. l' ++ t ∷ []) (sym prev_p))
          ∙ append_assoc l' (q ∷ []) (p ∷ r) in
        let inside : has q (l ++ p ∷ r) ≡ true =
          rw shape (ground (arith, has-append q l' (q ∷ p ∷ r), ==_refl q)) in
        let (u, v, e2) = split_at q fs (ground (arith, w.free_exactly q)) in (l', u, v, shape, e2)
  ]

  -- The chunk before is free and takes the chunk.
  Freed-prev : h.is_used q ≡ false → Freed (chunk_free p h)
  unfolding chunk_free
  Freed-prev a =
      let (l', u, v, e, e2) = split_prev a in
      let w' : IsWell h (l' ++ q ∷ p ∷ r) (u ++ q ∷ v) =
        subst (λ m. IsWell h m (u ++ q ∷ v)) e (subst (IsWell h (l ++ p ∷ r)) e2 w) in
      let result : chunk_free p h ≡ chunk_merge q p (marked h p (Dlist.insert_after q p h.free).1) =
        ground (arith, ne→== q p prev-ne) in
      rw result (
        l' ++ q ∷ r,
        (u ++ q ∷ []) ++ v,
        merged_prev-IsWell h l' q p r u v w' used,
        subst
            (λ m.
              Keeps h m p (chunk_merge q p (marked h p (Dlist.insert_after q p h.free).1))
                (l' ++ q ∷ r))
            (sym e) (merged_prev-Keeps h l' q p r u v w' used),
        merged_used h p q p (Dlist.insert_after q p h.free).1,
      )

  abbrev q' : Node
  q' = h.all.next p

  split_next :
      h.is_used q' ≡ false
      → (r' : List Node) × (u : List Node) × (v : List Node) × (r ≡ q' ∷ r') × (fs ≡ u ++ q' ∷ v)
  split_next a = elim (r_cases r refl) [
    | inl e ↦ cc (subst (λ x. h.is_used x ≡ false) e a, w.last_used)
    | inr (r', e) ↦
        let inside : has q' (l ++ p ∷ r) ≡ true =
          rw e (ground (arith, has-append q' l (p ∷ q' ∷ r'), ==_refl q')) in
        let (u, v, e2) = split_at q' fs (ground (arith, w.free_exactly q')) in (r', u, v, e, e2)
  ]
    where
      r_cases : (t : List Node) → r ≡ t → (q' ≡ h.last) ⊎ ((r' : List Node) × (r ≡ q' ∷ r'))
      r_cases [] e = inl (next_p ∙ ap (λ z. first_of_chain (z ++ h.last ∷ []) h.first) e)
      r_cases (y ∷ t) e = inr (
        t,
        e ∙ ap (λ z. z ∷ t) (sym (next_p ∙ ap (λ z. first_of_chain (z ++ h.last ∷ []) h.first) e)),
      )

  -- The chunk behind is free and is taken by the chunk.
  Freed-next : h.is_used q ≡ true → h.is_used q' ≡ false → Freed (chunk_free p h)
  unfolding chunk_free
  Freed-next a b =
      let (r', u, v, e, e2) = split_next b in
      let shape : l ++ p ∷ r ≡ l ++ p ∷ q' ∷ r' = ap (λ t. l ++ p ∷ t) e in
      let w' : IsWell h (l ++ p ∷ q' ∷ r') (u ++ q' ∷ v) =
        subst (λ m. IsWell h m (u ++ q' ∷ v)) shape (subst (IsWell h (l ++ p ∷ r)) e2 w) in
      let result : chunk_free p h
          ≡ chunk_merge p q' (marked h p (Dlist.insert_before q' p h.free).1) =
        ground (arith, ne→== q p prev-ne, ne→== q' p next-ne) in
      rw result (
        l ++ p ∷ r',
        (u ++ p ∷ []) ++ v,
        merged_next-IsWell h l p q' r' u v w' used,
        subst
            (λ m.
              Keeps h m p (chunk_merge p q' (marked h p (Dlist.insert_before q' p h.free).1))
                (l ++ p ∷ r'))
            (sym shape) (merged_next-Keeps h l p q' r' u v w' used),
        merged_used h p p q' (Dlist.insert_before q' p h.free).1,
      )

  -- Freeing a used chunk keeps the heap well formed, and keeps every other used chunk with its size.
  pub chunk_free-Freed : Freed (chunk_free p h)
  chunk_free-Freed = elim (Bool-cases (h.is_used q)) [
    | inr a ↦ Freed-prev a
    | inl a ↦ elim (Bool-cases (h.is_used q')) [ inr b ↦ Freed-next a b | inl b ↦ Freed-plain a b ]
  ]

-- ===== src/Heapdl/Merge.antt =====
-- `chunk_merge` of src/memory/heapdl.c keeps the heap well formed.
use unagi_os.Common.{
  ◌+◌, ◌≡◌, ◌≢◌, true, false, List, [], ◌∷◌, ◌++◌, arith, ==_refl, ne→==, sym, ==_cases, inl, inr,
  subst,
}
use mathlib.Core.List.{append_assoc}
use unagi_os.Common.Words.{add32}
use unagi_os.Dlist
use unagi_os.Dlist.{Node, Links}
use unagi_os.Dlist.Chain.{has, Circle}
use unagi_os.Dlist.Update.{has-append, Distinct-split, ne_of_has}
use unagi_os.Dlist.Circle.{remove-Circle}
use unagi_os.Dlist.Frame.{remove-Untouched}
use unagi_os.Heapdl.{Heap, chunk_merge}
use unagi_os.Heapdl.Tiling.{Tiled, HasHeaders, Tiled-split, Tiled-append, Tiled_end, Tiled_other}
use unagi_os.Heapdl.Rep.{IsWell, mid-ne-first, used_out, alone_kept}

module _ (h : Heap) (l : List Node) (a b : Node) (r u v : List Node)
    (w : IsWell h (l ++ a ∷ b ∷ r) (u ++ b ∷ v)) where
  left : Tiled h.size h.first l a
  left = (Tiled-split h.size h.first l a (b ∷ r) h.last w.tiled).0

  right : Tiled h.size a (b ∷ r) h.last
  right = (Tiled-split h.size h.first l a (b ∷ r) h.last w.tiled).1

  a_mid : has a (l ++ a ∷ b ∷ r) ≡ true
  a_mid = ground (arith, has-append a l (a ∷ b ∷ r), ==_refl a)

  b_mid : has b (l ++ a ∷ b ∷ r) ≡ true
  b_mid = ground (arith, has-append b l (a ∷ b ∷ r), ==_refl b)

  b_free : has b (u ++ b ∷ v) ≡ true
  b_free = ground (arith, has-append b u (b ∷ v), ==_refl b)

  b_once : has b (u ++ v) ≡ false
  b_once =
      let (du, db, apart) = Distinct-split u (b ∷ v) w.frees.1.1 in
      ground (arith, has-append b u v, apart b, ==_refl b, db.0)

  distinct_mid :
      (has a l ≡ false) × (has b l ≡ false) × (a ≢ b) × (has a r ≡ false) × (has b r ≡ false)
  distinct_mid =
      let (d, dn, da) = Distinct-split (l ++ a ∷ b ∷ r) (h.last ∷ []) w.chunks.1.1 in
      let (dl, dab, apart) = Distinct-split l (a ∷ b ∷ r) d in
      (
        ground (arith, apart a, ==_refl a),
        ground (arith, apart b, ==_refl b),
        (λ e. ground (arith, ==_refl a)),
        ground arith,
        dab.1.0,
      )

  b_gone : has b (l ++ a ∷ r) ≡ false
  b_gone =
      ground (arith, has-append b l (a ∷ r), distinct_mid, ne→== b a (λ e. distinct_mid.2 (sym e)))

  size_sum : add32 (h.size a) (h.size b) ≡ h.size a + h.size b
  size_sum = omega (
    arith,
    right.0,
    w.bound,
    Tiled_end h.size a (b ∷ r) h.last b
        (λ x k. w.headers x (ground (arith, has-append x l (a ∷ b ∷ r)))) right
        (ground (arith, ==_refl b)),
  )

  size'-first : (chunk_merge a b h).size a ≡ h.size a + h.size b
  unfolding chunk_merge
  size'-first = ground (arith, size_sum, ==_refl a)

  size'-other : (x : Node) → x ≢ a → (chunk_merge a b h).size x ≡ h.size x
  unfolding chunk_merge
  size'-other x n = ground (arith, ne→== x a n)

  size'-left : (x : Node) → has x (h.first ∷ l) ≡ true → (chunk_merge a b h).size x ≡ h.size x
  size'-left x k = size'-other x (
      ne_of_has (h.first ∷ l) x a k
        (ground (arith, distinct_mid, ne→== a h.first (mid-ne-first w a a_mid))))

  tiled' : Tiled (chunk_merge a b h).size h.first (l ++ a ∷ r) h.last
  tiled' =
      Tiled-append (chunk_merge a b h).size h.first l a r h.last
        (Tiled_other h.size (chunk_merge a b h).size h.first h.first l a
          (omega (arith, size'-left h.first (ground (arith, ==_refl h.first))))
          (λ x k. size'-left x (ground arith)) left)
        (Tiled_other h.size (chunk_merge a b h).size b a r h.last
          (omega (arith, size'-first, right.0))
          (λ x k. size'-other x (ne_of_has r x a k distinct_mid.3)) right.1)

  headers' : HasHeaders (chunk_merge a b h).size (h.first ∷ (l ++ a ∷ r))
  headers' x k = elim (==_cases x a) [
    | inl e ↦ rw e (omega (arith, size'-first, w.headers a (ground (arith, a_mid))))
    | inr n ↦
        rw (size'-other x n)
          (w.headers x (ground (arith, has-append x l (a ∷ b ∷ r), has-append x l (a ∷ r))))
  ]

  chunks' : Circle (chunk_merge a b h).all h.first ((l ++ a ∷ r) ++ h.last ∷ [])
  unfolding chunk_merge
  chunks' =
      let before : (l ++ a ∷ b ∷ r) ++ h.last ∷ [] ≡ (l ++ a ∷ []) ++ b ∷ (r ++ h.last ∷ []) =
        simp append_assoc in
      let after : (l ++ a ∷ []) ++ (r ++ h.last ∷ []) ≡ (l ++ a ∷ r) ++ h.last ∷ [] =
        simp append_assoc in
      subst (Circle (Dlist.remove b h.all).1 h.first) after (
        (remove-Circle h.all h.first (l ++ a ∷ []) b (r ++ h.last ∷ [])
          (subst (Circle h.all h.first) before w.chunks)).0)

  -- The second chunk leaves the chunks and the free chunks, and the first takes its space.
  pub chunk_merge-IsWell : IsWell (chunk_merge a b h) (l ++ a ∷ r) (u ++ v)
  unfolding chunk_merge
  chunk_merge-IsWell = record {
    chunks = chunks';
    tiled = tiled';
    headers = headers';
    bound = w.bound;
    head = w.head;
    frees = (remove-Circle h.free h.first u b v w.frees).0;
    first_used = w.first_used;
    last_used = w.last_used;
    free_exactly = λ x. elim (==_cases x b) [
      | inl e ↦ rw e (ground (arith, b_once, b_gone))
      | inr n ↦ ground (
        arith,
        w.free_exactly x,
        ne→== x b n,
        has-append x l (a ∷ b ∷ r),
        has-append x l (a ∷ r),
        has-append x u (b ∷ v),
        has-append x u v,
      )
    ];
    alone = λ x k used.
        let old : has x (l ++ a ∷ b ∷ r) ≡ true =
          ground (arith, has-append x l (a ∷ b ∷ r), has-append x l (a ∷ r)) in
        alone_kept h.free (Dlist.remove b h.free).1 x
          (remove-Untouched h.free h.first (u ++ b ∷ v) w.frees b (ground (arith, b_free)) x
            (used_out w x old used))
          (w.alone x old used);
  }

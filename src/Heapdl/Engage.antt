-- ===== src/Heapdl/Engage.antt =====
-- `chunk_engage` of src/memory/heapdl.c keeps the heap well formed.
use unagi_os.Common.{
  ◌≡◌, ◌≢◌, true, false, List, ◌∷◌, ◌++◌, arith, ==_refl, ne→==, ==_cases, inl, inr,
}
use unagi_os.Dlist
use unagi_os.Dlist.{Node, Links}
use unagi_os.Dlist.Chain.{has}
use unagi_os.Dlist.Update.{has-append, Distinct-split}
use unagi_os.Dlist.Circle.{remove-Circle}
use unagi_os.Dlist.Frame.{remove-Untouched}
use unagi_os.Heapdl.{Heap, chunk_engage}
use unagi_os.Heapdl.Rep.{IsWell, used_out, alone_kept}

module _ (h : Heap) (mid u : List Node) (p : Node) (v : List Node)
    (w : IsWell h mid (u ++ p ∷ v)) where
  p_free : has p (u ++ p ∷ v) ≡ true
  p_free = ground (arith, has-append p u (p ∷ v), ==_refl p)

  p_once : has p (u ++ v) ≡ false
  p_once =
      let (du, dp, apart) = Distinct-split u (p ∷ v) w.frees.1.1 in
      ground (arith, has-append p u v, apart p, ==_refl p, dp.0)

  has_other : (x : Node) → x ≢ p → has x (u ++ v) ≡ has x (u ++ p ∷ v)
  has_other x n = ground (arith, has-append x u v, has-append x u (p ∷ v), ne→== x p n)

  -- The chunk leaves the free chunks and is used; the others stay as they are.
  pub chunk_engage-IsWell : IsWell (chunk_engage p h) mid (u ++ v)
  unfolding chunk_engage
  chunk_engage-IsWell = record {
    chunks = w.chunks;
    tiled = w.tiled;
    headers = w.headers;
    bound = w.bound;
    head = w.head;
    frees = (remove-Circle h.free h.first u p v w.frees).0;
    first_used = ground (arith, w.first_used);
    last_used = ground (arith, w.last_used);
    free_exactly = λ x. elim (==_cases x p) [
      | inl e ↦ rw e (ground (arith, p_once, ==_refl p))
      | inr n ↦ ground (arith, has_other x n, w.free_exactly x, ne→== x p n)
    ];
    alone = λ x k used. elim (==_cases x p) [
      | inl e ↦ rw e ((remove-Circle h.free h.first u p v w.frees).1)
      | inr n ↦
          let before : h.is_used x ≡ true = ground (arith, ne→== x p n) in
          alone_kept h.free (Dlist.remove p h.free).1 x
            (remove-Untouched h.free h.first (u ++ p ∷ v) w.frees p (ground (arith, p_free)) x
              (used_out w x k before))
            (w.alone x k before)
    ];
  }

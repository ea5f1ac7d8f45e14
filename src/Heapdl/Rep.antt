-- ===== src/Heapdl/Rep.antt =====
-- When the headers of src/memory/heapdl.c make up a heap.
use unagi_os.Common.{
  ◌+◌, ◌≤◌, ◌^◌, ◌≡◌, ◌≢◌, true, false, not, ◌&&◌, List, [], ◌∷◌, ◌++◌, arith, ==_refl, ne→==, ◌∙◌,
}
use unagi_os.Dlist.{Node, Links}
use unagi_os.Dlist.Chain.{has, Circle}
use unagi_os.Dlist.Update.{has-append, Distinct-split, ne_of_has}
use unagi_os.Heapdl.{Heap, header_size}
use unagi_os.Heapdl.Tiling.{Tiled, HasHeaders}

-- Between the chunks `first` and `last` stand those of `mid`, in the order of their addresses and
-- without gaps; the circle `free` holds exactly those of `mid` that are not used, and a used one is
-- in no circle but its own.
pub record IsWell (h : Heap) (mid fs : List Node) : Type 0 where
  pub chunks : Circle h.all h.first (mid ++ h.last ∷ [])
  pub tiled : Tiled h.size h.first mid h.last
  pub headers : HasHeaders h.size (h.first ∷ mid)
  pub bound : h.last + header_size ≤ 2 ^ 32
  pub head : h.free_chunk_head ≡ h.first
  pub frees : Circle h.free h.first fs
  pub first_used : h.is_used h.first ≡ true
  pub last_used : h.is_used h.last ≡ true
  pub free_exactly : (x : Node) → has x fs ≡ (has x mid && not (h.is_used x))
  pub alone : (x : Node) → has x mid ≡ true → h.is_used x ≡ true → Circle h.free x []

module _ {h : Heap} {mid fs : List Node} (w : IsWell h mid fs) where
  pub mem_mid : (x : Node) → has x fs ≡ true → has x mid ≡ true
  mem_mid x k = ground (arith, w.free_exactly x)

  pub unused_of_free : (x : Node) → has x fs ≡ true → h.is_used x ≡ false
  unused_of_free x k = ground (arith, w.free_exactly x)

  pub not_free_of_used : (x : Node) → h.is_used x ≡ true → has x fs ≡ false
  not_free_of_used x k = ground (arith, w.free_exactly x)

  pub mid-ne-first : (x : Node) → has x mid ≡ true → x ≢ h.first
  mid-ne-first x k =
      ne_of_has mid x h.first k (ground (arith, w.chunks.1.0, has-append h.first mid (h.last ∷ [])))

  pub mid-ne-last : (x : Node) → has x mid ≡ true → x ≢ h.last
  mid-ne-last x k e =
      let (a, b, apart) = Distinct-split mid (h.last ∷ []) w.chunks.1.1 in
      ground (arith, apart x k, ==_refl x)

  -- A used chunk is outside the circle `free`.
  pub used_out : (x : Node) → has x mid ≡ true → h.is_used x ≡ true → has x (h.first ∷ fs) ≡ false
  used_out x k u = ground (arith, not_free_of_used x u, ne→== x h.first (mid-ne-first x k))

-- Every used chunk of `mid` but `p` is a used chunk of `mid'` of the same size.
abbrev pub Keeps : Heap → List Node → Node → Heap → List Node → Type 0
Keeps h mid p h' mid' =
    (x : Node)
    → has x mid ≡ true
    → h.is_used x ≡ true
    → x ≢ p
    → (has x mid' ≡ true) × (h'.is_used x ≡ true) × (h'.size x ≡ h.size x)

-- Links that are kept at a node keep its circle of one.
pub alone_kept :
    (m g : Links) (x : Node)
    → (g.next x ≡ m.next x) × (g.prev x ≡ m.prev x)
    → Circle m x []
    → Circle g x []
alone_kept m g x same c = ((same.0 ∙ c.0.0, same.1 ∙ c.0.1), c.1)

-- ===== src/Heapdl/Safety.antt =====
-- Clients of src/memory/heapdl.c: any sequence of calls, and what their chunks may rely on.
use unagi_os.Common.{
  ℕ, ◌+◌, ◌≤◌, ◌<◌, ◌≡◌, refl, ◌≢◌, ◌⊎◌, true, false, List, [], ◌∷◌, ◌++◌, some, arith, ==_refl,
  ne→==, ◌∙◌, sym, ap, ap₂, inl, inr, subst, length, Bool-cases,
}
use unagi_os.Common.Words.{sub32}
use unagi_os.Dlist.{Node, Links}
use unagi_os.Dlist.Chain.{has, Chain}
use unagi_os.Dlist.Update.{has-append}
use unagi_os.Dlist.Inner.{split_at}
use unagi_os.Heapdl.{Heap, header_size, null, malloc, free, chunk_calc_chunk_by_ptr, chunk_free}
use unagi_os.Heapdl.Tiling.{Tiled, HasHeaders, Tiled-split, Tiled_start, Tiled_end}
use unagi_os.Heapdl.Rep.{IsWell, Keeps, mid-ne-last}
use unagi_os.Heapdl.Search.{Outcome, malloc_lem}
use unagi_os.Heapdl.Free.{chunk_free-Freed}

-- In a well-formed heap the memory of two different chunks does not overlap.
pub chunks-Disjoint :
    {h : Heap} {mid fs : List Node} (x y : Node)
    → IsWell h mid fs
    → has x mid ≡ true
    → has y mid ≡ true
    → x ≢ y
    → (x + h.size x ≤ y) ⊎ (y + h.size y ≤ x)
chunks-Disjoint {h} {mid} x y w i j n =
    let (l, r, e) = split_at x mid i in
    let t =
      Tiled-split h.size h.first l x r h.last
        (subst (λ m. Tiled h.size h.first m h.last) e w.tiled) in
    let headers : HasHeaders h.size (h.first ∷ (l ++ x ∷ r)) =
      subst (λ m. HasHeaders h.size (h.first ∷ m)) e w.headers in
    let member : has y (l ++ x ∷ r) ≡ true = rw (← e) j in
    elim (Bool-cases (has y r)) [
      | inl k ↦ inl (
          Tiled_start h.size x r h.last y
            (λ z q. headers z (ground (arith, has-append z l (x ∷ r)))) t.1 k)
      | inr k ↦ inr (
          Tiled_end h.size h.first l x y (λ z q. headers z (ground (arith, has-append z l (x ∷ r))))
            t.0 (ground (arith, has-append y l (x ∷ r), ne→== y x (λ q. n (sym q)))))
    ]

address_of_chunk :
    {h : Heap} {mid fs : List Node} (p : Node)
    → IsWell h mid fs
    → has p mid ≡ true
    → sub32 (p + header_size) header_size ≡ p
address_of_chunk {h} {mid} p w i =
    omega
      (arith, w.bound, Tiled_end h.size h.first mid h.last p w.headers w.tiled (ground (arith, i)))

-- `h'` is a well-formed heap in which `p` is not used and the other used chunks of `h` are kept.
abbrev pub Released : Heap → List Node → Node → Heap → Type 0
Released h mid p h' =
    (mid' : List Node) × (gs : List Node) × IsWell h' mid' gs
    × Keeps h mid p h' mid'
    × (h'.is_used p ≡ false)

module _ (h : Heap) (mid fs : List Node) (p : Node) (w : IsWell h mid fs)
    (i : has p mid ≡ true) where
  free_used : h.is_used p ≡ true → free (p + header_size) h ≡ chunk_free p h
  unfolding free chunk_calc_chunk_by_ptr
  free_used t = rw (address_of_chunk p w i) (ground arith)

  free_unused : h.is_used p ≡ false → free (p + header_size) h ≡ h
  unfolding free chunk_calc_chunk_by_ptr
  free_unused t = rw (address_of_chunk p w i) (ground arith)

  -- `k_heapdl_mm_free` of a pointer behind the header of a chunk keeps a well-formed heap so; the chunk is then unused,
  -- and every other used chunk is kept with its size.
  pub free_lem : Released h mid p (free (p + header_size) h)
  free_lem = elim (Bool-cases (h.is_used p)) [
    | inr t ↦ rw (free_unused t) (mid, fs, w, (λ x j u n. (j, u, refl)), t)
    | inl t ↦
        let (l, r, e) = split_at p mid i in
        let (mid', gs, well, keeps, marks) =
          chunk_free-Freed h l p r fs (subst (λ m. IsWell h m fs) e w) t in
        rw (free_used t) (
          mid',
          gs,
          well,
          subst (λ m. Keeps h m p (chunk_free p h) mid') (sym e) keeps,
          ground (arith, marks p, ==_refl p),
        )
  ]

-- Calls of the allocator that do not free the chunk `x`: `malloc` with fuel for each free chunk, and
-- `free` of a pointer behind the header of another chunk, used or not.
pub data Step (x : Node) (h : Heap) : Heap → Type 0 where
  allocate :
      {h' : Heap} (mid fs : List Node) (fuel s ptr : ℕ)
      → IsWell h mid fs
      → length fs < fuel
      → malloc fuel s h ≡ some (ptr, h')
      → Step x h h'
  release :
      {h' : Heap} (mid fs : List Node) (p : Node)
      → IsWell h mid fs
      → has p mid ≡ true
      → p ≢ x
      → h' ≡ free (p + header_size) h
      → Step x h h'

pub data Steps (x : Node) (h : Heap) : Heap → Type 0 where
  here : Steps x h h
  next : {h' h'' : Heap} → Steps x h h' → Step x h' h'' → Steps x h h''

-- The heap is well formed, and `x` is a used chunk of it of size `n`.
abbrev pub Owns : Node → ℕ → Heap → Type 0
Owns x n h =
    (mid : List Node) × (fs : List Node) × IsWell h mid fs
    × (has x mid ≡ true)
    × (h.is_used x ≡ true)
    × (h.size x ≡ n)

same_Chain :
    (m : Links) (a e : Node) (xs ys : List Node)
    → has e xs ≡ false
    → has e ys ≡ false
    → Chain m a xs e
    → Chain m a ys e
    → xs ≡ ys
same_Chain m a e [] [] ox oy c d = refl
same_Chain m a e [] (y ∷ ys) ox oy c d =
    let q : e ≡ y = sym c.0 ∙ d.0.0 in absurd (ground (arith, q))
same_Chain m a e (x ∷ xs) [] ox oy c d =
    let q : e ≡ x = sym d.0 ∙ c.0.0 in absurd (ground (arith, q))
same_Chain m a e (x ∷ xs) (y ∷ ys) ox oy c d =
    let q : y ≡ x = sym d.0.0 ∙ c.0.0 in
    let d' : Chain m x ys e = subst (λ z. Chain m z ys e) q d.1 in
    ap₂ ◌∷◌ (sym q) (same_Chain m x e xs ys (ground arith) (ground arith) c.1 d')

-- A heap is well formed with one list of chunks only.
same_chunks :
    {h : Heap} {mid fs mid' fs' : List Node} (x : Node)
    → IsWell h mid fs
    → IsWell h mid' fs'
    → has x mid ≡ true
    → has x mid' ≡ true
same_chunks {h} {mid} {fs} {mid'} x w w' i =
    let e : mid ++ h.last ∷ [] ≡ mid' ++ h.last ∷ [] =
      same_Chain h.all h.first h.first (mid ++ h.last ∷ []) (mid' ++ h.last ∷ []) w.chunks.1.0
        w'.chunks.1.0 w.chunks.0 w'.chunks.0 in
    ground (
      arith,
      ap (has x) e,
      has-append x mid (h.last ∷ []),
      has-append x mid' (h.last ∷ []),
      ne→== x h.last (mid-ne-last w x i),
    )

Step-Owns : {x : Node} {n : ℕ} {h h' : Heap} → Step x h h' → Owns x n h → Owns x n h'
Step-Owns {x} {n} {h} {h'} (allocate mid fs fuel s ptr w f e) (mid0, fs0, w0, i, t, z) =
    let j = same_chunks x w0 w i in
    let (r, e', q) = malloc_lem h mid fs w s fuel f in
    let same : r ≡ (ptr, h') = cc (e', e) in
    elim (subst (Outcome h mid fs s) same q) [
      | inl (kept, _) ↦ rw (ap (λ (r : ℕ × Heap). r.1) kept) (mid0, fs0, w0, i, t, z)
      | inr al ↦
          let other : x ≢ al.chunk = λ d. cc (subst (λ y. h.is_used y ≡ true) d t, al.was_unused) in
          let (i', t', z') = al.keeps x j t other in (al.mid', al.gs, al.well, i', t', z' ∙ z)
    ]
Step-Owns {x} {n} {h} {h'} (release mid fs p w k other e) (mid0, fs0, w0, i, t, z) =
    let (mid', gs, well, keeps, gone) = free_lem h mid fs p w k in
    let (i', t', z') = keeps x (same_chunks x w0 w i) t (λ d. other (sym d)) in
    rw e (mid', gs, well, i', t', z' ∙ z)

-- A used chunk stays a used chunk of the same size of a well-formed heap, whatever calls of
-- `k_heapdl_mm_malloc` and of `k_heapdl_mm_free` on other chunks follow.
pub Steps-Owns : {x : Node} {n : ℕ} {h h' : Heap} → Steps x h h' → Owns x n h → Owns x n h'
Steps-Owns here o = o
Steps-Owns (next r st) o = Step-Owns st (Steps-Owns r o)

-- In a well-formed heap, after any calls that do not free the used chunk `x`, whose size is `n` with its
-- header, a call of `k_heapdl_mm_malloc` with fuel for each free chunk that gives a pointer other than
-- `NULL` gives `s` bytes there that do not overlap `x`.
pub malloc-Disjoint :
    {x : Node} {n : ℕ} {h h' h'' : Heap} (mid fs : List Node) (fuel s ptr : ℕ)
    → Owns x n h
    → Steps x h h'
    → IsWell h' mid fs
    → length fs < fuel
    → malloc fuel s h' ≡ some (ptr, h'')
    → ptr ≢ null
    → (ptr + s ≤ x) ⊎ (x + n ≤ ptr)
malloc-Disjoint {x} {n} {h} {h'} {h''} mid fs fuel s ptr o st w f e real =
    let (mid0, fs0, w0, i, t, z) = Steps-Owns st o in
    let (r, e', q) = malloc_lem h' mid fs w s fuel f in
    let same : r ≡ (ptr, h'') = cc (e', e) in
    elim (subst (Outcome h' mid fs s) same q) [
      | inl (kept, _) ↦ absurd (real (ap (λ (r : ℕ × Heap). r.0) kept))
      | inr al ↦
          let other : x ≢ al.chunk =
            λ d. cc (subst (λ y. h'.is_used y ≡ true) d t, al.was_unused) in
          let (i', _, z') = al.keeps x (same_chunks x w0 w i) t other in
          let size : h''.size x ≡ n = z' ∙ z in
          elim (chunks-Disjoint x al.chunk al.well i' al.is_chunk other) [
            | inl before ↦ inr (omega (arith, before, size, al.pointer))
            | inr behind ↦ inl (omega (arith, behind, al.room, al.pointer))
          ]
    ]

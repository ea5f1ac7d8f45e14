-- ===== src/Heapdl/Tiling.antt =====
-- Chunks of src/memory/heapdl.c that lie in memory one behind the other.
use unagi_os.Common.{
  ℕ, ◌+◌, ◌≤◌, ◌≡◌, true, List, [], ◌∷◌, ◌++◌, arith, ==_refl, ==_cases, inl, inr, ne→==, ◌∙◌, ap,
}
use unagi_os.Dlist.{Node}
use unagi_os.Dlist.Chain.{has}
use unagi_os.Heapdl.{header_size}

-- From `a` through `xs` to `e`, each chunk starts where the one before ends.
abbrev pub Tiled : (Node → ℕ) → Node → List Node → Node → Type 0
Tiled size a [] e = a + size a ≡ e
Tiled size a (x ∷ xs) e = (a + size a ≡ x) × Tiled size x xs e

-- Each chunk has room for its header.
abbrev pub HasHeaders : (Node → ℕ) → List Node → Type 0
HasHeaders size xs = (x : Node) → has x xs ≡ true → header_size ≤ size x

module _ (size : Node → ℕ) where
  pub Tiled-append :
      (a : Node) (xs : List Node) (b : Node) (ys : List Node) (e : Node)
      → Tiled size a xs b
      → Tiled size b ys e
      → Tiled size a (xs ++ b ∷ ys) e
  Tiled-append a [] b ys e t u = (t, u)
  Tiled-append a (x ∷ xs) b ys e t u = (t.0, Tiled-append x xs b ys e t.1 u)

  pub Tiled-split :
      (a : Node) (xs : List Node) (b : Node) (ys : List Node) (e : Node)
      → Tiled size a (xs ++ b ∷ ys) e
      → Tiled size a xs b × Tiled size b ys e
  Tiled-split a [] b ys e t = (t.0, t.1)
  Tiled-split a (x ∷ xs) b ys e t = let (l, r) = Tiled-split x xs b ys e t.1 in ((t.0, l), r)

  -- The chunks of a tiling end where it ends or before.
  pub Tiled_end :
      (a : Node) (xs : List Node) (e x : Node)
      → HasHeaders size (a ∷ xs)
      → Tiled size a xs e
      → has x (a ∷ xs) ≡ true
      → x + size x ≤ e
  Tiled_end a [] e x b t h = elim (==_cases x a) [
    | inl p ↦ rw p (omega arith)
    | inr n ↦ cc (ne→== x a n)
  ]
  Tiled_end a (y ∷ xs) e x b t h = elim (==_cases x a) [
    | inl p ↦ rw p (
        omega (
          arith,
          Tiled_end y xs e y (λ z k. b z (ground arith)) t.1 (ground (arith, ==_refl y)),
          b y (ground (arith, ==_refl y)),
        ))
    | inr n ↦ Tiled_end y xs e x (λ z k. b z (ground arith)) t.1 (ground (arith, ne→== x a n))
  ]

  -- The chunks behind the first start where it ends or later.
  pub Tiled_start :
      (a : Node) (xs : List Node) (e x : Node)
      → HasHeaders size (a ∷ xs)
      → Tiled size a xs e
      → has x xs ≡ true
      → a + size a ≤ x
  Tiled_start a [] e x b t h = cc
  Tiled_start a (y ∷ xs) e x b t h = elim (==_cases x y) [
    | inl p ↦ rw p (omega arith)
    | inr n ↦
        omega (
          arith,
          Tiled_start y xs e x (λ z k. b z (ground arith)) t.1 (ground (arith, ne→== x y n)),
        )
  ]

-- A tiling with other sizes: those behind the first are kept, and the first ends where it did.
pub Tiled_other :
    (size size' : Node → ℕ) (a b : Node) (xs : List Node) (e : Node)
    → b + size' b ≡ a + size a
    → ((x : Node) → has x xs ≡ true → size' x ≡ size x)
    → Tiled size a xs e
    → Tiled size' b xs e
Tiled_other size size' a b [] e p same t = p ∙ t
Tiled_other size size' a b (x ∷ xs) e p same t = (
  p ∙ t.0,
  Tiled_other size size' x x xs e (ap (λ n. x + n) (same x (ground (arith, ==_refl x))))
      (λ y k. same y (ground arith)) t.1,
)

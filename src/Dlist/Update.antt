-- ===== src/Dlist/Update.antt =====
-- How a chain of src/util/dlist.c survives writes: away from it, and at its last link.
use unagi_os.Common.{
  ◌≡◌, refl, ◌≢◌, inl, inr, true, false, ◌||◌, List, [], ◌∷◌, ◌++◌, arith, ==_refl, ◌∙◌, sym, subst,
  ==_cases, ne→==,
}
use mathlib.Core.List.{append-nil}
use unagi_os.Dlist.{Node, Links}
use unagi_os.Dlist.Chain.{
  has, Distinct, Disjoint, Linked, Chain, last_of, first_of_chain, Chain-append,
}

pub has-append : (a : Node) (xs ys : List Node) → has a (xs ++ ys) ≡ (has a xs || has a ys)
has-append a [] ys = refl
has-append a (x ∷ xs) ys = ground (arith, has-append a xs ys)

pub has-last_of : (a : Node) (xs : List Node) → has (last_of a xs) (a ∷ xs) ≡ true
has-last_of a [] = ground arith
has-last_of a (x ∷ xs) = ground (arith, has-last_of x xs)

pub Distinct-append :
    (xs ys : List Node) → Distinct xs → Distinct ys → Disjoint xs ys → Distinct (xs ++ ys)
Distinct-append [] ys d e apart = e
Distinct-append (x ∷ xs) ys d e apart = (
  ground (arith, has-append x xs ys, apart x, ==_refl x),
  Distinct-append xs ys d.1 e (λ a h. apart a (ground arith)),
)

pub Distinct-split :
    (xs ys : List Node) → Distinct (xs ++ ys) → Distinct xs × Distinct ys × Disjoint xs ys
Distinct-split [] ys d = (tt, d, λ a h. ground arith)
Distinct-split (x ∷ xs) ys d =
    let (dx, dy, apart) = Distinct-split xs ys d.1 in
    (
      (ground (arith, has-append x xs ys), dx),
      dy,
      λ a h. elim (==_cases a x) [
        | inl e ↦ rw e (ground (arith, has-append x xs ys))
        | inr ne ↦ apart a (ground (arith, ne→== a x ne))
      ],
    )

-- A node ahead of others is not the last.
not_last : (a x : Node) (xs : List Node) → Distinct (a ∷ x ∷ xs) → a ≢ last_of x xs
not_last a x xs d e = cc (d.0, subst (λ y. has y (x ∷ xs) ≡ true) (sym e) (has-last_of x xs))

-- Of two nodes only one is in the list.
pub ne_of_has : (l : List Node) (x y : Node) → has x l ≡ true → has y l ≡ false → x ≢ y
ne_of_has l x y h k e = cc (subst (λ z. has z l ≡ true) e h, k)

-- `g` has the links of `m` at the nodes of `xs`.
abbrev pub SameNext : Links → Links → List Node → Type 0
SameNext m g xs = (x : Node) → has x xs ≡ true → g.next x ≡ m.next x

abbrev pub SamePrev : Links → Links → List Node → Type 0
SamePrev m g xs = (x : Node) → has x xs ≡ true → g.prev x ≡ m.prev x

module _ (m g : Links) where
  pub Chain-same :
      (a : Node) (xs : List Node) (b : Node)
      → SameNext m g (a ∷ xs)
      → SamePrev m g (b ∷ xs)
      → Chain m a xs b
      → Chain g a xs b
  Chain-same a [] b sn sp c = (sn a (ground arith) ∙ c.0, sp b (ground arith) ∙ c.1)
  Chain-same a (x ∷ xs) b sn sp c = (
    (sn a (ground arith) ∙ c.0.0, sp x (ground arith) ∙ c.0.1),
    Chain-same x xs b (λ y h. sn y (ground arith)) (λ y h. sp y (ground arith)) c.1,
  )

  -- The last link of a chain now leads to `c`.
  pub Chain-retarget :
      (a : Node) (xs : List Node) (b c : Node)
      → ((x : Node) → has x (a ∷ xs) ≡ true → x ≢ last_of a xs → g.next x ≡ m.next x)
      → SamePrev m g xs
      → Linked g (last_of a xs) c
      → Distinct (a ∷ xs)
      → Chain m a xs b
      → Chain g a xs c
  Chain-retarget a [] b c sn sp link d h = link
  Chain-retarget a (x ∷ xs) b c sn sp link d h = (
    (sn a (ground arith) (λ e. not_last a x xs d e) ∙ h.0.0, sp x (ground arith) ∙ h.0.1),
    Chain-retarget x xs b c (λ y hy. sn y (ground arith)) (λ y hy. sp y (ground arith)) link d.1
        h.1,
  )

-- What is left of a chain to `e` behind its start.
abbrev pub Tail : Links → List Node → Node → Type 0
Tail m [] e = Unit
Tail m (x ∷ xs) e = Chain m x xs e

pub Tail-of_Chain :
    (m : Links) (a : Node) (xs : List Node) (e : Node) → Chain m a xs e → Tail m xs e
Tail-of_Chain m a [] e c = tt
Tail-of_Chain m a (x ∷ xs) e c = c.1

pub Chain-Tail :
    (m : Links) (a : Node) (xs ys : List Node) (e : Node)
    → Chain m a xs (first_of_chain ys e)
    → Tail m ys e
    → Chain m a (xs ++ ys) e
Chain-Tail m a xs [] e c t = rw append-nil c
Chain-Tail m a xs (y ∷ ys) e c t = Chain-append m a xs y ys e c t

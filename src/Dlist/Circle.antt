-- ===== src/Dlist/Circle.antt =====
-- The operations of src/util/dlist.c on circles.
use unagi_os.Common.{◌≡◌, refl, ◌≢◌, List, [], ◌∷◌, ◌++◌, arith, ==_refl}
use unagi_os.Dlist.{Node, Links, init, insert_after, insert_before, remove}
use unagi_os.Dlist.Chain.{
  Disjoint, Circle, last_of, first_of_chain, Chain-split, prev-Chain, next-Chain,
}
use unagi_os.Dlist.Splice.{
  apart_ne, has_first, has_last, has_head, not_node, node_ne, Distinct-removed, Chain-after,
  Chain-before, Chain-removed, Distinct-after, Distinct-before,
}
use unagi_os.Dlist.Update.{Distinct-split}

-- `dlist_init` makes a circle of one node.
pub init-Circle : (d : Node) (m : Links) → Circle (init d m) d []
unfolding init
init-Circle d m = ((ground (arith, ==_refl d), ground (arith, ==_refl d)), (refl, tt))

module _ (m : Links) (d0 : Node) (xs : List Node) (a : Node) (ys : List Node) where
  -- Given two circles without a common node, `dlist_insert_after` makes one circle, in which the
  -- nodes of the second, from `a` to its last, stand between `d0` and what followed `d0`.
  pub insert_after-Circle :
      Circle m d0 xs
      → Circle m a ys
      → Disjoint (d0 ∷ xs) (a ∷ ys)
      → Circle (insert_after d0 a m).1 d0 (a ∷ ys ++ xs)
  unfolding insert_after
  insert_after-Circle (c, dx) (c', dy) apart =
      let d1 = m.next d0 in
      let z = m.prev a in
      let ez : z ≡ last_of a ys = prev-Chain m a ys a c' in
      let ed : d1 ≡ first_of_chain xs d0 = next-Chain m d0 xs d0 c in
      let nz : z ≢ d0 =
        apart_ne m m d0 xs a ys dx dy apart d0 z (has_head d0 xs) (has_last a ys z ez) in
      let na : a ≢ d1 =
        apart_ne m m d0 xs a ys dx dy apart d1 a (has_first xs d0 d1 ed) (has_head a ys) in
      (
        Chain-after m (insert_after d0 a m).1 d0 xs a ys dx dy apart d1 z ez ed
            (λ x p q. ground arith) (λ x p q. ground arith) (ground arith, ground arith)
            (ground arith, ground arith) c c',
        Distinct-after m m d0 xs a ys dx dy apart,
      )

  -- Given two circles without a common node, `dlist_insert_before` makes one circle, in which the
  -- nodes of the second, from `a` to its last, stand between what preceded `d0` and `d0`.
  pub insert_before-Circle :
      Circle m d0 xs
      → Circle m a ys
      → Disjoint (d0 ∷ xs) (a ∷ ys)
      → Circle (insert_before d0 a m).1 d0 (xs ++ a ∷ ys)
  unfolding insert_before
  insert_before-Circle (c, dx) (c', dy) apart =
      let d999 = m.prev d0 in
      let z = m.prev a in
      let ez : z ≡ last_of a ys = prev-Chain m a ys a c' in
      let ed : d999 ≡ last_of d0 xs = prev-Chain m d0 xs d0 c in
      let nz : z ≢ d999 =
        apart_ne m m d0 xs a ys dx dy apart d999 z (has_last d0 xs d999 ed) (has_last a ys z ez) in
      let na : a ≢ d0 = apart_ne m m d0 xs a ys dx dy apart d0 a (has_head d0 xs) (has_head a ys) in
      (
        Chain-before m (insert_before d0 a m).1 d0 xs a ys dx dy apart d999 z ez ed
            (λ x p q. ground arith) (λ x p q. ground arith) (ground arith, ground arith)
            (ground arith, ground arith) c c',
        Distinct-before m m d0 xs a ys dx dy apart,
      )

-- `dlist_remove` of a node in the circle of another leaves the other nodes a circle, in the same
-- order, and the removed node a circle of its own.
pub remove-Circle :
    (m : Links) (h : Node) (xs : List Node) (node : Node) (ys : List Node)
    → Circle m h (xs ++ node ∷ ys)
    → Circle (remove node m).1 h (xs ++ ys) × Circle (remove node m).1 node []
unfolding remove
remove-Circle m h xs node ys (c, d) =
    let (c1, c2) = Chain-split m h xs node ys h c in
    let (dx, dy, apart) = Distinct-split (h ∷ xs) (node ∷ ys) d in
    let e0 : m.prev node ≡ last_of h xs = prev-Chain m h xs node c1 in
    let e2 : m.next node ≡ first_of_chain ys h = next-Chain m node ys h c2 in
    let n0 : m.prev node ≢ node =
      not_node m m h xs node ys dx dy apart (m.prev node) (has_last h xs (m.prev node) e0) in
    let n2 : m.next node ≢ node = node_ne m m h xs node ys dx dy apart (m.next node) e2 in
    (
      (
        Chain-removed m (remove node m).1 h xs node ys dx dy apart (m.prev node) (m.next node) e0 e2
            (λ x p q. ground arith) (λ x p q. ground arith) (ground arith, ground arith) c1 c2,
        Distinct-removed m m h xs node ys dx dy apart,
      ),
      ((ground arith, ground arith), (refl, tt)),
    )

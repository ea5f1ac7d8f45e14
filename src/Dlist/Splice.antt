-- ===== src/Dlist/Splice.antt =====
-- The four writes of an insertion in src/util/dlist.c, on chains.
use unagi_os.Common.{◌≡◌, ◌≢◌, true, false, List, [], ◌∷◌, ◌++◌, arith, ==_refl, ne→==, sym, subst}
use unagi_os.Dlist.{Node, Links}
use unagi_os.Dlist.Chain.{
  has, Distinct, Disjoint, Linked, Chain, last_of, first_of_chain, Chain-append,
}
use unagi_os.Dlist.Update.{
  has-append, has-last_of, Distinct-append, Chain-same, Chain-retarget, Tail, Tail-of_Chain,
  Chain-Tail, ne_of_has,
}

has-first_of_chain : (xs : List Node) (e : Node) → has (first_of_chain xs e) (e ∷ xs) ≡ true
has-first_of_chain [] e = ground (arith, ==_refl e)
has-first_of_chain (x ∷ xs) e = ground (arith, ==_refl x)

pub has_first : (xs : List Node) (e d : Node) → d ≡ first_of_chain xs e → has d (e ∷ xs) ≡ true
has_first xs e d p = subst (λ x. has x (e ∷ xs) ≡ true) (sym p) (has-first_of_chain xs e)

pub has_last : (a : Node) (xs : List Node) (z : Node) → z ≡ last_of a xs → has z (a ∷ xs) ≡ true
has_last a xs z p = subst (λ x. has x (a ∷ xs) ≡ true) (sym p) (has-last_of a xs)

pub has_head : (a : Node) (xs : List Node) → has a (a ∷ xs) ≡ true
has_head a xs = ground (arith, ==_refl a)

-- What is left of a chain behind its start survives writes to its start and outside it.
Tail-same :
    (m g : Links) (d : Node) (xs : List Node) (e z p q : Node)
    → Distinct (d ∷ xs)
    → Distinct (e ∷ xs)
    → has z xs ≡ false
    → has p (e ∷ xs) ≡ false
    → q ≡ first_of_chain xs e
    → ((x : Node) → x ≢ d → x ≢ z → g.next x ≡ m.next x)
    → ((x : Node) → x ≢ p → x ≢ q → g.prev x ≡ m.prev x)
    → Tail m xs e
    → Tail g xs e
Tail-same m g d [] e z p q dx de oz op eq gn gp t = tt
Tail-same m g d (x ∷ xs) e z p q dx de oz op eq gn gp t =
    Chain-same m g x xs e
      (λ y h. gn y (ne_of_has (x ∷ xs) y d h dx.0) (ne_of_has (x ∷ xs) y z h oz))
      (λ y h.
        gp y (ne_of_has (e ∷ xs) y p h (ground arith))
          (rw eq (ne_of_has (e ∷ xs) y x h (ground (arith, dx.1.0, de.0)))))
      t

-- Two circles without a common node, and `g` after the writes that put the second into the first.
module _ (m g : Links) (d0 : Node) (xs : List Node) (a : Node) (ys : List Node)
    (dx : Distinct (d0 ∷ xs)) (dy : Distinct (a ∷ ys)) (apart : Disjoint (d0 ∷ xs) (a ∷ ys)) where
  pub Distinct-after : Distinct (d0 ∷ (a ∷ ys ++ xs))
  Distinct-after = (
    ground (arith, apart d0, ==_refl d0, dx.0, has-append d0 ys xs),
    Distinct-append (a ∷ ys) xs dy dx.1 (λ b h. ground (arith, apart b)),
  )

  pub Distinct-before : Distinct (d0 ∷ (xs ++ a ∷ ys))
  Distinct-before = (
    ground (arith, apart d0, ==_refl d0, dx.0, has-append d0 xs (a ∷ ys)),
    Distinct-append xs (a ∷ ys) dx.1 dy (λ b h. apart b (ground arith)),
  )

  -- A node of the first circle is no node of the second, and the other way round.
  pub apart_ne : (x y : Node) → has x (d0 ∷ xs) ≡ true → has y (a ∷ ys) ≡ true → y ≢ x
  apart_ne x y h k = ne_of_has (a ∷ ys) y x k (apart x h)

  apart' : (y : Node) → has y (a ∷ ys) ≡ true → has y (d0 ∷ xs) ≡ false
  apart' y h = ground (arith, apart y)

  -- The chain from `a` now ends at `d1`, a node of the first circle.
  Chain-inserted :
      (d0' d1 z e : Node)
      → z ≡ last_of a ys
      → has d0' (d0 ∷ xs) ≡ true
      → has d1 (d0 ∷ xs) ≡ true
      → ((x : Node) → x ≢ d0' → x ≢ z → g.next x ≡ m.next x)
      → ((x : Node) → x ≢ a → x ≢ d1 → g.prev x ≡ m.prev x)
      → Linked g z d1
      → Chain m a ys e
      → Chain g a ys d1
  Chain-inserted d0' d1 z e ez hd0 hd1 gn gp link c =
      Chain-retarget m g a ys e d1 (λ x h n. gn x (apart_ne d0' x hd0 h) (rw ez n))
        (λ x h. gp x (ne_of_has ys x a h dy.0) (apart_ne d1 x hd1 (ground arith))) (rw ez at link)
        dy c

  pub Chain-after :
      (d1 z : Node)
      → z ≡ last_of a ys
      → d1 ≡ first_of_chain xs d0
      → ((x : Node) → x ≢ d0 → x ≢ z → g.next x ≡ m.next x)
      → ((x : Node) → x ≢ a → x ≢ d1 → g.prev x ≡ m.prev x)
      → Linked g d0 a
      → Linked g z d1
      → Chain m d0 xs d0
      → Chain m a ys a
      → Chain g d0 (a ∷ ys ++ xs) d0
  Chain-after d1 z ez ed gn gp start end c c' = (
    start,
    Chain-Tail g a ys xs d0
        (rw ed at
          (Chain-inserted d0 d1 z a ez (has_head d0 xs) (has_first xs d0 d1 ed) gn gp end c'))
        (Tail-same m g d0 xs d0 z a d1 dx dx (ground (arith, apart' z (has_last a ys z ez)))
          (apart' a (has_head a ys)) ed gn gp (Tail-of_Chain m d0 xs d0 c)),
  )

  pub Chain-before :
      (d999 z : Node)
      → z ≡ last_of a ys
      → d999 ≡ last_of d0 xs
      → ((x : Node) → x ≢ d999 → x ≢ z → g.next x ≡ m.next x)
      → ((x : Node) → x ≢ a → x ≢ d0 → g.prev x ≡ m.prev x)
      → Linked g d999 a
      → Linked g z d0
      → Chain m d0 xs d0
      → Chain m a ys a
      → Chain g d0 (xs ++ a ∷ ys) d0
  Chain-before d999 z ez ed gn gp start end c c' =
      Chain-append g d0 xs a ys d0
        (Chain-retarget m g d0 xs d0 a
          (λ x h n. gn x (rw ed n) (λ e. apart_ne x z h (has_last a ys z ez) (sym e)))
          (λ x h.
            gp x (λ e. apart_ne x a (ground arith) (has_head a ys) (sym e))
              (ne_of_has xs x d0 h dx.0))
          (rw ed at start) dx c)
        (Chain-inserted d999 d0 z a ez (has_last d0 xs d999 ed) (has_head d0 xs) gn gp end c')

-- `g` after the writes that take `node` out of the circle of `h`.
module _ (m g : Links) (h : Node) (xs : List Node) (node : Node) (ys : List Node)
    (dx : Distinct (h ∷ xs)) (dy : Distinct (node ∷ ys))
    (apart : Disjoint (h ∷ xs) (node ∷ ys)) where
  pub not_node : (x : Node) → has x (h ∷ xs) ≡ true → x ≢ node
  not_node x k e = ne_of_has (node ∷ ys) node x (has_head node ys) (apart x k) (sym e)

  node_out : has node (h ∷ ys) ≡ false
  node_out = ground (arith, ne→== node h (λ e. not_node h (has_head h xs) (sym e)), dy.0)

  pub node_ne : (d2 : Node) → d2 ≡ first_of_chain ys h → d2 ≢ node
  node_ne d2 p = ne_of_has (h ∷ ys) d2 node (has_first ys h d2 p) node_out

  pub Distinct-removed : Distinct (h ∷ (xs ++ ys))
  Distinct-removed = (
    ground (arith, has-append h xs ys, apart h, has_head h xs, dx.0),
    Distinct-append xs ys dx.1 dy.1 (λ b k. ground (arith, apart b)),
  )

  not_second : (x d2 : Node) → d2 ≡ first_of_chain ys h → has x xs ≡ true → x ≢ d2
  not_second x d2 p k e =
      ne_of_has (h ∷ ys) d2 x (has_first ys h d2 p)
        (ground (arith, apart x, ne→== x h (ne_of_has xs x h k dx.0))) (sym e)

  pub Chain-removed :
      (d0 d2 : Node)
      → d0 ≡ last_of h xs
      → d2 ≡ first_of_chain ys h
      → ((x : Node) → x ≢ node → x ≢ d0 → g.next x ≡ m.next x)
      → ((x : Node) → x ≢ node → x ≢ d2 → g.prev x ≡ m.prev x)
      → Linked g d0 d2
      → Chain m h xs node
      → Chain m node ys h
      → Chain g h (xs ++ ys) h
  Chain-removed d0 d2 e0 e2 gn gp link c c' =
      Chain-Tail g h xs ys h
        (Chain-retarget m g h xs node (first_of_chain ys h) (λ x k n. gn x (not_node x k) (rw e0 n))
          (λ x k. gp x (not_node x (ground arith)) (not_second x d2 e2 k)) (rw (← e0, ← e2) link) dx
          c)
        (Tail-same m g node ys h d0 node d2 dy (ground (arith, apart h, has_head h xs), dy.1)
          (ground (arith, apart d0 (has_last h xs d0 e0))) node_out e2 gn gp
          (Tail-of_Chain m node ys h c'))

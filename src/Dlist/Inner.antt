-- ===== src/Dlist/Inner.antt =====
-- The operations of src/util/dlist.c at any node of a circle, and the loop `list_for_each_entry`
-- of src/util/dlist.h.
use unagi_os.Common.{
  ℕ, zero, suc, ◌<◌, ◌≡◌, true, false, some, List, [], ◌∷◌, ◌++◌, arith, ==_refl, ◌∙◌, ==_cases,
  inl, inr, ne→==, subst, length, Bool-cases,
}
use unagi_os.Dlist.{Node, Links, insert_after, insert_before, for_each, entries}
use unagi_os.Dlist.Chain.{has, Disjoint, Chain, Circle, Chain-append, Chain-split}
use unagi_os.Dlist.Update.{has-append, Distinct-append, Distinct-split, ne_of_has}
use unagi_os.Dlist.Circle.{insert_after-Circle, insert_before-Circle}
use mathlib.Core.List.{append_assoc}

pub Disjoint-sym : (xs ys : List Node) → Disjoint xs ys → Disjoint ys xs
Disjoint-sym xs ys apart a h = elim (Bool-cases (has a xs)) [ inl t ↦ cc (apart a t) | inr f ↦ f ]

-- A node of a list splits it.
pub split_at :
    (x : Node) (l : List Node)
    → has x l ≡ true
    → (xs : List Node) × (ys : List Node) × (l ≡ xs ++ x ∷ ys)
split_at x [] h = cc
split_at x (y ∷ l) h = elim (==_cases x y) [
  | inl e ↦ ([], l, rw e)
  | inr ne ↦ let (xs, ys, e) = split_at x l (ground (arith, ne→== x y ne)) in (y ∷ xs, ys, rw e)
]

-- A circle may be read from any of its nodes.
pub Circle-rotate :
    (m : Links) (h : Node) (xs : List Node) (p : Node) (ys : List Node)
    → Circle m h (xs ++ p ∷ ys)
    → Circle m p (ys ++ h ∷ xs)
Circle-rotate m h xs p ys (c, d) =
    let (c1, c2) = Chain-split m h xs p ys h c in
    let (dx, dy, apart) = Distinct-split (h ∷ xs) (p ∷ ys) d in
    (
      Chain-append m p ys h xs p c2 c1,
      Distinct-append (p ∷ ys) (h ∷ xs) dy dx (Disjoint-sym (h ∷ xs) (p ∷ ys) apart),
    )

has_rotate :
    (a h : Node) (xs : List Node) (p : Node) (ys : List Node)
    → has a (p ∷ (ys ++ h ∷ xs)) ≡ has a (h ∷ (xs ++ p ∷ ys))
has_rotate a h xs p ys = ground (arith, has-append a ys (h ∷ xs), has-append a xs (p ∷ ys))

pub apart_one : (l : List Node) (a : Node) → has a l ≡ false → Disjoint l (a ∷ [])
apart_one l a out b k = ground (arith, ne→== b a (ne_of_has l b a k out))

-- A new node that is a circle of its own enters behind any node of a circle.
pub insert_after_inner :
    (m : Links) (h : Node) (xs : List Node) (p : Node) (ys : List Node) (a : Node)
    → Circle m h (xs ++ p ∷ ys)
    → Circle m a []
    → has a (h ∷ (xs ++ p ∷ ys)) ≡ false
    → Circle (insert_after p a m).1 h (xs ++ p ∷ a ∷ ys)
insert_after_inner m h xs p ys a c s out = Circle-rotate (insert_after p a m).1 p (a ∷ ys) h xs (
    insert_after-Circle m p (ys ++ h ∷ xs) a [] (Circle-rotate m h xs p ys c) s
      (apart_one (p ∷ (ys ++ h ∷ xs)) a (has_rotate a h xs p ys ∙ out)))

pub insert_before_inner :
    (m : Links) (h : Node) (xs : List Node) (p : Node) (ys : List Node) (a : Node)
    → Circle m h (xs ++ p ∷ ys)
    → Circle m a []
    → has a (h ∷ (xs ++ p ∷ ys)) ≡ false
    → Circle (insert_before p a m).1 h (xs ++ a ∷ p ∷ ys)
insert_before_inner m h xs p ys a c s out =
    let joined =
      insert_before-Circle m p (ys ++ h ∷ xs) a [] (Circle-rotate m h xs p ys c) s
        (apart_one (p ∷ (ys ++ h ∷ xs)) a (has_rotate a h xs p ys ∙ out)) in
    let turned =
      Circle-rotate (insert_before p a m).1 p ys h (xs ++ a ∷ [])
        (subst (Circle (insert_before p a m).1 p) (append_assoc ys (h ∷ xs) (a ∷ [])) joined) in
    subst (Circle (insert_before p a m).1 h) (append_assoc xs (a ∷ []) (p ∷ ys)) turned

for_each-Chain :
    (m : Links) (h a : Node) (xs : List Node) (fuel : ℕ)
    → length xs < fuel
    → has h xs ≡ false
    → Chain m a xs h
    → for_each fuel m h (m.next a) ≡ some xs
unfolding for_each
for_each-Chain m h a xs zero f o c = absurd (omega arith)
for_each-Chain m h a [] (suc fuel) f o c = rw (c.0) (ground (arith, ==_refl h))
for_each-Chain m h a (x ∷ xs) (suc fuel) f o c =
    rw (c.0.0) (ground (arith, for_each-Chain m h x xs fuel (omega arith) (ground arith) c.1))

-- On a circle `list_for_each_entry` ends, and visits every node but the head once, in order.
pub entries-Circle :
    (m : Links) (h : Node) (xs : List Node) (fuel : ℕ)
    → Circle m h xs
    → length xs < fuel
    → entries fuel m h ≡ some xs
unfolding entries
entries-Circle m h xs fuel (c, d) f = for_each-Chain m h h xs fuel f d.0 c

-- ===== src/Dlist/Frame.antt =====
-- What the operations of src/util/dlist.c leave alone.
use unagi_os.Common.{
  ◌≡◌, ◌≢◌, true, false, List, [], ◌∷◌, arith, ==_refl, ==_cases, inl, inr, ne→==,
}
use unagi_os.Dlist.{Node, Links, init, insert_after, insert_before, remove}
use unagi_os.Dlist.Chain.{has, Chain, Circle}
use unagi_os.Dlist.Update.{Chain-same, ne_of_has}

-- `g` has the links of `m` at every node outside `l`.
abbrev pub Untouched : Links → Links → List Node → Type 0
Untouched m g l = (x : Node) → has x l ≡ false → (g.next x ≡ m.next x) × (g.prev x ≡ m.prev x)

module _ (m : Links) where
  next_in :
      (a : Node) (xs : List Node) (e x : Node)
      → Chain m a xs e
      → has x (a ∷ xs) ≡ true
      → has (m.next x) (e ∷ xs) ≡ true
  next_in a [] e x c h = elim (==_cases x a) [
    | inl p ↦ rw (p, c.0) (ground (arith, ==_refl e))
    | inr n ↦ cc (ne→== x a n)
  ]
  next_in a (y ∷ xs) e x c h = elim (==_cases x a) [
    | inl p ↦ rw (p, c.0.0) (ground (arith, ==_refl y))
    | inr n ↦ ground (arith, next_in y xs e x c.1, ne→== x a n)
  ]

  prev_in :
      (a : Node) (xs : List Node) (e x : Node)
      → Chain m a xs e
      → has x (e ∷ xs) ≡ true
      → has (m.prev x) (a ∷ xs) ≡ true
  prev_in a [] e x c h = elim (==_cases x e) [
    | inl p ↦ rw (p, c.1) (ground (arith, ==_refl a))
    | inr n ↦ cc (ne→== x e n)
  ]
  prev_in a (y ∷ xs) e x c h = elim (==_cases x y) [
    | inl p ↦ rw (p, c.0.1) (ground (arith, ==_refl a))
    | inr n ↦ ground (arith, prev_in y xs e x c.1, ne→== x y n)
  ]

  -- `dlist_init` of a node outside a circle leaves the circle.
  pub init-other :
      (a h : Node) (xs : List Node)
      → Circle m h xs
      → has a (h ∷ xs) ≡ false
      → Circle (init a m) h xs
  unfolding init
  init-other a h xs (c, d) out = (
    Chain-same m (init a m) h xs h (λ x k. let ne = ne_of_has (h ∷ xs) x a k out in ground arith)
        (λ x k. let ne = ne_of_has (h ∷ xs) x a k out in ground arith) c,
    d,
  )

  module _ (h : Node) (xs : List Node) (c : Circle m h xs) (p : Node)
      (i : has p (h ∷ xs) ≡ true) where
    pub insert_after-Untouched :
        (a : Node) → Circle m a [] → Untouched m (insert_after p a m).1 (a ∷ h ∷ xs)
    unfolding insert_after
    insert_after-Untouched a s x out =
        let n1 = ne_of_has (h ∷ xs) p x i (ground arith) in
        let n2 = ne_of_has (h ∷ xs) (m.next p) x (next_in h xs h p c.0 i) (ground arith) in
        let n3 : x ≢ a = ground arith in
        let e : m.prev a ≡ a = s.0.1 in (ground arith, ground arith)

    pub insert_before-Untouched :
        (a : Node) → Circle m a [] → Untouched m (insert_before p a m).1 (a ∷ h ∷ xs)
    unfolding insert_before
    insert_before-Untouched a s x out =
        let n1 = ne_of_has (h ∷ xs) p x i (ground arith) in
        let n2 = ne_of_has (h ∷ xs) (m.prev p) x (prev_in h xs h p c.0 i) (ground arith) in
        let n3 : x ≢ a = ground arith in
        let e : m.prev a ≡ a = s.0.1 in (ground arith, ground arith)

    pub remove-Untouched : Untouched m (remove p m).1 (h ∷ xs)
    unfolding remove
    remove-Untouched x out =
        let n1 = ne_of_has (h ∷ xs) p x i out in
        let n2 = ne_of_has (h ∷ xs) (m.prev p) x (prev_in h xs h p c.0 i) out in
        let n3 = ne_of_has (h ∷ xs) (m.next p) x (next_in h xs h p c.0 i) out in
        (ground arith, ground arith)

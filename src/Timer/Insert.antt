-- ===== src/Timer/Insert.antt =====
-- The loop of `timer_settimer` of src/pic/timer.c that starts behind a timer that is due before.
use unagi_os.Common.{
  ℕ, ◌≤◌, ◌<◌, ◌≡◌, refl, inl, inr, true, false, Bool-cases, some, List, [], ◌∷◌, ◌++◌, ==_refl,
  leb, if◌then◌else◌, length, length-append, arith, ap, sym, subst, ◌∙◌,
}
use mathlib.Core.List.{append_assoc}
use unagi_os.Common.Words.{add32}
use unagi_os.Dlist.{Links}
use unagi_os.Dlist.Chain.{has, Circle, first_of_chain, last_of, next-Chain}
use unagi_os.Dlist.Update.{has-append, has-last_of}
use unagi_os.Dlist.Splice.{has_first}
use unagi_os.Dlist.Inner.{Circle-rotate}
use unagi_os.Timer.{TimerPtr, TimerCtl, set_links, insert_loop, uint32_max}
use unagi_os.Timer.Order.{due_at, From, Sorted, IsTimers, From-le, From-has, Sorted-same}
use unagi_os.Timer.Start.{
  place, insert_loop_lem, IsCounting, counting_due, due_same, add32_fits, counting_fits,
}

-- The timer `t`, due at `b`, before the first that is due no earlier, and at the end if there is none.
abbrev pub insert : (TimerPtr → ℕ) → ℕ → TimerPtr → List TimerPtr → List TimerPtr
insert f b t [] = t ∷ []
insert f b t (x ∷ xs) = let rest = insert f b t xs in if leb b (f x) then t ∷ x ∷ xs else x ∷ rest

From-insert :
    (f : TimerPtr → ℕ) (a b : ℕ) (t : TimerPtr) (xs : List TimerPtr)
    → a ≤ b
    → f t ≡ b
    → From f a xs
    → From f a (insert f b t xs)
From-insert f a b t [] h e k = (omega (arith, h, e), tt)
From-insert f a b t (x ∷ xs) h e k = elim (Bool-cases (leb b (f x))) [
  | inl l ↦ rw l (omega (arith, h, e), (k.0, k.1))
  | inr l ↦ rw l (k.0, From-insert f a b t xs h e k.1)
]

Sorted-insert :
    (f : TimerPtr → ℕ) (b : ℕ) (t : TimerPtr) (xs : List TimerPtr)
    → f t ≡ b
    → Sorted f xs
    → Sorted f (insert f b t xs)
Sorted-insert f b t [] e s = (tt, tt)
Sorted-insert f b t (x ∷ xs) e s = elim (Bool-cases (leb b (f x))) [
  | inl l ↦
      let le : f t ≤ f x = ground (arith, l, e) in rw l ((le, From-le f (f t) (f x) xs le s.0), s)
  | inr l ↦
      let le : f x ≤ b = ground (arith, l) in
      rw l (From-insert f (f x) b t xs le e s.0, Sorted-insert f b t xs e s.1)
]

alarm-insert :
    (f : TimerPtr → ℕ) (a b : ℕ) (t g : TimerPtr) (xs : List TimerPtr)
    → a ≤ f (first_of_chain xs g)
    → a ≤ b
    → f t ≡ b
    → a ≤ f (first_of_chain (insert f b t xs) g)
alarm-insert f a b t g [] h k e = omega (arith, k, e)
alarm-insert f a b t g (x ∷ xs) h k e = elim (Bool-cases (leb b (f x))) [
  | inl l ↦ rw l (omega (arith, k, e))
  | inr l ↦ rw l h
]

pub insert-same :
    (f g : TimerPtr → ℕ) (b : ℕ) (t : TimerPtr) (xs : List TimerPtr)
    → ((y : TimerPtr) → has y xs ≡ true → g y ≡ f y)
    → insert g b t xs ≡ insert f b t xs
insert-same f g b t [] e = refl
insert-same f g b t (x ∷ xs) e =
    let here : g x ≡ f x = e x (ground (arith, ==_refl x)) in
    rw (here, insert-same f g b t xs (λ y h. e y (ground (arith, h)))) refl

-- a walk over the guard node, which is due last, ends there
place-guard :
    (f : TimerPtr → ℕ) (b : ℕ) (t g : TimerPtr) (v u : List TimerPtr)
    → b ≤ f g
    → place f b t (v ++ g ∷ u) ≡ insert f b t v ++ g ∷ u
place-guard f b t g [] u h = let l : leb b (f g) ≡ true = ground (arith, h) in rw l refl
place-guard f b t g (x ∷ v) u h = elim (Bool-cases (leb b (f x))) [
  | inl l ↦ rw l refl
  | inr l ↦ rw l (ap (λ k. x ∷ k) (place-guard f b t g v u h))
]

-- behind timers of which the last is due before
insert-past :
    (f : TimerPtr → ℕ) (b : ℕ) (t x : TimerPtr) (xs v : List TimerPtr)
    → Sorted f (x ∷ (xs ++ v))
    → f (last_of x xs) < b
    → insert f b t (x ∷ (xs ++ v)) ≡ x ∷ (xs ++ insert f b t v)
insert-past f b t x [] v s h = let l : leb b (f x) ≡ false = ground (arith, h) in rw l refl
insert-past f b t x (y ∷ xs) v s h =
    let z = last_of y xs in
    let there : has z ((y ∷ xs) ++ v) ≡ true =
      ground (arith, has-append z (y ∷ xs) v, has-last_of y xs) in
    let le : f x ≤ f z = From-has f (f x) ((y ∷ xs) ++ v) z s.0 there in
    let l : leb b (f x) ≡ false = ground (arith, le, h) in
    rw l (ap (λ k. x ∷ k) (insert-past f b t y xs v s.1 h))

-- a list is its part before the last, and the last
but_last :
    (x : TimerPtr) (xs : List TimerPtr) → (w : List TimerPtr) × (x ∷ xs ≡ w ++ last_of x xs ∷ [])
but_last x [] = ([], refl)
but_last x (y ∷ xs) = let (w, e) = but_last y xs in (x ∷ w, ap (λ k. x ∷ k) e)

module _ (c c1 : TimerCtl) (t : TimerPtr) (timeout value : ℕ)
    (counting : IsCounting c c1 t timeout value) where
  -- the order, once the loop has inserted the timer in the circle `ts`
  pub inserted-IsTimers :
      (m : Links) (ts : List TimerPtr)
      → IsTimers c ts
      → has t (c.listtail ∷ ts) ≡ false
      → Circle m c.listtail (insert (due_at c1) (add32 c.tick timeout) t ts)
      → IsTimers (set_links m c1) (insert (due_at c1) (add32 c.tick timeout) t ts)
  inserted-IsTimers m ts w out circle =
      let b = add32 c.tick timeout in
      let g = due_same c c1 t timeout value counting (c.listtail ∷ ts) out in
      let at = counting_due c c1 t timeout value counting in
      let l = insert (due_at c1) b t ts in
      let old_alarm : c1.next_alarm_on_tick ≤ due_at c1 (first_of_chain ts c.listtail) =
        rw
          (g (first_of_chain ts c.listtail)
            (has_first ts c.listtail (first_of_chain ts c.listtail) refl))
          (omega (arith, counting.not_late, w.alarm)) in
      let alarm : c1.next_alarm_on_tick ≤ due_at c1 (first_of_chain l c.listtail) =
        alarm-insert (due_at c1) c1.next_alarm_on_tick b t c.listtail ts old_alarm counting.in_time
          at in
      record {
        circle = subst (λ h. Circle m h l) (sym counting.tail) circle;
        sorted =
            Sorted-insert (due_at c1) b t ts at
              (Sorted-same (due_at c) (due_at c1) ts (λ y h. g y (ground (arith, h))) w.sorted);
        alarm =
            subst (λ h. c1.next_alarm_on_tick ≤ due_at c1 (first_of_chain l h)) (sym counting.tail)
              alarm;
        guard =
            ap (due_at c1) counting.tail
            ∙ g c.listtail (ground (arith, ==_refl c.listtail))
            ∙ w.guard;
        fits = counting_fits c c1 t timeout value counting w.fits;
      }

  -- the loop from the timer behind which the timer stood, which is due before
  pub walk_from_last :
      (fuel : ℕ) (x : TimerPtr) (xs v : List TimerPtr)
      → IsTimers c (x ∷ (xs ++ v))
      → has t (c.listtail ∷ (x ∷ (xs ++ v))) ≡ false
      → Circle c.links t []
      → length (x ∷ (xs ++ v)) < fuel
      → due_at c1 (last_of x xs) < add32 c.tick timeout
      → (m : Links) × (insert_loop fuel t (last_of x xs) (c1.links.next (last_of x xs)) c1
          ≡ some (set_links m c1))
        × Circle m c.listtail (insert (due_at c1) (add32 c.tick timeout) t (x ∷ (xs ++ v)))
  walk_from_last fuel x xs v w out s lt early =
      let b = add32 c.tick timeout in
      let f = due_at c1 in
      let g = c.listtail in
      let z = last_of x xs in
      let (k, e) = but_last x xs in
      let all : x ∷ (xs ++ v) ≡ k ++ z ∷ v = ap (λ l. l ++ v) e ∙ append_assoc k (z ∷ []) v in
      let circle : Circle c1.links g (k ++ z ∷ v) =
        subst (λ l. Circle l g (k ++ z ∷ v)) (sym counting.links)
          (subst (Circle c.links g) all w.circle) in
      let turned : Circle c1.links z (v ++ g ∷ k) = Circle-rotate c1.links g k z v circle in
      let out_all : has t (g ∷ (k ++ z ∷ v)) ≡ false = subst (λ l. has t (g ∷ l) ≡ false) all out in
      let out_turned : has t (z ∷ (v ++ g ∷ k)) ≡ false =
        ground (arith, out_all, has-append t k (z ∷ v), has-append t v (g ∷ k)) in
      let size : length (v ++ g ∷ k) < fuel =
        let l1 = length-append v (g ∷ k) in
        let l2 = length-append k (z ∷ v) in
        let l3 = ap length all in omega (arith, l1, l2, l3, lt) in
      let (m, r, placed) =
        insert_loop_lem fuel t z c1 [] (v ++ g ∷ k) turned
          (subst (λ l. Circle l t []) (sym counting.links) s) out_turned size in
      let due_g : f g ≡ uint32_max =
        due_same c c1 t timeout value counting (g ∷ (x ∷ (xs ++ v))) out g
          (ground (arith, ==_refl g))
        ∙ w.guard in
      let fits : b ≤ f g = let le = add32_fits c.tick timeout in omega (arith, due_g, le) in
      let at : f t ≡ b = counting_due c c1 t timeout value counting in
      let there : place f (f t) t (v ++ g ∷ k) ≡ insert f b t v ++ g ∷ k =
        ap (λ d. place f d t (v ++ g ∷ k)) at ∙ place-guard f b t g v k fits in
      let back : Circle m g (k ++ z ∷ insert f b t v) =
        Circle-rotate m z (insert f b t v) g k (subst (Circle m z) there placed) in
      let sorted : Sorted f (x ∷ (xs ++ v)) =
        Sorted-same (due_at c) f (x ∷ (xs ++ v))
          (λ y h.
            due_same c c1 t timeout value counting (g ∷ (x ∷ (xs ++ v))) out y (ground (arith, h)))
          w.sorted in
      let same : k ++ z ∷ insert f b t v ≡ insert f b t (x ∷ (xs ++ v)) =
        sym (append_assoc k (z ∷ []) (insert f b t v))
        ∙ ap (λ l. l ++ insert f b t v) (sym e)
        ∙ sym (insert-past f b t x xs v sorted early) in
      let next : c1.links.next z ≡ first_of_chain (v ++ g ∷ k) z =
        next-Chain c1.links z (v ++ g ∷ k) z turned.0 in
      (m, rw next r, subst (Circle m g) same back)

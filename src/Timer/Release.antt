-- ===== src/Timer/Release.antt =====
-- `timer_free` of src/pic/timer.c on a timer that counts down.
use unagi_os.Common.{
  ℕ, ◌≤◌, ◌≡◌, refl, ◌≢◌, ◌⊎◌, inl, inr, true, false, Bool-cases, List, [], ◌∷◌, ◌++◌, ◌==◌, ==→eq,
  ==_cases, ==_refl, ne→==, if◌then◌else◌, arith, ap, sym, subst, ◌∙◌,
}
use unagi_os.Dlist.{Links}
use unagi_os.Dlist
use unagi_os.Dlist.Chain.{has, Circle, first_of_chain, next-Chain}
use unagi_os.Dlist.Update.{has-append, ne_of_has, Distinct-split}
use unagi_os.Dlist.Splice.{has_first}
use unagi_os.Dlist.Circle.{init-Circle, remove-Circle, insert_before-Circle}
use unagi_os.Dlist.Frame.{init-other}
use unagi_os.Dlist.Inner.{apart_one}
use unagi_os.Timer.{
  TimerPtr, TimerCtl, Timer, Effect, free_fifo, null, flags_free, flags_oncountdown, set_links,
  set_timer, skip_alarm, set_default_params, timer_free, uint32_max,
}
use unagi_os.Timer.Order.{due_at, From, Sorted, IsTimers, From-has, Sorted-same}

From-append :
    (f : TimerPtr → ℕ) (b : ℕ) (xs ys : List TimerPtr)
    → From f b xs
    → From f b ys
    → From f b (xs ++ ys)
From-append f b [] ys h k = k
From-append f b (x ∷ xs) ys h k = (h.0, From-append f b xs ys h.1 k)

From-split :
    (f : TimerPtr → ℕ) (b : ℕ) (xs ys : List TimerPtr)
    → From f b (xs ++ ys)
    → From f b xs × From f b ys
From-split f b [] ys h = (tt, h)
From-split f b (x ∷ xs) ys h = let (l, r) = From-split f b xs ys h.1 in ((h.0, l), r)

-- the order without one timer
pub Sorted-removed :
    (f : TimerPtr → ℕ) (u : List TimerPtr) (t : TimerPtr) (v : List TimerPtr)
    → Sorted f (u ++ t ∷ v)
    → Sorted f (u ++ v)
Sorted-removed f [] t v s = s.1
Sorted-removed f (x ∷ u) t v s =
    let (l, r) = From-split f (f x) u (t ∷ v) s.0 in
    (From-append f (f x) u v l r.1, Sorted-removed f u t v s.1)

-- the order with a timer that is due last
Sorted-last :
    (f : TimerPtr → ℕ) (xs : List TimerPtr) (t : TimerPtr)
    → ((y : TimerPtr) → f y ≤ f t)
    → Sorted f xs
    → Sorted f (xs ++ t ∷ [])
Sorted-last f [] t h s = (tt, tt)
Sorted-last f (x ∷ xs) t h s =
    (From-append f (f x) xs (t ∷ []) s.0 (h x, tt), Sorted-last f xs t h s.1)

-- the first timer is due no later without one timer, or with one that is due last
pub first_removed :
    (f : TimerPtr → ℕ) (a : ℕ) (u : List TimerPtr) (t : TimerPtr) (v : List TimerPtr) (g : TimerPtr)
    → ((y : TimerPtr) → f y ≤ f g)
    → Sorted f (u ++ t ∷ v)
    → a ≤ f (first_of_chain (u ++ t ∷ v) g)
    → a ≤ f (first_of_chain (u ++ v) g)
first_removed f a (x ∷ u) t v g h s k = k
first_removed f a [] t [] g h s k = omega (arith, k, h t)
first_removed f a [] t (x ∷ v) g h s k = omega (arith, k, s.0.0)

first_last :
    (f : TimerPtr → ℕ) (a : ℕ) (xs : List TimerPtr) (t g : TimerPtr)
    → f g ≤ f t
    → a ≤ f (first_of_chain xs g)
    → a ≤ f (first_of_chain (xs ++ t ∷ []) g)
first_last f a [] t g h k = omega (arith, h, k)
first_last f a (x ∷ xs) t g h k = k

-- the alarm for a timer that is the first, or is due later than the first
skipped_first :
    (c : TimerCtl) (u : List TimerPtr) (t : TimerPtr) (v : List TimerPtr)
    → IsTimers c (u ++ t ∷ v)
    → ((c.links.next c.listtail ≡ t) ⊎ (due_at c (c.links.next c.listtail) ≢ due_at c t))
    → c.next_alarm_on_tick ≡ due_at c t
    → due_at c (c.links.next t) ≤ due_at c (first_of_chain (u ++ v) c.listtail)
skipped_first c [] t v w first e =
    let next : c.links.next t ≡ first_of_chain v c.listtail =
      next-Chain c.links t v c.listtail w.circle.0.1 in
    rw next (omega arith)
skipped_first c (x ∷ u) t v w first e =
    let at : c.links.next c.listtail ≡ x = w.circle.0.0.0 in
    let there : has t (u ++ t ∷ v) ≡ true = ground (arith, has-append t u (t ∷ v), ==_refl t) in
    let le : due_at c x ≤ due_at c t =
      From-has (due_at c) (due_at c x) (u ++ t ∷ v) t w.sorted.0 there in
    elim first [
      | inl same ↦
          let out : has t (u ++ t ∷ v) ≡ false =
            subst (λ z. has z (u ++ t ∷ v) ≡ false) (sym at ∙ same) w.circle.1.1.0 in
          absurd (cc (there, out))
      | inr other ↦ absurd (other (ap (due_at c) at ∙ omega (arith, le, e, w.alarm)))
    ]

-- Where the timer `t` is the first, or the first is due at another tick, the alarm is not late for the
-- others when it is set to the tick of the timer behind `t`.
pub skip_alarm_lem :
    (c : TimerCtl) (u : List TimerPtr) (t : TimerPtr) (v : List TimerPtr)
    → IsTimers c (u ++ t ∷ v)
    → ((c.links.next c.listtail ≡ t) ⊎ (due_at c (c.links.next c.listtail) ≢ due_at c t))
    → (skip_alarm t c).next_alarm_on_tick ≤ due_at c (first_of_chain (u ++ v) c.listtail)
unfolding skip_alarm
skip_alarm_lem c u t v w first = elim (Bool-cases (c.next_alarm_on_tick == due_at c t)) [
  | inr h ↦ rw h (
      first_removed (due_at c) c.next_alarm_on_tick u t v c.listtail
        (λ y. subst (λ n. due_at c y ≤ n) (sym w.guard) (w.fits y)) w.sorted w.alarm)
  | inl h ↦ rw h (skipped_first c u t v w first (==→eq c.next_alarm_on_tick (due_at c t) h))
]

-- the timer leaves the circle, is set back, and enters at the end
abbrev released : TimerPtr → TimerCtl → TimerCtl
released t c =
    let c1 = set_default_params t (set_links (Dlist.remove t c.links).1 c) in
    set_links (Dlist.insert_before c.listtail t c1.links).1 c1

-- a timer set back
abbrev pub fresh_timer : Timer
fresh_timer = record { target_tick = uint32_max; flags = flags_free; fifo = null; value = 0 }

pub default_lem :
    (t : TimerPtr) (c : TimerCtl)
    → t ≢ null
    → set_default_params t c ≡ set_links (Dlist.init t c.links) (set_timer t fresh_timer c)
unfolding set_default_params
default_lem t c n = rw (ne→== t null n) refl

pub set_self : (t : TimerPtr) (v : Timer) (c : TimerCtl) → (set_timer t v c).timer t ≡ v
set_self t v c = rw (==_refl t) refl

pub set_other :
    (t y : TimerPtr) (v : Timer) (c : TimerCtl) → y ≢ t → (set_timer t v c).timer y ≡ c.timer y
set_other t y v c n = rw (ne→== y t n) refl

abbrev moved_last : TimerPtr → TimerCtl → TimerCtl
moved_last t c =
    set_links (Dlist.insert_before c.listtail t (Dlist.init t (Dlist.remove t c.links).1)).1
      (set_timer t fresh_timer c)

released_moved : (t : TimerPtr) (c : TimerCtl) → t ≢ null → released t c ≡ moved_last t c
released_moved t c n = rw (default_lem t (set_links (Dlist.remove t c.links).1 c) n) refl

-- a timer of the circle is not among the others
pub removed_out :
    (m : Links) (g : TimerPtr) (u : List TimerPtr) (t : TimerPtr) (v : List TimerPtr)
    → Circle m g (u ++ t ∷ v)
    → has t (g ∷ (u ++ v)) ≡ false
removed_out m g u t v circle =
    let (_, d_t, apart) = Distinct-split (g ∷ u) (t ∷ v) circle.1 in
    let out_v : has t v ≡ false = d_t.0 in
    let out_u : has t (g ∷ u) ≡ false = elim (Bool-cases (has t (g ∷ u))) [
      | inl h ↦ absurd (let n = apart t h in ground (arith, n, ==_refl t))
      | inr h ↦ h
    ] in
    ground (arith, has-append t u v, out_v, out_u)

-- the links
released-Circle :
    (m : Links) (g : TimerPtr) (u : List TimerPtr) (t : TimerPtr) (v : List TimerPtr)
    → Circle m g (u ++ t ∷ v)
    → Circle (Dlist.insert_before g t (Dlist.init t (Dlist.remove t m).1)).1 g ((u ++ v) ++ t ∷ [])
released-Circle m g u t v circle =
    let m1 = (Dlist.remove t m).1 in
    let (others, _) = remove-Circle m g u t v circle in
    let out = removed_out m g u t v circle in
    insert_before-Circle (Dlist.init t m1) g (u ++ v) t [] (init-other m1 t g (u ++ v) others out)
      (init-Circle t m1) (apart_one (g ∷ (u ++ v)) t out)

-- the order with the timer `t` set back and at the end
last-IsTimers :
    (c c' : TimerCtl) (u : List TimerPtr) (t : TimerPtr) (v : List TimerPtr)
    → IsTimers c (u ++ t ∷ v)
    → has t (c.listtail ∷ (u ++ v)) ≡ false
    → Circle c'.links c.listtail ((u ++ v) ++ t ∷ [])
    → c'.listtail ≡ c.listtail
    → c'.timer t ≡ fresh_timer
    → ((y : TimerPtr) → y ≢ t → c'.timer y ≡ c.timer y)
    → c'.next_alarm_on_tick ≤ due_at c (first_of_chain (u ++ v) c.listtail)
    → IsTimers c' ((u ++ v) ++ t ∷ [])
last-IsTimers c c' u t v w out circle tail self others alarm =
    let g = c.listtail in
    let f = due_at c in
    let f' = due_at c' in
    let due_t : f' t ≡ uint32_max = ap (λ x. x.target_tick) self in
    let other_due : (y : TimerPtr) → y ≢ t → f' y ≡ f y =
      λ y n. ap (λ x. x.target_tick) (others y n) in
    let same : (y : TimerPtr) → has y (g ∷ (u ++ v)) ≡ true → f' y ≡ f y =
      λ y h. other_due y (ne_of_has (g ∷ (u ++ v)) y t h out) in
    let fits : (y : TimerPtr) → f' y ≤ uint32_max = λ y. elim (==_cases y t) [
      | inl e ↦ subst (λ z. f' z ≤ uint32_max) (sym e) (omega (arith, due_t))
      | inr n ↦ subst (λ b. b ≤ uint32_max) (sym (other_due y n)) (w.fits y)
    ] in
    let last : (y : TimerPtr) → f' y ≤ f' t = λ y. subst (λ b. f' y ≤ b) (sym due_t) (fits y) in
    let sorted : Sorted f' (u ++ v) =
      Sorted-same f f' (u ++ v) (λ y h. same y (ground (arith, h)))
        (Sorted-removed f u t v w.sorted) in
    let before : c'.next_alarm_on_tick ≤ f' (first_of_chain (u ++ v) g) =
      subst (λ b. c'.next_alarm_on_tick ≤ b)
        (sym (
          same (first_of_chain (u ++ v) g) (has_first (u ++ v) g (first_of_chain (u ++ v) g) refl)))
        alarm in
    record {
      circle = subst (λ h. Circle c'.links h ((u ++ v) ++ t ∷ [])) (sym tail) circle;
      sorted = Sorted-last f' (u ++ v) t last sorted;
      alarm =
          subst (λ h. c'.next_alarm_on_tick ≤ f' (first_of_chain ((u ++ v) ++ t ∷ []) h)) (sym tail)
            (first_last f' c'.next_alarm_on_tick (u ++ v) t g (last g) before);
      guard = ap f' tail ∙ same g (ground (arith, ==_refl g)) ∙ w.guard;
      fits = fits;
    }

-- what a timer that is freed gives back
abbrev pub freed_queue : TimerPtr → TimerCtl → List Effect
freed_queue t c = if (c.timer t).fifo == null then [] else free_fifo (c.timer t).fifo ∷ []

timer_free_counting :
    (t : TimerPtr) (c : TimerCtl)
    → t ≢ null
    → (c.timer t).flags ≡ flags_oncountdown
    → timer_free t c ≡ (freed_queue t c, released t (skip_alarm t c))
unfolding timer_free skip_alarm
timer_free_counting t c n a = elim (Bool-cases (c.next_alarm_on_tick == due_at c t)) [
  | inl h ↦ rw (ne→== t null n, a, h) refl
  | inr h ↦ rw (ne→== t null n, a, h) refl
]

pub skip_same :
    (t : TimerPtr) (c : TimerCtl)
    → ((skip_alarm t c).links ≡ c.links)
      × ((skip_alarm t c).timer ≡ c.timer)
      × ((skip_alarm t c).listtail ≡ c.listtail)
      × ((skip_alarm t c).tick ≡ c.tick)
unfolding skip_alarm
skip_same t c = elim (Bool-cases (c.next_alarm_on_tick == due_at c t)) [
  | inl h ↦ rw h (refl, refl, refl, refl)
  | inr h ↦ rw h (refl, refl, refl, refl)
]

-- what `timer_free` of a timer gives: the timer is as new, at the end of the circle
pub record IsReleased (c c' : TimerCtl) (u : List TimerPtr) (t : TimerPtr) (v : List TimerPtr)
    : Type 0 where
  pub timers : IsTimers c' ((u ++ v) ++ t ∷ [])
  pub self : c'.timer t ≡ fresh_timer
  pub others : (y : TimerPtr) → y ≢ t → c'.timer y ≡ c.timer y
  pub same_tick : c'.tick ≡ c.tick

-- For timers in order, `timer_free` of one that counts down gives back its queue, if it has one, sets
-- the timer back, and moves it to the end of the circle; the circle is in order again, and no
-- other timer changes. This is for a timer that is the first of the circle, or where the first is
-- due at another tick: else the alarm is set behind the first timer.
pub timer_free_lem :
    (c : TimerCtl) (u : List TimerPtr) (t : TimerPtr) (v : List TimerPtr)
    → IsTimers c (u ++ t ∷ v)
    → t ≢ null
    → (c.timer t).flags ≡ flags_oncountdown
    → ((c.links.next c.listtail ≡ t) ⊎ (due_at c (c.links.next c.listtail) ≢ due_at c t))
    → (c' : TimerCtl) × (timer_free t c ≡ (freed_queue t c, c')) × IsReleased c c' u t v
timer_free_lem c u t v w n a first =
    let c1 = skip_alarm t c in
    let (links, timer, tail, tick) = skip_same t c in
    let c' = moved_last t c1 in
    let circle : Circle c'.links c.listtail ((u ++ v) ++ t ∷ []) =
      rw (tail, links) (released-Circle c.links c.listtail u t v w.circle) in
    let self : c'.timer t ≡ fresh_timer = set_self t fresh_timer c1 in
    let others : (y : TimerPtr) → y ≢ t → c'.timer y ≡ c.timer y =
      λ y ne. set_other t y fresh_timer c1 ne ∙ ap (λ k. k y) timer in
    (
      c',
      timer_free_counting t c n a ∙ ap (λ x. (freed_queue t c, x)) (released_moved t c1 n),
      record {
        timers =
            last-IsTimers c c' u t v w (removed_out c.links c.listtail u t v w.circle) circle tail
              self others (skip_alarm_lem c u t v w first);
        self = self;
        others = others;
        same_tick = tick;
      },
    )

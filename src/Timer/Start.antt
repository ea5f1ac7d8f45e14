-- ===== src/Timer/Start.antt =====
-- `timer_settimer` of src/pic/timer.c on an allocated timer.
use unagi_os.Common.{
  ℕ, zero, suc, ◌≤◌, ◌<◌, ◌≡◌, refl, ◌≢◌, inl, inr, true, false, Bool-cases, some, List, [], ◌∷◌,
  ◌++◌, ◌==◌, ==_cases, ==_refl, ne→==, ltb, leb, if◌then◌else◌, length, arith, ap, sym, subst, ◌∙◌,
}
use mathlib.Core.List.{append_assoc}
use unagi_os.Common.Words.{add32}
use unagi_os.Dlist.{Links}
use unagi_os.Dlist
use unagi_os.Dlist.Chain.{has, Circle, first_of_chain, Chain-split, next-Chain}
use unagi_os.Dlist.Update.{has-append, ne_of_has}
use unagi_os.Dlist.Splice.{has_first}
use unagi_os.Dlist.Inner.{insert_before_inner}
use unagi_os.Timer.{
  TimerPtr, TimerCtl, null, flags_allocated, flags_oncountdown, set_links, set_params, insert_loop,
  settimer, uint32_max,
}
use unagi_os.Timer.Order.{due_at, From, Sorted, IsTimers, From-le, Sorted-same}

-- The timer `t`, due at `b`, before the first that is due no earlier, and nowhere if there is none.
abbrev pub place : (TimerPtr → ℕ) → ℕ → TimerPtr → List TimerPtr → List TimerPtr
place f b t [] = []
place f b t (x ∷ xs) = let rest = place f b t xs in if leb b (f x) then t ∷ x ∷ xs else x ∷ rest

insert_loop_stop :
    (fuel : ℕ) (t head pos : TimerPtr) (c : TimerCtl)
    → (pos == head) ≡ true
    → insert_loop (suc fuel) t head pos c ≡ some c
unfolding insert_loop
insert_loop_stop fuel t head pos c h = rw h refl

insert_loop_here :
    (fuel : ℕ) (t head pos : TimerPtr) (c : TimerCtl)
    → (pos == head) ≡ false
    → leb (due_at c t) (due_at c pos) ≡ true
    → insert_loop (suc fuel) t head pos c ≡ some (set_links (Dlist.insert_before pos t c.links).1 c)
unfolding insert_loop
insert_loop_here fuel t head pos c h k = rw (h, k) refl

insert_loop_next :
    (fuel : ℕ) (t head pos : TimerPtr) (c : TimerCtl)
    → (pos == head) ≡ false
    → leb (due_at c t) (due_at c pos) ≡ false
    → insert_loop (suc fuel) t head pos c ≡ insert_loop fuel t head (c.links.next pos) c
unfolding insert_loop
insert_loop_next fuel t head pos c h k = rw (h, k) refl

-- The loop, with `u` behind it and `v` before it.
pub insert_loop_lem :
    (fuel : ℕ) (t head : TimerPtr) (c : TimerCtl) (u v : List TimerPtr)
    → Circle c.links head (u ++ v)
    → Circle c.links t []
    → has t (head ∷ (u ++ v)) ≡ false
    → length v < fuel
    → (m : Links) × (insert_loop fuel t head (first_of_chain v head) c ≡ some (set_links m c))
      × Circle m head (u ++ place (due_at c) (due_at c t) t v)
insert_loop_lem zero t head c u v circle s out lt = absurd (omega arith)
insert_loop_lem (suc fuel) t head c u [] circle s out lt =
    (c.links, insert_loop_stop fuel t head head c (==_refl head), circle)
insert_loop_lem (suc fuel) t head c u (x ∷ v) circle s out lt =
    let not_head : (x == head) ≡ false = ground (arith, has-append head u (x ∷ v), circle.1.0) in
    elim (Bool-cases (leb (due_at c t) (due_at c x))) [
      | inl h ↦ rw h (
        (Dlist.insert_before x t c.links).1,
        insert_loop_here fuel t head x c not_head h,
        insert_before_inner c.links head u x v t circle s out,
      )
      | inr h ↦
          let (_, from_x) = Chain-split c.links head u x v head circle.0 in
          let next : c.links.next x ≡ first_of_chain v head = next-Chain c.links x v head from_x in
          let same : u ++ x ∷ v ≡ (u ++ x ∷ []) ++ v = sym (append_assoc u (x ∷ []) v) in
          let (m, e, placed) =
            insert_loop_lem fuel t head c (u ++ x ∷ []) v (subst (Circle c.links head) same circle)
              s (subst (λ l. has t (head ∷ l) ≡ false) same out) (omega (arith, lt)) in
          rw h (
            m,
            insert_loop_next fuel t head x c not_head h ∙ rw next e,
            subst (Circle m head) (append_assoc u (x ∷ []) (place (due_at c) (due_at c t) t v))
                placed,
          )
    ]

From-place :
    (f : TimerPtr → ℕ) (a b : ℕ) (t : TimerPtr) (xs : List TimerPtr)
    → a ≤ b
    → f t ≡ b
    → From f a xs
    → From f a (place f b t xs)
From-place f a b t [] h e k = tt
From-place f a b t (x ∷ xs) h e k = elim (Bool-cases (leb b (f x))) [
  | inl l ↦ rw l (omega (arith, h, e), (k.0, k.1))
  | inr l ↦ rw l (k.0, From-place f a b t xs h e k.1)
]

pub Sorted-place :
    (f : TimerPtr → ℕ) (b : ℕ) (t : TimerPtr) (xs : List TimerPtr)
    → f t ≡ b
    → Sorted f xs
    → Sorted f (place f b t xs)
Sorted-place f b t [] e s = tt
Sorted-place f b t (x ∷ xs) e s = elim (Bool-cases (leb b (f x))) [
  | inl l ↦
      let le : f t ≤ f x = ground (arith, l, e) in rw l ((le, From-le f (f t) (f x) xs le s.0), s)
  | inr l ↦
      let le : f x ≤ b = ground (arith, l) in
      rw l (From-place f (f x) b t xs le e s.0, Sorted-place f b t xs e s.1)
]

-- an alarm that is not late for the old first timer and the new timer is not late for the first
pub alarm-place :
    (f : TimerPtr → ℕ) (a b : ℕ) (t g : TimerPtr) (xs : List TimerPtr)
    → a ≤ f (first_of_chain xs g)
    → a ≤ b
    → f t ≡ b
    → a ≤ f (first_of_chain (place f b t xs) g)
alarm-place f a b t g [] h k e = h
alarm-place f a b t g (x ∷ xs) h k e = elim (Bool-cases (leb b (f x))) [
  | inl l ↦ rw l (omega (arith, k, e))
  | inr l ↦ rw l h
]

-- the value that is kept
abbrev pub new_value : TimerPtr → ℕ → TimerCtl → ℕ
new_value t value c = if value == 0 then (c.timer t).value else value

pub settimer_allocated :
    (fuel : ℕ) (t : TimerPtr) (timeout value : ℕ) (c : TimerCtl)
    → t ≢ null
    → (c.timer t).flags ≡ flags_allocated
    → settimer fuel t timeout value c
      ≡ insert_loop fuel t c.listtail
          ((set_params t timeout (new_value t value c) c).links.next c.listtail)
          (set_params t timeout (new_value t value c) c)
unfolding settimer
settimer_allocated fuel t timeout value c n a = rw (ne→== t null n, a) refl

-- What `set_params` leaves: `c1`, where the timer `t` counts down for `timeout` ticks.
pub record IsCounting (c c1 : TimerCtl) (t : TimerPtr) (timeout value : ℕ) : Type 0 where
  pub links : c1.links ≡ c.links
  pub tail : c1.listtail ≡ c.listtail
  pub same_tick : c1.tick ≡ c.tick
  pub self : c1.timer t ≡ record (c.timer t) {
    target_tick = add32 c.tick timeout;
    flags = flags_oncountdown;
    value = value;
  }
  pub others : (y : TimerPtr) → y ≢ t → c1.timer y ≡ c.timer y
  pub not_late : c1.next_alarm_on_tick ≤ c.next_alarm_on_tick
  pub in_time : c1.next_alarm_on_tick ≤ add32 c.tick timeout

pub set_params-IsCounting :
    (t : TimerPtr) (timeout value : ℕ) (c : TimerCtl)
    → IsCounting c (set_params t timeout value c) t timeout value
unfolding set_params
set_params-IsCounting t timeout value c =
    let target = add32 c.tick timeout in
    let self : (t == t) ≡ true = ==_refl t in
    elim (Bool-cases (ltb target c.next_alarm_on_tick)) [
      | inl h ↦
          let lt : target < c.next_alarm_on_tick = ground (arith, h) in
          rw h (record {
            links = refl;
            tail = refl;
            same_tick = refl;
            self = rw self refl;
            others = λ y n. rw (ne→== y t n) refl;
            not_late = omega (arith, lt);
            in_time = omega arith;
          })
      | inr h ↦
          let le : c.next_alarm_on_tick ≤ target = ground (arith, h) in
          rw h (record {
            links = refl;
            tail = refl;
            same_tick = refl;
            self = rw self refl;
            others = λ y n. rw (ne→== y t n) refl;
            not_late = omega arith;
            in_time = omega (arith, le);
          })
    ]

pub place-same :
    (f g : TimerPtr → ℕ) (b : ℕ) (t : TimerPtr) (xs : List TimerPtr)
    → ((y : TimerPtr) → has y xs ≡ true → g y ≡ f y)
    → place g b t xs ≡ place f b t xs
place-same f g b t [] e = refl
place-same f g b t (x ∷ xs) e =
    let here : g x ≡ f x = e x (ground (arith, ==_refl x)) in
    rw (here, place-same f g b t xs (λ y h. e y (ground (arith, h)))) refl

pub add32_fits : (a b : ℕ) → add32 a b ≤ uint32_max
add32_fits a b = omega arith

module _ (c c1 : TimerCtl) (t : TimerPtr) (timeout value : ℕ)
    (counting : IsCounting c c1 t timeout value) where
  pub counting_due : due_at c1 t ≡ add32 c.tick timeout
  counting_due = ap (λ v. v.target_tick) counting.self

  pub due_same :
      (xs : List TimerPtr)
      → has t xs ≡ false
      → (y : TimerPtr) → has y xs ≡ true
      → due_at c1 y ≡ due_at c y
  due_same xs out y h = ap (λ v. v.target_tick) (counting.others y (ne_of_has xs y t h out))

  pub counting_fits :
      ((y : TimerPtr) → due_at c y ≤ uint32_max) → (y : TimerPtr) → due_at c1 y ≤ uint32_max
  counting_fits fits y = elim (==_cases y t) [
    | inl e ↦
        subst (λ z. due_at c1 z ≤ uint32_max) (sym e)
          (subst (λ n. n ≤ uint32_max) (sym counting_due) (add32_fits c.tick timeout))
    | inr n ↦ subst (λ v. v.target_tick ≤ uint32_max) (sym (counting.others y n)) (fits y)
  ]

  -- the order, once the loop has placed the timer in the circle `ts`
  pub placed-IsTimers :
      (m : Links) (ts : List TimerPtr)
      → IsTimers c ts
      → has t (c.listtail ∷ ts) ≡ false
      → Circle m c.listtail (place (due_at c) (add32 c.tick timeout) t ts)
      → IsTimers (set_links m c1) (place (due_at c) (add32 c.tick timeout) t ts)
  placed-IsTimers m ts w out circle =
      let b = add32 c.tick timeout in
      let g = due_same (c.listtail ∷ ts) out in
      let same_place : place (due_at c1) b t ts ≡ place (due_at c) b t ts =
        place-same (due_at c) (due_at c1) b t ts (λ y h. g y (ground (arith, h))) in
      let old_alarm : c1.next_alarm_on_tick ≤ due_at c1 (first_of_chain ts c.listtail) =
        rw
          (g (first_of_chain ts c.listtail)
            (has_first ts c.listtail (first_of_chain ts c.listtail) refl))
          (omega (arith, counting.not_late, w.alarm)) in
      let alarm : c1.next_alarm_on_tick
          ≤ due_at c1 (first_of_chain (place (due_at c1) b t ts) c.listtail) =
        alarm-place (due_at c1) c1.next_alarm_on_tick b t c.listtail ts old_alarm counting.in_time
          counting_due in
      record {
        circle = subst (λ h. Circle m h (place (due_at c) b t ts)) (sym counting.tail) circle;
        sorted = subst (Sorted (due_at c1)) same_place (
            Sorted-place (due_at c1) b t ts counting_due
              (Sorted-same (due_at c) (due_at c1) ts (λ y h. g y (ground (arith, h))) w.sorted));
        alarm =
            subst
              (λ h. c1.next_alarm_on_tick ≤ due_at c1 (first_of_chain (place (due_at c) b t ts) h))
              (sym counting.tail)
              (subst (λ l. c1.next_alarm_on_tick ≤ due_at c1 (first_of_chain l c.listtail))
                same_place alarm);
        guard =
            ap (due_at c1) counting.tail
            ∙ g c.listtail (ground (arith, ==_refl c.listtail))
            ∙ w.guard;
        fits = counting_fits w.fits;
      }

-- what a call of `timer_settimer` leaves: the timer counts down, and the others are as before
pub record IsCountdown (c c' : TimerCtl) (t : TimerPtr) (timeout value : ℕ) : Type 0 where
  pub same_tick : c'.tick ≡ c.tick
  pub self : c'.timer t ≡ record (c.timer t) {
    target_tick = add32 c.tick timeout;
    flags = flags_oncountdown;
    value = value;
  }
  pub others : (y : TimerPtr) → y ≢ t → c'.timer y ≡ c.timer y

-- For timers in order, `timer_settimer` of an allocated timer that is not in the circle ends, with
-- one more turn of its loop than the circle has timers; the timer counts down to the current tick
-- and `timeout`, no other timer changes, and the circle is in order again, with the timer before the
-- first that is due no earlier, and the alarm is not late. Where no timer of the circle is due as
-- late, the timer is in no circle.
pub settimer_started :
    (fuel : ℕ) (t : TimerPtr) (timeout value : ℕ) (c : TimerCtl) (ts : List TimerPtr)
    → IsTimers c ts
    → t ≢ null
    → (c.timer t).flags ≡ flags_allocated
    → has t (c.listtail ∷ ts) ≡ false
    → Circle c.links t []
    → length ts < fuel
    → (c' : TimerCtl) × (settimer fuel t timeout value c ≡ some c')
      × IsTimers c' (place (due_at c) (add32 c.tick timeout) t ts)
      × IsCountdown c c' t timeout (new_value t value c)
settimer_started fuel t timeout value c ts w n a out s lt =
    let c1 = set_params t timeout (new_value t value c) c in
    let k = set_params-IsCounting t timeout (new_value t value c) c in
    let b = add32 c.tick timeout in
    let due_t : due_at c1 t ≡ b = ap (λ v. v.target_tick) k.self in
    let circle : Circle c1.links c.listtail ts =
      subst (λ l. Circle l c.listtail ts) (sym k.links) w.circle in
    let (m, e, placed) =
      insert_loop_lem fuel t c.listtail c1 [] ts circle (subst (λ l. Circle l t []) (sym k.links) s)
        out lt in
    let first : c1.links.next c.listtail ≡ first_of_chain ts c.listtail =
      next-Chain c1.links c.listtail ts c.listtail circle.0 in
    let same : place (due_at c1) (due_at c1 t) t ts ≡ place (due_at c) b t ts =
      ap (λ d. place (due_at c1) d t ts) due_t
      ∙ place-same (due_at c) (due_at c1) b t ts (λ y h.
        due_same c c1 t timeout (new_value t value c) k (c.listtail ∷ ts) out y
          (ground (arith, h))) in
    (
      set_links m c1,
      settimer_allocated fuel t timeout value c n a ∙ rw first e,
      placed-IsTimers c c1 t timeout (new_value t value c) k m ts w out
          (subst (Circle m c.listtail) same placed),
      record { same_tick = k.same_tick; self = k.self; others = k.others },
    )

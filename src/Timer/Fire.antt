-- ===== src/Timer/Fire.antt =====
-- `timer_int_handler` of src/pic/timer.c: which timers it fires.
use unagi_os.Common.{
  ℕ, zero, suc, ◌<◌, ◌≡◌, refl, inl, inr, Bool, true, false, not, ◌&&◌, ◌||◌, Bool-cases, some,
  List, [], ◌∷◌, ◌++◌, ◌==◌, ==_cases, ==_refl, ne→==, ltb, length, arith, ap, sym, subst, ◌∙◌,
}
use unagi_os.Dlist.{Links}
use unagi_os.Dlist
use unagi_os.Dlist.Chain.{has, Circle}
use unagi_os.Dlist.Update.{has-append}
use unagi_os.Dlist.Circle.{remove-Circle}
use unagi_os.Dlist.Frame.{Untouched, remove-Untouched}
use unagi_os.Timer.{
  TimerPtr, TimerCtl, Timer, Effect, enqueue, null, flags_allocated, set_timer, set_links,
  fire_loop,
}
use unagi_os.Timer.Order.{due_at, due, later, due-append-later}

-- what a timer that fires puts into its queue
abbrev pub event : TimerCtl → TimerPtr → Effect
event c t = enqueue (c.timer t).fifo (c.timer t).value

abbrev pub events : (TimerPtr → Effect) → List TimerPtr → List Effect
events ev [] = []
events ev (x ∷ xs) = ev x ∷ events ev xs

-- whether the timer of the task switch is among these
abbrev pub has_tss : TimerPtr → List TimerPtr → Bool
has_tss tss xs = not (tss == null) && has tss xs

-- The timers `fired` of the circle have left it, and are allocated, and `rest` are still in it.
pub record IsFired (c c' : TimerCtl) (fired rest : List TimerPtr) : Type 0 where
  pub circle : Circle c'.links c.listtail rest
  pub alone : (y : TimerPtr) → has y fired ≡ true → Circle c'.links y []
  pub kept : (y : TimerPtr) → has y fired ≡ false → c'.timer y ≡ c.timer y
  pub freed :
      (y : TimerPtr)
      → has y fired ≡ true
      → c'.timer y ≡ record (c.timer y) { flags = flags_allocated }
  pub ticks : (y : TimerPtr) → due_at c' y ≡ due_at c y
  pub untouched : Untouched c.links c'.links (c.listtail ∷ (fired ++ rest))
  pub same_tick : c'.tick ≡ c.tick
  pub same_tail : c'.listtail ≡ c.listtail
  pub same_alarm : c'.next_alarm_on_tick ≡ c.next_alarm_on_tick
  pub same_tss : c'.tss_timer ≡ c.tss_timer

abbrev set_allocated : Timer → Timer
set_allocated v = record v { flags = flags_allocated }

-- one timer leaves the circle
abbrev fire_one : TimerPtr → TimerCtl → TimerCtl
fire_one t c =
    set_links (Dlist.remove t c.links).1
      (set_timer t (record (c.timer t) { flags = flags_allocated }) c)

fire_loop_stop :
    (fuel : ℕ) (pos : TimerPtr) (c : TimerCtl)
    → (pos == c.listtail || ltb c.tick (due_at c pos)) ≡ true
    → fire_loop (suc fuel) pos c ≡ some (false, [], c)
unfolding fire_loop
fire_loop_stop fuel pos c h = rw h refl

fire_loop_step :
    (fuel : ℕ) (pos : TimerPtr) (c c' : TimerCtl) (tss : Bool) (es : List Effect)
    → (pos == c.listtail || ltb c.tick (due_at c pos)) ≡ false
    → fire_loop fuel ((fire_one pos c).links.next (c.links.prev pos)) (fire_one pos c)
      ≡ some (tss, es, c')
    → fire_loop (suc fuel) pos c
      ≡ some ((not (c.tss_timer == null) && pos == c.tss_timer) || tss, event c pos ∷ es, c')
unfolding fire_loop
fire_loop_step fuel pos c c' tss es h r = rw h (rw r refl)

fire_one_self :
    (t : TimerPtr) (c : TimerCtl)
    → (fire_one t c).timer t ≡ record (c.timer t) { flags = flags_allocated }
fire_one_self t c = rw (==_refl t) refl

fire_one_other :
    (t y : TimerPtr) (c : TimerCtl) → (y == t) ≡ false → (fire_one t c).timer y ≡ c.timer y
fire_one_other t y c n = rw n refl

due_at-fire_one : (t y : TimerPtr) (c : TimerCtl) → due_at (fire_one t c) y ≡ due_at c y
due_at-fire_one t y c = elim (==_cases y t) [
  | inl e ↦
      subst (λ z. due_at (fire_one t c) z ≡ due_at c z) (sym e)
        (ap (λ v. v.target_tick) (fire_one_self t c))
  | inr n ↦ ap (λ v. v.target_tick) (fire_one_other t y c (ne→== y t n))
]

event-fire_one : (t y : TimerPtr) (c : TimerCtl) → event (fire_one t c) y ≡ event c y
event-fire_one t y c = elim (==_cases y t) [
  | inl e ↦ rw (e, ==_refl t) refl
  | inr n ↦ rw (ne→== y t n) refl
]

has_tss_step :
    (tss x : TimerPtr) (xs : List TimerPtr)
    → ((not (tss == null) && x == tss) || has_tss tss xs) ≡ has_tss tss (x ∷ xs)
has_tss_step tss x xs = ground arith

-- a circle of one that nothing touches
pub alone-Untouched :
    (m g : Links) (l : List TimerPtr) (y : TimerPtr)
    → Untouched m g l
    → has y l ≡ false
    → Circle m y []
    → Circle g y []
alone-Untouched m g l y u out ((n, p), d) = let (un, up) = u y out in ((un ∙ n, up ∙ p), d)

-- what the loop does with the first timer, which is due, and then
IsFired-next :
    (x : TimerPtr) (fired rest : List TimerPtr) (c c' : TimerCtl)
    → Circle c.links c.listtail (x ∷ (fired ++ rest))
    → IsFired (fire_one x c) c' fired rest
    → IsFired c c' (x ∷ fired) rest
IsFired-next x fired rest c c' circle r =
    let xs = fired ++ rest in
    let out_xs : has x xs ≡ false = circle.1.1.0 in
    let out_fired : has x fired ≡ false = ground (arith, has-append x fired rest, out_xs) in
    let tail : (c.listtail == x) ≡ false = ground (arith, circle.1.0) in
    let out : has x (c.listtail ∷ xs) ≡ false = ground (arith, out_xs, tail) in
    let (_, removed) = remove-Circle c.links c.listtail [] x xs circle in
    let away = remove-Untouched c.links c.listtail (x ∷ xs) circle x (ground (arith, ==_refl x)) in
    record {
      circle = r.circle;
      alone = λ y h. elim (==_cases y x) [
        | inl e ↦
            subst (λ z. Circle c'.links z []) (sym e)
              (alone-Untouched (fire_one x c).links c'.links (c.listtail ∷ xs) x r.untouched out
                removed)
        | inr n ↦ r.alone y (ground (arith, h, ne→== y x n))
      ];
      kept = λ y h. r.kept y (ground (arith, h)) ∙ fire_one_other x y c (ground (arith, h));
      freed = λ y h. elim (==_cases y x) [
        | inl e ↦
            subst (λ z. c'.timer z ≡ record (c.timer z) { flags = flags_allocated }) (sym e)
              (r.kept x out_fired ∙ fire_one_self x c)
        | inr n ↦
            r.freed y (ground (arith, h, ne→== y x n))
            ∙ ap set_allocated (fire_one_other x y c (ne→== y x n))
      ];
      ticks = λ y. r.ticks y ∙ due_at-fire_one x y c;
      untouched = λ y h.
          let (un, up) = r.untouched y (ground (arith, h)) in
          let (vn, vp) = away y h in (un ∙ vn, up ∙ vp);
      same_tick = r.same_tick;
      same_tail = r.same_tail;
      same_alarm = r.same_alarm;
      same_tss = r.same_tss;
    }

IsFired-none :
    (c : TimerCtl) (xs : List TimerPtr) → Circle c.links c.listtail xs → IsFired c c [] xs
IsFired-none c xs circle = record {
  circle = circle;
  alone = λ y h. absurd (cc h);
  kept = λ y h. refl;
  freed = λ y h. absurd (cc h);
  ticks = λ y. refl;
  untouched = λ y h. (refl, refl);
  same_tick = refl;
  same_tail = refl;
  same_alarm = refl;
  same_tss = refl;
}

module _ (f : TimerPtr → ℕ) (ev : TimerPtr → Effect) where
  pub fire_loop_lem :
      (fuel : ℕ) (xs : List TimerPtr) (c : TimerCtl)
      → ((y : TimerPtr) → due_at c y ≡ f y)
      → ((y : TimerPtr) → event c y ≡ ev y)
      → Circle c.links c.listtail xs
      → length xs < fuel
      → (c' : TimerCtl) × (fire_loop fuel (c.links.next c.listtail) c
          ≡ some (has_tss c.tss_timer (due f c.tick xs), events ev (due f c.tick xs), c'))
        × IsFired c c' (due f c.tick xs) (later f c.tick xs)
  fire_loop_lem zero xs c hf he circle lt = absurd (omega arith)
  fire_loop_lem (suc fuel) [] c hf he circle lt =
      let at : c.links.next c.listtail ≡ c.listtail = circle.0.0 in
      let stop : (c.listtail == c.listtail || ltb c.tick (due_at c c.listtail)) ≡ true =
        rw (==_refl c.listtail) refl in
      let none_tss : has_tss c.tss_timer [] ≡ false = ground arith in
      (c, rw (at, none_tss) (fire_loop_stop fuel c.listtail c stop), IsFired-none c [] circle)
  fire_loop_lem (suc fuel) (x ∷ xs) c hf he circle lt =
      let at : c.links.next c.listtail ≡ x = circle.0.0.0 in
      let not_tail : (x == c.listtail) ≡ false = ground (arith, circle.1.0) in
      elim (Bool-cases (ltb c.tick (f x))) [
        | inl t ↦
            let stop : (x == c.listtail || ltb c.tick (due_at c x)) ≡ true =
              rw (not_tail, hf x) t in
            let none_tss : has_tss c.tss_timer [] ≡ false = ground arith in
            rw t
              (c, rw (at, none_tss) (fire_loop_stop fuel x c stop), IsFired-none c (x ∷ xs) circle)
        | inr t ↦
            let go : (x == c.listtail || ltb c.tick (due_at c x)) ≡ false = rw (not_tail, hf x) t in
            let c1 = fire_one x c in
            let (circle1, _) = remove-Circle c.links c.listtail [] x xs circle in
            let prev : c.links.prev x ≡ c.listtail = circle.0.0.1 in
            let (c', r, fired) =
              fire_loop_lem fuel xs c1 (λ y. due_at-fire_one x y c ∙ hf y)
                (λ y. event-fire_one x y c ∙ he y) circle1 (omega (arith, lt)) in
            let dues = due f c.tick xs in
            let whole : Circle c.links c.listtail (x ∷ (dues ++ later f c.tick xs)) =
              subst (λ l. Circle c.links c.listtail (x ∷ l)) (sym (due-append-later f c.tick xs))
                circle in
            let next : fire_loop fuel (c1.links.next (c.links.prev x)) c1
                ≡ some (has_tss c.tss_timer dues, events ev dues, c') =
              rw prev r in
            let step : fire_loop (suc fuel) x c
                ≡ some (has_tss c.tss_timer (x ∷ dues), ev x ∷ events ev dues, c') =
              fire_loop_step fuel x c c' (has_tss c.tss_timer dues) (events ev dues) go next
              ∙ ap (λ b. some (b, event c x ∷ events ev dues, c')) (has_tss_step c.tss_timer x dues)
              ∙ ap (λ e. some (has_tss c.tss_timer (x ∷ dues), e ∷ events ev dues, c')) (he x) in
            rw t (c', rw at step, IsFired-next x dues (later f c.tick xs) c c' whole fired)
      ]

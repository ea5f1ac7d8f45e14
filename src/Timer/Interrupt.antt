-- ===== src/Timer/Interrupt.antt =====
-- `timer_int_handler` of src/pic/timer.c on timers in order.
use unagi_os.Common.{
  ℕ, ◌≤◌, ◌<◌, ◌≡◌, refl, inl, inr, Bool, true, false, Bool-cases, some, List, [], ◌∷◌, ◌++◌, ltb,
  leb, if◌then◌else◌, length, arith, ap, sym, subst, ◌∙◌,
}
use unagi_os.Common.Words.{add32}
use unagi_os.Dlist.Chain.{has, Circle, first_of_chain, next-Chain}
use unagi_os.Timer.{
  TimerPtr, TimerCtl, Effect, autoswitch, flags_allocated, fire_loop, int_handler, uint32_max,
}
use unagi_os.Timer.Order.{
  due_at, due, later, Sorted, IsTimers, Sorted-later, Sorted-same, has-due, due-append-later,
}
use unagi_os.Timer.Fire.{event, events, has_tss, IsFired, fire_loop_lem}

-- the time of the next tick
abbrev pub ticked : TimerCtl → TimerCtl
ticked c = record c { tick = add32 c.tick 1 }

-- the effects of timers that fire, in order, and then the task switch, if its timer is one of them
abbrev pub effects : TimerCtl → List TimerPtr → List Effect
effects c fired =
    if has_tss c.tss_timer fired
    then events (event c) fired ++ autoswitch ∷ []
    else events (event c) fired

-- What the interrupt leaves: the timers `fired` are allocated and alone, `rest` is in order.
pub record IsHandled (c c' : TimerCtl) (fired rest : List TimerPtr) : Type 0 where
  pub timers : IsTimers c' rest
  pub same_tick : c'.tick ≡ add32 c.tick 1
  pub alone : (y : TimerPtr) → has y fired ≡ true → Circle c'.links y []
  pub freed :
      (y : TimerPtr)
      → has y fired ≡ true
      → c'.timer y ≡ record (c.timer y) { flags = flags_allocated }
  pub kept : (y : TimerPtr) → has y fired ≡ false → c'.timer y ≡ c.timer y

due_none :
    (f : TimerPtr → ℕ) (tick : ℕ) (g : TimerPtr) (ts : List TimerPtr)
    → tick < f (first_of_chain ts g)
    → (due f tick ts ≡ []) × (later f tick ts ≡ ts)
due_none f tick g [] h = (refl, refl)
due_none f tick g (x ∷ xs) h =
    let after : ltb tick (f x) ≡ true = ground (arith, h) in rw after (refl, refl)

handler_early :
    (fuel : ℕ) (c : TimerCtl)
    → ltb (add32 c.tick 1) c.next_alarm_on_tick ≡ true
    → int_handler fuel c ≡ some ([], ticked c)
unfolding int_handler
handler_early fuel c h = rw h refl

-- the alarm set to the first timer
abbrev rearmed : TimerCtl → TimerCtl
rearmed c = record c { next_alarm_on_tick = due_at c (c.links.next c.listtail) }

handler_fires :
    (fuel : ℕ) (c c' : TimerCtl) (tss : Bool) (es : List Effect)
    → ltb (add32 c.tick 1) c.next_alarm_on_tick ≡ false
    → fire_loop fuel (c.links.next c.listtail) (ticked c) ≡ some (tss, es, c')
    → int_handler fuel c ≡ some (if tss then es ++ autoswitch ∷ [] else es, rearmed c')
unfolding int_handler
handler_fires fuel c c' tss es h r = rw h (rw r refl)

rearmed-IsTimers :
    (c c' : TimerCtl) (fired rest : List TimerPtr)
    → IsFired c c' fired rest
    → Sorted (due_at c) rest
    → due_at c c.listtail ≡ uint32_max
    → ((y : TimerPtr) → due_at c y ≤ uint32_max)
    → IsTimers (rearmed c') rest
rearmed-IsTimers c c' fired rest r s g fits =
    let circle : Circle c'.links c'.listtail rest =
      subst (λ h. Circle c'.links h rest) (sym r.same_tail) r.circle in
    let first : c'.links.next c'.listtail ≡ first_of_chain rest c'.listtail =
      next-Chain c'.links c'.listtail rest c'.listtail circle.0 in
    let at : due_at c' (c'.links.next c'.listtail) ≡ due_at c' (first_of_chain rest c'.listtail) =
      ap (due_at c') first in
    record {
      circle = circle;
      sorted = Sorted-same (due_at c) (due_at c') rest (λ y h. r.ticks y) s;
      alarm = omega (arith, at);
      guard = r.ticks c'.listtail ∙ ap (due_at c) r.same_tail ∙ g;
      fits = λ y. subst (λ n. n ≤ uint32_max) (sym (r.ticks y)) (fits y);
    }

-- For timers in order, `timer_int_handler` with one more turn of its loop than timers fires, in order,
-- exactly the timers of the circle that are due at the new tick, and then switches tasks if the
-- task timer is one of them; these leave the circle and are allocated again, no other timer
-- changes, the others stay in order, and the next alarm is not late for them.
pub int_handler_lem :
    (fuel : ℕ) (c : TimerCtl) (ts : List TimerPtr)
    → IsTimers c ts
    → length ts < fuel
    → (fired rest : List TimerPtr) × (c' : TimerCtl) × (fired ++ rest ≡ ts)
      × ((y : TimerPtr) → has y ts ≡ true → has y fired ≡ leb (due_at c y) (add32 c.tick 1))
      × (int_handler fuel c ≡ some (effects c fired, c'))
      × IsHandled c c' fired rest
int_handler_lem fuel c ts w lt =
    let f = due_at c in
    let tick = add32 c.tick 1 in
    elim (Bool-cases (ltb tick c.next_alarm_on_tick)) [
      | inl early ↦
          let none_due = due_none f tick c.listtail ts (ground (arith, early, w.alarm)) in
          let no_tss : has_tss c.tss_timer [] ≡ false = ground arith in
          (
            [],
            ts,
            ticked c,
            refl,
            λ y h. sym (ap (has y) none_due.0) ∙ has-due f tick ts y w.sorted h,
            rw no_tss (handler_early fuel c early),
            record {
              timers = record {
                circle = w.circle;
                sorted = w.sorted;
                alarm = w.alarm;
                guard = w.guard;
                fits = w.fits;
              };
              same_tick = refl;
              alone = λ y h. absurd (cc h);
              freed = λ y h. absurd (cc h);
              kept = λ y h. refl;
            },
          )
      | inr on ↦
          let (c', r, fired) =
            fire_loop_lem f (event c) fuel ts (ticked c) (λ y. refl) (λ y. refl) w.circle lt in
          (
            due f tick ts,
            later f tick ts,
            rearmed c',
            due-append-later f tick ts,
            λ y h. has-due f tick ts y w.sorted h,
            handler_fires fuel c c' (has_tss c.tss_timer (due f tick ts))
                (events (event c) (due f tick ts)) on r,
            record {
              timers =
                  rearmed-IsTimers (ticked c) c' (due f tick ts) (later f tick ts) fired
                    (Sorted-later f tick ts w.sorted) w.guard w.fits;
              same_tick = fired.same_tick;
              alone = fired.alone;
              freed = fired.freed;
              kept = fired.kept;
            },
          )
    ]

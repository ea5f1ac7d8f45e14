-- ===== src/Timer/Tests.antt =====
-- Tests of the model of src/pic/timer.c, and the inputs at which its theorems are applied.
use unagi_os.Common.{
  ℕ, ◌-◌, ◌≤◌, ◌≡◌, refl, inl, inr, true, some, List, [], ◌∷◌, ◌++◌, ◌>>=◌, ◌==◌, ==_cases, ne→==,
  leb, if◌then◌else◌, arith,
}
use unagi_os.Common.Words.{add32}
use unagi_os.Dlist
use unagi_os.Dlist.Chain.{has}
use unagi_os.Timer.{
  TimerPtr, TimerCtl, max_timer, flags_allocated, flags_oncountdown, flags_guardnode, uint32_max,
  settimer, skip_alarm, set_params, insert_loop, timerctl_init, timer_free, int_handler,
}
use unagi_os.Timer.Order.{due_at, IsTimers}
use unagi_os.Timer.Interrupt.{IsHandled, effects, int_handler_lem}
use unagi_os.Timer.Restart.{moved, settimer_restarted}
use unagi_os.Timer.Start.{place, IsCountdown, new_value, settimer_started}
use unagi_os.Timer.Release.{IsReleased, freed_queue, fresh_timer, timer_free_lem}
use unagi_os.Timer.Setup.{up_to, timerctl_init_lem}

-- the timers 1 and 2, allocated, and the guard 3, each in a circle of one
abbrev two_timers : TimerCtl
two_timers = record {
  tick = 10;
  listtail = 3;
  next_alarm_on_tick = uint32_max;
  timer = λ t. record {
    target_tick = uint32_max;
    flags = if t == 3 then flags_guardnode else flags_allocated;
    fifo = t;
    value = t;
  };
  links = record { next = λ x. x; prev = λ x. x };
  tss_timer = 2;
}

-- Without a free timer in the circle the first timer that is set is not inserted.
lost : settimer 9 1 5 7 two_timers >>= (λ c. some (c.links.next 3)) ≡ some 3
unfolding settimer skip_alarm set_params insert_loop Dlist.remove Dlist.insert_before
lost = refl

-- the timers 1 and 2 that are due at these ticks, in the circle of the guard 3, and the timer 4
abbrev counting : ℕ → ℕ → TimerCtl
counting a b = record {
  tick = 10;
  listtail = 3;
  next_alarm_on_tick = a;
  timer = λ t. record {
    target_tick = if t == 1 then a else if t == 2 then b else uint32_max;
    flags =
        if t == 3 then flags_guardnode else if t == 4 then flags_allocated else flags_oncountdown;
    fifo = t;
    value = t;
  };
  links = record {
    next = λ x. if x == 3 then 1 else if x == 1 then 2 else if x == 2 then 3 else x;
    prev = λ x. if x == 3 then 2 else if x == 1 then 3 else if x == 2 then 1 else x;
  };
  tss_timer = 2;
}

-- A timer that is set again, where another is due at the same tick before it, moves the alarm behind
-- that one: here to the tick 100, with a timer due at the tick 11.
late : settimer 9 2 90 0 (counting 11 11) >>= (λ c. some c.next_alarm_on_tick) ≡ some 100
unfolding settimer skip_alarm set_params insert_loop Dlist.remove Dlist.insert_before
late = refl

counting-fits : (y : TimerPtr) → due_at (counting 11 20) y ≤ uint32_max
counting-fits y = elim (==_cases y 1) [
  | inl e ↦ rw e (omega arith)
  | inr n ↦ elim (==_cases y 2) [
    | inl e ↦ rw e (omega arith)
    | inr m ↦ rw (ne→== y 1 n, ne→== y 2 m) (omega arith)
  ]
]

counting-IsTimers : IsTimers (counting 11 20) (1 ∷ 2 ∷ [])
counting-IsTimers = record {
  circle = (((refl, refl), ((refl, refl), (refl, refl))), (refl, (refl, (refl, tt))));
  sorted = ((omega arith, tt), (tt, tt));
  alarm = omega arith;
  guard = refl;
  fits = counting-fits;
}

int_handler_lem_example :
    (fired rest : List TimerPtr) × (c' : TimerCtl) × (fired ++ rest ≡ 1 ∷ 2 ∷ [])
    × ((y : TimerPtr)
        → has y (1 ∷ 2 ∷ []) ≡ true
        → has y fired ≡ leb (due_at (counting 11 20) y) (add32 10 1))
    × (int_handler 3 (counting 11 20) ≡ some (effects (counting 11 20) fired, c'))
    × IsHandled (counting 11 20) c' fired rest
int_handler_lem_example =
    int_handler_lem 3 (counting 11 20) (1 ∷ 2 ∷ []) counting-IsTimers (omega arith)

settimer_started_example :
    (c' : TimerCtl) × (settimer 3 4 5 7 (counting 11 20) ≡ some c')
    × IsTimers c' (place (due_at (counting 11 20)) (add32 10 5) 4 (1 ∷ 2 ∷ []))
    × IsCountdown (counting 11 20) c' 4 5 (new_value 4 7 (counting 11 20))
settimer_started_example =
    settimer_started 3 4 5 7 (counting 11 20) (1 ∷ 2 ∷ []) counting-IsTimers
      (λ e. absurd (omega (arith, e))) refl refl ((refl, refl), (refl, tt)) (omega arith)

timer_free_lem_example :
    (c' : TimerCtl) × (timer_free 1 (counting 11 20) ≡ (freed_queue 1 (counting 11 20), c'))
    × IsReleased (counting 11 20) c' [] 1 (2 ∷ [])
timer_free_lem_example =
    timer_free_lem (counting 11 20) [] 1 (2 ∷ []) counting-IsTimers (λ e. absurd (omega (arith, e)))
      refl (inl refl)

timerctl_init_lem_example :
    IsTimers (timerctl_init (counting 11 20)) (up_to (max_timer - 1))
    × ((y : TimerPtr)
        → has y (up_to (max_timer - 1)) ≡ true
        → (timerctl_init (counting 11 20)).timer y ≡ fresh_timer)
timerctl_init_lem_example = timerctl_init_lem (counting 11 20) counting-fits

settimer_restarted_example :
    (c' : TimerCtl) × (settimer 2 2 5 7 (counting 11 20) ≡ some c')
    × IsTimers c' (moved (due_at (counting 11 20)) (add32 10 5) 3 2 (1 ∷ []) [])
    × IsCountdown (counting 11 20) c' 2 5 (new_value 2 7 (counting 11 20))
settimer_restarted_example =
    settimer_restarted 2 2 5 7 (counting 11 20) (1 ∷ []) [] counting-IsTimers
      (λ e. absurd (omega (arith, e))) refl (inr (λ e. absurd (omega (arith, e)))) (omega arith)

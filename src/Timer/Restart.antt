-- ===== src/Timer/Restart.antt =====
-- `timer_settimer` of src/pic/timer.c on a timer that counts down.
use unagi_os.Common.{
  ℕ, ◌≤◌, ◌<◌, ◌≡◌, refl, ◌≢◌, ◌⊎◌, inl, inr, true, false, Bool-cases, some, List, [], ◌∷◌, ◌++◌,
  ne→==, ltb, if◌then◌else◌, length, arith, ap, sym, subst, ◌∙◌,
}
use unagi_os.Common.Words.{add32}
use unagi_os.Dlist.{Links}
use unagi_os.Dlist
use unagi_os.Dlist.Chain.{has, Circle, first_of_chain, last_of, Chain-split, next-Chain, prev-Chain}
use unagi_os.Dlist.Update.{has-append, has-last_of}
use unagi_os.Dlist.Circle.{remove-Circle}
use unagi_os.Timer.{
  TimerPtr, TimerCtl, null, flags_oncountdown, set_links, skip_alarm, set_params, insert_loop,
  settimer, uint32_max,
}
use unagi_os.Timer.Order.{due_at, IsTimers, Sorted-same}
use unagi_os.Timer.Release.{Sorted-removed, removed_out, skip_alarm_lem, skip_same}
use unagi_os.Timer.Start.{
  place, insert_loop_lem, IsCounting, set_params-IsCounting, IsCountdown, new_value, place-same,
  counting_due, due_same, placed-IsTimers, add32_fits,
}
use unagi_os.Timer.Insert.{insert, insert-same, inserted-IsTimers, walk_from_last}

-- the state once the timer has left the circle, and the head of the loop
abbrev left_circle : TimerPtr → TimerCtl → TimerCtl
left_circle t c = set_links (Dlist.remove t (skip_alarm t c).links).1 (skip_alarm t c)

abbrev walk_head : TimerPtr → TimerCtl → TimerCtl → TimerPtr
walk_head t c c1 =
    let prev = (skip_alarm t c).links.prev t in
    if ltb (due_at c1 prev) (due_at c1 t) then prev else c.listtail

settimer_counting :
    (fuel : ℕ) (t : TimerPtr) (timeout value : ℕ) (c : TimerCtl)
    → t ≢ null
    → (c.timer t).flags ≡ flags_oncountdown
    → let c1 = set_params t timeout (new_value t value c) (left_circle t c) in
      settimer fuel t timeout value c
      ≡ insert_loop fuel t (walk_head t c c1) (c1.links.next (walk_head t c c1)) c1
unfolding settimer
settimer_counting fuel t timeout value c n a = rw (ne→== t null n, a) refl

left_circle-IsTimers :
    (c : TimerCtl) (u : List TimerPtr) (t : TimerPtr) (v : List TimerPtr)
    → IsTimers c (u ++ t ∷ v)
    → ((c.links.next c.listtail ≡ t) ⊎ (due_at c (c.links.next c.listtail) ≢ due_at c t))
    → IsTimers (left_circle t c) (u ++ v)
left_circle-IsTimers c u t v w first =
    let (links, timer, tail, tick) = skip_same t c in
    let (circle, _) = remove-Circle c.links c.listtail u t v w.circle in
    let same : (y : TimerPtr) → due_at (left_circle t c) y ≡ due_at c y =
      λ y. ap (λ k. (k y).target_tick) timer in
    let c' = left_circle t c in
    let alarm : c'.next_alarm_on_tick ≤ due_at c' (first_of_chain (u ++ v) c.listtail) =
      subst (λ n. c'.next_alarm_on_tick ≤ n) (sym (same (first_of_chain (u ++ v) c.listtail)))
        (skip_alarm_lem c u t v w first) in
    record {
      circle = rw (tail, links) circle;
      sorted =
          Sorted-same (due_at c) (due_at c') (u ++ v) (λ y h. same y)
            (Sorted-removed (due_at c) u t v w.sorted);
      alarm =
          subst (λ h. c'.next_alarm_on_tick ≤ due_at c' (first_of_chain (u ++ v) h)) (sym tail)
            alarm;
      guard = ap (due_at c') tail ∙ same c.listtail ∙ w.guard;
      fits = λ y. subst (λ n. n ≤ uint32_max) (sym (same y)) (w.fits y);
    }

-- The timers `u` and `v`, with the timer `t` that stood between them set again: from the start where
-- the timer before it is due no earlier, and behind that timer where it is.
abbrev pub moved :
    (TimerPtr → ℕ) → ℕ → TimerPtr → TimerPtr → List TimerPtr → List TimerPtr → List TimerPtr
moved f b g t u v = if ltb (f (last_of g u)) b then insert f b t (u ++ v) else place f b t (u ++ v)

-- the circle and the order, from the head that the code takes
walk_placed :
    (fuel : ℕ) (t : TimerPtr) (timeout value : ℕ) (c c1 : TimerCtl) (ts : List TimerPtr)
    → IsCounting c c1 t timeout value
    → IsTimers c ts
    → has t (c.listtail ∷ ts) ≡ false
    → Circle c.links t []
    → length ts < fuel
    → (m : Links) × (insert_loop fuel t c.listtail (c1.links.next c.listtail) c1
        ≡ some (set_links m c1))
      × IsTimers (set_links m c1) (place (due_at c) (add32 c.tick timeout) t ts)
walk_placed fuel t timeout value c c1 ts k w out s lt =
    let b = add32 c.tick timeout in
    let g = c.listtail in
    let circle : Circle c1.links g ts = subst (λ l. Circle l g ts) (sym k.links) w.circle in
    let (m, e, placed) =
      insert_loop_lem fuel t g c1 [] ts circle (subst (λ l. Circle l t []) (sym k.links) s) out
        lt in
    let first : c1.links.next g ≡ first_of_chain ts g = next-Chain c1.links g ts g circle.0 in
    let same : place (due_at c1) (due_at c1 t) t ts ≡ place (due_at c) b t ts =
      ap (λ d. place (due_at c1) d t ts) (counting_due c c1 t timeout value k)
      ∙ place-same (due_at c) (due_at c1) b t ts
          (λ y h. due_same c c1 t timeout value k (g ∷ ts) out y (ground (arith, h))) in
    (
      m,
      rw first e,
      placed-IsTimers c c1 t timeout value k m ts w out (subst (Circle m g) same placed),
    )

walk_inserted :
    (fuel : ℕ) (t : TimerPtr) (timeout value : ℕ) (c c1 : TimerCtl) (u v : List TimerPtr)
    → IsCounting c c1 t timeout value
    → IsTimers c (u ++ v)
    → has t (c.listtail ∷ (u ++ v)) ≡ false
    → Circle c.links t []
    → length (u ++ v) < fuel
    → due_at c (last_of c.listtail u) < add32 c.tick timeout
    → let z = last_of c.listtail u in
      (m : Links) × (insert_loop fuel t z (c1.links.next z) c1 ≡ some (set_links m c1))
      × IsTimers (set_links m c1) (insert (due_at c) (add32 c.tick timeout) t (u ++ v))
walk_inserted fuel t timeout value c c1 [] v k w out s lt early =
    let le = add32_fits c.tick timeout in absurd (omega (arith, early, w.guard, le))
walk_inserted fuel t timeout value c c1 (x ∷ xs) v k w out s lt early =
    let b = add32 c.tick timeout in
    let ts = x ∷ (xs ++ v) in
    let same_due = due_same c c1 t timeout value k (c.listtail ∷ ts) out in
    let there : has (last_of x xs) (c.listtail ∷ ts) ≡ true =
      ground (arith, has-append (last_of x xs) (x ∷ xs) v, has-last_of x xs) in
    let early1 : due_at c1 (last_of x xs) < b =
      subst (λ n. n < b) (sym (same_due (last_of x xs) there)) early in
    let (m, e, placed) = walk_from_last c c1 t timeout value k fuel x xs v w out s lt early1 in
    let same : insert (due_at c1) b t ts ≡ insert (due_at c) b t ts =
      insert-same (due_at c) (due_at c1) b t ts (λ y h. same_due y (ground (arith, h))) in
    (
      m,
      e,
      subst (IsTimers (set_links m c1)) same
          (inserted-IsTimers c c1 t timeout value k m ts w out placed),
    )

walk_lem :
    (fuel : ℕ) (t : TimerPtr) (timeout value : ℕ) (c c1 : TimerCtl) (u v : List TimerPtr)
    → IsCounting c c1 t timeout value
    → IsTimers c (u ++ v)
    → has t (c.listtail ∷ (u ++ v)) ≡ false
    → Circle c.links t []
    → length (u ++ v) < fuel
    → let b = add32 c.tick timeout in
      let z = last_of c.listtail u in
      let head = if ltb (due_at c z) b then z else c.listtail in
      (m : Links) × (insert_loop fuel t head (c1.links.next head) c1 ≡ some (set_links m c1))
      × IsTimers (set_links m c1) (moved (due_at c) b c.listtail t u v)
walk_lem fuel t timeout value c c1 u v k w out s lt =
    elim (Bool-cases (ltb (due_at c (last_of c.listtail u)) (add32 c.tick timeout))) [
      | inr h ↦ rw h (walk_placed fuel t timeout value c c1 (u ++ v) k w out s lt)
      | inl h ↦
          let early : due_at c (last_of c.listtail u) < add32 c.tick timeout = ground (arith, h) in
          rw h (walk_inserted fuel t timeout value c c1 u v k w out s lt early)
    ]

-- the head of the loop is the timer before, or the guard
walk_head_lem :
    (t : TimerPtr) (timeout value : ℕ) (c c1 : TimerCtl) (u v : List TimerPtr)
    → IsCounting (left_circle t c) c1 t timeout value
    → Circle c.links c.listtail (u ++ t ∷ v)
    → let c2 = left_circle t c in
      let z = last_of c2.listtail u in
      walk_head t c c1 ≡ (if ltb (due_at c2 z) (add32 c2.tick timeout) then z else c2.listtail)
walk_head_lem t timeout value c c1 u v k circle =
    let g = c.listtail in
    let c2 = left_circle t c in
    let z = last_of g u in
    let (links, timer, tail, tick) = skip_same t c in
    let (from_g, _) = Chain-split c.links g u t v g circle.0 in
    let before : (skip_alarm t c).links.prev t ≡ z =
      ap (λ l. l.prev t) links ∙ prev-Chain c.links g u t from_g in
    let there : has z (g ∷ (u ++ v)) ≡ true = ground (arith, has-append z u v, has-last_of g u) in
    let due_z : due_at c1 z ≡ due_at c2 z =
      due_same c2 c1 t timeout value k (g ∷ (u ++ v)) (removed_out c.links g u t v circle) z
        there in
    let due_t = counting_due c2 c1 t timeout value k in rw (before, due_z, due_t, tail) refl

moved-same :
    (t : TimerPtr) (timeout : ℕ) (c : TimerCtl) (u v : List TimerPtr)
    → let c2 = left_circle t c in
      moved (due_at c2) (add32 c2.tick timeout) c2.listtail t u v
      ≡ moved (due_at c) (add32 c.tick timeout) c.listtail t u v
moved-same t timeout c u v =
    let (links, timer, tail, tick) = skip_same t c in
    ap
      (λ k.
        moved (λ x. (k x).target_tick) (add32 (skip_alarm t c).tick timeout)
          (skip_alarm t c).listtail t u v)
      timer
    ∙ ap (λ n. moved (due_at c) (add32 n timeout) (skip_alarm t c).listtail t u v) tick
    ∙ ap (λ g. moved (due_at c) (add32 c.tick timeout) g t u v) tail

-- For timers in order, `timer_settimer` of a timer that counts down ends, with one more turn of its
-- loop than the circle has other timers. The timer leaves its place, counts down to the current tick
-- and `timeout`, and no other timer changes. The circle is in order again and the alarm is not late.
-- Where the timer before it is due before the new tick, it enters before the first that is due no
-- earlier, or last; otherwise it enters before the first that is due no earlier, if there is one.
-- This holds unless the timer is due at the same tick as another one that is first.
pub settimer_restarted :
    (fuel : ℕ) (t : TimerPtr) (timeout value : ℕ) (c : TimerCtl) (u v : List TimerPtr)
    → IsTimers c (u ++ t ∷ v)
    → t ≢ null
    → (c.timer t).flags ≡ flags_oncountdown
    → ((c.links.next c.listtail ≡ t) ⊎ (due_at c (c.links.next c.listtail) ≢ due_at c t))
    → length (u ++ v) < fuel
    → (c' : TimerCtl) × (settimer fuel t timeout value c ≡ some c')
      × IsTimers c' (moved (due_at c) (add32 c.tick timeout) c.listtail t u v)
      × IsCountdown c c' t timeout (new_value t value c)
settimer_restarted fuel t timeout value c u v w n a first lt =
    let b = add32 c.tick timeout in
    let g = c.listtail in
    let (links, timer, tail, tick) = skip_same t c in
    let c2 = left_circle t c in
    let c1 = set_params t timeout (new_value t value c) c2 in
    let k = set_params-IsCounting t timeout (new_value t value c) c2 in
    let (_, single) = remove-Circle c.links g u t v w.circle in
    let single2 : Circle c2.links t [] = rw links single in
    let out = removed_out c.links g u t v w.circle in
    let out2 : has t (c2.listtail ∷ (u ++ v)) ≡ false = rw tail out in
    let (m, e, order) =
      walk_lem fuel t timeout (new_value t value c) c2 c1 u v k
        (left_circle-IsTimers c u t v w first) out2 single2 lt in
    (
      set_links m c1,
      settimer_counting fuel t timeout value c n a
          ∙ ap (λ head. insert_loop fuel t head (c1.links.next head) c1)
              (walk_head_lem t timeout (new_value t value c) c c1 u v k w.circle)
          ∙ e,
      subst (IsTimers (set_links m c1)) (moved-same t timeout c u v) order,
      record {
        same_tick = k.same_tick ∙ tick;
        self = k.self ∙ rw (timer, tick) refl;
        others = λ y apart. k.others y apart ∙ ap (λ f. f y) timer;
      },
    )

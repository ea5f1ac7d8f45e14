-- ===== src/Timer/Setup.antt =====
-- `timerctl_init` of src/pic/timer.c.
use unagi_os.Common.{
  ℕ, zero, suc, ◌+◌, ◌-◌, ◌≤◌, ◌<◌, ◌≡◌, refl, ◌≢◌, inl, inr, true, false, Bool-cases, ==→eq, List,
  [], ◌∷◌, ◌++◌, ◌==◌, ==_cases, ==_refl, ne→==, leb, ◌&&◌, arith, ap, sym, subst, ◌∙◌,
}
use mathlib.Core.List.{append_assoc}
use unagi_os.Dlist.{Links}
use unagi_os.Dlist
use unagi_os.Dlist.Chain.{has, Circle, first_of_chain}
use unagi_os.Dlist.Update.{has-append}
use unagi_os.Dlist.Splice.{has_first}
use unagi_os.Dlist.Circle.{init-Circle, insert_after-Circle}
use unagi_os.Dlist.Frame.{init-other}
use unagi_os.Dlist.Inner.{apart_one, insert_after_inner}
use unagi_os.Timer.{
  TimerPtr, TimerCtl, null, max_timer, flags_guardnode, set_links, set_timer, init_loop,
  timerctl_init, uint32_max,
}
use unagi_os.Timer.Order.{due_at, From, Sorted, IsTimers}
use unagi_os.Timer.Release.{fresh_timer, default_lem, set_self, set_other}

-- the timers from 1 to `n`
abbrev pub up_to : ℕ → List TimerPtr
up_to zero = []
up_to (suc n) = up_to n ++ suc n ∷ []

has-up_to : (n y : ℕ) → has y (up_to n) ≡ (leb 1 y && leb y n)
has-up_to zero y = ground arith
has-up_to (suc n) y = ground (arith, has-append y (up_to n) (suc n ∷ []), has-up_to n y)

-- The state of the loop before the timer `i`: those up to `i` stand in the circle, as new, and what
-- `c0` has besides is as it was.
record IsSetup (c0 : TimerCtl) (g i : ℕ) (c : TimerCtl) : Type 0 where
  circle : Circle c.links g (up_to i)
  fresh : (y : TimerPtr) → has y (up_to i) ≡ true → c.timer y ≡ fresh_timer
  others : (y : TimerPtr) → has y (up_to i) ≡ false → c.timer y ≡ c0.timer y
  same_tail : c.listtail ≡ c0.listtail
  same_alarm : c.next_alarm_on_tick ≡ c0.next_alarm_on_tick
  same_tick : c.tick ≡ c0.tick

-- the timer behind which the next is put
abbrev last_up_to : ℕ → ℕ → TimerPtr
last_up_to g zero = g
last_up_to g (suc i) = suc i

insert_next :
    (m : Links) (g i : ℕ)
    → Circle m g (up_to i)
    → Circle m (suc i) []
    → has (suc i) (g ∷ up_to i) ≡ false
    → Circle (Dlist.insert_after (last_up_to g i) (suc i) m).1 g (up_to (suc i))
insert_next m g zero c s out = insert_after-Circle m g [] 1 [] c s (apart_one (g ∷ []) 1 out)
insert_next m g (suc j) c s out =
    subst (Circle (Dlist.insert_after (suc j) (suc (suc j)) m).1 g)
      (sym (append_assoc (up_to j) (suc j ∷ []) (suc (suc j) ∷ [])))
      (insert_after_inner m g (up_to j) (suc j) [] (suc (suc j)) c s out)

IsSetup-next :
    (c0 : TimerCtl) (g i : ℕ) (c : TimerCtl)
    → suc i < g
    → IsSetup c0 g i c
    → IsSetup c0 g (suc i) (
        set_links
          (Dlist.insert_after (last_up_to g i) (suc i) (Dlist.init (suc i) c.links)).1
          (set_timer (suc i) fresh_timer c))
IsSetup-next c0 g i c lt w =
    let a = suc i in
    let new : has a (up_to i) ≡ false = has-up_to i a ∙ ground arith in
    let out : has a (g ∷ up_to i) ≡ false = ground (arith, new, lt) in
    record {
      circle =
          insert_next (Dlist.init a c.links) g i (init-other c.links a g (up_to i) w.circle out)
            (init-Circle a c.links) out;
      fresh = λ y h. elim (==_cases y a) [
        | inl e ↦
            subst (λ z. (set_timer a fresh_timer c).timer z ≡ fresh_timer) (sym e)
              (set_self a fresh_timer c)
        | inr n ↦
            set_other a y fresh_timer c n
            ∙ w.fresh y (ground (arith, h, has-append y (up_to i) (a ∷ []), ne→== y a n))
      ];
      others = λ y h.
          let not_a : y ≢ a = λ e.
            let z : (y == a) ≡ false = ground (arith, h, has-append y (up_to i) (a ∷ [])) in
            ground (arith, z, e) in
          set_other a y fresh_timer c not_a
          ∙ w.others y (ground (arith, h, has-append y (up_to i) (a ∷ [])));
      same_tail = w.same_tail;
      same_alarm = w.same_alarm;
      same_tick = w.same_tick;
    }

init_loop_lem :
    (n i : ℕ) (prev g : TimerPtr) (c0 c : TimerCtl)
    → prev ≡ last_up_to g i
    → i + n < g
    → IsSetup c0 g i c
    → IsSetup c0 g (i + n) (init_loop n i prev c)
unfolding init_loop
init_loop_lem zero i prev g c0 c p lt w = subst (λ k. IsSetup c0 g k c) (omega arith) w
init_loop_lem (suc n) i prev g c0 c p lt w =
    let a : i + 1 ≡ suc i = omega arith in
    let end : suc i + n ≡ i + suc n = omega arith in
    let next = IsSetup-next c0 g i c (omega (arith, lt)) w in
    let not_null : suc i ≢ null = λ e. absurd (omega (arith, e)) in
    let c1 =
      set_links (Dlist.insert_after (last_up_to g i) (suc i) (Dlist.init (suc i) c.links)).1
        (set_timer (suc i) fresh_timer c) in
    rw (a, default_lem (suc i) c not_null, p)
      (subst (λ k. IsSetup c0 g k (init_loop n (suc i) (suc i) c1)) end
        (init_loop_lem n (suc i) (suc i) g c0 c1 refl (omega (arith, lt)) next))

From-all :
    (f : TimerPtr → ℕ) (b : ℕ) (xs : List TimerPtr)
    → ((y : TimerPtr) → has y xs ≡ true → f y ≡ b)
    → From f b xs
From-all f b [] h = tt
From-all f b (x ∷ xs) h =
    let e : f x ≡ b = h x (ground (arith, ==_refl x)) in
    (omega (arith, e), From-all f b xs (λ y k. h y (ground (arith, k))))

Sorted-all :
    (f : TimerPtr → ℕ) (b : ℕ) (xs : List TimerPtr)
    → ((y : TimerPtr) → has y xs ≡ true → f y ≡ b)
    → Sorted f xs
Sorted-all f b [] h = tt
Sorted-all f b (x ∷ xs) h =
    let e : f x ≡ b = h x (ground (arith, ==_refl x)) in
    let rest : (y : TimerPtr) → has y xs ≡ true → f y ≡ b = λ y k. h y (ground (arith, k)) in
    (subst (λ d. From f d xs) (sym e) (From-all f b xs rest), Sorted-all f b xs rest)

-- the state before the loop of `timerctl_init`
abbrev blank : TimerPtr → TimerCtl → TimerCtl
blank g c =
    let c0 = record c { tick = 0; next_alarm_on_tick = uint32_max; listtail = g } in
    set_links (Dlist.init g c.links) (set_timer g fresh_timer c0)

abbrev guarded : TimerPtr → TimerCtl → TimerCtl
guarded g c = set_timer g (record ((blank g c).timer g) { flags = flags_guardnode }) (blank g c)

guard_due : (g : TimerPtr) (c : TimerCtl) → due_at (guarded g c) g ≡ uint32_max
guard_due g c =
    let c0 = record c { tick = 0; next_alarm_on_tick = uint32_max; listtail = g } in
    ap (λ v. v.target_tick)
      (set_self g (record ((blank g c).timer g) { flags = flags_guardnode }) (blank g c))
    ∙ ap (λ v. v.target_tick) (set_self g fresh_timer c0)

guarded_other :
    (g : TimerPtr) (c : TimerCtl) (y : TimerPtr) → y ≢ g → due_at (guarded g c) y ≡ due_at c y
guarded_other g c y n =
    let c0 = record c { tick = 0; next_alarm_on_tick = uint32_max; listtail = g } in
    ap (λ v. v.target_tick)
      (set_other g y (record ((blank g c).timer g) { flags = flags_guardnode }) (blank g c) n)
    ∙ ap (λ v. v.target_tick) (set_other g y fresh_timer c0 n)

guarded-IsSetup : (g : TimerPtr) (c : TimerCtl) → IsSetup (guarded g c) g 0 (guarded g c)
guarded-IsSetup g c = record {
  circle = init-Circle g c.links;
  fresh = λ y h. absurd (cc h);
  others = λ y h. refl;
  same_tail = refl;
  same_alarm = refl;
  same_tick = refl;
}

setup-IsTimers :
    (n : ℕ) (c c' : TimerCtl)
    → ((y : TimerPtr) → due_at c y ≤ uint32_max)
    → IsSetup (guarded (suc n) c) (suc n) n c'
    → IsTimers c' (up_to n)
setup-IsTimers n c c' fits w =
    let g = suc n in
    let c0 = guarded g c in
    let no_guard : has g (up_to n) ≡ false = has-up_to n g ∙ ground arith in
    let all : (y : TimerPtr) → has y (up_to n) ≡ true → due_at c' y ≡ uint32_max =
      λ y h. ap (λ v. v.target_tick) (w.fresh y h) in
    let at_guard : due_at c' g ≡ uint32_max =
      ap (λ v. v.target_tick) (w.others g no_guard) ∙ guard_due g c in
    record {
      circle = subst (λ h. Circle c'.links h (up_to n)) (sym w.same_tail) w.circle;
      sorted = Sorted-all (due_at c') uint32_max (up_to n) all;
      alarm =
          let first = first_of_chain (up_to n) c'.listtail in
          let first_due : due_at c' first ≡ uint32_max = elim (Bool-cases (has first (up_to n))) [
            | inl h ↦ all first h
            | inr h ↦
                let tail : first ≡ c'.listtail =
                  ==→eq first c'.listtail
                    (ground (arith, h, has_first (up_to n) c'.listtail first refl)) in
                ap (due_at c') tail ∙ ap (due_at c') w.same_tail ∙ at_guard
          ] in
          omega (arith, first_due, w.same_alarm);
      guard = ap (due_at c') w.same_tail ∙ at_guard;
      fits = λ y. elim (Bool-cases (has y (up_to n))) [
        | inl h ↦ let e = all y h in omega (arith, e)
        | inr h ↦ elim (==_cases y g) [
          | inl e ↦ subst (λ z. due_at c' z ≤ uint32_max) (sym e) (omega (arith, at_guard))
          | inr other ↦
              let same : due_at c' y ≡ due_at c y =
                ap (λ v. v.target_tick) (w.others y h) ∙ guarded_other g c y other in
              let le = fits y in omega (arith, same, le)
        ]
      ];
    }

timerctl_init-guarded :
    (c : TimerCtl) → timerctl_init c ≡ init_loop (max_timer - 1) 0 max_timer (guarded max_timer c)
unfolding timerctl_init
timerctl_init-guarded c =
    let not_null : max_timer ≢ null = λ e. absurd (omega (arith, e)) in
    let c0 = record c { tick = 0; next_alarm_on_tick = uint32_max; listtail = max_timer } in
    rw (default_lem max_timer c0 not_null) refl

-- `timerctl_init` puts the timers from the first to the one before the guard node, in this order, into
-- the circle, each as new: they are in order, and the alarm is not late, if ticks have 32 bits.
pub timerctl_init_lem :
    (c : TimerCtl)
    → ((y : TimerPtr) → due_at c y ≤ uint32_max)
    → IsTimers (timerctl_init c) (up_to (max_timer - 1))
      × ((y : TimerPtr)
          → has y (up_to (max_timer - 1)) ≡ true
          → (timerctl_init c).timer y ≡ fresh_timer)
timerctl_init_lem c fits =
    let w =
      init_loop_lem (max_timer - 1) 0 max_timer max_timer (guarded max_timer c)
        (guarded max_timer c) refl (omega arith) (guarded-IsSetup max_timer c) in
    rw (timerctl_init-guarded c) (setup-IsTimers (max_timer - 1) c _ fits w, w.fresh)

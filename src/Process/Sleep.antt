-- ===== src/Process/Sleep.antt =====
-- `mprocess_task_sleep` of src/kernel/process.c.
use unagi_os.Common.{
  ℕ, ◌<◌, ◌≡◌, refl, ◌≢◌, ◌⊎◌, true, false, List, [], ◌∷◌, ◌++◌, some, arith, ◌==◌, ==_refl, ne→==,
  length, get_elem?, ◌∙◌, sym, ap, subst, ==_cases, inl, inr,
}
use unagi_os.Dlist.Chain.{has}
use unagi_os.Dlist.Update.{has-append}
use unagi_os.Dlist.Inner.{split_at}
use unagi_os.Process.{
  TaskPtr, TaskCtl, Event, far_jump, levels_max, null, flags_running, flags_allocated,
  update_currentlv, get_current, task_sleep, task_remove,
}
use unagi_os.Process.Level.{kept_now}
use unagi_os.Process.Valid.{Queues, replaced, IsValid, moved, task_remove_lem}
use unagi_os.Process.Switch.{IsHighest, highest, update_same, update_currentlv_lem, get_current_lem}

-- The task `t` is allocated and no longer runs, the other tasks are unchanged, and the state is
-- valid. If `t` was not the current task, that one still is; else the call jumps to the task that is
-- now the current one, of the first level with a task.
pub record Slept (c : TaskCtl) (q : Queues) (t : TaskPtr) (events : List Event) (c' : TaskCtl)
    : Type 0 where
  pub queues : Queues
  pub current : TaskPtr
  pub valid : IsValid c' queues
  pub stopped : (c'.tasks0 t).flags ≡ flags_allocated
  pub others : (s : TaskPtr) → s ≢ t → c'.tasks0 s ≡ c.tasks0 s
  pub was_current : get_elem? (q c.now_lv) (c.level c.now_lv).now ≡ some current
  pub left :
      ((t ≢ current)
        × (events ≡ [])
        × (c'.now_lv ≡ c.now_lv)
        × (get_elem? (queues c'.now_lv) (c'.level c'.now_lv).now ≡ some current))
      ⊎ ((t ≡ current)
          × IsHighest queues c'.now_lv
          × ((next : TaskPtr) × (get_elem? (queues c'.now_lv) (c'.level c'.now_lv).now ≡ some next)
              × (events ≡ far_jump (c'.tasks0 next).gdt_segment_selector ∷ [])))

module _ (c : TaskCtl) (t : TaskPtr) (runs : ((c.tasks0 t).flags == flags_running) ≡ true)
    (some_t : (t == null) ≡ false) where
  sleep_other :
      (current : TaskPtr) (c1 : TaskCtl)
      → get_current c ≡ some current
      → task_remove t c ≡ some c1
      → (t == current) ≡ false
      → task_sleep t c ≡ some ([], c1)
  unfolding task_sleep
  sleep_other current c1 g r n = rw (some_t, runs, g, r, n) refl

  sleep_current :
      (current next : TaskPtr) (c1 : TaskCtl)
      → get_current c ≡ some current
      → task_remove t c ≡ some c1
      → (t == current) ≡ true
      → get_current (update_currentlv c1) ≡ some next
      → (next == null) ≡ false
      → task_sleep t c
        ≡ some (
          far_jump ((update_currentlv c1).tasks0 next).gdt_segment_selector ∷ [],
          update_currentlv c1,
        )
  unfolding task_sleep
  sleep_current current next c1 g r n g' n' = rw (some_t, runs, g, r, n, g', n') refl

has_nonempty : (u : TaskPtr) (xs : List TaskPtr) → has u xs ≡ true → 0 < length xs
has_nonempty u [] h = cc
has_nonempty u (x ∷ xs) h = omega arith

kept_other :
    (u : TaskPtr) (l : List TaskPtr) (t : TaskPtr) (r : List TaskPtr)
    → u ≢ t
    → has u (l ++ t ∷ r) ≡ true
    → has u (l ++ r) ≡ true
kept_other u l t r n h = ground (arith, has-append u l r, has-append u l (t ∷ r), ne→== u t n)

-- In a valid state whose current level has a task, `mprocess_task_sleep` of a running task, while
-- some other task runs, returns. The task is then allocated, the other tasks are unchanged, and the
-- state is valid. If the task was not the current one, that one stays current and there is no jump;
-- else there is one far jump, to the current task of the first level with a task.
pub task_sleep_lem :
    (c : TaskCtl) (q : Queues) (t u : TaskPtr) (m : ℕ)
    → IsValid c q
    → t ≢ null
    → (c.tasks0 t).flags ≡ flags_running
    → (c.tasks0 t).level < levels_max
    → 0 < length (q c.now_lv)
    → m < levels_max
    → has u (q m) ≡ true
    → u ≢ t
    → (events : List Event) × (c' : TaskCtl) × (task_sleep t c ≡ some (events, c'))
      × Slept c q t events c'
task_sleep_lem c q t u m v some_task runs lv current_there um has_u other =
    let k = (c.tasks0 t).level in
    let (current, g, was, _, _) = get_current_lem c q v current_there in
    let (l, r, shape) =
      split_at t (q k) (ground (arith, v.member t k lv some_task, ==_refl k, runs)) in
    let (tl, change, d, v1, n1) = task_remove_lem c q t v some_task lv l r shape in
    let c1 = moved t flags_allocated tl change c in
    let q1 = replaced q k (l ++ r) in
    let run : ((c.tasks0 t).flags == flags_running) ≡ true = ground (arith, runs) in
    elim (==_cases t current) [
      | inr n ↦ (
        [],
        c1,
        sleep_other c t run (ne→== t null some_task) current c1 g d (ne→== t current n),
        record {
          queues = q1;
          current = current;
          valid = v1;
          stopped = rw (==_refl t) refl;
          others = λ s p. rw (ne→== s t p) refl;
          was_current = was;
          left = inl (
            n,
            refl,
            refl,
            elim (==_cases c.now_lv k) [
              | inl p ↦
                  let at : get_elem? (l ++ t ∷ r) (c.level k).now ≡ some current =
                    subst (λ x. get_elem? x (c.level k).now ≡ some current) shape
                      (subst (λ z. get_elem? (q z) (c.level z).now ≡ some current) p was) in
                  rw (p, ==_refl k, n1) (kept_now l t r (c.level k).now current at (λ e. n (sym e)))
              | inr p ↦ rw (ne→== c.now_lv k p) was
            ],
          );
        },
      )
      | inl n ↦
          let c2 = update_currentlv c1 in
          let (v2, high, _) = update_currentlv_lem c1 q1 v1 in
          let still : has u (q1 m) ≡ true = elim (==_cases m k) [
            | inl p ↦
                rw (p, ==_refl k)
                  (kept_other u l t r other (subst (λ x. has u x ≡ true) (ap q p ∙ shape) has_u))
            | inr p ↦ rw (ne→== m k p) has_u
          ] in
          let top = highest q1 c2.now_lv m high um (has_nonempty u (q1 m) still) in
          let (next, g', is, _, n') = get_current_lem c2 q1 v2 top.1 in
          let tasks = (update_same c1).0 in
          (
            far_jump (c2.tasks0 next).gdt_segment_selector ∷ [],
            c2,
            sleep_current c t run (ne→== t null some_task) current next c1 g d
                (rw n (==_refl current)) g' (ne→== next null n'),
            record {
              queues = q1;
              current = current;
              valid = v2;
              stopped = rw (tasks, ==_refl t) refl;
              others = λ s p. rw (tasks, ne→== s t p) refl;
              was_current = was;
              left = inr (n, top, (next, is, refl));
            },
          )
    ]

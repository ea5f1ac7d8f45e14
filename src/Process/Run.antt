-- ===== src/Process/Run.antt =====
-- `mprocess_task_run` of src/kernel/process.c.
use unagi_os.Common.{
  ℕ, ◌<◌, ◌≡◌, refl, ◌≢◌, ◌⊎◌, Bool, true, false, not, ◌&&◌, [], ◌∷◌, ◌++◌, some, arith, ◌==◌,
  ==_refl, ne→==, length, if◌then◌else◌, sym, ap, subst, ltb, ==_cases, inl, inr,
}
use unagi_os.Common.Int.{ℤ}
use unagi_os.Dlist.Inner.{split_at}
use unagi_os.Process.{
  TaskPtr, TaskCtl, Task, level_tasks_max, levels_max, null, flags_running, flags_allocated,
  task_add, task_remove, task_run, task_enter, set_task, wanted_level,
}
use unagi_os.Process.Valid.{Queues, replaced, IsValid, moved, task_add_lem, task_remove_lem}

-- A task whose new flags and level say the same of where it runs leaves the state valid.
set_task-IsValid :
    (c : TaskCtl) (q : Queues) (t : TaskPtr) (task : Task)
    → IsValid c q
    → ((n : ℕ)
        → n < levels_max
        → (task.flags == flags_running && task.level == n)
          ≡ ((c.tasks0 t).flags == flags_running && (c.tasks0 t).level == n))
    → IsValid (set_task t task c) q
set_task-IsValid c q t task v same = record {
  levels = v.levels;
  distinct = v.distinct;
  nonnull = v.nonnull;
  member = λ s n h p. elim (==_cases s t) [
    | inl u ↦ rw (u, ==_refl t, same n h) (v.member t n h (subst (λ x. x ≢ null) u p))
    | inr u ↦ rw (ne→== s t u) (v.member s n h p)
  ];
  now_lv_in = v.now_lv_in;
}

lv_change-IsValid :
    (c : TaskCtl) (q : Queues) (b : Bool) → IsValid c q → IsValid (record c { lv_change = b }) q
lv_change-IsValid c q b v = record {
  levels = v.levels;
  distinct = v.distinct;
  nonnull = v.nonnull;
  member = v.member;
  now_lv_in = v.now_lv_in;
}

-- After the call `t` runs on the level `k` with the priority `p`, the other tasks are unchanged, and
-- a change of the level is due.
pub record Ran (c : TaskCtl) (q : Queues) (t : TaskPtr) (k p : ℕ) (c' : TaskCtl) : Type 0 where
  pub queues : Queues
  pub valid : IsValid c' queues
  pub now_runs : (c'.tasks0 t).flags ≡ flags_running
  pub at_level : (c'.tasks0 t).level ≡ k
  pub with_priority : (c'.tasks0 t).priority ≡ p
  pub others : (s : TaskPtr) → s ≢ t → c'.tasks0 s ≡ c.tasks0 s
  pub due : c'.lv_change ≡ true

-- the priority after the call
abbrev pub wanted_priority : ℕ → ℕ → ℕ
wanted_priority priority old = if ltb 0 priority then priority else old

-- the state that the rest of the call starts from
abbrev first : TaskPtr → ℕ → TaskCtl → TaskCtl
first t priority c =
    set_task t (record (c.tasks0 t) { priority = wanted_priority priority (c.tasks0 t).priority }) c

enter_value :
    (t : TaskPtr) (k : ℕ) (c c3 : TaskCtl)
    → ((c.tasks0 t).flags == flags_allocated) ≡ true
    → task_add t (set_task t (record (c.tasks0 t) { level = k }) c) ≡ some c3
    → task_enter t k c ≡ some (record c3 { lv_change = true })
unfolding task_enter
enter_value t k c c3 a e = rw (a, e) refl

stay_value :
    (t : TaskPtr) (k : ℕ) (c : TaskCtl)
    → ((c.tasks0 t).flags == flags_allocated) ≡ false
    → task_enter t k c ≡ some (record c { lv_change = true })
unfolding task_enter
stay_value t k c a = rw a refl

module _ (t : TaskPtr) (lv : ℤ) (priority : ℕ) (c : TaskCtl) (some_t : (t == null) ≡ false) where
  abbrev leaves : Bool
  leaves =
      (c.tasks0 t).flags == flags_running
      && not ((c.tasks0 t).level == wanted_level lv (c.tasks0 t).level)

  run_value :
      (c' : TaskCtl)
      → leaves ≡ false
      → task_enter t (wanted_level lv (c.tasks0 t).level) (first t priority c) ≡ some c'
      → task_run t lv priority c ≡ some c'
  unfolding task_run
  run_value c' test e = rw (some_t, test) e

  run_value_removed :
      (c2 c' : TaskCtl)
      → leaves ≡ true
      → task_remove t (first t priority c) ≡ some c2
      → task_enter t (wanted_level lv (c.tasks0 t).level) c2 ≡ some c'
      → task_run t lv priority c ≡ some c'
  unfolding task_run
  run_value_removed c2 c' test d e = rw (some_t, test, d) e

module _ (c : TaskCtl) (q : Queues) (t : TaskPtr) (v : IsValid c q) (some_task : t ≢ null) (lv : ℤ)
    (priority : ℕ) where
  abbrev wanted : ℕ
  wanted = wanted_level lv (c.tasks0 t).level

  first-IsValid : IsValid (first t priority c) q
  first-IsValid = set_task-IsValid c q t _ v (λ n h. refl)

  -- the rest of the call, once the task is `ALLOCATED` in the state `c2`
  task_enter_lem :
      (c2 : TaskCtl) (q2 : Queues)
      → IsValid c2 q2
      → (c2.tasks0 t).flags ≡ flags_allocated
      → wanted < levels_max
      → length (q2 wanted) < level_tasks_max
      → ((s : TaskPtr) → s ≢ t → c2.tasks0 s ≡ c.tasks0 s)
      → (c2.tasks0 t).priority ≡ wanted_priority priority (c.tasks0 t).priority
      → (c' : TaskCtl) × (task_enter t wanted c2 ≡ some c')
        × Ran c q t wanted (wanted_priority priority (c.tasks0 t).priority) c'
  task_enter_lem c2 q2 v2 allocated in_range room kept kept_priority =
      let levelled = set_task t (record (c2.tasks0 t) { level = wanted }) c2 in
      let levelled_t : levelled.tasks0 t ≡ record (c2.tasks0 t) { level = wanted } =
        rw (==_refl t) refl in
      let v3 : IsValid levelled q2 =
        set_task-IsValid c2 q2 t (record (c2.tasks0 t) { level = wanted }) v2
          (λ n h. ground (arith, allocated)) in
      let at : (levelled.tasks0 t).level ≡ wanted = ap (λ (k : Task). k.level) levelled_t in
      let (tl, e, w) =
        task_add_lem levelled q2 t v3 some_task (rw at in_range)
          (rw levelled_t (omega (arith, allocated))) (rw at room) in
      (
        record (moved t flags_running tl c2.lv_change levelled) { lv_change = true },
        enter_value t wanted c2 _ (ground (arith, allocated)) e,
        record {
          queues = replaced q2 (levelled.tasks0 t).level (q2 (levelled.tasks0 t).level ++ t ∷ []);
          valid = lv_change-IsValid _ _ true w;
          now_runs = rw (==_refl t) refl;
          at_level = rw (==_refl t) refl;
          with_priority = rw (==_refl t) kept_priority;
          others = λ s n. rw (ne→== s t n) (kept s n);
          due = refl;
        },
      )

  -- `mprocess_task_run` in a valid state of an allocated or running task of a level of the ten, for a
  -- level of the ten that has room or that it runs on already: the call returns, and the task runs on the wanted level with the wanted
  -- priority. The state stays valid, no other task changes, and a change of the level is due.
  pub task_run_lem :
      ((c.tasks0 t).flags ≡ flags_allocated) ⊎ ((c.tasks0 t).flags ≡ flags_running)
      → (c.tasks0 t).level < levels_max
      → wanted_level lv (c.tasks0 t).level < levels_max
      → (((c.tasks0 t).flags ≡ flags_running)
          × ((c.tasks0 t).level ≡ wanted_level lv (c.tasks0 t).level))
        ⊎ (length (q (wanted_level lv (c.tasks0 t).level)) < level_tasks_max)
      → (c' : TaskCtl) × (task_run t lv priority c ≡ some c')
        × Ran c q t
            (wanted_level lv (c.tasks0 t).level)
            (wanted_priority priority (c.tasks0 t).priority)
            c'
  task_run_lem known at_old in_range room =
      let fields : (first t priority c).tasks0 t
          ≡ record (c.tasks0 t) { priority = wanted_priority priority (c.tasks0 t).priority } =
        rw (==_refl t) refl in
      let some_t = ne→== t null some_task in
      let kept : (s : TaskPtr) → s ≢ t → (first t priority c).tasks0 s ≡ c.tasks0 s =
        λ s n. rw (ne→== s t n) refl in
      elim (==_cases (c.tasks0 t).flags flags_running) [
        | inr idle ↦
            let alloc : (c.tasks0 t).flags ≡ flags_allocated = ground (arith, known) in
            let (c', e, r) =
              task_enter_lem (first t priority c) q first-IsValid (rw fields alloc) in_range
                (ground (arith, room)) kept (rw fields refl) in
            (
              c',
              run_value t lv priority c some_t c'
                  (ground (arith, ne→== (c.tasks0 t).flags flags_running idle)) e,
              r,
            )
        | inl busy ↦ elim (==_cases (c.tasks0 t).level wanted) [
          | inl same ↦ (
            record (first t priority c) { lv_change = true },
            run_value t lv priority c some_t _ (ground (arith, same))
                (stay_value t wanted (first t priority c) (rw fields (ground (arith, busy)))),
            record {
              queues = q;
              valid = lv_change-IsValid _ _ true first-IsValid;
              now_runs = rw fields busy;
              at_level = rw fields same;
              with_priority = rw fields refl;
              others = kept;
              due = refl;
            },
          )
          | inr differs ↦
              let (l, r, shape) = split_at t (q (c.tasks0 t).level) (
                ground (
                  arith,
                  v.member t (c.tasks0 t).level at_old some_task,
                  ==_refl (c.tasks0 t).level,
                  busy,
                )) in
              let at : ((first t priority c).tasks0 t).level ≡ (c.tasks0 t).level =
                rw fields refl in
              let (tl, change, d, v2, _) =
                task_remove_lem (first t priority c) q t first-IsValid some_task (rw at at_old) l r
                  (rw at shape) in
              let c2 = moved t flags_allocated tl change (first t priority c) in
              let other : (wanted == ((first t priority c).tasks0 t).level) ≡ false =
                rw at (ne→== wanted (c.tasks0 t).level (λ e. differs (sym e))) in
              let (c', e, ran) =
                task_enter_lem c2 _ v2 (rw (==_refl t) refl) in_range
                  (rw other (ground (arith, room))) (λ s n. rw (ne→== s t n) refl)
                  (rw (==_refl t) refl) in
              (
                c',
                run_value_removed t lv priority c some_t c2 c'
                    (ground (arith, ne→== (c.tasks0 t).level wanted differs)) d e,
                ran,
              )
        ]
      ]

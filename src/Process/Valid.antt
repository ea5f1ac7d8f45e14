-- ===== src/Process/Valid.antt =====
-- The invariant of src/kernel/process.c, and the calls that keep it.
use unagi_os.Common.{
  ℕ, ◌<◌, ◌≡◌, refl, ◌≢◌, Bool, true, false, ◌&&◌, List, [], ◌∷◌, ◌++◌, some, arith, ◌==◌, ==_refl,
  ne→==, length, if◌then◌else◌, subst, ==_cases, inl, inr,
}
use unagi_os.Dlist.Chain.{has, Distinct}
use unagi_os.Dlist.Update.{has-append, Distinct-append, Distinct-split}
use unagi_os.Process.{
  TaskPtr, TaskLevel, TaskCtl, level_tasks_max, levels_max, null, flags_running, flags_allocated,
  level_at, task_add, task_remove, set_level, set_task,
}
use unagi_os.Process.Level.{IsLevel, level_add_lem, level_remove_lem, level_find_absent, now_after}

-- the tasks of each level, in the order in which they take turns
abbrev pub Queues : Type 0
Queues = ℕ → List TaskPtr

abbrev pub replaced : Queues → ℕ → List TaskPtr → Queues
replaced q n xs = λ m. if m == n then xs else q m

-- Each level holds a list of tasks without repetition: exactly those that are running at that level.
pub record IsValid (c : TaskCtl) (q : Queues) : Type 0 where
  pub levels : (n : ℕ) → n < levels_max → IsLevel (c.level n) (q n)
  pub distinct : (n : ℕ) → n < levels_max → Distinct (q n)
  pub nonnull : (n : ℕ) → n < levels_max → has null (q n) ≡ false
  pub member :
      (t : TaskPtr) (n : ℕ)
      → n < levels_max
      → t ≢ null
      → has t (q n) ≡ ((c.tasks0 t).flags == flags_running && (c.tasks0 t).level == n)
  pub now_lv_in : c.now_lv < levels_max

pub level_at_lem : (c : TaskCtl) (n : ℕ) → n < levels_max → level_at c n ≡ some (c.level n)
unfolding level_at
level_at_lem c n h = ground arith

-- `c` after the flags of the task `t` and its level have changed
abbrev pub moved : TaskPtr → ℕ → TaskLevel → Bool → TaskCtl → TaskCtl
moved t f tl change c =
    record (set_task t (record (c.tasks0 t) { flags = f }) (set_level (c.tasks0 t).level tl c)) {
      lv_change = change;
    }

-- A change of the list of one level by one task keeps the state valid.
moved-IsValid :
    (c : TaskCtl) (q : Queues) (t : TaskPtr) (f : ℕ) (tl : TaskLevel) (xs : List TaskPtr)
    (change : Bool)
    → IsValid c q
    → t ≢ null
    → (c.tasks0 t).level < levels_max
    → IsLevel tl xs
    → Distinct xs
    → ((s : TaskPtr)
        → has s xs ≡ (if s == t then f == flags_running else has s (q (c.tasks0 t).level)))
    → IsValid (moved t f tl change c) (replaced q (c.tasks0 t).level xs)
moved-IsValid c q t f tl xs change v some_task lv l d same =
    let k = (c.tasks0 t).level in
    record {
      levels = λ n h. elim (==_cases n k) [
        | inl p ↦ rw (p, ==_refl k) l
        | inr p ↦ rw (ne→== n k p) (v.levels n h)
      ];
      distinct = λ n h. elim (==_cases n k) [
        | inl p ↦ rw (p, ==_refl k) d
        | inr p ↦ rw (ne→== n k p) (v.distinct n h)
      ];
      nonnull = λ n h. elim (==_cases n k) [
        | inl p ↦ rw (p, ==_refl k) (ground (arith, same null, v.nonnull k lv))
        | inr p ↦ rw (ne→== n k p) (v.nonnull n h)
      ];
      member = λ s n h p. elim (==_cases n k) [
        | inl e ↦ elim (==_cases s t) [
          | inl u ↦ rw (e, u, ==_refl k, ==_refl t) (ground (arith, same t, ==_refl t, ==_refl k))
          | inr u ↦
              rw (e, ==_refl k, ne→== s t u)
                (ground (arith, same s, ne→== s t u, v.member s k lv p))
        ]
        | inr e ↦ elim (==_cases s t) [
          | inl u ↦ rw (u, ne→== n k e, ==_refl t) (ground (arith, v.member t n h some_task, e))
          | inr u ↦ rw (ne→== n k e, ne→== s t u) (v.member s n h p)
        ]
      ];
      now_lv_in = v.now_lv_in;
    }

module _ (c : TaskCtl) (q : Queues) (t : TaskPtr) (v : IsValid c q) (some_task : t ≢ null)
    (lv : (c.tasks0 t).level < levels_max) where
  -- `__mprocess_task_add` of a task that is not running appends it to the list of its level.
  pub task_add_lem :
      (c.tasks0 t).flags ≢ flags_running
      → length (q (c.tasks0 t).level) < level_tasks_max
      → (tl : TaskLevel) × (task_add t c ≡ some (moved t flags_running tl c.lv_change c))
        × IsValid
            (moved t flags_running tl c.lv_change c)
            (replaced q (c.tasks0 t).level (q (c.tasks0 t).level ++ t ∷ []))
  unfolding task_add
  task_add_lem idle room =
      let k = (c.tasks0 t).level in
      let absent : has t (q k) ≡ false =
        ground (arith, v.member t k lv some_task, ne→== (c.tasks0 t).flags flags_running idle) in
      let (tl, e, v') = level_add_lem (c.level k) (q k) t (v.levels k lv) room in
      (
        tl,
        rw (level_at_lem c k lv, level_find_absent (c.level k) (q k) t (v.levels k lv) absent, e)
            (ground arith),
        moved-IsValid c q t flags_running tl (q k ++ t ∷ []) c.lv_change v some_task lv v'
            (Distinct-append (q k) (t ∷ []) (v.distinct k lv) (refl, tt)
              (λ a i. ground (arith, absent, ==_cases a t)))
            (λ s. ground (arith, has-append s (q k) (t ∷ []))),
      )

  -- In a valid state `mprocess_task_remove` of a task that stands in the list of its level, one of the
  -- ten, returns: it takes the task out, and the state stays valid; `now` moves along if the task
  -- stood before it, and is 0 if it would leave the list.
  pub task_remove_lem :
      (l r : List TaskPtr)
      → q (c.tasks0 t).level ≡ l ++ t ∷ r
      → (tl : TaskLevel) × (change : Bool) × (task_remove t c
          ≡ some (moved t flags_allocated tl change c))
        × IsValid (moved t flags_allocated tl change c) (replaced q (c.tasks0 t).level (l ++ r))
        × (tl.now ≡ now_after (c.level (c.tasks0 t).level).now l r)
  unfolding task_remove
  task_remove_lem l r shape =
      let k = (c.tasks0 t).level in
      let here : IsLevel (c.level k) (l ++ t ∷ r) =
        subst (IsLevel (c.level k)) shape (v.levels k lv) in
      let (dl, dr, apart) = Distinct-split l (t ∷ r) (subst Distinct shape (v.distinct k lv)) in
      let absent : has t l ≡ false = ground (arith, apart t, ==_refl t) in
      let (tl, e, v', e') = level_remove_lem (c.level k) l t r here absent in
      (
        tl,
        if tl.running == 0 then true else c.lv_change,
        rw (level_at_lem c k lv, e, ne→== t null some_task) refl,
        moved-IsValid c q t flags_allocated tl (l ++ r) _ v some_task lv v'
            (Distinct-append l r dl dr.1 (λ a i. ground (arith, apart a i)))
            (λ s. elim (==_cases s t) [
              | inl u ↦ rw (u, ==_refl t) (ground (arith, has-append t l r, absent, dr.0))
              | inr u ↦
                  rw (ne→== s t u, shape)
                    (ground (arith, has-append s l r, has-append s l (t ∷ r), ne→== s t u))
            ]),
        e',
      )

-- ===== src/Process/Switch.antt =====
-- `__mprocess_task_update_currentlv`, `mprocess_task_autoswitch` and `mprocess_task_sleep` of
-- src/kernel/process.c.
use unagi_os.Common.{
  ℕ, zero, suc, ◌+◌, ◌-◌, ◌≤◌, ◌<◌, ◌≡◌, refl, ◌≢◌, ◌⊎◌, true, false, List, [], ◌∷◌, some, arith,
  ◌==◌, ==_refl, ne→==, length, get_elem?, if◌then◌else◌, ◌∙◌, ap, subst, ltb, ==_cases, Bool-cases,
  inl, inr,
}
use unagi_os.Common.Words.{add32, slt32}
use unagi_os.Dlist.Chain.{has}
use unagi_os.Process.{
  TaskPtr, TaskCtl, Task, Event, set_timer, far_jump, levels_max, null, first_level,
  update_currentlv, get_current, autoswitch, set_level,
}
use unagi_os.Process.Level.{level_now}
use unagi_os.Process.Valid.{Queues, IsValid, level_at_lem}

-- `n` is the first level with a task.
abbrev pub IsHighest : Queues → ℕ → Type 0
IsHighest q n = (n < levels_max) × (0 < length (q n)) × ((m : ℕ) → m < n → length (q m) ≡ 0)

-- The loop stops at the first level with a task from `i` on, or behind the last.
first_level_lem :
    (c : TaskCtl) (q : Queues) (n i : ℕ)
    → IsValid c q
    → n + i ≡ levels_max
    → ((m : ℕ) → m < i → length (q m) ≡ 0)
    → IsHighest q (first_level c.level n i)
      ⊎ ((first_level c.level n i ≡ levels_max) × ((m : ℕ) → m < levels_max → length (q m) ≡ 0))
unfolding first_level
first_level_lem c q zero i v e before = inr (omega arith, λ m h. before m (omega arith))
first_level_lem c q (suc n) i v e before =
    let here = v.levels i (omega arith) in
    elim (==_cases (length (q i)) 0) [
      | inr some_task ↦
          let test : slt32 0 (c.level i).running ≡ true =
            ground (arith, here.counted, here.capacity) in
          rw test (inl (omega arith, omega arith, before))
      | inl empty ↦
          let test : slt32 0 (c.level i).running ≡ false = ground (arith, here.counted) in
          rw test (
            first_level_lem c q n (i + 1) v (omega arith)
              (λ m h. elim (==_cases m i) [ inl p ↦ rw p empty | inr p ↦ before m (omega arith) ]))
    ]

-- `__mprocess_task_update_currentlv` selects the first level with a task, or the last of the ten if
-- no level has one, and keeps the state valid.
pub update_currentlv_lem :
    (c : TaskCtl) (q : Queues)
    → IsValid c q
    → IsValid (update_currentlv c) q
      × (IsHighest q (update_currentlv c).now_lv
          ⊎ (((update_currentlv c).now_lv ≡ levels_max - 1)
              × ((m : ℕ) → m < levels_max → length (q m) ≡ 0)))
      × ((update_currentlv c).lv_change ≡ false)
unfolding update_currentlv
update_currentlv_lem c q v = (
  record {
    levels = v.levels;
    distinct = v.distinct;
    nonnull = v.nonnull;
    member = v.member;
    now_lv_in = ground arith;
  },
  elim (first_level_lem c q levels_max 0 v refl (λ m h. absurd (omega arith))) [
    | inl h ↦
        let test : ltb (first_level c.level levels_max 0) levels_max ≡ true = ground (arith, h.0) in
        rw test (inl h)
    | inr h ↦
        let test : ltb (first_level c.level levels_max 0) levels_max ≡ false =
          ground (arith, h.0) in
        rw test (inr (refl, h.1))
  ],
  refl,
)

pub update_same :
    (c : TaskCtl)
    → ((update_currentlv c).tasks0 ≡ c.tasks0) × ((update_currentlv c).level ≡ c.level)
unfolding update_currentlv
update_same c = (refl, refl)

pub highest :
    (q : Queues) (n m : ℕ)
    → IsHighest q n ⊎ ((n ≡ levels_max - 1) × ((k : ℕ) → k < levels_max → length (q k) ≡ 0))
    → m < levels_max
    → 0 < length (q m)
    → IsHighest q n
highest q n m (inl h) k some_task = h
highest q n m (inr h) k some_task = absurd (omega (arith, h.1 m k))

get_elem?-some :
    (xs : List TaskPtr) (i : ℕ)
    → i < length xs
    → (x : TaskPtr) × (get_elem? xs i ≡ some x) × (has x xs ≡ true)
get_elem?-some [] i h = absurd (omega arith)
get_elem?-some (x ∷ xs) zero h = (x, refl, ground (arith, ==_refl x))
get_elem?-some (x ∷ xs) (suc i) h =
    let (y, e, k) = get_elem?-some xs i (omega arith) in (y, e, ground (arith, k))

-- `mprocess_task_get_current` on a level with a task: the task at `now` of its list, which runs.
pub get_current_lem :
    (c : TaskCtl) (q : Queues)
    → IsValid c q
    → 0 < length (q c.now_lv)
    → (t : TaskPtr) × (get_current c ≡ some t)
      × (get_elem? (q c.now_lv) (c.level c.now_lv).now ≡ some t)
      × (has t (q c.now_lv) ≡ true)
      × (t ≢ null)
unfolding get_current
get_current_lem c q v some_task =
    let lv = v.levels c.now_lv v.now_lv_in in
    let (t, e, k) = get_elem?-some (q c.now_lv) (c.level c.now_lv).now (omega (arith, lv.now_in)) in
    (
      t,
      rw (level_at_lem c c.now_lv v.now_lv_in)
          (level_now (c.level c.now_lv) (q c.now_lv) lv some_task ∙ e),
      e,
      k,
      λ z. cc (subst (λ x. has x (q c.now_lv) ≡ true) z k, v.nonnull c.now_lv v.now_lv_in),
    )

-- the index that follows `now` in a list of `n` tasks, round its end
abbrev pub turn : ℕ → ℕ → ℕ
turn now n = if now + 1 == n then 0 else now + 1

-- the state of `mprocess_task_autoswitch` before the test of `lv_change`
abbrev turned : TaskCtl → ℕ → TaskCtl
turned c now = set_level c.now_lv (record (c.level c.now_lv) { now = now }) c

turned-IsValid :
    (c : TaskCtl) (q : Queues) (now : ℕ)
    → IsValid c q
    → now ≤ length (q c.now_lv) - 1
    → IsValid (turned c now) q
turned-IsValid c q now v h = record {
  levels = λ n k. elim (==_cases n c.now_lv) [
    | inl p ↦
        let lv = v.levels c.now_lv v.now_lv_in in
        rw (p, ==_refl c.now_lv)
          (record {
            rest = lv.rest;
            cells = lv.cells;
            capacity = lv.capacity;
            counted = lv.counted;
            now_in = h;
          })
    | inr p ↦ rw (ne→== n c.now_lv p) (v.levels n k)
  ];
  distinct = v.distinct;
  nonnull = v.nonnull;
  member = v.member;
  now_lv_in = v.now_lv_in;
}

-- the events of a switch from `current` to `next`
abbrev pub switch_events : (TaskPtr → Task) → TaskPtr → TaskPtr → List Event
switch_events tasks0 current next =
    set_timer (tasks0 next).priority
    ∷ (if next == current then [] else far_jump (tasks0 next).gdt_segment_selector ∷ [])

-- The timer is set to the priority of the task `next`, which runs and is now the current one, with a
-- far jump to it unless it was `current`. Where no change of the level was due, `next` follows
-- `current` in the list of their level; else its level is the first with a task.
pub record Switched (c : TaskCtl) (q : Queues) (events : List Event) (c' : TaskCtl) : Type 0 where
  pub current : TaskPtr
  pub next : TaskPtr
  pub valid : IsValid c' q
  pub was_current : get_elem? (q c.now_lv) (c.level c.now_lv).now ≡ some current
  pub is_current : get_elem? (q c'.now_lv) (c'.level c'.now_lv).now ≡ some next
  pub made : events ≡ switch_events c.tasks0 current next
  pub same_tasks : c'.tasks0 ≡ c.tasks0
  pub not_due : c'.lv_change ≡ false
  pub chosen :
      ((c.lv_change ≡ false)
        × (c'.now_lv ≡ c.now_lv)
        × ((c'.level c'.now_lv).now ≡ turn (c.level c.now_lv).now (length (q c.now_lv))))
      ⊎ ((c.lv_change ≡ true) × IsHighest q c'.now_lv)

autoswitch_value :
    (c : TaskCtl) (current next now : ℕ) (c2 : TaskCtl)
    → c.now_lv < levels_max
    → get_elem? (c.level c.now_lv).tasks (c.level c.now_lv).now ≡ some current
    → (if add32 (c.level c.now_lv).now 1 == (c.level c.now_lv).running
        then 0
        else add32 (c.level c.now_lv).now 1)
      ≡ now
    → (if c.lv_change then update_currentlv (turned c now) else turned c now) ≡ c2
    → get_current c2 ≡ some next
    → next ≢ null
    → autoswitch c ≡ some (switch_events c2.tasks0 current next, c2)
unfolding autoswitch
autoswitch_value c current next now c2 lv e1 e2 e3 e4 n =
    rw (level_at_lem c c.now_lv lv, e1, e2, e3, e4, ne→== next null n) refl

-- In a valid state whose current level has a task `mprocess_task_autoswitch` returns, and the state
-- stays valid. The timer is set to the priority of the new current task, with a far jump to it
-- unless it was the current one; it is the next in the list of the level, or where a change of the
-- level was due, the current task of the first level with a task.
pub autoswitch_lem :
    (c : TaskCtl) (q : Queues)
    → IsValid c q
    → 0 < length (q c.now_lv)
    → (events : List Event) × (c' : TaskCtl) × (autoswitch c ≡ some (events, c'))
      × Switched c q events c'
autoswitch_lem c q v some_task =
    let lv = v.levels c.now_lv v.now_lv_in in
    let now = turn (c.level c.now_lv).now (length (q c.now_lv)) in
    let (current, e, was, _, _) = get_current_lem c q v some_task in
    let read = level_now (c.level c.now_lv) (q c.now_lv) lv some_task ∙ was in
    let v1 = turned-IsValid c q now v (ground (arith, lv.now_in)) in
    let turning : (if add32 (c.level c.now_lv).now 1 == (c.level c.now_lv).running
          then 0
          else add32 (c.level c.now_lv).now 1)
        ≡ now =
      ground (arith, lv.now_in, lv.counted, lv.capacity) in
    elim (Bool-cases c.lv_change) [
      | inl due ↦
          let c2 = update_currentlv (turned c now) in
          let (v2, high, off) = update_currentlv_lem (turned c now) q v1 in
          let top = highest (q) c2.now_lv c.now_lv high v.now_lv_in some_task in
          let (next, g, is, k, n) = get_current_lem c2 q v2 top.1 in
          let tasks = (update_same (turned c now)).0 in
          (
            switch_events c2.tasks0 current next,
            c2,
            autoswitch_value c current next now c2 v.now_lv_in read turning (rw due refl) g n,
            record {
              current = current;
              next = next;
              valid = v2;
              was_current = was;
              is_current = is;
              made = ap (λ f. switch_events f current next) tasks;
              same_tasks = tasks;
              not_due = off;
              chosen = inr (due, top);
            },
          )
      | inr calm ↦
          let (next, g, is, k, n) = get_current_lem (turned c now) q v1 some_task in
          (
            switch_events (turned c now).tasks0 current next,
            turned c now,
            autoswitch_value c current next now (turned c now) v.now_lv_in read turning
                (rw calm refl) g n,
            record {
              current = current;
              next = next;
              valid = v1;
              was_current = was;
              is_current = is;
              made = refl;
              same_tasks = refl;
              not_due = calm;
              chosen = inl (calm, refl, rw (==_refl c.now_lv) refl);
            },
          )
    ]

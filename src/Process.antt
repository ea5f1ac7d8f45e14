-- ===== src/Process.antt =====
-- src/kernel/process.c and process.h: the scheduler of the kernel's tasks on ten levels.
--
-- An `int32_t` is held as its 32-bit two's complement. A `TASK *` is 0 for `NULL`, and i + 1 for
-- `&taskctl->tasks0[i]`. A read or a write outside an array and a read through `NULL` are a fault:
-- `none`. The far jump and the timer's reset are events, in the order of the calls.
pub mod Level
pub mod Valid
pub mod Run
pub mod Switch
pub mod Sleep
pub mod Tests
use unagi_os.Common.{
  ℕ, zero, suc, ◌+◌, ◌-◌, Bool, true, false, not, ◌&&◌, Option, none, some, List, [], ◌∷◌, ◌==◌,
  ltb, if◌then◌else◌, get_elem?, set, ◌>>=◌,
}
use unagi_os.Common.Int.{ℤ, pos, negsuc}
use unagi_os.Common.Words.{add32, sub32, slt32, count32}

-- `TASK *`
abbrev pub TaskPtr : Type 0
TaskPtr = ℕ

abbrev pub null : TaskPtr
null = 0

-- `MPROCESS_FLAGS_…`
abbrev pub flags_free : ℕ
flags_free = 0

abbrev pub flags_allocated : ℕ
flags_allocated = 1

abbrev pub flags_running : ℕ
flags_running = 2

-- `OS_MPROCESS_TASK_MAX`, `OS_MPROCESS_TASKLEVELS_MAX`, `OS_MPROCESS_TASKLEVEL_TASKS_MAX`
abbrev pub task_max : ℕ
task_max = 1000

abbrev pub levels_max : ℕ
levels_max = 10

abbrev pub level_tasks_max : ℕ
level_tasks_max = 100

-- `TSS32`
pub record Tss : Type 0 where
  pub link : ℕ
  pub esp0 : ℕ
  pub ss0 : ℕ
  pub esp1 : ℕ
  pub ss1 : ℕ
  pub esp2 : ℕ
  pub ss2 : ℕ
  pub cr3 : ℕ
  pub eip : ℕ
  pub eflags : ℕ
  pub eax : ℕ
  pub ecx : ℕ
  pub edx : ℕ
  pub ebx : ℕ
  pub esp : ℕ
  pub ebp : ℕ
  pub esi : ℕ
  pub edi : ℕ
  pub es : ℕ
  pub cs : ℕ
  pub ss : ℕ
  pub ds : ℕ
  pub fs : ℕ
  pub gs : ℕ
  pub ldtr : ℕ
  pub iopb : ℕ
  pub ssp : ℕ

-- `TASK`
pub record Task : Type 0 where
  pub gdt_segment_selector : ℕ
  pub flags : ℕ
  pub priority : ℕ
  pub level : ℕ
  pub tss : Tss

-- `TASKLEVEL`
pub record TaskLevel : Type 0 where
  pub running : ℕ
  pub now : ℕ
  pub tasks : List TaskPtr

-- `TASKCTL`
pub record TaskCtl : Type 0 where
  pub now_lv : ℕ
  pub lv_change : Bool
  pub level : ℕ → TaskLevel
  pub tasks0 : TaskPtr → Task

-- What a call does outside of the scheduler: `timer_settimer(tssTimer, priority, 0)`, and `_farjmp`.
pub data Event : Type 0 where
  set_timer : ℕ → Event
  far_jump : ℕ → Event

-- The search loops of `__mprocess_task_add` and `mprocess_task_remove` over `n` pointers: the index
-- at which they stop, which is `n` when `t` is not found.
unfoldable pub find : ℕ → TaskPtr → List TaskPtr → Option ℕ
find zero t xs = some 0
find (suc n) t [] = none
find (suc n) t (x ∷ xs) =
    let rest = find n t xs in if x == t then some 0 else rest >>= λ i. some (i + 1)

-- The last loop of `mprocess_task_remove`: `n` turns from the index `i` on.
unfoldable pub shift_left : ℕ → ℕ → List TaskPtr → Option (List TaskPtr)
shift_left zero i xs = some xs
shift_left (suc n) i xs = do x ← get_elem? xs (i + 1); shift_left n (i + 1) (set xs i x)

-- `&taskctl->level[n]`
unfoldable pub level_at : TaskCtl → ℕ → Option TaskLevel
level_at c n = if ltb n levels_max then some (c.level n) else none

abbrev pub set_level : ℕ → TaskLevel → TaskCtl → TaskCtl
set_level n tl c = record c { level = λ m. if m == n then tl else c.level m }

abbrev pub set_task : TaskPtr → Task → TaskCtl → TaskCtl
set_task t task c = record c { tasks0 = λ s. if s == t then task else c.tasks0 s }

-- `tl->tasks[tl->running] = task; tl->running++`
unfoldable pub level_add : TaskPtr → TaskLevel → Option TaskLevel
level_add t tl =
    if ltb tl.running level_tasks_max
    then some (record tl { tasks = set tl.tasks tl.running t; running = add32 tl.running 1 })
    else none

-- what `mprocess_task_remove` does to the level `tl`
unfoldable pub level_remove : TaskPtr → TaskLevel → Option TaskLevel
level_remove t tl = do
  i ← find (count32 tl.running) t tl.tasks
  let running = sub32 tl.running 1
  let now = if slt32 i tl.now then sub32 tl.now 1 else tl.now
  xs ← shift_left (count32 running - i) i tl.tasks
  some (record { running = running; now = if slt32 now running then now else 0; tasks = xs })

-- `__mprocess_task_add`
unfoldable pub task_add : TaskPtr → TaskCtl → Option TaskCtl
task_add t c = do
  let task = c.tasks0 t
  tl ← level_at c task.level
  i ← find (count32 tl.running) t tl.tasks
  let added = level_add t tl >>= λ tl'.
      some (set_task t (record task { flags = flags_running }) (set_level task.level tl' c))
  if slt32 i tl.running then some c else added

-- `mprocess_task_remove`
unfoldable pub task_remove : TaskPtr → TaskCtl → Option TaskCtl
task_remove t c =
    let task = c.tasks0 t in
    let removed = (do
      tl ← level_at c task.level
      tl' ← level_remove t tl
      some
          (record (set_task t (record task { flags = flags_allocated })
            (set_level task.level tl' c)) {
              lv_change = if tl'.running == 0 then true else c.lv_change;
            })) in
    if t == null then some c else removed

-- The loop of `__mprocess_task_update_currentlv` with `n` levels left, at the level `i`.
unfoldable pub first_level : (ℕ → TaskLevel) → ℕ → ℕ → ℕ
first_level level zero i = i
first_level level (suc n) i =
    let rest = first_level level n (i + 1) in if slt32 0 (level i).running then i else rest

-- `__mprocess_task_update_currentlv`
unfoldable pub update_currentlv : TaskCtl → TaskCtl
update_currentlv c =
    let i = first_level c.level levels_max 0 in
    record c { now_lv = if ltb i levels_max then i else levels_max - 1; lv_change = false }

-- `mprocess_task_get_current`
unfoldable pub get_current : TaskCtl → Option TaskPtr
get_current c = level_at c c.now_lv >>= λ tl. get_elem? tl.tasks tl.now

-- `if (level < 0) level = task->level;`
abbrev pub wanted_level : ℤ → ℕ → ℕ
wanted_level (pos n) level = n
wanted_level (negsuc n) level = level

-- The end of `mprocess_task_run`, from the test for `MPROCESS_FLAGS_ALLOCATED` on.
unfoldable pub task_enter : TaskPtr → ℕ → TaskCtl → Option TaskCtl
task_enter t level c = do
  let added = task_add t (set_task t (record (c.tasks0 t) { level = level }) c)
  c' ← if (c.tasks0 t).flags == flags_allocated then added else some c
  some (record c' { lv_change = true })

-- `mprocess_task_run`
unfoldable pub task_run : TaskPtr → ℤ → ℕ → TaskCtl → Option TaskCtl
task_run t lv priority c =
    let task = c.tasks0 t in
    let level = wanted_level lv task.level in
    let task' = record task { priority = if ltb 0 priority then priority else task.priority } in
    let c1 = set_task t task' c in
    let removed =
      if task'.flags == flags_running && not (task'.level == level)
      then task_remove t c1
      else some c1 in
    if t == null then some c else removed >>= λ c2. task_enter t level c2

-- `mprocess_task_autoswitch`
unfoldable pub autoswitch : TaskCtl → Option (List Event × TaskCtl)
autoswitch c = do
  tl ← level_at c c.now_lv
  current ← get_elem? tl.tasks tl.now
  let now = if add32 tl.now 1 == tl.running then 0 else add32 tl.now 1
  let c1 = set_level c.now_lv (record tl { now = now }) c
  let c2 = if c1.lv_change then update_currentlv c1 else c1
  next ← get_current c2
  let task = c2.tasks0 next
  let jump = if next == current then [] else far_jump task.gdt_segment_selector ∷ []
  if next == null then none else some (set_timer task.priority ∷ jump, c2)

-- `mprocess_task_sleep`
unfoldable pub task_sleep : TaskPtr → TaskCtl → Option (List Event × TaskCtl)
task_sleep t c =
    let slept = (do
      current ← get_current c
      c1 ← task_remove t c
      let c2 = update_currentlv c1
      let switched = do
        next ← get_current c2
        if next == null
            then none
            else some (far_jump (c2.tasks0 next).gdt_segment_selector ∷ [], c2)
      if t == current then switched else some ([], c1)) in
    if t == null
    then some ([], c)
    else if (c.tasks0 t).flags == flags_running
    then slept
    else some ([], c)

-- The loop of `mprocess_task_alloc` with `n` tasks left, at the task `i`; `NULL` if none is free.
unfoldable pub first_free : (TaskPtr → Task) → ℕ → ℕ → TaskPtr
first_free tasks0 zero i = null
first_free tasks0 (suc n) i =
    let rest = first_free tasks0 n (i + 1) in
    if (tasks0 (i + 1)).flags == flags_free then i + 1 else rest

-- the fields of `tss` that `mprocess_task_alloc` sets
unfoldable pub fresh_tss : Tss → Tss
fresh_tss s = record s {
  eflags = 0x202;
  eax = 0;
  ecx = 0;
  edx = 0;
  ebx = 0;
  ebp = 0;
  esi = 0;
  edi = 0;
  es = 0;
  ds = 0;
  fs = 0;
  gs = 0;
  ldtr = 0;
  iopb = 0x40000000;
}

-- `mprocess_task_alloc`
unfoldable pub task_alloc : TaskCtl → TaskPtr × TaskCtl
task_alloc c =
    let t = first_free c.tasks0 task_max 0 in
    let task = c.tasks0 t in
    if t == null then (null, c) else (
      t,
      set_task t (record task { flags = flags_allocated; priority = 2; tss = fresh_tss task.tss })
          c,
    )

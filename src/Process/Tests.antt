-- ===== src/Process/Tests.antt =====
-- Tests of the model of src/kernel/process.c, and the inputs at which its theorems are applied.
use unagi_os.Common.{
  ℕ, ◌+◌, ◌≡◌, refl, Bool, false, ◌||◌, List, [], ◌∷◌, ◌++◌, some, none, arith, ◌==◌, ne→==,
  replicate, if◌then◌else◌, ==_cases, inl, inr, Option,
}
use unagi_os.Common.Int.{pos}
use unagi_os.Process.{
  TaskCtl, TaskLevel, Tss, Event, set_timer, far_jump, flags_allocated, null, task_run, task_sleep,
  autoswitch, task_remove, level_at, get_current,
}
use unagi_os.Process.Level.{IsLevel}
use unagi_os.Process.Valid.{Queues, replaced, IsValid, moved, task_remove_lem}
use unagi_os.Process.Run.{Ran, task_run_lem}
use unagi_os.Process.Switch.{Switched, autoswitch_lem}
use unagi_os.Process.Sleep.{Slept, task_sleep_lem}

abbrev no_tss : Tss
no_tss = record {
  link = 0;
  esp0 = 0;
  ss0 = 0;
  esp1 = 0;
  ss1 = 0;
  esp2 = 0;
  ss2 = 0;
  cr3 = 0;
  eip = 0;
  eflags = 0;
  eax = 0;
  ecx = 0;
  edx = 0;
  ebx = 0;
  esp = 0;
  ebp = 0;
  esi = 0;
  edi = 0;
  es = 0;
  cs = 0;
  ss = 0;
  ds = 0;
  fs = 0;
  gs = 0;
  ldtr = 0;
  iopb = 0;
  ssp = 0;
}

-- the tasks 1 and 2 on the level 0, the task 3 on the level 9
abbrev pub queues : Queues
queues = λ n. if n == 0 then 1 ∷ 2 ∷ [] else if n == 9 then 3 ∷ [] else []

-- The tasks of `queues` run, the task 2 at present; the task 4 is allocated.
abbrev pub busy : TaskCtl
busy = record {
  now_lv = 0;
  lv_change = false;
  level = λ n. record {
    running = if n == 0 then 2 else if n == 9 then 1 else 0;
    now = if n == 0 then 1 else 0;
    tasks = queues n ++ replicate (if n == 0 then 98 else if n == 9 then 99 else 100) null;
  };
  tasks0 = λ t. record {
    gdt_segment_selector = (t + 2) + 8;
    flags = if t == 1 || (t == 2 || t == 3) then 2 else if t == 4 then 1 else 0;
    priority = t;
    level = if t == 3 then 9 else 0;
    tss = no_tss;
  };
}

-- the events of a call that returns
abbrev ap_events : Option (List Event × TaskCtl) → Option (List Event)
ap_events none = none
ap_events (some r) = some r.0

levels_busy : (n : ℕ) → IsLevel (busy.level n) (queues n)
levels_busy n = record {
  rest = replicate (if n == 0 then 98 else if n == 9 then 99 else 100) null;
  cells = refl;
  capacity = elim (==_cases n 0) [
    | inl p ↦ rw p refl
    | inr p ↦ elim (==_cases n 9) [ inl r ↦ rw r refl | inr r ↦ rw (ne→== n 0 p, ne→== n 9 r) refl ]
  ];
  counted = ground arith;
  now_in = ground arith;
}

pub busy-IsValid : IsValid busy queues
busy-IsValid = record {
  levels = λ n h. levels_busy n;
  distinct = λ n h. elim (==_cases n 0) [
    | inl p ↦ rw p (refl, (refl, tt))
    | inr p ↦ elim (==_cases n 9) [
      | inl r ↦ rw r (refl, tt)
      | inr r ↦ rw (ne→== n 0 p, ne→== n 9 r) tt
    ]
  ];
  nonnull = λ n h. elim (==_cases n 0) [
    | inl p ↦ rw p refl
    | inr p ↦ elim (==_cases n 9) [ inl r ↦ rw r refl | inr r ↦ rw (ne→== n 0 p, ne→== n 9 r) refl ]
  ];
  member = λ t n h p. elim (==_cases n 0) [
    | inl e ↦ rw e (ground arith)
    | inr e ↦ elim (==_cases n 9) [
      | inl r ↦ rw r (ground arith)
      | inr r ↦ rw (ne→== n 0 e, ne→== n 9 r) (ground arith)
    ]
  ];
  now_lv_in = omega arith;
}

task_run_lem_example :
    (c' : TaskCtl) × (task_run 4 (pos 3) 7 busy ≡ some c') × Ran busy queues 4 3 7 c'
task_run_lem_example =
    task_run_lem busy queues 4 busy-IsValid (omega arith) (pos 3) 7 (inl refl) (omega arith)
      (omega arith) (inr (omega arith))

autoswitch_lem_example :
    (events : List Event) × (c' : TaskCtl) × (autoswitch busy ≡ some (events, c'))
    × Switched busy queues events c'
autoswitch_lem_example = autoswitch_lem busy queues busy-IsValid (omega arith)

task_sleep_lem_example :
    (events : List Event) × (c' : TaskCtl) × (task_sleep 2 busy ≡ some (events, c'))
    × Slept busy queues 2 events c'
task_sleep_lem_example =
    task_sleep_lem busy queues 2 3 9 busy-IsValid (omega arith) refl (omega arith) (omega arith)
      (omega arith) refl (omega arith)

task_remove_lem_example :
    (tl : TaskLevel) × (change : Bool) × (task_remove 1 busy
      ≡ some (moved 1 flags_allocated tl change busy))
    × IsValid (moved 1 flags_allocated tl change busy) (replaced queues 0 (2 ∷ []))
    × (tl.now ≡ 0)
task_remove_lem_example =
    task_remove_lem busy queues 1 busy-IsValid (omega arith) (omega arith) [] (2 ∷ []) refl

-- The task 2 is at the end of its level's list, so the task 1 is the next.
switched : ap_events (autoswitch busy) ≡ some (set_timer 1 ∷ far_jump 11 ∷ [])
unfolding autoswitch level_at get_current
switched = refl

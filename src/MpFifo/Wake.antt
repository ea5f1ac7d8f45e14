-- ===== src/MpFifo/Wake.antt =====
-- `mpfifo32_enqueue` of src/kernel/mprocessfifo.c: the data are queued, and the task is woken.
use unagi_os.Common.{
  ◌<◌, ◌≡◌, refl, ◌≢◌, ◌==◌, ne→==, some, length, arith, Bool-cases, ◌||◌, not, true, false, inl,
  inr,
}
use unagi_os.Common.Int.{ℤ, negsuc}
use unagi_os.Fifo.{Fifo32}
use unagi_os.Fifo.Inv.{contents}
use unagi_os.Fifo.Inv
use unagi_os.Fifo.Queue
use unagi_os.Fifo.Refine.{enqueue_refines}
use unagi_os.Process.{TaskCtl, null, flags_allocated, levels_max, level_tasks_max, task_run}
use unagi_os.Process.Valid
use unagi_os.Process.Valid.{Queues}
use unagi_os.Process.Run.{Ran, task_run_lem}
use unagi_os.MpFifo.{MpFifo32, enqueue}

module _ (f : MpFifo32) (d : ℤ) (c : TaskCtl) (q : Queues) (fifo_valid : Inv.IsValid f.fifo32) where
  -- What a call gives whose scheduler ends as `c'`: the answer and the numbers of the bounded queue.
  abbrev pub Queued : TaskCtl → Type 0
  Queued c' =
      (g : Fifo32) × (enqueue (some f) d c
        ≡ some (
          (Queue.push f.fifo32.buflen (contents f.fifo32) d).0,
          some (record { fifo32 = g; task = f.task }),
          c',
        ))
      × (contents g ≡ (Queue.push f.fifo32.buflen (contents f.fifo32) d).1)
      × Inv.IsValid g

  woken_value :
      (c' : TaskCtl)
      → f.task ≢ null
      → (c.tasks0 f.task).flags ≡ flags_allocated
      → task_run f.task (negsuc 0) 0 c ≡ some c'
      → Queued c'
  unfolding enqueue
  woken_value c' some_task asleep e =
      let (g, e', k, v, _) = enqueue_refines f.fifo32 d fifo_valid in
      (g, rw (e', asleep, e, ne→== f.task null some_task) refl, k, v)

  -- `mpfifo32_enqueue` of a valid queue whose task sleeps, on a level of the ten with room: the
  -- number is queued, or refused if the queue is full; either way the task runs again, on its level
  -- and with its priority, and the scheduler's state is valid.
  pub enqueue_wakes :
      f.task ≢ null
      → Valid.IsValid c q
      → (c.tasks0 f.task).flags ≡ flags_allocated
      → (c.tasks0 f.task).level < levels_max
      → length (q (c.tasks0 f.task).level) < level_tasks_max
      → (c' : TaskCtl) × Queued c'
        × Ran c q f.task (c.tasks0 f.task).level (c.tasks0 f.task).priority c'
  enqueue_wakes some_task v asleep at room =
      let (c', e, ran) =
        task_run_lem c q f.task v some_task (negsuc 0) 0 (inl asleep) at at (inr room) in
      (c', woken_value c' some_task asleep e, ran)

  -- `mpfifo32_enqueue` of a valid queue whose task does not sleep, or that has none, queues the
  -- number and leaves the scheduler as it is.
  pub enqueue_keeps :
      ((f.task == null) || not ((c.tasks0 f.task).flags == flags_allocated)) ≡ true → Queued c
  unfolding enqueue
  enqueue_keeps awake =
      let (g, e', k, v, _) = enqueue_refines f.fifo32 d fifo_valid in
      elim (Bool-cases (f.task == null)) [
        | inl no_task ↦ (g, rw (e', no_task) refl, k, v)
        | inr some_task ↦
            let up : ((c.tasks0 f.task).flags == flags_allocated) ≡ false =
              ground (arith, awake, some_task) in
            (g, rw (e', some_task, up) refl, k, v)
      ]

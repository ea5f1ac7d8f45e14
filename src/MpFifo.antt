-- ===== src/MpFifo.antt =====
-- src/kernel/mprocessfifo.c and mprocessfifo.h: a `FIFO32` that wakes the task it belongs to.
pub mod Wake
mod Tests
use unagi_os.Common.{ℕ, ◌==◌, Option, none, some, List, if◌then◌else◌, ◌>>=◌}
use unagi_os.Common.Int.{ℤ, negsuc}
use unagi_os.Status.{eio}
use unagi_os.Fifo
use unagi_os.Fifo.{Fifo32}
use unagi_os.Process.{TaskPtr, TaskCtl, null, flags_allocated, task_run}

-- `MPFIFO32`
pub record MpFifo32 : Type 0 where
  pub fifo32 : Fifo32
  pub task : TaskPtr

-- What a call gives: the returned value, the structure, and the scheduler.
abbrev pub Result : Type 0
Result = Option (ℤ × Option MpFifo32 × TaskCtl)

-- the structure around what a call of the `FIFO32` leaves
abbrev wrap : TaskPtr → Option Fifo32 → Option MpFifo32
wrap t none = none
wrap t (some g) = some (record { fifo32 = g; task = t })

-- `mpfifo32_init`
pub init : Option MpFifo32 → Option (List ℤ) → ℕ → TaskPtr → Option MpFifo32
init none buf size t = none
init (some f) none size t = some f
init (some f) (some b) size t = wrap t (Fifo.init (some f.fifo32) (some b) size)

-- `mpfifo32_enqueue`
pub enqueue : Option MpFifo32 → ℤ → TaskCtl → Result
enqueue none d c = some (eio, none, c)
enqueue (some f) d c = do
  (res, g) ← Fifo.enqueue (some f.fifo32) d
  let t = f.task
  let woken = if (c.tasks0 t).flags == flags_allocated then task_run t (negsuc 0) 0 c else some c
  c' ← if t == null then some c else woken
  some (res, wrap t g, c')

-- Of a null pointer the calls below take the address of its first member, which is null again.

-- `mpfifo32_dequeue`
pub dequeue : Option MpFifo32 → Option (ℤ × Option MpFifo32)
dequeue none = Fifo.dequeue none >>= λ (res, g). some (res, none)
dequeue (some f) = Fifo.dequeue (some f.fifo32) >>= λ (res, g). some (res, wrap f.task g)

-- `mpfifo32_peek`
pub peek : Option MpFifo32 → Option ℤ
peek none = Fifo.peek none
peek (some f) = Fifo.peek (some f.fifo32)

-- `mpfifo32_status_getUsageB`
pub status_get_usage : Option MpFifo32 → Option ℤ
status_get_usage none = some (Fifo.status_get_usage none)
status_get_usage (some f) = some (Fifo.status_get_usage (some f.fifo32))

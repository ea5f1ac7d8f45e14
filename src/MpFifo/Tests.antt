-- ===== src/MpFifo/Tests.antt =====
-- Tests of the model of src/kernel/mprocessfifo.c, and the inputs at which its theorems are applied.
use unagi_os.Common.{refl, some, [], ◌∷◌, arith}
use unagi_os.Common.Int.{pos}
use unagi_os.Fifo.{Fifo32, advance}
use unagi_os.Fifo.Inv
use unagi_os.Process.{TaskCtl, null}
use unagi_os.Process.Run.{Ran}
use unagi_os.MpFifo.{MpFifo32}
use unagi_os.MpFifo.Wake.{Queued, enqueue_wakes}
use unagi_os.Process.Tests.{busy, queues, busy-IsValid}

abbrev one_free : Fifo32
one_free = record {
  buf = some (pos 9 ∷ pos 7 ∷ []);
  buflen = 2;
  next_w = 1;
  next_r = 0;
  free = 1;
  flags = 0;
}

one_free-IsValid : Inv.IsValid one_free
unfolding advance
one_free-IsValid = record {
  present = refl;
  storage = omega arith;
  read_in = omega arith;
  free_in = omega arith;
  write_at = refl;
}

-- the queue of the sleeping task 4
abbrev asleep : MpFifo32
asleep = record { fifo32 = one_free; task = 4 }

-- a queue without a task
abbrev no_task : MpFifo32
no_task = record { fifo32 = one_free; task = null }

enqueue_wakes_example :
    (c' : TaskCtl) × Queued asleep (pos 5) busy queues one_free-IsValid c'
    × Ran busy queues 4 0 4 c'
enqueue_wakes_example =
    enqueue_wakes asleep (pos 5) busy queues one_free-IsValid (omega arith) busy-IsValid refl
      (omega arith) (omega arith)

-- ===== src/Fifo/Tests.antt =====
-- Tests of the model of src/util/fifo.c, and the inputs at which its theorems are applied.
use unagi_os.Common.{◌≡◌, refl, some, [], ◌∷◌, arith}
use unagi_os.Common.Int.{pos, negsuc}
use unagi_os.Status.{eio}
use unagi_os.Fifo.{Fifo32, enqueue, dequeue, advance}
use unagi_os.Fifo.Inv.{contents, IsValid}
use unagi_os.Fifo.Queue
use unagi_os.Fifo.Queue.{put, get}
use unagi_os.Fifo.Refine.{run, run_refines}

-- two numbers, the second round the end of the array
abbrev wrapped : Fifo32
wrapped = record {
  buf = some (pos 9 ∷ pos 7 ∷ pos 8 ∷ []);
  buflen = 3;
  next_w = 1;
  next_r = 2;
  free = 1;
  flags = 0;
}

wrapped-IsValid : IsValid wrapped
unfolding advance
wrapped-IsValid = record {
  present = refl;
  storage = omega arith;
  read_in = omega arith;
  free_in = omega arith;
  write_at = refl;
}

contents-wrapped : contents wrapped ≡ pos 8 ∷ pos 9 ∷ []
unfolding advance
contents-wrapped = refl

run-wrapped :
    run (some wrapped) (put (pos 1) ∷ put (pos 2) ∷ get ∷ get ∷ get ∷ get ∷ [])
    ≡ some (pos 0 ∷ eio ∷ pos 8 ∷ pos 9 ∷ pos 1 ∷ eio ∷ [])
unfolding run enqueue dequeue advance
run-wrapped = refl

run_refines_example :
    run (some wrapped) (get ∷ put (negsuc 6) ∷ [])
    ≡ some (Queue.run 3 (contents wrapped) (get ∷ put (negsuc 6) ∷ []))
run_refines_example = run_refines wrapped (get ∷ put (negsuc 6) ∷ []) wrapped-IsValid

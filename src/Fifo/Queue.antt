-- ===== src/Fifo/Queue.antt =====
-- The abstract queue behind src/util/fifo.c: at most `cap` numbers, oldest first.
use unagi_os.Common.{ℕ, List, [], ◌∷◌, ◌++◌, ◌==◌, if◌then◌else◌, length}
use unagi_os.Common.Int.{ℤ, pos}
use unagi_os.Status.{eio}

pub data Op : Type 0 where
  put : ℤ → Op
  get : Op

unfoldable pub push : ℕ → List ℤ → ℤ → ℤ × List ℤ
push cap q d = if length q == cap then (eio, q) else (pos 0, q ++ (d ∷ []))

unfoldable pub pop : List ℤ → ℤ × List ℤ
pop [] = (eio, [])
pop (d ∷ q) = (d, q)

unfoldable pub front : List ℤ → ℤ
front [] = eio
front (d ∷ q) = d

unfoldable pub run : ℕ → List ℤ → List Op → List ℤ
run cap q [] = []
run cap q (put d ∷ ops) = let (r, q') = push cap q d in r ∷ run cap q' ops
run cap q (get ∷ ops) = let (r, q') = pop q in r ∷ run cap q' ops

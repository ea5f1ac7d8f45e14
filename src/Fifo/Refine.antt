-- ===== src/Fifo/Refine.antt =====
-- The ring buffer of src/util/fifo.c behaves as the bounded queue of its contents.
use unagi_os.Common.{
  ℕ, suc, ◌+◌, ◌-◌, ◌≤◌, ◌<◌, ◌≡◌, refl, Option, some, List, [], ◌∷◌, arith, length, ap, inl, inr,
  lt_cases, get_or, ◌>>=◌, set, length-set, get_elem?-eq-get_or,
}
use unagi_os.Common.Int.{ℤ, pos}
use unagi_os.Fifo.{Fifo32, Outcome, init, advance, enqueue, dequeue, peek, status_get_usage}
use unagi_os.Fifo.Inv.{
  window, cells, contents, IsValid, length-window, window_of_ne_zero, window-set,
}
use unagi_os.Fifo.Queue
use unagi_os.Fifo.Queue.{Op, put, get}

-- The call returned `r.0` and left a valid ring of the same size that holds `r.1`.
abbrev pub Gives : ℕ → Outcome → ℤ × List ℤ → Type 0
Gives n o r =
    (f : Fifo32) × (o ≡ some (r.0, some f)) × (contents f ≡ r.1) × IsValid f × (f.buflen ≡ n)

module _ (f : Fifo32) where
  open f use {buf, buflen, next_w, next_r, free}

  -- `fifo32_init` makes an empty ring of an array of at least `n` numbers, for `0 < n`.
  pub init-contents :
      (b : List ℤ) (n : ℕ)
      → 0 < n
      → n ≤ length b
      → (g : Fifo32) × (init (some f) (some b) n ≡ some g)
        × IsValid g
        × (contents g ≡ [])
        × (g.buflen ≡ n)
  unfolding init
  init-contents b n h s = (
    record { buf = some b; buflen = n; next_w = 0; next_r = 0; free = n; flags = 0 },
    refl,
    record {
      present = refl;
      storage = s;
      read_in = h;
      free_in = omega arith;
      write_at = ground arith;
    },
    ground arith,
    refl,
  )

  enqueue_full :
      (d : ℤ)
      → IsValid f
      → free ≡ 0
      → Gives buflen (enqueue (some f) d) (Queue.push buflen (contents f) d)
  unfolding enqueue Queue.push
  enqueue_full d v h = (f, ground (arith, v.present, len), ground (arith, len), v, refl)
    where
      len : length (contents f) ≡ buflen - free
      len = length-window (cells buf) buflen next_r (buflen - free)

  enqueue_room :
      (d : ℤ)
      → IsValid f
      → 0 < free
      → Gives buflen (enqueue (some f) d) (Queue.push buflen (contents f) d)
  unfolding enqueue Queue.push advance
  enqueue_room d v h = (
    record f {
      buf = some (set (cells buf) next_w d);
      next_w = advance buflen next_w;
      free = free - 1;
    },
    ground (arith, v.present, len),
    rw more (ground (arith, len, window-set (cells buf) buflen d (buflen - free) next_r next_w)),
    record {
      present = refl;
      storage = omega (arith, length-set (cells buf) next_w d);
      read_in = v.read_in;
      free_in = omega arith;
      write_at = ground arith;
    },
    refl,
  )
    where
      len : length (contents f) ≡ buflen - free
      len = length-window (cells buf) buflen next_r (buflen - free)

      more : buflen - (free - 1) ≡ suc (buflen - free)
      more = omega arith

  dequeue_empty :
      IsValid f → free ≡ buflen → Gives buflen (dequeue (some f)) (Queue.pop (contents f))
  unfolding dequeue Queue.pop
  dequeue_empty v h = (f, ground arith, ground arith, v, refl)

  dequeue-some :
      IsValid f → free < buflen → Gives buflen (dequeue (some f)) (Queue.pop (contents f))
  unfolding dequeue Queue.pop advance
  dequeue-some v h = rw split (
    record f { next_r = advance buflen next_r; free = free + 1 },
    ground (arith, v.present, get_elem?-eq-get_or (cells buf) next_r (pos 0)),
    ap (window (cells buf) buflen (advance buflen next_r)) (omega arith),
    record {
      present = v.present;
      storage = v.storage;
      read_in = ground arith;
      free_in = omega arith;
      write_at = ground arith;
    },
    refl,
  )
    where
      split :
          contents f
          ≡ get_or (cells buf) next_r (pos 0)
            ∷ window (cells buf) buflen (advance buflen next_r) (buflen - free - 1)
      split = window_of_ne_zero (cells buf) buflen next_r (buflen - free) (omega arith)

-- `fifo32_enqueue` returns what the bounded queue returns, never faults, keeps the invariant, and
-- leaves the ring holding the queue's contents.
pub enqueue_refines :
    (f : Fifo32) (d : ℤ)
    → IsValid f
    → Gives f.buflen (enqueue (some f) d) (Queue.push f.buflen (contents f) d)
enqueue_refines f d v = elim (lt_cases 0 f.free) [
  | inl room ↦ enqueue_room f d v room
  | inr full ↦ enqueue_full f d v (omega arith)
]

-- `fifo32_dequeue` returns what the bounded queue returns, never faults, keeps the invariant, and
-- leaves the ring holding the rest of the queue.
pub dequeue_refines :
    (f : Fifo32) → IsValid f → Gives f.buflen (dequeue (some f)) (Queue.pop (contents f))
dequeue_refines f v = elim (lt_cases f.free f.buflen) [
  | inl more ↦ dequeue-some f v more
  | inr empty ↦ dequeue_empty f v (omega (arith, v.free_in))
]

-- `fifo32_peek` of a valid ring returns the front of its queue, and `fifo32_status_getUsageB` the
-- length of its queue.
pub peek_usage_refines :
    (f : Fifo32)
    → IsValid f
    → (peek (some f) ≡ some (Queue.front (contents f)))
      × (status_get_usage (some f) ≡ pos (length (contents f)))
unfolding peek status_get_usage Queue.front
peek_usage_refines f v = (
  ground (
    arith,
    v.present,
    get_elem?-eq-get_or (cells f.buf) f.next_r (pos 0),
    window_of_ne_zero (cells f.buf) f.buflen f.next_r (f.buflen - f.free),
  ),
  ground (arith, length-window (cells f.buf) f.buflen f.next_r (f.buflen - f.free)),
)

-- a client's calls on one ring, with what each returns
unfoldable pub run : Option Fifo32 → List Op → Option (List ℤ)
run f [] = some []
run f (put d ∷ ops) = do (r, g) ← enqueue f d; rs ← run g ops; some (r ∷ rs)
run f (get ∷ ops) = do (r, g) ← dequeue f; rs ← run g ops; some (r ∷ rs)

-- On any sequence of `fifo32_enqueue` and `fifo32_dequeue` calls a valid ring never faults and
-- returns exactly what the bounded queue of its contents returns.
pub run_refines :
    (f : Fifo32) (ops : List Op)
    → IsValid f
    → run (some f) ops ≡ some (Queue.run f.buflen (contents f) ops)
unfolding run Queue.run
run_refines f [] v = refl
run_refines f (put d ∷ ops) v =
    let (g, e, c, w, n) = enqueue_refines f d v in rw (e, run_refines g ops w, c, n)
run_refines f (get ∷ ops) v =
    let (g, e, c, w, n) = dequeue_refines f v in rw (e, run_refines g ops w, c, n)

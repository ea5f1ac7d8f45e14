-- ===== src/Fifo.antt =====
-- src/util/fifo.c: the ring buffer `FIFO32` of `int32_t`, whose statuses and data share one return
-- value. A read or a write outside the array, or through a null pointer, is a fault: `none`.
pub mod Queue
pub mod Inv
pub mod Refine
mod Tests
use unagi_os.Common.{
  ℕ, ◌+◌, ◌-◌, Bool, true, false, Option, none, some, List, ◌==◌, ltb, if◌then◌else◌, length,
  get_elem?, set,
}
use unagi_os.Common.Int.{ℤ, pos, negsuc, sub_ℕ}
use unagi_os.Status.{eio}

-- `typedef struct FIFO32`. `buf` is the array behind the pointer, or `none` for the null pointer.
pub record Fifo32 : Type 0 where
  pub buf : Option (List ℤ)
  pub buflen : ℕ
  pub next_w : ℕ
  pub next_r : ℕ
  pub free : ℕ
  pub flags : ℕ

-- What a call gives: the returned value and the structure behind the pointer.
abbrev pub Outcome : Type 0
Outcome = Option (ℤ × Option Fifo32)

-- `fifo32_init`
pub init : Option Fifo32 → Option (List ℤ) → ℕ → Option Fifo32
init none buf buflen = none
init (some f) none buflen = some f
init (some f) (some b) buflen =
    some
      (record { buf = some b; buflen = buflen; next_w = 0; next_r = 0; free = buflen; flags = 0 })

-- `i++`, then "Warp to the head of the buffer"
unfoldable pub advance : ℕ → ℕ → ℕ
advance n i = if i + 1 == n then 0 else i + 1

-- `fifo32_enqueue` past its first guard, at `fifo->buf`
put : Fifo32 → Option (List ℤ) → ℤ → Outcome
put f none d = some (eio, some f)
put f (some b) d =
    if f.free == 0
    then some (eio, some f)
    else if ltb f.next_w (length b)
    then some (
      pos 0,
      some (record f {
        buf = some (set b f.next_w d);
        next_w = advance f.buflen f.next_w;
        free = f.free - 1;
      }),
    )
    else none

-- `fifo32_enqueue`
pub enqueue : Option Fifo32 → ℤ → Outcome
unfolding put
enqueue none d = some (eio, none)
enqueue (some f) d = put f f.buf d

-- `fifo->buf[i]`
read : Option (List ℤ) → ℕ → Option ℤ
read none i = none
read (some b) i = get_elem? b i

-- `fifo32_dequeue` past its guards
take_out : Fifo32 → Option ℤ → Outcome
take_out f none = none
take_out f (some d) =
    some (d, some (record f { next_r = advance f.buflen f.next_r; free = f.free + 1 }))

-- `fifo32_dequeue`
pub dequeue : Option Fifo32 → Outcome
unfolding read take_out
dequeue none = some (eio, none)
dequeue (some f) =
    if f.free == f.buflen then some (eio, some f) else take_out f (read f.buf f.next_r)

-- `fifo32_peek`, which does not look for the null pointer
pub peek : Option Fifo32 → Option ℤ
unfolding read
peek none = none
peek (some f) = if f.free == f.buflen then some eio else read f.buf f.next_r

-- `fifo32_status_getUsageB`
pub status_get_usage : Option Fifo32 → ℤ
status_get_usage none = eio
status_get_usage (some f) = sub_ℕ f.buflen f.free

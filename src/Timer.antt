-- ===== src/Timer.antt =====
-- src/pic/timer.c and timer.h: the timers, in a circle by the tick at which they are due.
--
-- A `TIMER *` is 0 for `NULL`, and i + 1 for `&timerctl.timer[i]`; the `timerDL` of all timers are
-- links between these. Ticks are 32-bit. A call on a queue, a `kfree` and the switch of tasks are
-- events, in order; the masking of interrupts is not modelled. A loop whose fuel runs out is `none`.
pub mod Order
pub mod Fire
pub mod Interrupt
pub mod Release
pub mod Setup
pub mod Insert
pub mod Restart
pub mod Start
mod Tests
use unagi_os.Common.{
  ℕ, zero, suc, ◌+◌, ◌-◌, ◌^◌, Bool, true, false, not, ◌&&◌, ◌||◌, Option, none, some, List, [],
  ◌∷◌, ◌++◌, ◌==◌, ltb, leb, if◌then◌else◌, ◌>>=◌,
}
use unagi_os.Common.Words.{add32}
use unagi_os.Dlist
use unagi_os.Dlist.{Links}

-- `TIMER *`, and `MPFIFO32 *`
abbrev pub TimerPtr : Type 0
TimerPtr = ℕ

abbrev pub FifoPtr : Type 0
FifoPtr = ℕ

abbrev pub null : ℕ
null = 0

-- `TIMER_FLAGS_…`
abbrev pub flags_free : ℕ
flags_free = 0

abbrev pub flags_allocated : ℕ
flags_allocated = 1

abbrev pub flags_oncountdown : ℕ
flags_oncountdown = 2

abbrev pub flags_guardnode : ℕ
flags_guardnode = 0xffff

-- `OS_MAX_TIMER`, `UINT32_MAX`
abbrev pub max_timer : ℕ
max_timer = 500

abbrev pub uint32_max : ℕ
uint32_max = 2 ^ 32 - 1

-- `TIMER`, but for its `timerDL`
pub record Timer : Type 0 where
  pub target_tick : ℕ
  pub flags : ℕ
  pub fifo : FifoPtr
  pub value : ℕ

-- `TIMERCTL` with the variable `tssTimer`
pub record TimerCtl : Type 0 where
  pub tick : ℕ
  pub listtail : TimerPtr
  pub next_alarm_on_tick : ℕ
  pub timer : TimerPtr → Timer
  pub links : Links
  pub tss_timer : TimerPtr

pub data Effect : Type 0 where
  enqueue : FifoPtr → ℕ → Effect
  free_fifo : FifoPtr → Effect
  autoswitch : Effect

abbrev pub set_timer : TimerPtr → Timer → TimerCtl → TimerCtl
set_timer t v c = record c { timer = λ s. if s == t then v else c.timer s }

abbrev pub set_links : Links → TimerCtl → TimerCtl
set_links m c = record c { links = m }

-- `__timer_set_default_params`
unfoldable pub set_default_params : TimerPtr → TimerCtl → TimerCtl
set_default_params t c =
    let v : Timer = record {
      flags = flags_free;
      value = 0;
      fifo = null;
      target_tick = uint32_max;
    } in
    if t == null then c else set_links (Dlist.init t c.links) (set_timer t v c)

-- the loop of `timerctl_init` with `n` timers left, at the timer `i`, behind `prev`
unfoldable pub init_loop : ℕ → ℕ → TimerPtr → TimerCtl → TimerCtl
init_loop zero i prev c = c
init_loop (suc n) i prev c =
    let c1 = set_default_params (i + 1) c in
    init_loop n (i + 1) (i + 1) (set_links (Dlist.insert_after prev (i + 1) c1.links).1 c1)

-- `timerctl_init`
unfoldable pub timerctl_init : TimerCtl → TimerCtl
timerctl_init c =
    let tail = max_timer in
    let c1 =
      set_default_params tail
        (record c { tick = 0; next_alarm_on_tick = uint32_max; listtail = tail }) in
    let c2 = set_timer tail (record (c1.timer tail) { flags = flags_guardnode }) c1 in
    init_loop (max_timer - 1) 0 tail c2

-- the search of `timer_alloc_customfifo` with `n` timers left, at the timer `i`
unfoldable pub first_free : (TimerPtr → Timer) → ℕ → ℕ → TimerPtr
first_free timer zero i = null
first_free timer (suc n) i =
    let rest = first_free timer n (i + 1) in
    if (timer (i + 1)).flags == flags_free then i + 1 else rest

-- `timer_alloc_customfifo`
unfoldable pub alloc_customfifo : FifoPtr → TimerCtl → TimerPtr × TimerCtl
alloc_customfifo fifo c =
    let t = first_free c.timer max_timer 0 in
    let v = record (c.timer t) { flags = flags_allocated; fifo = fifo } in
    if t == null then (null, c) else (t, set_links (Dlist.remove t c.links).1 (set_timer t v c))

-- `timerctl.next_alarm_on_tick` where the timer `t`, about to leave the circle, was the next
unfoldable pub skip_alarm : TimerPtr → TimerCtl → TimerCtl
skip_alarm t c =
    let next_timer = c.timer (c.links.next t) in
    if c.next_alarm_on_tick == (c.timer t).target_tick
    then record c { next_alarm_on_tick = next_timer.target_tick }
    else c

-- "Set parameters", then "Update `timerctl.next_alarm_on_tick`"
unfoldable pub set_params : TimerPtr → ℕ → ℕ → TimerCtl → TimerCtl
set_params t timeout value c =
    let target = add32 c.tick timeout in
    let v = record (c.timer t) { target_tick = target; flags = flags_oncountdown; value = value } in
    let c1 = set_timer t v c in
    if ltb target c.next_alarm_on_tick then record c1 { next_alarm_on_tick = target } else c1

-- the loop that inserts the timer `t`, from the entry `pos` on
unfoldable pub insert_loop : ℕ → TimerPtr → TimerPtr → TimerPtr → TimerCtl → Option TimerCtl
insert_loop zero t head pos c = none
insert_loop (suc fuel) t head pos c =
    let rest = insert_loop fuel t head (c.links.next pos) c in
    if pos == head
    then some c
    else if leb (c.timer t).target_tick (c.timer pos).target_tick
    then some (set_links (Dlist.insert_before pos t c.links).1 c)
    else rest

-- `timer_settimer`
unfoldable pub settimer : ℕ → TimerPtr → ℕ → ℕ → TimerCtl → Option TimerCtl
settimer fuel t timeout value0 c =
    let value = if value0 == 0 then (c.timer t).value else value0 in
    let skipped = skip_alarm t c in
    let prev = skipped.links.prev t in
    let moved = set_params t timeout value (set_links (Dlist.remove t skipped.links).1 skipped) in
    let head =
      if ltb (moved.timer prev).target_tick (moved.timer t).target_tick then prev else c.listtail in
    let again = insert_loop fuel t head (moved.links.next head) moved in
    let first = set_params t timeout value c in
    let started = insert_loop fuel t c.listtail (first.links.next c.listtail) first in
    if t == null
    then some c
    else if (c.timer t).flags == flags_oncountdown
    then again
    else if (c.timer t).flags == flags_allocated
    then started
    else some c

-- `timer_free`
unfoldable pub timer_free : TimerPtr → TimerCtl → List Effect × TimerCtl
timer_free t c =
    let c1 = if (c.timer t).flags == flags_oncountdown then skip_alarm t c else c in
    let c2 = set_links (Dlist.remove t c1.links).1 c1 in
    let effects = if (c.timer t).fifo == null then [] else free_fifo (c.timer t).fifo ∷ [] in
    let c3 = set_default_params t c2 in
    let c4 = set_links (Dlist.insert_before c.listtail t c3.links).1 c3 in
    if t == null || (c.timer t).flags == flags_guardnode then ([], c) else (effects, c4)

-- the loop of `timer_int_handler` from the entry `pos` on: whether `tssTimer` was due, the effects
-- and the timers
unfoldable pub fire_loop : ℕ → TimerPtr → TimerCtl → Option (Bool × List Effect × TimerCtl)
fire_loop zero pos c = none
fire_loop (suc fuel) pos c =
    let v = c.timer pos in
    let is_tss = not (c.tss_timer == null) && pos == c.tss_timer in
    let prev = c.links.prev pos in
    let c1 =
      set_links (Dlist.remove pos c.links).1
        (set_timer pos (record v { flags = flags_allocated }) c) in
    let rest = fire_loop fuel (c1.links.next prev) c1 >>= λ (tss, es, c').
    some (is_tss || tss, enqueue v.fifo v.value ∷ es, c') in
    if pos == c.listtail || ltb c.tick v.target_tick then some (false, [], c) else rest

-- `timer_int_handler`
unfoldable pub int_handler : ℕ → TimerCtl → Option (List Effect × TimerCtl)
int_handler fuel c0 =
    let c = record c0 { tick = add32 c0.tick 1 } in
    let fired = (do
      (tss, es, c1) ← fire_loop fuel (c.links.next c.listtail) c
      let first_timer = c1.timer (c1.links.next c1.listtail)
      let effects = if tss then es ++ autoswitch ∷ [] else es
      some (effects, record c1 { next_alarm_on_tick = first_timer.target_tick })) in
    if ltb c.tick c.next_alarm_on_tick then some ([], c) else fired

-- ===== src/Dlist.antt =====
-- src/util/dlist.c: circular doubly linked lists, threaded through the memory by `next` and `prev`.
pub mod Chain
pub mod Update
pub mod Splice
pub mod Circle
pub mod Inner
pub mod Frame
mod Tests
use unagi_os.Common.{
  ℕ, zero, suc, Option, none, some, List, [], ◌∷◌, ◌>>=◌, Bool, true, false, ◌==◌, if◌then◌else◌,
}

-- the address of a `DLIST`
abbrev pub Node : Type 0
Node = ℕ

-- The `next` and `prev` fields of every `DLIST` in memory.
pub record Links : Type 0 where
  pub next : Node → Node
  pub prev : Node → Node

-- `d->next = v`
abbrev pub set_next : Node → Node → Links → Links
set_next d v m = record m { next = λ x. if x == d then v else m.next x }

-- `d->prev = v`
abbrev pub set_prev : Node → Node → Links → Links
set_prev d v m = record m { prev = λ x. if x == d then v else m.prev x }

-- `dlist_init`
unfoldable pub init : Node → Links → Links
init d m = set_prev d d (set_next d d m)

-- `dlist_insert_after`. The two reads come before the four writes, as in the source.
unfoldable pub insert_after : Node → Node → Links → Bool × Links
insert_after d0 new_a m =
    let d1 = m.next d0 in
    let new_z = m.prev new_a in
    (true, set_prev d1 new_z (set_next new_z d1 (set_prev new_a d0 (set_next d0 new_a m))))

-- `dlist_insert_before`
unfoldable pub insert_before : Node → Node → Links → Bool × Links
insert_before d0 new_a m =
    let d999 = m.prev d0 in
    let new_z = m.prev new_a in
    (true, set_next d999 new_a (set_prev new_a d999 (set_next new_z d0 (set_prev d0 new_z m))))

-- `dlist_remove`, which always returns `false`
unfoldable pub remove : Node → Links → Bool × Links
remove node m =
    let d0 = m.prev node in
    let d2 = m.next node in
    (false, set_prev d2 d0 (set_next d0 d2 (set_next node node (set_prev node node m))))

-- `list_for_each_entry` from the entry `pos` on: the entries that the loop visits, in order. `none`
-- means that the fuel ran out.
unfoldable pub for_each : ℕ → Links → Node → Node → Option (List Node)
for_each zero m head pos = none
for_each (suc fuel) m head pos =
    let rest = for_each fuel m head (m.next pos) in
    if pos == head then some [] else rest >>= λ xs. some (pos ∷ xs)

-- The whole loop, which starts at `head->next`.
unfoldable pub entries : ℕ → Links → Node → Option (List Node)
unfolding for_each
entries fuel m head = for_each fuel m head (m.next head)

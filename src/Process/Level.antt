-- ===== src/Process/Level.antt =====
-- One level of src/kernel/process.c as the list of its tasks.
use unagi_os.Common.{
  lt_cases, ==_cases, inl, inr, get_elem?-eq-none, ℕ, zero, suc, ◌+◌, ◌-◌, ◌≤◌, ◌<◌, ◌≡◌, refl, ◌≢◌,
  false, List, [], ◌∷◌, ◌++◌, some, arith, ==_refl, length, length-append, get_elem?, set,
  if◌then◌else◌, ◌∙◌, sym, ap, ltb,
}
use mathlib.Core.List.{append-nil, append_assoc}
use unagi_os.Common.Words.{add32, sub32, slt32, count32}
use unagi_os.Dlist.Chain.{has}
use unagi_os.Process.{
  TaskPtr, TaskLevel, level_tasks_max, find, shift_left, level_add, level_remove,
}

-- The level holds the tasks `q` in the first cells of its array of 100; `now` is one of them, or 0.
pub record IsLevel (tl : TaskLevel) (q : List TaskPtr) : Type 0 where
  pub rest : List TaskPtr
  pub cells : tl.tasks ≡ q ++ rest
  pub capacity : length q + length rest ≡ level_tasks_max
  pub counted : tl.running ≡ length q
  pub now_in : tl.now ≤ length q - 1

find_absent :
    (t : TaskPtr) (q rest : List TaskPtr)
    → has t q ≡ false
    → find (length q) t (q ++ rest) ≡ some (length q)
unfolding find
find_absent t [] rest o = refl
find_absent t (x ∷ q) rest o = ground (arith, find_absent t q rest (ground arith))

find_present :
    (t : TaskPtr) (l r rest : List TaskPtr)
    → has t l ≡ false
    → find (length (l ++ t ∷ r)) t ((l ++ t ∷ r) ++ rest) ≡ some (length l)
unfolding find
find_present t [] r rest o = ground (arith, ==_refl t)
find_present t (x ∷ l) r rest o = ground (arith, find_present t l r rest (ground arith))

get_elem?-append_length :
    (l : List TaskPtr) (x : TaskPtr) (r : List TaskPtr) → get_elem? (l ++ x ∷ r) (length l) ≡ some x
get_elem?-append_length [] x r = refl
get_elem?-append_length (y ∷ l) x r = get_elem?-append_length l x r

set-append_length :
    (l : List TaskPtr) (x v : TaskPtr) (r : List TaskPtr)
    → set (l ++ x ∷ r) (length l) v ≡ l ++ v ∷ r
set-append_length [] x v r = refl
set-append_length (y ∷ l) x v r = ap (λ m. y ∷ m) (set-append_length l x v r)

append_one : (l : List TaskPtr) (x : TaskPtr) (r : List TaskPtr) → l ++ x ∷ r ≡ (l ++ x ∷ []) ++ r
append_one [] x r = refl
append_one (y ∷ l) x r = ap (λ m. y ∷ m) (append_one l x r)

next_cell :
    (l : List TaskPtr) (t x : TaskPtr) (r : List TaskPtr)
    → get_elem? (l ++ t ∷ x ∷ r) (length l + 1) ≡ some x
next_cell l t x r =
    let one : length l + 1 ≡ length (l ++ t ∷ []) = omega (arith, length-append l (t ∷ [])) in
    rw (append_one l t (x ∷ r), one) (get_elem?-append_length (l ++ t ∷ []) x r)

cell_exists :
    (rest : List TaskPtr)
    → 0 < length rest
    → (y : TaskPtr) × (rest' : List TaskPtr) × (rest ≡ y ∷ rest')
cell_exists [] h = absurd (omega arith)
cell_exists (y ∷ rest') h = (y, rest', refl)

-- The loop moves the cells behind the one at `length l` one to the left.
shift_left_lem :
    (l : List TaskPtr) (t : TaskPtr) (r rest : List TaskPtr)
    → (z : TaskPtr) × (shift_left (length r) (length l) (l ++ t ∷ (r ++ rest))
        ≡ some ((l ++ r) ++ z ∷ rest))
unfolding shift_left
shift_left_lem l t [] rest = (t, simp (append-nil) refl)
shift_left_lem l t (x ∷ r) rest =
    let (z, e) = shift_left_lem (l ++ x ∷ []) x r rest in
    let one : length l + 1 ≡ length (l ++ x ∷ []) = omega (arith, length-append l (x ∷ [])) in
    let moved : set (l ++ t ∷ x ∷ (r ++ rest)) (length l) x ≡ (l ++ x ∷ []) ++ x ∷ (r ++ rest) =
      set-append_length l t x (x ∷ (r ++ rest)) ∙ append_one l x (x ∷ (r ++ rest)) in
    let done : some ((l ++ x ∷ r) ++ z ∷ rest) ≡ some (((l ++ x ∷ []) ++ r) ++ z ∷ rest) =
      ap (λ m. some (m ++ z ∷ rest)) (append_one l x r) in
    (z, rw (next_cell l t x (r ++ rest), done, moved, one) e)

-- An empty cell takes one more task.
pub level_add_lem :
    (tl : TaskLevel) (q : List TaskPtr) (t : TaskPtr)
    → IsLevel tl q
    → length q < level_tasks_max
    → (tl' : TaskLevel) × (level_add t tl ≡ some tl') × IsLevel tl' (q ++ t ∷ [])
unfolding level_add
level_add_lem tl q t v room =
    let (y, rest', e) = cell_exists v.rest (omega (arith, v.capacity)) in
    let one = length-append q (t ∷ []) in
    let shorter : length v.rest ≡ suc (length rest') = ap length e in
    (
      record tl { tasks = set tl.tasks tl.running t; running = add32 tl.running 1 },
      ground (arith, v.counted),
      record {
        rest = rest';
        cells = rw (v.cells, v.counted, e) (set-append_length q y t rest' ∙ append_one q t rest');
        capacity = omega (arith, one, v.capacity, shorter);
        counted = omega (arith, one, v.counted, room);
        now_in = omega (arith, one, v.now_in);
      },
    )

small_count : (tl : TaskLevel) (q : List TaskPtr) → IsLevel tl q → count32 tl.running ≡ length q
small_count tl q v = ground (arith, v.counted, v.capacity)

pub level_find_absent :
    (tl : TaskLevel) (q : List TaskPtr) (t : TaskPtr)
    → IsLevel tl q
    → has t q ≡ false
    → find (count32 tl.running) t tl.tasks ≡ some tl.running
level_find_absent tl q t v o =
    rw (small_count tl q v, v.cells, v.counted) (find_absent t q v.rest o)

-- `now` after a task has been taken out of a level, between the tasks `l` and `r`
abbrev pub now_after : ℕ → List TaskPtr → List TaskPtr → ℕ
now_after now l r =
    let now' = if ltb (length l) now then now - 1 else now in
    if ltb now' (length l + length r) then now' else 0

module _ (tl : TaskLevel) (l : List TaskPtr) (t : TaskPtr) (r : List TaskPtr)
    (v : IsLevel tl (l ++ t ∷ r)) (o : has t l ≡ false) where
  sizes : length (l ++ t ∷ r) ≡ length l + length r + 1
  sizes = omega (arith, length-append l (t ∷ r))

  pub level_find_present : find (count32 tl.running) t tl.tasks ≡ some (length l)
  level_find_present = rw (small_count tl (l ++ t ∷ r) v, v.cells) (find_present t l r v.rest o)

  -- A task of the level is taken out, and the others keep their order.
  pub level_remove_lem :
      (tl' : TaskLevel) × (level_remove t tl ≡ some tl')
      × IsLevel tl' (l ++ r)
      × (tl'.now ≡ now_after tl.now l r)
  unfolding level_remove
  level_remove_lem =
      let (z, e) = shift_left_lem l t r v.rest in
      let fewer : sub32 tl.running 1 ≡ length l + length r =
        omega (arith, sizes, v.counted, v.capacity) in
      let turns : count32 (sub32 tl.running 1) - length l ≡ length r =
        ground (arith, sizes, v.counted, v.capacity) in
      let shape : tl.tasks ≡ l ++ t ∷ (r ++ v.rest) = v.cells ∙ append_assoc l (t ∷ r) v.rest in
      let shifted : shift_left (count32 (sub32 tl.running 1) - length l) (length l) tl.tasks
          ≡ some ((l ++ r) ++ z ∷ v.rest) =
        rw (turns, shape) e in
      let both = length-append l r in
      (
        record {
          running = sub32 tl.running 1;
          now =
              if slt32 (if slt32 (length l) tl.now then sub32 tl.now 1 else tl.now)
                (sub32 tl.running 1)
              then (if slt32 (length l) tl.now then sub32 tl.now 1 else tl.now)
              else 0;
          tasks = (l ++ r) ++ z ∷ v.rest;
        },
        rw (level_find_present, shifted) refl,
        record {
          rest = z ∷ v.rest;
          cells = refl;
          capacity = omega (arith, both, sizes, v.capacity);
          counted = fewer ∙ sym both;
          now_in = ground (arith, both, sizes, v.capacity, v.now_in, fewer);
        },
        ground (arith, sizes, v.capacity, v.now_in, fewer),
      )

get_elem?-append_lt :
    (l r : List TaskPtr) (i : ℕ) → i < length l → get_elem? (l ++ r) i ≡ get_elem? l i
get_elem?-append_lt [] r i h = absurd (omega arith)
get_elem?-append_lt (x ∷ l) r zero h = refl
get_elem?-append_lt (x ∷ l) r (suc i) h = get_elem?-append_lt l r i (omega arith)

-- The task that `now` names is read from the list.
pub level_now :
    (tl : TaskLevel) (q : List TaskPtr)
    → IsLevel tl q
    → 0 < length q
    → get_elem? tl.tasks tl.now ≡ get_elem? q tl.now
level_now tl q v h = rw v.cells (get_elem?-append_lt q v.rest tl.now (omega (arith, v.now_in)))

skipped :
    (l r : List TaskPtr) (t : TaskPtr) (m : ℕ)
    → length l ≤ m
    → get_elem? (l ++ t ∷ r) (suc m) ≡ get_elem? (l ++ r) m
skipped [] r t m h = refl
skipped (x ∷ l) r t zero h = absurd (omega arith)
skipped (x ∷ l) r t (suc m) h = skipped l r t m (omega arith)

index_lt : (xs : List TaskPtr) (i : ℕ) (u : TaskPtr) → get_elem? xs i ≡ some u → i < length xs
index_lt xs i u e = elim (lt_cases i (length xs)) [
  | inl k ↦ k
  | inr k ↦ cc (get_elem?-eq-none xs i k, e)
]

-- The task that `now` names is still the one it names after the removal of another task.
pub kept_now :
    (l : List TaskPtr) (t : TaskPtr) (r : List TaskPtr) (n : ℕ) (u : TaskPtr)
    → get_elem? (l ++ t ∷ r) n ≡ some u
    → u ≢ t
    → get_elem? (l ++ r) (now_after n l r) ≡ some u
kept_now l t r n u e other =
    let k = index_lt (l ++ t ∷ r) n u e in
    let size = length-append l (t ∷ r) in
    elim (lt_cases n (length l)) [
      | inl before ↦
          let at : get_elem? (l ++ r) n ≡ some u =
            get_elem?-append_lt l r n before ∙ sym (get_elem?-append_lt l (t ∷ r) n before) ∙ e in
          let same : now_after n l r ≡ n = ground (arith, size) in rw same at
      | inr after ↦ elim (==_cases n (length l)) [
        | inl q ↦
            let it : get_elem? (l ++ t ∷ r) n ≡ some t = rw q (get_elem?-append_length l t r) in
            absurd (other (cc (e, it)))
        | inr q ↦
            let less : suc (n - 1) ≡ n = omega arith in
            let at : get_elem? (l ++ r) (n - 1) ≡ some u =
              sym (skipped l r t (n - 1) (omega arith)) ∙ ap (get_elem? (l ++ t ∷ r)) less ∙ e in
            let same : now_after n l r ≡ n - 1 = ground (arith, size) in rw same at
      ]
    ]

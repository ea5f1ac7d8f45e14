-- ===== src/HeapTable/Search.antt =====
-- `heap_get_start_block` of src/memory/heap.c: which block the search returns.
use unagi_os.Common.{
  ℕ, zero, suc, ◌+◌, ◌-◌, ◌≤◌, ◌<◌, ◌^◌, ◌≡◌, refl, ◌≢◌, ◌⊎◌, Bool, true, false, List, some, arith,
  ◌==◌, ==_refl, ne→==, subst, ==_cases, Bool-cases, inl, inr, length, get_or, get_elem?-eq-get_or,
}
use unagi_os.Common.Words.{add32}
use unagi_os.HeapTable.{Heap, entry_free, get_entry_type, enomem32, start_loop, get_start_block}

-- whether the block `i` of the table is free
abbrev pub is_free : List ℕ → ℕ → Bool
is_free es i = get_entry_type (get_or es i 1) == entry_free

-- The `n` blocks up to the block `i` are free.
abbrev pub RunEndsAt : List ℕ → ℕ → ℕ → Type 0
RunEndsAt es n i = (n ≤ i + 1) × ((j : ℕ) → i < j + n → j ≤ i → is_free es j ≡ true)

-- No `n` free blocks end before the block `i`.
abbrev pub NoRunBefore : List ℕ → ℕ → ℕ → Type 0
NoRunBefore es n i = (j : ℕ) → j < i → ¬ RunEndsAt es n j

-- `counter` blocks before `i` are free, and the one before them, if any, is not.
record IsCount (es : List ℕ) (i counter : ℕ) : Type 0 where
  within : counter ≤ i
  free_before : (j : ℕ) → i ≤ j + counter → j < i → is_free es j ≡ true
  taken_before : (counter ≡ i) ⊎ ((counter < i) × (is_free es (i - counter - 1) ≡ false))

-- What the search gives over `len` blocks: the last block of the first `n` free ones, or `-ENOMEM`.
abbrev pub Found : List ℕ → ℕ → ℕ → ℕ → Type 0
Found es n len r =
    ((r < len) × RunEndsAt es n r × NoRunBefore es n r) ⊎ ((r ≡ enomem32) × NoRunBefore es n len)

module _ (es : List ℕ) (total : ℕ) (some_block : 0 < total) where
  no_run_one_more :
      (i counter : ℕ)
      → IsCount es i counter
      → counter < total
      → (is_free es i ≡ false) ⊎ (counter + 1 < total)
      → NoRunBefore es total i
      → NoRunBefore es total (i + 1)
  no_run_one_more i counter k small why none_before j h (fits, run) = elim (==_cases j i) [
    | inr n ↦ none_before j (omega arith) (fits, run)
    | inl e ↦ elim why [
      | inl taken ↦ cc (run i (omega arith) (omega arith), taken)
      | inr more ↦ elim k.taken_before [
        | inl all ↦ omega arith
        | inr (lt, tk) ↦ cc (run (i - counter - 1) (omega arith) (omega arith), tk)
      ]
    ]
  ]

  counted_value :
      (n i counter r : ℕ)
      → i < length es
      → is_free es i ≡ true
      → counter < 2 ^ 31
      → counter + 1 ≢ total
      → start_loop es total n (i + 1) (counter + 1) ≡ some r
      → start_loop es total (suc n) i counter ≡ some r
  unfolding start_loop
  counted_value n i counter r lt free small part e =
      let plus : add32 counter 1 ≡ counter + 1 = omega arith in
      rw (get_elem?-eq-get_or es i 1 lt, free, plus, ne→== (counter + 1) total part) e

  reset_value :
      (n i counter r : ℕ)
      → i < length es
      → is_free es i ≡ false
      → start_loop es total n (i + 1) 0 ≡ some r
      → start_loop es total (suc n) i counter ≡ some r
  unfolding start_loop
  reset_value n i counter r lt taken e = rw (get_elem?-eq-get_or es i 1 lt, taken) e

  shifted : (n i r : ℕ) → Found es total (n + (i + 1)) r → Found es total (suc n + i) r
  shifted n i r f = let same : suc n + i ≡ n + (i + 1) = omega arith in rw same f

  start_loop_lem :
      (n i counter : ℕ)
      → n + i ≤ length es
      → length es < 2 ^ 31
      → IsCount es i counter
      → counter < total
      → NoRunBefore es total i
      → (r : ℕ) × (start_loop es total n i counter ≡ some r) × Found es total (n + i) r
  unfolding start_loop
  start_loop_lem zero i counter len small k c before =
      (enomem32, refl, inr (refl, λ j h. before j (omega arith)))
  start_loop_lem (suc n) i counter len small k c before =
      let read = get_elem?-eq-get_or es i 1 (omega arith) in
      elim (Bool-cases (is_free es i)) [
        | inl free ↦
            let upto : (j : ℕ) → i ≤ j + counter → j ≤ i → is_free es j ≡ true = λ j g h.
              elim (==_cases j i) [
                | inl e ↦ rw e free
                | inr ne ↦ k.free_before j g (omega arith)
              ] in
            let plus : add32 counter 1 ≡ counter + 1 = omega (arith, k.within) in
            elim (==_cases (counter + 1) total) [
              | inl whole ↦ (
                i,
                rw (read, free, plus, whole, ==_refl total) refl,
                inl (
                  omega arith,
                  (omega (arith, k.within), (λ j g h. upto j (omega arith) h)),
                  before,
                ),
              )
              | inr part ↦
                  let (r, e, f) =
                    start_loop_lem n (i + 1) (counter + 1) (omega arith) small
                      (record {
                        within = omega (arith, k.within);
                        free_before = λ j g h. upto j (omega arith) (omega arith);
                        taken_before = elim k.taken_before [
                          | inl all ↦ inl (omega arith)
                          | inr (lt, tk) ↦
                              let same : i + 1 - (counter + 1) - 1 ≡ i - counter - 1 =
                                omega arith in
                              inr (omega arith, rw same tk)
                        ];
                      })
                      (omega arith) (no_run_one_more i counter k c (inr (omega arith)) before) in
                  (
                    r,
                    counted_value n i counter r (omega arith) free (omega (arith, k.within)) part e,
                    shifted n i r f,
                  )
            ]
        | inr taken ↦
            let (r, e, f) =
              start_loop_lem n (i + 1) 0 (omega arith) small
                (record {
                  within = omega arith;
                  free_before = λ j g h. absurd (omega arith);
                  taken_before =
                      let same : i + 1 - 0 - 1 ≡ i = omega arith in
                      inr (omega arith, rw same taken);
                })
                some_block (no_run_one_more i counter k c (inl taken) before) in
            (r, reset_value n i counter r (omega arith) taken e, shifted n i r f)
      ]

-- `heap_get_start_block` of at least one block, over a table that has its entries, returns the LAST
-- block of the first run of free blocks of that length, and `-ENOMEM` if there is no such run.
pub get_start_block_lem :
    (h : Heap) (total : ℕ)
    → 0 < total
    → h.total_blocks ≤ length h.entries
    → length h.entries < 2 ^ 31
    → (r : ℕ) × (get_start_block h total ≡ some r) × Found h.entries total h.total_blocks r
unfolding get_start_block
get_start_block_lem h total some_block len small =
    let (r, e, f) =
      start_loop_lem h.entries total some_block h.total_blocks 0 0 (omega arith) small
        (record {
          within = omega arith;
          free_before = λ j g i. absurd (omega arith);
          taken_before = inl refl;
        })
        some_block (λ j i. absurd (omega arith)) in
    (
      r,
      e,
      let same : h.total_blocks + 0 ≡ h.total_blocks = omega arith in
          subst (λ n. Found h.entries total n r) same f,
    )

-- ===== src/PathParser/Free.antt =====
-- `path_free` of src/fs/pathparser.c.
use unagi_os.Common.{
  ℕ, zero, suc, ◌+◌, ◌≤◌, ◌≡◌, refl, Option, none, some, List, [], ◌∷◌, ◌>>=◌, length, get_elem?,
  get_elem?-set_ne, set, replicate, arith, ap, ◌∙◌,
}
use unagi_os.PathParser.{Name, PathRoot, path_max_length, collect, free_loop, free}

-- the entry at which the first loop stops is `NULL`, or behind the array
collect_end :
    (n i : ℕ) (parts : List Name) (ptrs : List (Option Name))
    → length parts ≤ n
    → ((j : ℕ) → i ≤ j → (get_elem? ptrs j >>= λ p. p) ≡ none)
    → (ptrs' : List (Option Name)) × (i' : ℕ) × (collect n i parts ptrs ≡ (ptrs', i', []))
      × ((get_elem? ptrs' i' >>= λ p. p) ≡ none)
unfolding collect
collect_end zero i [] ptrs h k = (ptrs, i, refl, k i (omega arith))
collect_end zero i (p ∷ parts) ptrs h k = absurd (omega arith)
collect_end (suc n) i [] ptrs h k = (ptrs, i, refl, k i (omega arith))
collect_end (suc n) i (p ∷ parts) ptrs h k =
    collect_end n (i + 1) parts (set ptrs i (some p)) (omega (arith, h)) (λ j le.
      ap (λ o. o >>= λ q. q) (get_elem?-set_ne ptrs i j (some p) (λ e. omega (arith, le, e)))
      ∙ k j (omega (arith, le)))

bind_none {ℓ} :
    {A : Type ℓ} (o : Option (Option Name)) (f : Name → Option A)
    → (o >>= λ p. p) ≡ none
    → (o >>= λ p. p >>= f) ≡ none
bind_none none f h = refl
bind_none (some none) f h = refl
bind_none (some (some w)) f h = absurd (cc h)

free_loop-none :
    (i : ℕ) (ptrs : List (Option Name))
    → (get_elem? ptrs i >>= λ p. p) ≡ none
    → free_loop i ptrs ≡ none
unfolding free_loop
free_loop-none zero ptrs h = bind_none (get_elem? ptrs 0) (λ name. some (name ∷ [])) h
free_loop-none (suc i) ptrs h =
    bind_none (get_elem? ptrs (suc i)) (λ name. free_loop i ptrs >>= λ rest. some (name ∷ rest)) h

abbrev null_part : Option Name
null_part = none

empty_entry : (n j : ℕ) → (get_elem? (replicate n null_part) j >>= λ p. p) ≡ none
empty_entry zero j = refl
empty_entry (suc n) zero = refl
empty_entry (suc n) (suc j) = empty_entry n j

-- `path_free` of a path with at most 4096 parts, as `path_parse` gives it, always uses a pointer that
-- was not set: it goes down from the index behind the last part.
pub free-none : (root : PathRoot) → length root.parts ≤ path_max_length → free root ≡ none
unfolding free
free-none root h =
    let (ptrs, i, e, k) =
      collect_end path_max_length 0 root.parts (replicate path_max_length none) h
        (λ j le. empty_entry path_max_length j) in
    rw e (rw (free_loop-none i ptrs k) refl)

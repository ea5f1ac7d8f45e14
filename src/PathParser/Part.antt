-- ===== src/PathParser/Part.antt =====
-- One part of a path, as `path_get_path_part` of src/fs/pathparser.c takes it.
use unagi_os.Common.{
  ℕ, zero, suc, ◌+◌, ◌-◌, ◌≤◌, ◌<◌, ◌≡◌, refl, ◌⊎◌, inl, inr, true, false, not, ◌&&◌, Bool-cases,
  none, some, List, [], ◌∷◌, ◌++◌, ◌==◌, ne→==, length, length-append, arith, ap, ◌∙◌,
}
use mathlib.Core.List.{append_assoc, append-nil}
use unagi_os.Dlist.Chain.{has}
use unagi_os.PathParser.{Name, slash, path_max_length, part_loop, get_path_part}

-- a name: not empty, and without a slash and a terminator
pub record IsName (w : Name) : Type 0 where
  pub nonempty : 0 < length w
  pub no_slash : has slash w ≡ false
  pub no_zero : has 0 w ≡ false

part_loop-next :
    (n c : ℕ) (path : List ℕ) (part : Name)
    → (c == 0) ≡ false
    → (c == slash && not (length part == 0)) ≡ false
    → part_loop (suc n) (c ∷ path) part ≡ part_loop n path (part ++ c ∷ [])
unfolding part_loop
part_loop-next n c path part z s = rw (z, s) refl

part_loop-stop :
    (n c : ℕ) (path : List ℕ) (part : Name)
    → (c == 0) ≡ false
    → (c == slash && not (length part == 0)) ≡ true
    → part_loop (suc n) (c ∷ path) part ≡ some (part, path)
unfolding part_loop
part_loop-stop n c path part z s = rw (z, s) refl

part_loop-end : (n : ℕ) (r : List ℕ) (part : Name) → part_loop n (0 ∷ r) part ≡ some (part, 0 ∷ r)
unfolding part_loop
part_loop-end zero r part = refl
part_loop-end (suc n) r part = refl

part_loop-name :
    (w : Name) (n k : ℕ) (rest : List ℕ) (part : Name)
    → has slash w ≡ false
    → has 0 w ≡ false
    → n ≡ length w + k
    → part_loop n (w ++ rest) part ≡ part_loop k rest (part ++ w)
part_loop-name [] n k rest part h z e =
    let same : n ≡ k = omega (arith, e) in rw (same, append-nil part) refl
part_loop-name (c ∷ w) zero k rest part h z e = absurd (omega (arith, e))
part_loop-name (c ∷ w) (suc n) k rest part h z e =
    let no_zero : (c == 0) ≡ false = ground (arith, z) in
    let no_slash : (c == slash && not (length part == 0)) ≡ false = ground (arith, h) in
    part_loop-next n c (w ++ rest) part no_zero no_slash
    ∙ part_loop-name w n k rest (part ++ c ∷ []) (ground (arith, h)) (ground (arith, z))
        (omega (arith, e))
    ∙ ap (part_loop k rest) (append_assoc part (c ∷ []) w)

pub get_path_part-parts :
    (path rest : List ℕ) (part : Name)
    → part_loop path_max_length path [] ≡ some (part, rest)
    → 0 < length part
    → get_path_part path ≡ some (some part, rest)
unfolding get_path_part
get_path_part-parts path rest part e h =
    let some_part : (length part == 0) ≡ false = ne→== (length part) 0 (omega (arith, h)) in
    rw (e, some_part) refl

-- A name before a slash is a part, and the path moves behind the slash.
pub get_path_part-slash :
    (w : Name) (rest : List ℕ)
    → IsName w
    → length w < path_max_length
    → get_path_part (w ++ slash ∷ rest) ≡ some (some w, rest)
get_path_part-slash w rest v h =
    let k = path_max_length - length w - 1 in
    let at : part_loop path_max_length (w ++ slash ∷ rest) [] ≡ part_loop (suc k) (slash ∷ rest) w =
      part_loop-name w path_max_length (suc k) (slash ∷ rest) [] v.no_slash v.no_zero
        (omega (arith, h)) in
    let stop : (slash == slash && not (length w == 0)) ≡ true = ground (arith, v.nonempty) in
    get_path_part-parts (w ++ slash ∷ rest) rest w (at ∙ part_loop-stop k slash rest w refl stop)
      v.nonempty

-- A name before the terminator is a part, and the path moves to the terminator.
pub get_path_part-last :
    (w : Name) (r : List ℕ)
    → IsName w
    → length w < path_max_length
    → get_path_part (w ++ 0 ∷ r) ≡ some (some w, 0 ∷ r)
get_path_part-last w r v h =
    let k = path_max_length - length w in
    let at : part_loop path_max_length (w ++ 0 ∷ r) [] ≡ part_loop k (0 ∷ r) w =
      part_loop-name w path_max_length k (0 ∷ r) [] v.no_slash v.no_zero (omega (arith, h)) in
    get_path_part-parts (w ++ 0 ∷ r) (0 ∷ r) w (at ∙ part_loop-end k r w) v.nonempty

-- At the terminator there is no part.
pub get_path_part-zero : (r : List ℕ) → get_path_part (0 ∷ r) ≡ some (none, 0 ∷ r)
unfolding get_path_part
get_path_part-zero r = rw (part_loop-end path_max_length r []) refl

-- On a string that is terminated in time the loop ends in it.
pub part_loop_total :
    (s r : List ℕ) (n : ℕ) (part : Name)
    → has 0 s ≡ false
    → length s ≤ n
    → (p : Name) × (s' : List ℕ) × (part_loop n (s ++ 0 ∷ r) part ≡ some (p, s' ++ 0 ∷ r))
      × (has 0 s' ≡ false)
      × (length p + length s' ≤ length part + length s)
      × ((length s ≡ 0) ⊎ (0 < length p))
      × (length part ≤ length p)
part_loop_total [] r n part z h =
    (part, [], part_loop-end n r part, refl, omega arith, inl refl, omega arith)
part_loop_total (c ∷ s) r zero part z h = absurd (omega (arith, h))
part_loop_total (c ∷ s) r (suc n) part z h =
    let here : (c == 0) ≡ false = ground (arith, z) in
    elim (Bool-cases (c == slash && not (length part == 0))) [
      | inl stop ↦
          let some_part : 0 < length part = ground (arith, stop) in
          (
            part,
            s,
            part_loop-stop n c (s ++ 0 ∷ r) part here stop,
            ground (arith, z),
            omega arith,
            inr some_part,
            omega arith,
          )
      | inr go ↦
          let (p, s', e, z', le, ne, grown) =
            part_loop_total s r n (part ++ c ∷ []) (ground (arith, z)) (omega (arith, h)) in
          let more = length-append part (c ∷ []) in
          (
            p,
            s',
            part_loop-next n c (s ++ 0 ∷ r) part here go ∙ e,
            z',
            omega (arith, le, more),
            inr (omega (arith, grown, more)),
            omega (arith, grown, more),
          )
    ]

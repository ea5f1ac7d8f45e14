-- ===== src/PathParser/Errors.antt =====
-- Which paths src/fs/pathparser.c refuses.
use unagi_os.Common.{
  ℕ, zero, suc, ◌-◌, ◌≤◌, ◌<◌, ◌≡◌, refl, ◌⊎◌, inl, inr, Bool, true, false, ◌&&◌, Bool-cases,
  Option, none, some, List, [], ◌∷◌, ◌++◌, ltb, leb, length, arith,
}
use unagi_os.Common.Int.{ℤ, pos}
use unagi_os.Dlist.Chain.{has}
use unagi_os.Kutil.Strings.Compare.{kstrlen_lem}
use unagi_os.PathParser.{
  Name, PathRoot, path_max_length, get_drive_number_by_path, get_path_part, parts_loop, parse_parts,
  parse,
}
use unagi_os.PathParser.Drive.{starts, get_drive_number-false, get_drive_number-true}
use unagi_os.PathParser.Part.{part_loop_total, get_path_part-parts, get_path_part-zero}
use unagi_os.PathParser.RoundTrip.{parts_loop-some, parts_loop-none, parse_parts-some}

-- a string of at most 4096 characters that begins with a digit, a colon and a slash, and goes on
abbrev pub accepts : List ℕ → Bool
accepts s = leb (length s) path_max_length && (starts s && leb 4 (length s))

get_path_part_total :
    (c : ℕ) (s r : List ℕ)
    → has 0 (c ∷ s) ≡ false
    → length (c ∷ s) ≤ path_max_length
    → (w : Name) × (s' : List ℕ) × (get_path_part ((c ∷ s) ++ 0 ∷ r) ≡ some (some w, s' ++ 0 ∷ r))
      × (has 0 s' ≡ false)
      × (length s' < length (c ∷ s))
get_path_part_total c s r z h =
    let (w, s', e, z', le, ne, _) = part_loop_total (c ∷ s) r path_max_length [] z h in
    elim ne [
      | inl nil ↦ absurd (omega (arith, nil))
      | inr some_part ↦ (
        w,
        s',
        get_path_part-parts ((c ∷ s) ++ 0 ∷ r) (s' ++ 0 ∷ r) w e some_part,
        z',
        omega (arith, le, some_part),
      )
    ]

parts_loop_total :
    (fuel : ℕ) (s r : List ℕ)
    → has 0 s ≡ false
    → length s ≤ path_max_length
    → length s < fuel
    → (ws : List Name) × (parts_loop fuel (s ++ 0 ∷ r) ≡ some ws)
parts_loop_total zero s r z h lt = absurd (omega arith)
parts_loop_total (suc fuel) [] r z h lt =
    ([], parts_loop-none fuel (0 ∷ r) (0 ∷ r) (get_path_part-zero r))
parts_loop_total (suc fuel) (c ∷ s) r z h lt =
    let (w, s', e, z', less) = get_path_part_total c s r z h in
    let (ws, e') =
      parts_loop_total fuel s' r z' (omega (arith, h, less)) (omega (arith, lt, less)) in
    (w ∷ ws, parts_loop-some fuel ((c ∷ s) ++ 0 ∷ r) (s' ++ 0 ∷ r) w ws e e')

parse_parts_zero : (fuel : ℕ) (drive : ℤ) (r : List ℕ) → parse_parts fuel drive (0 ∷ r) ≡ some none
unfolding parse_parts
parse_parts_zero fuel drive r = rw (get_path_part-zero r) refl

parse_parts_total :
    (fuel : ℕ) (drive : ℤ) (c : ℕ) (s r : List ℕ)
    → has 0 (c ∷ s) ≡ false
    → length (c ∷ s) ≤ path_max_length
    → length (c ∷ s) < fuel
    → (root : PathRoot) × (parse_parts fuel drive ((c ∷ s) ++ 0 ∷ r) ≡ some (some root))
parse_parts_total fuel drive c s r z h lt =
    let (w, s', e, z', less) = get_path_part_total c s r z h in
    let (ws, e') =
      parts_loop_total fuel s' r z' (omega (arith, h, less)) (omega (arith, lt, less)) in
    (
      record { drive_no = drive; parts = w ∷ ws },
      parse_parts-some fuel drive ((c ∷ s) ++ 0 ∷ r) (s' ++ 0 ∷ r) w ws e e',
    )

module _ (fuel : ℕ) (s r : List ℕ) (z : has 0 s ≡ false) where
  parse_long : ltb path_max_length (length s) ≡ true → parse fuel (s ++ 0 ∷ r) ≡ some none
  unfolding parse
  parse_long h = rw (kstrlen_lem s r z) (rw h refl)

  parse_bad :
      ltb path_max_length (length s) ≡ false
      → starts s ≡ false
      → parse fuel (s ++ 0 ∷ r) ≡ some none
  unfolding parse
  parse_bad h b = rw (kstrlen_lem s r z) (rw h (rw (get_drive_number-false s r z b) refl))

  parse_good :
      (drive : ℕ) (path : List ℕ) (o : Option (Option PathRoot))
      → ltb path_max_length (length s) ≡ false
      → get_drive_number_by_path (s ++ 0 ∷ r) ≡ some (pos drive, path)
      → parse_parts fuel (pos drive) path ≡ o
      → parse fuel (s ++ 0 ∷ r) ≡ o
  unfolding parse
  parse_good drive path o h e p = rw (kstrlen_lem s r z) (rw h (rw e p))

-- what `path_parse` gives for a string that it accepts, or not
abbrev pub Parses : ℕ → List ℕ → List ℕ → Type 0
Parses fuel s r =
    ((accepts s ≡ false) × (parse fuel (s ++ 0 ∷ r) ≡ some none))
    ⊎ ((accepts s ≡ true) × ((root : PathRoot) × (parse fuel (s ++ 0 ∷ r) ≡ some (some root))))

parse_start :
    (fuel c k l : ℕ) (s r : List ℕ)
    → has 0 (c ∷ k ∷ l ∷ s) ≡ false
    → length (c ∷ k ∷ l ∷ s) < fuel
    → ltb path_max_length (length (c ∷ k ∷ l ∷ s)) ≡ false
    → starts (c ∷ k ∷ l ∷ s) ≡ true
    → Parses fuel (c ∷ k ∷ l ∷ s) r
parse_start fuel c k l [] r z lt h b = inl (
  rw b refl,
  parse_good fuel (c ∷ k ∷ l ∷ []) r z (c - 48) (0 ∷ r) (some none) h
      (get_drive_number-true c k l [] r z b) (parse_parts_zero fuel (pos (c - 48)) r),
)
parse_start fuel c k l (x ∷ s) r z lt h b =
    let zx : has 0 (x ∷ s) ≡ false = ground (arith, z) in
    let size : length (c ∷ k ∷ l ∷ x ∷ s) ≤ path_max_length = ground (arith, h) in
    let (root, e) =
      parse_parts_total fuel (pos (c - 48)) x s r zx (omega (arith, size)) (omega (arith, lt)) in
    let short : leb (length (c ∷ k ∷ l ∷ x ∷ s)) path_max_length ≡ true = ground (arith, size) in
    let on : leb 4 (length (c ∷ k ∷ l ∷ x ∷ s)) ≡ true = ground arith in
    inr (
      rw (short, b, on) refl,
      (
        root,
        parse_good fuel (c ∷ k ∷ l ∷ x ∷ s) r z (c - 48) ((x ∷ s) ++ 0 ∷ r) (some (some root)) h
            (get_drive_number-true c k l (x ∷ s) r z b) e,
      ),
    )

-- a string that begins like a path has three characters
parse_from :
    (fuel : ℕ) (s r : List ℕ)
    → has 0 s ≡ false
    → length s < fuel
    → ltb path_max_length (length s) ≡ false
    → starts s ≡ true
    → Parses fuel s r
parse_from fuel (c ∷ k ∷ l ∷ s) r z lt h b = parse_start fuel c k l s r z lt h b
parse_from fuel [] r z lt h b = absurd (cc b)
parse_from fuel (c ∷ []) r z lt h b = absurd (cc b)
parse_from fuel (c ∷ k ∷ []) r z lt h b = absurd (cc b)

-- Of a terminated string, `path_parse` ends, with one more turn of its loop than the string has
-- characters as a bound: with `NULL` exactly if the string is longer than 4096, or does not
-- begin with a digit, a colon and a slash, or ends there, and else with a path.
pub parse_status : (fuel : ℕ) (s r : List ℕ) → has 0 s ≡ false → length s < fuel → Parses fuel s r
parse_status fuel s r z lt = elim (Bool-cases (ltb path_max_length (length s))) [
  | inl long ↦
      let no : leb (length s) path_max_length ≡ false = ground (arith, long) in
      inl (rw no refl, parse_long fuel s r z long)
  | inr fits ↦ elim (Bool-cases (starts s)) [
    | inl b ↦ parse_from fuel s r z lt fits b
    | inr b ↦
        let short : leb (length s) path_max_length ≡ true = ground (arith, fits) in
        inl (rw (short, b) refl, parse_bad fuel s r z fits b)
  ]
]

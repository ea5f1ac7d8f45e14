-- ===== src/PathParser/RoundTrip.antt =====
-- Paths of src/fs/pathparser.c, written and parsed.
use unagi_os.Common.{
  ℕ, zero, suc, ◌+◌, ◌≤◌, ◌<◌, ◌≡◌, refl, false, none, some, List, [], ◌∷◌, ◌++◌, ltb, length,
  length-append, arith, ap, ◌∙◌,
}
use mathlib.Core.List.{append_assoc}
use unagi_os.Common.Int.{ℤ, pos}
use unagi_os.Dlist.Chain.{has}
use unagi_os.Dlist.Update.{has-append}
use unagi_os.Kutil.Strings.Compare.{kstrlen_lem}
use unagi_os.PathParser.{
  Name, slash, colon, path_max_length, get_path_part, parts_loop, parse_parts,
  get_drive_number_by_path, parse,
}
use unagi_os.PathParser.Drive.{get_drive_number-drive, not_ltb}
use unagi_os.PathParser.Part.{IsName, get_path_part-slash, get_path_part-last, get_path_part-zero}

abbrev pub AllNames : List Name → Type 0
AllNames [] = Unit
AllNames (w ∷ ws) = IsName w × AllNames ws

-- the names of a path, with a slash between two
abbrev pub text : List Name → List ℕ
text [] = []
text (w ∷ []) = w
text (w ∷ v ∷ ws) = w ++ slash ∷ text (v ∷ ws)

-- a path of a drive from 0 to 9
abbrev pub print : ℕ → List Name → List ℕ
print d ws = (48 + d) ∷ colon ∷ slash ∷ text ws

get_path_part-text :
    (w : Name) (ws : List Name) (r : List ℕ)
    → AllNames (w ∷ ws)
    → length (text (w ∷ ws)) < path_max_length
    → get_path_part (text (w ∷ ws) ++ 0 ∷ r) ≡ some (some w, text ws ++ 0 ∷ r)
get_path_part-text w [] r (n, _) h = get_path_part-last w r n h
get_path_part-text w (v ∷ ws) r (n, _) h =
    let size = length-append w (slash ∷ text (v ∷ ws)) in
    ap get_path_part (append_assoc w (slash ∷ text (v ∷ ws)) (0 ∷ r))
    ∙ get_path_part-slash w (text (v ∷ ws) ++ 0 ∷ r) n (omega (arith, h, size))

length-text : (w : Name) (ws : List Name) → length (text ws) ≤ length (text (w ∷ ws))
length-text w [] = omega arith
length-text w (v ∷ ws) = omega (arith, length-append w (slash ∷ text (v ∷ ws)))

pub parts_loop-some :
    (fuel : ℕ) (path rest : List ℕ) (w : Name) (ws : List Name)
    → get_path_part path ≡ some (some w, rest)
    → parts_loop fuel rest ≡ some ws
    → parts_loop (suc fuel) path ≡ some (w ∷ ws)
unfolding parts_loop
parts_loop-some fuel path rest w ws e r = rw e (rw r refl)

pub parts_loop-none :
    (fuel : ℕ) (path rest : List ℕ)
    → get_path_part path ≡ some (none, rest)
    → parts_loop (suc fuel) path ≡ some []
unfolding parts_loop
parts_loop-none fuel path rest e = rw e refl

parts_loop-text :
    (fuel : ℕ) (ws : List Name) (r : List ℕ)
    → AllNames ws
    → length ws < fuel
    → length (text ws) < path_max_length
    → parts_loop fuel (text ws ++ 0 ∷ r) ≡ some ws
parts_loop-text zero ws r n lt h = absurd (omega arith)
parts_loop-text (suc fuel) [] r n lt h = parts_loop-none fuel (0 ∷ r) (0 ∷ r) (get_path_part-zero r)
parts_loop-text (suc fuel) (w ∷ ws) r n lt h =
    parts_loop-some fuel (text (w ∷ ws) ++ 0 ∷ r) (text ws ++ 0 ∷ r) w ws
      (get_path_part-text w ws r n h)
      (parts_loop-text fuel ws r n.1 (omega (arith, lt)) (omega (arith, h, length-text w ws)))

pub parse_parts-some :
    (fuel : ℕ) (drive : ℤ) (path rest : List ℕ) (w : Name) (ws : List Name)
    → get_path_part path ≡ some (some w, rest)
    → parts_loop fuel rest ≡ some ws
    → parse_parts fuel drive path ≡ some (some (record { drive_no = drive; parts = w ∷ ws }))
unfolding parse_parts
parse_parts-some fuel drive path rest w ws e r = rw e (rw r refl)

has-text : (ws : List Name) → AllNames ws → has 0 (text ws) ≡ false
has-text [] n = refl
has-text (w ∷ []) n = n.0.no_zero
has-text (w ∷ v ∷ ws) n =
    has-append 0 w (slash ∷ text (v ∷ ws)) ∙ rw (n.0.no_zero, has-text (v ∷ ws) n.1) refl

has-print : (d : ℕ) (ws : List Name) → AllNames ws → has 0 (print d ws) ≡ false
has-print d ws n = let t = has-text ws n in ground (arith, t)

-- `path_parse` of the text of a path, with a drive from 0 to 9 and at least one name, each not empty
-- and without a slash and a terminator, gives this drive and these names, if the text has at most
-- 4096 characters; whatever follows the terminator.
pub parse-print :
    (fuel d : ℕ) (w : Name) (ws : List Name) (r : List ℕ)
    → d < 10
    → AllNames (w ∷ ws)
    → length ws < fuel
    → length (print d (w ∷ ws)) ≤ path_max_length
    → parse fuel (print d (w ∷ ws) ++ 0 ∷ r)
      ≡ some (some (record { drive_no = pos d; parts = w ∷ ws }))
unfolding parse
parse-print fuel d w ws r digit n lt size =
    let t = text (w ∷ ws) in
    let numbered : get_drive_number_by_path (print d (w ∷ ws) ++ 0 ∷ r) ≡ some (pos d, t ++ 0 ∷ r) =
      get_drive_number-drive d t r digit (has-text (w ∷ ws) n) in
    let len = kstrlen_lem (print d (w ∷ ws)) r (has-print d (w ∷ ws) n) in
    let fits : ltb path_max_length (length (print d (w ∷ ws))) ≡ false =
      not_ltb path_max_length _ size in
    let parts =
      parse_parts-some fuel (pos d) (t ++ 0 ∷ r) (text ws ++ 0 ∷ r) w ws
        (get_path_part-text w ws r n (omega (arith, size)))
        (parts_loop-text fuel ws r n.1 lt (omega (arith, size, length-text w ws))) in
    rw len (rw fits (rw numbered parts))

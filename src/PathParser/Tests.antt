-- ===== src/PathParser/Tests.antt =====
-- Tests of the model of src/fs/pathparser.c, and the inputs at which its theorems are applied.
use unagi_os.Common.{ℕ, ◌≡◌, refl, some, none, List, [], ◌∷◌, ◌++◌, arith}
use unagi_os.Common.Int.{pos}
use unagi_os.Kutil.Strings
use unagi_os.PathParser.{
  PathRoot, parse, get_path_part, parts_loop, get_drive_number_by_path, valid_format, parse_parts,
  part_loop, free,
}
use unagi_os.PathParser.Part.{IsName}
use unagi_os.PathParser.RoundTrip.{print, parse-print}
use unagi_os.PathParser.Errors.{Parses, parse_status}
use unagi_os.PathParser.Free.{free-none}

-- "0:/opt/bin"
abbrev opt_bin : List ℕ
opt_bin = 48 ∷ 58 ∷ 47 ∷ 111 ∷ 112 ∷ 116 ∷ 47 ∷ 98 ∷ 105 ∷ 110 ∷ []

abbrev opt_bin_root : PathRoot
opt_bin_root = record {
  drive_no = pos 0;
  parts = (111 ∷ 112 ∷ 116 ∷ []) ∷ (98 ∷ 105 ∷ 110 ∷ []) ∷ [];
}

parse-opt_bin : parse 3 (opt_bin ++ 0 ∷ []) ≡ some (some opt_bin_root)
unfolding parse Strings.kstrlen Strings.kstrnlen Strings.kmemcmp get_path_part parts_loop
    get_drive_number_by_path valid_format parse_parts part_loop
parse-opt_bin = refl

-- "0:///a": a slash at the start of a part is kept
parse-slashes :
    parse 4 (48 ∷ 58 ∷ 47 ∷ 47 ∷ 47 ∷ 97 ∷ 0 ∷ [])
    ≡ some (some (record { drive_no = pos 0; parts = (47 ∷ []) ∷ (97 ∷ []) ∷ [] }))
unfolding parse Strings.kstrlen Strings.kstrnlen Strings.kmemcmp get_path_part parts_loop
    get_drive_number_by_path valid_format parse_parts part_loop
parse-slashes = refl

opt-IsName : IsName (111 ∷ 112 ∷ 116 ∷ [])
opt-IsName = record { nonempty = omega arith; no_slash = refl; no_zero = refl }

bin-IsName : IsName (98 ∷ 105 ∷ 110 ∷ [])
bin-IsName = record { nonempty = omega arith; no_slash = refl; no_zero = refl }

parse-print_example :
    parse 2 (print 0 ((111 ∷ 112 ∷ 116 ∷ []) ∷ (98 ∷ 105 ∷ 110 ∷ []) ∷ []) ++ 0 ∷ 7 ∷ [])
    ≡ some (some opt_bin_root)
parse-print_example =
    parse-print 2 0 (111 ∷ 112 ∷ 116 ∷ []) ((98 ∷ 105 ∷ 110 ∷ []) ∷ []) (7 ∷ []) (omega arith)
      (opt-IsName, (bin-IsName, tt)) (omega arith) (omega arith)

parse_status_example : Parses 11 opt_bin (7 ∷ [])
parse_status_example = parse_status 11 opt_bin (7 ∷ []) refl (omega arith)

free-none_example : free opt_bin_root ≡ none
free-none_example = free-none opt_bin_root (omega arith)

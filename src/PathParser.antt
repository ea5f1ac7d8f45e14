-- ===== src/PathParser.antt =====
-- src/fs/pathparser.c and pathparser.h: paths such as "0:/opt/bin".
--
-- A string is the list of the bytes from its address on; a `const char *` that is moved is the rest
-- of that list. A `PATH_ROOT *` or a string that may be `NULL` is an option. `kzalloc` is taken to
-- give memory. A read behind the end of a list, the use of `NULL`, and a loop whose fuel runs out, are
-- a fault: `none`.
pub mod Drive
pub mod Part
pub mod RoundTrip
pub mod Errors
pub mod Free
mod Tests
use unagi_os.Common.{
  ℕ, zero, suc, ◌+◌, ◌-◌, Bool, true, false, not, ◌&&◌, Option, none, some, List, [], ◌∷◌, ◌++◌,
  ◌==◌, ltb, leb, if◌then◌else◌, ◌>>=◌, length, get_elem?, replicate, set, drop,
}
use unagi_os.Common.Int.{ℤ, pos, negsuc}
use unagi_os.Status.{ebadpath}
use unagi_os.Kutil.Strings.{kstrlen, kstrnlen, kmemcmp, is_digit, to_digit}

-- `OS_PATH_MAX_LENGTH`
abbrev pub path_max_length : ℕ
path_max_length = 4096

-- the characters '/' and ':'
abbrev pub slash : ℕ
slash = 47

abbrev pub colon : ℕ
colon = 58

-- a name in a path
abbrev pub Name : Type 0
Name = List ℕ

-- `PATH_ROOT`, with the `part` of each `PATH_PART`, in order
pub record PathRoot : Type 0 where
  pub drive_no : ℤ
  pub parts : List Name

abbrev pub is_zero : ℤ → Bool
is_zero (pos zero) = true
is_zero (pos (suc n)) = false
is_zero (negsuc n) = false

abbrev pub is_negative : ℤ → Bool
is_negative (pos n) = false
is_negative (negsuc n) = true

-- `path_valid_format`
unfoldable pub valid_format : Option (List ℕ) → Option Bool
valid_format none = some false
valid_format (some s) =
    let second = kmemcmp (drop 1 s) (colon ∷ slash ∷ 0 ∷ []) 2 >>= λ d. some (is_zero d) in
    let first = get_elem? s 0 >>= λ c. if is_digit c then second else some false in
    kstrnlen s path_max_length >>= λ len. if leb 3 len then first else some false

-- `path_get_drive_number_by_path`: the number or the error, and the path moved
unfoldable pub get_drive_number_by_path : List ℕ → Option (ℤ × List ℕ)
get_drive_number_by_path s =
    let found = get_elem? s 0 >>= λ c. some (to_digit c, drop 3 s) in
    valid_format (some s) >>= λ valid. if valid then found else some (ebadpath, s)

-- the loop of `path_get_path_part` with `n` turns left, where `part` is stored: the characters stored
-- at its end, and the path moved. None of them is 0, so `kstrnlen` of the buffer is their number.
unfoldable pub part_loop : ℕ → List ℕ → Name → Option (Name × List ℕ)
part_loop zero path part = some (part, path)
part_loop (suc n) [] part = none
part_loop (suc n) (c ∷ path) part =
    let rest = part_loop n path (part ++ c ∷ []) in
    if c == 0
    then some (part, c ∷ path)
    else if c == slash && not (length part == 0)
    then some (part, path)
    else rest

-- `path_get_path_part`: the part or `NULL`, and the path moved
unfoldable pub get_path_part : List ℕ → Option (Option Name × List ℕ)
get_path_part path = part_loop path_max_length path [] >>= λ (part, rest).
    some (if length part == 0 then none else some part, rest)

-- the `while` loop of `path_parse`, with `path_create_part`: the parts that it appends
unfoldable pub parts_loop : ℕ → List ℕ → Option (List Name)
parts_loop zero path = none
parts_loop (suc fuel) path = get_path_part path >>= λ (part, rest). elim part [
  | none ↦ some []
  | some name ↦ parts_loop fuel rest >>= λ names. some (name ∷ names)
]

-- the end of `path_parse`, behind the drive's number
unfoldable pub parse_parts : ℕ → ℤ → List ℕ → Option (Option PathRoot)
parse_parts fuel drive path = get_path_part path >>= λ (part, rest). elim part [
  | none ↦ some none
  | some name ↦ parts_loop fuel rest >>= λ names.
      some (some (record { drive_no = drive; parts = name ∷ names }))
]

-- `path_parse`: `some none` is `NULL`
unfoldable pub parse : ℕ → List ℕ → Option (Option PathRoot)
parse fuel s =
    let numbered = get_drive_number_by_path s >>= λ (drive, rest).
    if is_negative drive then some none else parse_parts fuel drive rest in
    kstrlen s >>= λ len. if ltb path_max_length len then some none else numbered

-- the first loop of `path_free`, with `n` turns left, at the index `i`: `pt_ptr`, where it stops,
-- and the parts that are left
unfoldable pub collect : ℕ → ℕ → List Name → List (Option Name) → List (Option Name) × ℕ × List Name
collect zero i parts ptrs = (ptrs, i, parts)
collect (suc n) i [] ptrs = (ptrs, i, [])
collect (suc n) i (p ∷ parts) ptrs = collect n (i + 1) parts (set ptrs i (some p))

-- the second loop, from the index `i` down: the parts that it frees
unfoldable pub free_loop : ℕ → List (Option Name) → Option (List Name)
free_loop zero ptrs = do entry ← get_elem? ptrs 0; name ← entry; some (name ∷ [])
free_loop (suc i) ptrs = do
  entry ← get_elem? ptrs (suc i)
  name ← entry
  rest ← free_loop i ptrs
  some (name ∷ rest)

-- `path_free`: what it returns, as an `int32_t`, and the parts that it frees
unfoldable pub free : PathRoot → Option (ℤ × List Name)
free root =
    let (ptrs, i, left) = collect path_max_length 0 root.parts (replicate path_max_length none) in
    let freed = free_loop i ptrs >>= λ names. some (pos 0, names) in
    if length left == 0 then freed else some (ebadpath, [])

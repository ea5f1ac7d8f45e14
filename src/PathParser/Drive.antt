-- ===== src/PathParser/Drive.antt =====
-- The start of a path, as `path_get_drive_number_by_path` of src/fs/pathparser.c takes it.
use unagi_os.Common.{
  ℕ, ◌+◌, ◌-◌, ◌≤◌, ◌<◌, ◌≡◌, refl, inl, inr, Bool, true, false, ◌&&◌, Bool-cases, Option, none,
  some, List, [], ◌∷◌, ◌++◌, ◌==◌, ltb, leb, if◌then◌else◌, ◌>>=◌, length, arith, ap, ◌∙◌,
}
use unagi_os.Common.Int.{pos}
use unagi_os.Status.{ebadpath}
use unagi_os.Dlist.Chain.{has}
use unagi_os.Kutil.Strings.{kstrnlen, kmemcmp, is_digit}
use unagi_os.Kutil.Strings.Compare.{kstrnlen_lem}
use unagi_os.PathParser.{
  slash, colon, path_max_length, is_zero, valid_format, get_drive_number_by_path,
}

pub not_ltb : (a b : ℕ) → b ≤ a → ltb a b ≡ false
not_ltb a b h = ground (arith, h)

-- whether a string begins with a digit, a colon and a slash
abbrev pub starts : List ℕ → Bool
starts [] = false
starts (c ∷ []) = false
starts (c ∷ k ∷ []) = false
starts (c ∷ k ∷ l ∷ s) = is_digit c && (k == colon && l == slash)

kmemcmp-start :
    (k l : ℕ) (s : List ℕ)
    → (kmemcmp (k ∷ l ∷ s) (colon ∷ slash ∷ 0 ∷ []) 2 >>= λ d. some (is_zero d))
      ≡ some (k == colon && l == slash)
unfolding kmemcmp
kmemcmp-start k l s = elim (Bool-cases (k == colon)) [
  | inl a ↦ elim (Bool-cases (l == slash)) [
    | inl b ↦ rw (a, b) refl
    | inr b ↦ elim (Bool-cases (ltb l slash)) [
      | inl c ↦ rw (a, b, c) refl
      | inr c ↦ rw (a, b, c) refl
    ]
  ]
  | inr a ↦ elim (Bool-cases (ltb k colon)) [ inl c ↦ rw (a, c) refl | inr c ↦ rw (a, c) refl ]
]

module _ (max : ℕ) (three : 3 ≤ max) where
  kstrnlen-short :
      (s r : List ℕ)
      → has 0 s ≡ false
      → length s < 3
      → (kstrnlen (s ++ 0 ∷ r) max >>= λ len. some (leb 3 len)) ≡ some false
  kstrnlen-short s r z h =
      let fits : ltb max (length s) ≡ false = not_ltb max (length s) (omega (arith, three, h)) in
      let short : leb 3 (length s) ≡ false = ground (arith, h) in
      rw (kstrnlen_lem s r max z, fits, short) refl

  kstrnlen-long :
      (s r : List ℕ)
      → has 0 s ≡ false
      → 3 ≤ length s
      → (kstrnlen (s ++ 0 ∷ r) max >>= λ len. some (leb 3 len)) ≡ some true
  kstrnlen-long s r z h = elim (Bool-cases (ltb max (length s))) [
    | inl t ↦
        let long : leb 3 max ≡ true = ground (arith, three) in
        rw (kstrnlen_lem s r max z, t, long) refl
    | inr f ↦
        let long : leb 3 (length s) ≡ true = ground (arith, h) in
        rw (kstrnlen_lem s r max z, f, long) refl
  ]

bind_if :
    (o : Option ℕ) (b : Bool) (x y : Option Bool)
    → (o >>= λ len. some (leb 3 len)) ≡ some b
    → (o >>= λ len. if leb 3 len then x else y) ≡ (if b then x else y)
bind_if none b x y e = absurd (cc e)
bind_if (some n) b x y e = let same : leb 3 n ≡ b = cc e in rw same refl

max_three : 3 ≤ path_max_length
max_three = omega arith

valid_format_short :
    (s r : List ℕ) → has 0 s ≡ false → length s < 3 → valid_format (some (s ++ 0 ∷ r)) ≡ some false
unfolding valid_format
valid_format_short s r z h =
    bind_if (kstrnlen (s ++ 0 ∷ r) path_max_length) false _ (some false)
      (kstrnlen-short path_max_length max_three s r z h)

-- `path_valid_format` accepts a terminated string exactly if it begins with a digit, a colon and a
-- slash.
pub valid_format_lem :
    (s r : List ℕ) → has 0 s ≡ false → valid_format (some (s ++ 0 ∷ r)) ≡ some (starts s)
unfolding valid_format
valid_format_lem [] r z = valid_format_short [] r z (omega arith)
valid_format_lem (c ∷ []) r z = valid_format_short (c ∷ []) r z (omega arith)
valid_format_lem (c ∷ k ∷ []) r z = valid_format_short (c ∷ k ∷ []) r z (omega arith)
valid_format_lem (c ∷ k ∷ l ∷ s) r z =
    bind_if (kstrnlen ((c ∷ k ∷ l ∷ s) ++ 0 ∷ r) path_max_length) true _ (some false)
      (kstrnlen-long path_max_length max_three (c ∷ k ∷ l ∷ s) r z (omega arith))
    ∙ elim (Bool-cases (is_digit c)) [
      | inl d ↦ rw (d, kmemcmp-start k l (s ++ 0 ∷ r)) refl
      | inr d ↦ rw d refl
    ]

pub get_drive_number-false :
    (s r : List ℕ)
    → has 0 s ≡ false
    → starts s ≡ false
    → get_drive_number_by_path (s ++ 0 ∷ r) ≡ some (ebadpath, s ++ 0 ∷ r)
unfolding get_drive_number_by_path
get_drive_number-false s r z h = rw (valid_format_lem s r z, h) refl

pub get_drive_number-true :
    (c k l : ℕ) (s r : List ℕ)
    → has 0 (c ∷ k ∷ l ∷ s) ≡ false
    → starts (c ∷ k ∷ l ∷ s) ≡ true
    → get_drive_number_by_path ((c ∷ k ∷ l ∷ s) ++ 0 ∷ r) ≡ some (pos (c - 48), s ++ 0 ∷ r)
unfolding get_drive_number_by_path
get_drive_number-true c k l s r z h =
    let digit : leb 48 c ≡ true = ground (arith, h) in
    rw (valid_format_lem (c ∷ k ∷ l ∷ s) r z, h, digit) refl

pub get_drive_number-drive :
    (d : ℕ) (s r : List ℕ)
    → d < 10
    → has 0 s ≡ false
    → get_drive_number_by_path (((48 + d) ∷ colon ∷ slash ∷ s) ++ 0 ∷ r) ≡ some (pos d, s ++ 0 ∷ r)
get_drive_number-drive d s r h z =
    let back : 48 + d - 48 ≡ d = omega arith in
    let digit : starts ((48 + d) ∷ colon ∷ slash ∷ s) ≡ true = ground (arith, h) in
    get_drive_number-true (48 + d) colon slash s r (ground (arith, z)) digit
    ∙ ap (λ x. some (pos x, s ++ 0 ∷ r)) back

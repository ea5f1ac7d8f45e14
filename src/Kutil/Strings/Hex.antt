-- ===== src/Kutil/Strings/Hex.antt =====
-- `hex_to_ascii` of src/util/kutil.c against the number that its digits stand for.
use unagi_os.Common.{
  ℕ, zero, suc, ◌+◌, ◌-◌, ◌*◌, ◌/◌, ◌%◌, ◌≤◌, ◌<◌, ◌≡◌, refl, false, ◌==◌, ltb, if◌then◌else◌, some,
  List, [], ◌∷◌, length, get_or, get_elem?-eq-get_or, arith, ap, ◌∙◌,
}
use unagi_os.Kutil.Strings.{hex_char, hex_to_ascii}

-- the value of a hexadecimal digit's character
abbrev pub hex_value : ℕ → ℕ
hex_value c = if ltb c 58 then c - 48 else c - 87

-- the number that a terminated string of hexadecimal digits stands for, behind the number `v`
abbrev pub parse_hex : List ℕ → ℕ → ℕ
parse_hex [] v = v
parse_hex (c ∷ s) v = let rest = parse_hex s (v * 16 + hex_value c) in if c == 0 then v else rest

-- the number whose bytes are those of the list from the `n`th down to the first, behind `v`
abbrev pub number : List ℕ → ℕ → ℕ → ℕ
number bytes zero v = v
number bytes (suc n) v = number bytes n (v * 256 + get_or bytes n 0 % 256)

hex_value_char : (d : ℕ) → d < 16 → hex_value (hex_char d) ≡ d
hex_value_char d h = ground arith

hex_digits :
    (bytes : List ℕ) (n : ℕ) (s : List ℕ)
    → n < length bytes
    → hex_to_ascii bytes n ≡ some s
    → hex_to_ascii bytes (suc n)
      ≡ some (hex_char (get_or bytes n 0 / 16 % 16) ∷ hex_char (get_or bytes n 0 % 16) ∷ s)
unfolding hex_to_ascii
hex_digits bytes n s h e = rw (get_elem?-eq-get_or bytes n 0 h, e) refl

parse_two :
    (d e : ℕ) (s : List ℕ) (v : ℕ)
    → d < 16
    → e < 16
    → parse_hex (hex_char d ∷ hex_char e ∷ s) v ≡ parse_hex s ((v * 16 + d) * 16 + e)
parse_two d e s v h k =
    let first : (hex_char d == 0) ≡ false = ground arith in
    let second : (hex_char e == 0) ≡ false = ground arith in
    rw (first, second, hex_value_char d h, hex_value_char e k) refl

-- The digits that `hex_to_ascii` writes for `n` bytes stand for the number that these bytes are,
-- the first of them the lowest.
pub hex_to_ascii_lem :
    (bytes : List ℕ) (n v : ℕ)
    → n ≤ length bytes
    → (s : List ℕ) × (hex_to_ascii bytes n ≡ some s) × (parse_hex s v ≡ number bytes n v)
unfolding hex_to_ascii
hex_to_ascii_lem bytes zero v h = (0 ∷ [], refl, refl)
hex_to_ascii_lem bytes (suc n) v h =
    let byte = get_or bytes n 0 in
    let (s, e, p) = hex_to_ascii_lem bytes n (v * 256 + byte % 256) (omega arith) in
    let both : (v * 16 + byte / 16 % 16) * 16 + byte % 16 ≡ v * 256 + byte % 256 = omega arith in
    (
      hex_char (byte / 16 % 16) ∷ hex_char (byte % 16) ∷ s,
      hex_digits bytes n s h e,
      parse_two (byte / 16 % 16) (byte % 16) s v (omega arith) (omega arith)
          ∙ ap (parse_hex s) both
          ∙ p,
    )

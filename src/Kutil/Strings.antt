-- ===== src/Kutil/Strings.antt =====
-- src/util/kutil.c: strings and regions of memory, as lists of the bytes from an address on. A
-- read or a write behind the end of a list is a fault: `none`.
pub mod Compare
pub mod Hex
use unagi_os.Common.{
  ℕ, zero, suc, ◌+◌, ◌-◌, ◌*◌, ◌/◌, ◌%◌, ◌≤◌, ◌<◌, ◌≡◌, refl, ◌≢◌, ◌⊎◌, inl, inr, ◌↔◌, Bool, true,
  false, not, ◌&&◌, ◌||◌, ◌==◌, ==_refl, ne→==, ==_cases, Bool-cases, ltb, leb, if◌then◌else◌,
  Option, some, none, ◌>>=◌, List, [], ◌∷◌, ◌++◌, length, get_elem?, get_or, get_elem?-eq-get_or,
  arith, ap, ap₂, subst, sym, ◌∙◌,
}
use unagi_os.Common.Int.{ℤ, pos, negsuc, sub_ℕ, pos_part, neg_part}
use unagi_os.Dlist.Chain.{has}

-- `kstrlen`
unfoldable pub kstrlen : List ℕ → Option ℕ
kstrlen [] = none
kstrlen (c ∷ s) = let rest = kstrlen s in if c == 0 then some 0 else rest >>= λ n. some (n + 1)

-- `kstrnlen`
unfoldable pub kstrnlen : List ℕ → ℕ → Option ℕ
kstrnlen s zero = some 0
kstrnlen [] (suc max) = none
kstrnlen (c ∷ s) (suc max) =
    let rest = kstrnlen s max in if c == 0 then some 0 else rest >>= λ n. some (n + 1)

-- `kstrcmp`
unfoldable pub kstrcmp : List ℕ → List ℕ → Option ℤ
kstrcmp [] t = none
kstrcmp (a ∷ s) [] = none
kstrcmp (a ∷ s) (b ∷ t) =
    let rest = kstrcmp s t in if not (a == 0) && a == b then rest else some (sub_ℕ a b)

-- `kmemcmp`
unfoldable pub kmemcmp : List ℕ → List ℕ → ℕ → Option ℤ
kmemcmp s t zero = some (pos 0)
kmemcmp [] t (suc n) = none
kmemcmp (a ∷ s) [] (suc n) = none
kmemcmp (a ∷ s) (b ∷ t) (suc n) =
    let rest = kmemcmp s t n in if a == b then rest else some (if ltb a b then negsuc 0 else pos 1)

-- `hex_chars[d]`
abbrev pub hex_char : ℕ → ℕ
hex_char d = if ltb d 10 then 48 + d else 87 + d

-- `hex_to_ascii`: the characters that it writes, from the `n`th byte down to the first, and the end
unfoldable pub hex_to_ascii : List ℕ → ℕ → Option (List ℕ)
hex_to_ascii bytes zero = some (0 ∷ [])
hex_to_ascii bytes (suc n) = do
  byte ← get_elem? bytes n
  rest ← hex_to_ascii bytes n
  some (hex_char (byte / 16 % 16) ∷ hex_char (byte % 16) ∷ rest)

-- `is_digit`
abbrev pub is_digit : ℕ → Bool
is_digit c = leb 48 c && leb c 57

-- `to_digit`
abbrev pub to_digit : ℕ → ℤ
to_digit c = sub_ℕ c 48

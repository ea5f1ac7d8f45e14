-- ===== src/Kutil/Tests.antt =====
-- Tests of the model of src/util/kutil.c, and the inputs at which its theorems are applied.
use unagi_os.Common.{
  ℕ, zero, suc, ◌<◌, ◌+◌, ◌-◌, ◌==◌, if◌then◌else◌, inl, ◌≡◌, ◌≢◌, refl, arith, List, [], ◌∷◌, ◌++◌,
  some,
}
use unagi_os.Common.Int.{pos, negsuc}
use unagi_os.Kutil.Memory.{
  Bytes, set_loop, kmemset, memset, copy_loop, kmemcpy, kstrcpy, within, IsString, kstrcpy_lem,
}
use unagi_os.Kutil.Remove.{is_removed, remove_loop, arr_remove_element_u32}
use unagi_os.Kutil.Strings.{kstrcmp, kmemcmp, hex_to_ascii}
use unagi_os.Kutil.Strings.Hex.{parse_hex, hex_to_ascii_lem}
use unagi_os.Kutil.Align.{align_address_to_upper, align_address_to_lower}

aligned : (align_address_to_upper 4097 4096 ≡ 8192) × (align_address_to_lower 8191 4096 ≡ 4096)
unfolding align_address_to_upper align_address_to_lower
aligned = (refl, refl)

-- "ab" and a terminator, with a byte behind it
abbrev ab : List ℕ
ab = 97 ∷ 98 ∷ []

compared :
    (kstrcmp (ab ++ 0 ∷ []) (97 ∷ 0 ∷ []) ≡ some (pos 98))
    × (kmemcmp ab (97 ∷ 99 ∷ []) 2 ≡ some (negsuc 0))
unfolding kstrcmp kmemcmp
compared = (refl, refl)

hex_to_ascii_lem_example :
    (s : List ℕ) × (hex_to_ascii (0xef ∷ 0xbe ∷ []) 2 ≡ some s) × (parse_hex s 0 ≡ 0xbeef)
hex_to_ascii_lem_example = hex_to_ascii_lem (0xef ∷ 0xbe ∷ []) 2 0 (omega arith)

-- the case of `test_kutil`: the six elements that stay, and the two old ones behind them
removed :
    arr_remove_element_u32 (10 ∷ 20 ∷ 30 ∷ 40 ∷ 50 ∷ 60 ∷ 70 ∷ 80 ∷ []) (2 ∷ 4 ∷ []) 8 2
    ≡ some (10 ∷ 20 ∷ 40 ∷ 60 ∷ 70 ∷ 80 ∷ 70 ∷ 80 ∷ [])
unfolding arr_remove_element_u32 remove_loop is_removed
removed = refl

-- "ab" at the address 10
abbrev ab_at : Bytes
ab_at x = if x == 10 then 97 else if x == 11 then 98 else 0

-- `kmemcpy` to an address inside the region that it reads gives the first byte again.
smeared : (kmemcpy 11 10 2 ab_at).1 12 ≡ 97
unfolding kmemcpy copy_loop
smeared = refl

filled : (memset 10 0x141 2 ab_at 11 ≡ 0x41) × (memset 10 0x141 2 ab_at 12 ≡ 0)
unfolding memset kmemset set_loop
filled = (refl, refl)

ab_at-IsString : IsString ab_at 10 2
ab_at-IsString = (byte, refl)
  where
    byte : (j : ℕ) → j < 2 → ab_at (10 + j) ≢ 0
    byte zero lt = λ e. absurd (omega (arith, e))
    byte (suc zero) lt = λ e. absurd (omega (arith, e))
    byte (suc (suc j)) lt = absurd (omega (arith, lt))

kstrcpy_lem_example :
    (m' : Bytes) × (kstrcpy 3 9 10 ab_at ≡ some (9 + 2, m'))
    × ((x : ℕ) → m' x ≡ (if within 9 (2 + 1) x then ab_at (10 + (x - 9)) else ab_at x))
kstrcpy_lem_example = kstrcpy_lem 3 2 9 10 ab_at ab_at-IsString (inl (omega arith)) (omega arith)

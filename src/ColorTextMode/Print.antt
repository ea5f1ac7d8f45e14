-- ===== src/ColorTextMode/Print.antt =====
-- `terminal_write_char` and `colortextmode_kprint` of src/drivers/graphic/colortextmode.c.
use unagi_os.Common.{
  ℕ, zero, suc, ◌+◌, ◌-◌, ◌*◌, ◌%◌, ◌^◌, ◌≤◌, ◌<◌, ◌≡◌, refl, ◌==◌, ltb, leb, inl, inr, true, false,
  Bool-cases, arith, ◌∙◌, some, none, List, length, get_elem?, get_elem?-eq-get_or,
  get_elem?-eq-none, get_or,
}
use unagi_os.ColorTextMode.{
  Screen, vga_width, vga_height, set_cell, put_char, fill_row, copy_row, copy_rows, terminal_scroll,
  row_scrolldown, write_char, write_loop, error_msg, kprint,
}
use unagi_os.ColorTextMode.Scroll.{terminal_scroll_lem}

-- The next character stands on the screen.
abbrev pub IsPlaced : Screen → Type 0
IsPlaced s = (s.row < 25) × (s.col < 80)

-- No cell behind the screen changes.
abbrev pub SameBehind : Screen → Screen → Type 0
SameBehind s s' = (k : ℕ) → 2000 ≤ k → s'.video_mem k ≡ s.video_mem k

SamePlace : Screen → Screen → Type 0
SamePlace s s' = (s'.row ≡ s.row) × (s'.col ≡ s.col)

fill_row-SamePlace : (n x y : ℕ) (s : Screen) → SamePlace s (fill_row n x y s)
unfolding SamePlace fill_row put_char
fill_row-SamePlace zero x y s = (refl, refl)
fill_row-SamePlace (suc n) x y s = fill_row-SamePlace n (x + 1) y (put_char x y 32 0 s)

copy_row-SamePlace : (n x y : ℕ) (s : Screen) → SamePlace s (copy_row n x y s)
unfolding SamePlace copy_row
copy_row-SamePlace zero x y s = (refl, refl)
copy_row-SamePlace (suc n) x y s =
    copy_row-SamePlace n (x + 1) y
      (set_cell ((y - 1) * vga_width + x) (s.video_mem (y * vga_width + x)) s)

copy_rows-SamePlace : (n y : ℕ) (s : Screen) → SamePlace s (copy_rows n y s)
unfolding SamePlace copy_rows
copy_rows-SamePlace zero y s = (refl, refl)
copy_rows-SamePlace (suc n) y s =
    let (r, c) = copy_row-SamePlace vga_width 0 y s in
    let (r', c') = copy_rows-SamePlace n (y + 1) (copy_row vga_width 0 y s) in (r' ∙ r, c' ∙ c)

terminal_scroll-SamePlace : (s : Screen) → SamePlace s (terminal_scroll s)
unfolding SamePlace terminal_scroll
terminal_scroll-SamePlace s =
    let s1 = copy_rows (vga_height - 1) 1 s in
    let (r, c) = copy_rows-SamePlace (vga_height - 1) 1 s in
    let (r', c') = fill_row-SamePlace vga_width 0 (vga_height - 1) s1 in (r' ∙ r, c' ∙ c)

terminal_scroll-SameBehind : (s : Screen) → SameBehind s (terminal_scroll s)
terminal_scroll-SameBehind s k h = terminal_scroll_lem s k ∙ ground (arith, h)

row_scrolldown_lem :
    (s : Screen) → IsPlaced s → IsPlaced (row_scrolldown s) × SameBehind s (row_scrolldown s)
unfolding row_scrolldown SamePlace
row_scrolldown_lem s w =
    let s1 = record s { row = (s.row + 1) % 2 ^ 16 } in
    elim (Bool-cases (leb vga_height s1.row)) [
      | inl h ↦
          let (_, same) = terminal_scroll-SamePlace s1 in
          rw h ((omega arith, omega (arith, same, w.1)), terminal_scroll-SameBehind s1)
      | inr h ↦ rw h ((ground (arith, h), w.1), λ k le. refl)
    ]

put_char-SameBehind :
    (c color : ℕ) (s : Screen) → IsPlaced s → SameBehind s (put_char s.col s.row c color s)
unfolding put_char
put_char-SameBehind c color s w k le =
    let out : (k == s.row * vga_width + s.col) ≡ false = ground (arith, w.0, w.1, le) in rw out refl

-- the character at the place, and the place behind it
write_char_lem :
    (c color : ℕ) (s : Screen)
    → IsPlaced s
    → IsPlaced (write_char c color s) × SameBehind s (write_char c color s)
unfolding write_char put_char
write_char_lem c color s w =
    let s1 = put_char s.col s.row c color s in
    let s2 = record s1 { col = (s1.col + 1) % 2 ^ 16 } in
    let same1 : SameBehind s s1 = put_char-SameBehind c color s w in
    elim (Bool-cases (c == 10)) [
      | inl h ↦ rw h (row_scrolldown_lem (record s { col = 0 }) (w.0, omega arith))
      | inr h ↦ elim (Bool-cases (leb vga_width s2.col)) [
        | inl k ↦
            let (placed, same) = row_scrolldown_lem (record s2 { col = 0 }) (w.0, omega arith) in
            rw (h, k) (placed, λ i le. same i le ∙ same1 i le)
        | inr k ↦ rw (h, k) ((w.0, ground (arith, k)), same1)
      ]
    ]

write_loop_lem :
    (n i : ℕ) (str : List ℕ) (color : ℕ) (s : Screen)
    → IsPlaced s
    → i + n ≤ length str
    → (s' : Screen) × (write_loop n i str color s ≡ some s') × IsPlaced s' × SameBehind s s'
unfolding write_loop
write_loop_lem zero i str color s w le = (s, refl, w, λ k h. refl)
write_loop_lem (suc n) i str color s w le =
    let c = get_or str i 0 in
    let there : get_elem? str i ≡ some c = get_elem?-eq-get_or str i 0 (omega (arith, le)) in
    let (w1, same) = write_char_lem c color s w in
    let (s', e, w', same') =
      write_loop_lem n (i + 1) str color (write_char c color s) w1 (omega (arith, le)) in
    (s', rw there e, w', λ k h. same' k h ∙ same k h)

-- Where the next character stands on the screen and the string has the `len` bytes, at most 51200,
-- `colortextmode_kprint` ends without a fault, the next character stands on the screen again, and no
-- cell behind the screen changes.
pub kprint_lem :
    (str : List ℕ) (len color : ℕ) (s : Screen)
    → IsPlaced s
    → len ≤ length str
    → len ≤ 51200
    → (s' : Screen) × (kprint str len color s ≡ some s') × IsPlaced s' × SameBehind s s'
unfolding kprint
kprint_lem str len color s w le short =
    let small : ltb 51200 len ≡ false = ground (arith, short) in
    rw small (write_loop_lem len 0 str color s w (omega (arith, le)))

write_loop-none :
    (n i : ℕ) (str : List ℕ) (color : ℕ) (s : Screen)
    → length str < i + n
    → i ≤ length str
    → write_loop n i str color s ≡ none
unfolding write_loop
write_loop-none zero i str color s lt le = absurd (omega (arith, lt, le))
write_loop-none (suc n) i str color s lt le = elim (Bool-cases (ltb i (length str))) [
  | inl h ↦
      let c = get_or str i 0 in
      let there : get_elem? str i ≡ some c = get_elem?-eq-get_or str i 0 (ground (arith, h)) in
      rw there (
        write_loop-none n (i + 1) str color (write_char c color s) (omega (arith, lt))
          (ground (arith, h)))
  | inr h ↦ rw (get_elem?-eq-none str i (ground (arith, h))) refl
]

-- For more than 51200 bytes, `colortextmode_kprint` reads its own message behind its end.
pub kprint-none :
    (str : List ℕ) (len color : ℕ) (s : Screen) → 51200 < len → kprint str len color s ≡ none
unfolding kprint
kprint-none str len color s lt =
    let long : ltb 51200 len ≡ true = ground (arith, lt) in
    rw long (write_loop-none len 0 error_msg 4 s (omega (arith, lt)) (omega arith))

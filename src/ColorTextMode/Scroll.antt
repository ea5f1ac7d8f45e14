-- ===== src/ColorTextMode/Scroll.antt =====
-- `_terminal_scroll` of src/drivers/graphic/colortextmode.c.
use unagi_os.Common.{
  ℕ, zero, suc, ◌+◌, ◌-◌, ◌*◌, ◌≡◌, refl, Bool, ◌&&◌, ◌==◌, ltb, leb, if◌then◌else◌, inl, inr, true,
  false, Bool-cases, ne→==, ==_cases, arith, ap, ◌∙◌,
}
use unagi_os.ColorTextMode.{
  Screen, vga_width, vga_height, set_cell, make_char, put_char, fill_row, copy_row, copy_rows,
  terminal_scroll,
}

-- Whether `k` is one of `n` cells from `a` on.
abbrev pub within : ℕ → ℕ → ℕ → Bool
within a n k = leb a k && ltb k (a + n)

-- the blank cell
abbrev pub blank : ℕ
blank = 32

copy_row_lem :
    (n x y : ℕ) (s : Screen) (k : ℕ)
    → (copy_row n x (y + 1) s).video_mem k
      ≡ (if within (y * 80 + x) n k then s.video_mem (k + 80) else s.video_mem k)
unfolding copy_row
copy_row_lem zero x y s k = ground arith
copy_row_lem (suc n) x y s k =
    let i = (y + 1 - 1) * vga_width + x in
    let v = s.video_mem ((y + 1) * vga_width + x) in
    let at : i ≡ y * 80 + x = omega arith in
    let rest = copy_row_lem n (x + 1) y (set_cell i v s) k in
    elim (==_cases k i) [
      | inl e ↦
          let from : (y + 1) * vga_width + x ≡ k + 80 = omega (arith, e, at) in
          let self : (k == i) ≡ true = ground (arith, e) in
          let out : within (y * 80 + (x + 1)) n k ≡ false = ground (arith, e, at) in
          let whole : within (y * 80 + x) (suc n) k ≡ true = ground (arith, e, at) in
          rest ∙ rw (out, self, whole) (ap s.video_mem from)
      | inr ne ↦ elim (Bool-cases (within (y * 80 + (x + 1)) n k)) [
        | inl h ↦
            let whole : within (y * 80 + x) (suc n) k ≡ true = ground (arith, h) in
            let other : (k + 80 == i) ≡ false = ground (arith, h, at) in
            rest ∙ rw (h, whole, other) refl
        | inr h ↦
            let whole : within (y * 80 + x) (suc n) k ≡ false = ground (arith, h, ne, at) in
            rest ∙ rw (h, whole, ne→== k i ne) refl
      ]
    ]

copy_rows_lem :
    (n y : ℕ) (s : Screen) (k : ℕ)
    → (copy_rows n (y + 1) s).video_mem k
      ≡ (if within (y * 80) (n * 80) k then s.video_mem (k + 80) else s.video_mem k)
unfolding copy_rows
copy_rows_lem zero y s k = ground arith
copy_rows_lem (suc n) y s k =
    let s1 = copy_row vga_width 0 (y + 1) s in
    let rest = copy_rows_lem n (y + 1) s1 k in
    let here = copy_row_lem vga_width 0 y s k in
    let below = copy_row_lem vga_width 0 y s (k + 80) in rest ∙ ground (arith, here, below)

fill_row_lem :
    (n x y : ℕ) (s : Screen) (k : ℕ)
    → (fill_row n x y s).video_mem k ≡ (if within (y * 80 + x) n k then blank else s.video_mem k)
unfolding fill_row put_char make_char
fill_row_lem zero x y s k = ground arith
fill_row_lem (suc n) x y s k = fill_row_lem n (x + 1) y (put_char x y 32 0 s) k ∙ ground arith

-- `_terminal_scroll` moves each row of cells to the one above and blanks the last row, and no cell
-- behind the screen changes.
pub terminal_scroll_lem :
    (s : Screen) (k : ℕ)
    → (terminal_scroll s).video_mem k ≡ (
        if ltb k (24 * 80)
        then s.video_mem (k + 80)
        else if ltb k (25 * 80)
        then blank
        else s.video_mem k)
unfolding terminal_scroll
terminal_scroll_lem s k =
    let s1 = copy_rows (vga_height - 1) 1 s in
    let last = fill_row_lem vga_width 0 (vga_height - 1) s1 k in
    let moved = copy_rows_lem (vga_height - 1) 0 s k in last ∙ ground (arith, moved)

-- ===== src/ColorTextMode.antt =====
-- src/drivers/graphic/colortextmode.c: the text screen at 0xB8000, 80 cells by 25. A read behind
-- the end of an array is a fault: `none`.
pub mod Scroll
pub mod Print
mod Tests
use unagi_os.Common.{
  ℕ, zero, suc, ◌+◌, ◌-◌, ◌*◌, ◌%◌, ◌^◌, ◌==◌, ltb, leb, if◌then◌else◌, Option, some, none, ◌>>=◌,
  List, [], ◌∷◌, get_elem?,
}
use unagi_os.Kutil.Strings.{kstrlen}

abbrev pub vga_width : ℕ
vga_width = 80

abbrev pub vga_height : ℕ
vga_height = 25

-- the cells from 0xB8000 on and the place of the next character
pub record Screen : Type 0 where
  pub video_mem : ℕ → ℕ
  pub row : ℕ
  pub col : ℕ

-- `video_mem[i] = v`
abbrev pub set_cell : ℕ → ℕ → Screen → Screen
set_cell i v s = record s { video_mem = λ k. if k == i then v else s.video_mem k }

-- `colortextmode_terminal_make_char`, with the sign of a `char` above 127 in the high byte
unfoldable pub make_char : ℕ → ℕ → ℕ
make_char c color = if ltb c 128 then color * 2 ^ 8 + c else 0xFF00 + c

-- `colortextmode_terminal_put_char`
unfoldable pub put_char : ℕ → ℕ → ℕ → ℕ → Screen → Screen
put_char x y c color s = set_cell (y * vga_width + x) (make_char c color) s

-- The loops run for `n` more turns.
unfoldable pub fill_row : ℕ → ℕ → ℕ → Screen → Screen
fill_row zero x y s = s
fill_row (suc n) x y s = fill_row n (x + 1) y (put_char x y 32 0 s)

unfoldable pub fill_rows : ℕ → ℕ → Screen → Screen
fill_rows zero y s = s
fill_rows (suc n) y s = fill_rows n (y + 1) (fill_row vga_width 0 y s)

-- `colortextmode_terminal_initialize`
unfoldable pub terminal_initialize : Screen → Screen
terminal_initialize s = fill_rows vga_height 0 s

unfoldable pub copy_row : ℕ → ℕ → ℕ → Screen → Screen
copy_row zero x y s = s
copy_row (suc n) x y s =
    copy_row n (x + 1) y (set_cell ((y - 1) * vga_width + x) (s.video_mem (y * vga_width + x)) s)

unfoldable pub copy_rows : ℕ → ℕ → Screen → Screen
copy_rows zero y s = s
copy_rows (suc n) y s = copy_rows n (y + 1) (copy_row vga_width 0 y s)

-- `_terminal_scroll`
unfoldable pub terminal_scroll : Screen → Screen
terminal_scroll s = fill_row vga_width 0 (vga_height - 1) (copy_rows (vga_height - 1) 1 s)

-- `current_terminal_row_scrolldown`
unfoldable pub row_scrolldown : Screen → Screen
row_scrolldown s =
    let s1 = record s { row = (s.row + 1) % 2 ^ 16 } in
    if leb vga_height s1.row then record (terminal_scroll s1) { row = vga_height - 1 } else s1

-- `terminal_write_char`
unfoldable pub write_char : ℕ → ℕ → Screen → Screen
write_char c color s =
    let s1 = put_char s.col s.row c color s in
    let s2 = record s1 { col = (s1.col + 1) % 2 ^ 16 } in
    if c == 10
    then row_scrolldown (record s { col = 0 })
    else if leb vga_width s2.col
    then row_scrolldown (record s2 { col = 0 })
    else s2

-- `for (i = ..., i < len; i++) terminal_write_char(str[i], color)`, for `n` more turns
unfoldable pub write_loop : ℕ → ℕ → List ℕ → ℕ → Screen → Option Screen
write_loop zero i str color s = some s
write_loop (suc n) i str color s = do
  c ← get_elem? str i
  write_loop n (i + 1) str color (write_char c color s)

-- "kernel.c/colortextmode_kprint: Input too long"
abbrev pub error_msg : List ℕ
error_msg =
    107 ∷ 101 ∷ 114 ∷ 110 ∷ 101 ∷ 108 ∷ 46 ∷ 99 ∷ 47 ∷ 99 ∷ 111 ∷ 108 ∷ 111 ∷ 114 ∷ 116 ∷ 101 ∷ 120
    ∷ 116 ∷ 109 ∷ 111 ∷ 100 ∷ 101 ∷ 95 ∷ 107 ∷ 112 ∷ 114 ∷ 105 ∷ 110 ∷ 116 ∷ 58 ∷ 32 ∷ 73 ∷ 110
    ∷ 112 ∷ 117 ∷ 116 ∷ 32 ∷ 116 ∷ 111 ∷ 111 ∷ 32 ∷ 108 ∷ 111 ∷ 110 ∷ 103 ∷ 0 ∷ []

-- `colortextmode_kprint`
unfoldable pub kprint : List ℕ → ℕ → ℕ → Screen → Option Screen
kprint str len color s =
    if ltb 51200 len then write_loop len 0 error_msg 4 s else write_loop len 0 str color s

-- `colortextmode_kfprint`
unfoldable pub kfprint : List ℕ → ℕ → Screen → Option Screen
kfprint str color s = kstrlen str >>= λ len. kprint str len color s

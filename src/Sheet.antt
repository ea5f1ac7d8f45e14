-- ===== src/Sheet.antt =====
-- src/drivers/graphic/sheet.c and sheet.h: windows on the screen, in layers.
--
-- A `SHEET *` is 0 for `NULL`, and i + 1 for `&ctl->sheet0[i]`. An `int32_t` is held as its two's
-- complement, but for a z index, which is held plus one: 0 for a hidden sheet, which has the z index
-- -1. A buffer is a function from the index to the byte. The use of `NULL` is a fault: `none`.
pub mod Move
pub mod Paint
pub mod Textbox
mod Tests
use unagi_os.Common.{
  ℕ, zero, suc, ◌+◌, ◌-◌, ◌*◌, ◌%◌, ◌^◌, Bool, true, false, Option, none, some, List, [], ◌∷◌, ◌==◌,
  ltb, leb, if◌then◌else◌, ◌>>=◌,
}
use unagi_os.Common.Int.{ℤ, pos, negsuc}
use unagi_os.Common.Words.{add32, sub32, slt32}

abbrev pub SheetPtr : Type 0
SheetPtr = ℕ

abbrev pub null : SheetPtr
null = 0

-- -1 as an `int32_t`
abbrev pub minus_one : ℕ
minus_one = 2 ^ 32 - 1

-- `OS_VGA_MAX_SHEETS`
abbrev pub max_sheets : ℕ
max_sheets = 256

-- `SHEET`, but for its text box; `height` is `z + 1`
pub record Sheet : Type 0 where
  pub buf : ℕ → ℕ
  pub buf_xsize : ℕ
  pub buf_ysize : ℕ
  pub x_start : ℕ
  pub y_start : ℕ
  pub color_invisible : ℕ
  pub height : ℕ
  pub flags : ℕ

-- `SHTCTL`, with the bytes of the screen; `shown` is `zTop + 1`
pub record ShtCtl : Type 0 where
  pub vram : ℕ → ℕ
  pub z_map : ℕ → ℕ
  pub xsize : ℕ
  pub ysize : ℕ
  pub shown : ℕ
  pub sheets : ℕ → SheetPtr
  pub sheet0 : SheetPtr → Sheet

abbrev pub set_sheet : SheetPtr → Sheet → ShtCtl → ShtCtl
set_sheet p v c = record c { sheet0 = λ q. if q == p then v else c.sheet0 q }

-- `ctl->sheets[z] = p`
abbrev pub set_sheets : ℕ → SheetPtr → ShtCtl → ShtCtl
set_sheets z p c = record c { sheets = λ i. if i == z then p else c.sheets i }

-- `p->z = z`, for the height `z + 1`
abbrev pub set_height : SheetPtr → ℕ → ShtCtl → ShtCtl
set_height p h c = set_sheet p (record (c.sheet0 p) { height = h }) c

-- a sheet as `kzalloc` and the loop of `shtctl_init` leave it: its z index is 0
abbrev pub blank_sheet : Sheet
blank_sheet = record {
  buf = λ i. 0;
  buf_xsize = 0;
  buf_ysize = 0;
  x_start = 0;
  y_start = 0;
  color_invisible = 0;
  height = 1;
  flags = 0;
}

-- the screen as `shtctl_init` leaves it
abbrev pub blank_ctl : (ℕ → ℕ) → ℕ → ℕ → ShtCtl
blank_ctl vram xsize ysize = record {
  vram = vram;
  z_map = λ i. 0;
  xsize = xsize;
  ysize = ysize;
  shown = 0;
  sheets = λ i. null;
  sheet0 = λ p. blank_sheet;
}

-- `shtctl_init`, with what the two calls of `kzalloc` give: the screen or `NULL`, and what it frees
unfoldable pub init : (ℕ → ℕ) → ℕ → ℕ → ℕ → ℕ → Option ShtCtl × List ℕ
init vram xsize ysize ctl z_map =
    if ctl == null
    then (none, [])
    else if z_map == null
    then (none, ctl ∷ [])
    else (some (blank_ctl vram xsize ysize), [])

-- the loop of `sheet_alloc` with `n` sheets left, at the sheet `i`
unfoldable pub first_free : (SheetPtr → Sheet) → ℕ → ℕ → SheetPtr
first_free sheet0 zero i = null
first_free sheet0 (suc n) i =
    let rest = first_free sheet0 n (i + 1) in if (sheet0 (i + 1)).flags == 0 then i + 1 else rest

-- `sheet_alloc`, but for the text box, which it sets to `NULL`
unfoldable pub alloc : ShtCtl → SheetPtr × ShtCtl
alloc c =
    let p = first_free c.sheet0 max_sheets 0 in
    if p == null
    then (null, c)
    else (p, set_sheet p (record (c.sheet0 p) { flags = 1; height = 0 }) c)

-- `sheet_setbuf`
unfoldable pub setbuf : SheetPtr → (ℕ → ℕ) → ℕ → ℕ → ℕ → ShtCtl → ShtCtl
setbuf p buf xsize ysize color c =
    set_sheet p
      (record (c.sheet0 p) {
        buf = buf;
        buf_xsize = xsize;
        buf_ysize = ysize;
        color_invisible = color;
      })
      c

-- a coordinate on the screen, moved into it: the tests from "Discard out of screen pixels" on
abbrev pub clamp : ℕ → ℕ → ℕ
clamp size x = let y = if slt32 x 0 then 0 else x in if slt32 y size then y else sub32 size 1

-- the start and the end of a loop over a buffer, of this size, from the coordinates on the screen
abbrev pub start_in_buf : ℕ → ℕ → ℕ
start_in_buf x start = let r = sub32 x start in if slt32 r 0 then 0 else r

abbrev pub end_in_buf : ℕ → ℕ → ℕ → ℕ
end_in_buf x start size = let r = sub32 x start in if slt32 r size then r else sub32 size 1

-- how often the loop `for (i = a; i <= b; i++)` runs
abbrev pub turns : ℕ → ℕ → ℕ
turns a b = if slt32 b a then 0 else sub32 b a + 1

-- a rectangle on the screen, with its ends
pub record Area : Type 0 where
  pub x0 : ℕ
  pub y0 : ℕ
  pub x1 : ℕ
  pub y1 : ℕ

-- the area of a call, one pixel wider on each side, within the screen
abbrev pub widened : ShtCtl → Area → Area
widened c a = record {
  x0 = clamp c.xsize (sub32 a.x0 1);
  y0 = clamp c.ysize (sub32 a.y0 1);
  x1 = clamp c.xsize (add32 a.x1 1);
  y1 = clamp c.ysize (add32 a.y1 1);
}

-- the place on the screen of a pixel of a sheet's buffer, and the pixel
abbrev pub screen_index : ShtCtl → Sheet → ℕ → ℕ → ℕ
screen_index c s x y = (c.xsize * add32 s.y_start y + add32 s.x_start x) % 2 ^ 32

abbrev pub pixel : Sheet → ℕ → ℕ → ℕ
pixel s x y = s.buf ((y * s.buf_xsize + x) % 2 ^ 32)

-- the loops over the pixels of a part of a buffer: `n` pixels of a row, and `n` rows
unfoldable pub row_loop : (ℕ → ℕ → ShtCtl → ShtCtl) → ℕ → ℕ → ℕ → ShtCtl → ShtCtl
row_loop draw zero x y c = c
row_loop draw (suc n) x y c = row_loop draw n (add32 x 1) y (draw x y c)

unfoldable pub rows_loop : (ℕ → ℕ → ShtCtl → ShtCtl) → ℕ → ℕ → ℕ → ℕ → ShtCtl → ShtCtl
unfolding row_loop
rows_loop draw zero columns x y c = c
rows_loop draw (suc n) columns x y c =
    rows_loop draw n columns x (add32 y 1) (row_loop draw columns x y c)

-- the part of a sheet's buffer in an area
abbrev pub draw_part : (ℕ → ℕ → ShtCtl → ShtCtl) → Sheet → Area → ShtCtl → ShtCtl
draw_part draw s a c =
    let x0 = start_in_buf a.x0 s.x_start in
    let y0 = start_in_buf a.y0 s.y_start in
    let x1 = end_in_buf a.x1 s.x_start s.buf_xsize in
    let y1 = end_in_buf a.y1 s.y_start s.buf_ysize in
    rows_loop draw (turns y0 y1) (turns x0 x1) x0 y0 c

-- the body of the loops of `sheet_update_zmap`, for the sheet `p`
abbrev pub mark_pixel : SheetPtr → ℕ → ℕ → ShtCtl → ShtCtl
mark_pixel p x y c =
    let s = c.sheet0 p in
    let i = screen_index c s x y in
    if pixel s x y == s.color_invisible
    then c
    else record c { z_map = λ j. if j == i then (p - 1) % 256 else c.z_map j }

-- the loop of `sheet_update_zmap`, with `n` sheets left, at the z index `z`
unfoldable pub zmap_loop : Area → ℕ → ℕ → ShtCtl → Option ShtCtl
unfolding rows_loop
zmap_loop a zero z c = some c
zmap_loop a (suc n) z c =
    let p = c.sheets z in
    let rest = zmap_loop a n (z + 1) (draw_part (mark_pixel p) (c.sheet0 p) a c) in
    if p == null then none else rest

-- `sheet_update_zmap`
unfoldable pub update_zmap : Area → ℕ → ShtCtl → Option ShtCtl
unfolding zmap_loop
update_zmap a z_start c = zmap_loop (widened c a) (c.shown - z_start) z_start c

-- the body of the loops of `sheet_update_with_screenxy`
abbrev pub draw_pixel : SheetPtr → ℕ → ℕ → ShtCtl → ShtCtl
draw_pixel p x y c =
    let s = c.sheet0 p in
    let i = screen_index c s x y in
    if c.z_map i == p - 1
    then record c { vram = λ j. if j == i then pixel s x y else c.vram j }
    else c

-- the loop of `sheet_update_with_screenxy`
unfoldable pub screen_loop : Area → ℕ → ℕ → ShtCtl → Option ShtCtl
unfolding rows_loop
screen_loop a zero z c = some c
screen_loop a (suc n) z c =
    let p = c.sheets z in
    let rest = screen_loop a n (z + 1) (draw_part (draw_pixel p) (c.sheet0 p) a c) in
    if p == null then none else rest

-- `sheet_update_with_screenxy`, with the height `zEnd + 1`
unfoldable pub update_with_screenxy : Area → ℕ → ℕ → ShtCtl → Option ShtCtl
unfolding screen_loop
update_with_screenxy a z_start height_end c =
    let end = if height_end == 0 then c.shown else height_end in
    screen_loop (widened c a) (end - z_start) z_start c

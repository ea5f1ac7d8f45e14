-- ===== src/Sheet/Move.antt =====
-- src/drivers/graphic/sheet.c: sheets that change their layer or their place.
pub mod Shift
pub mod Layers
pub mod Updown
pub mod Branches
pub mod Whole
pub mod Fresh
use unagi_os.Common.{
  ℕ, zero, suc, ◌+◌, ◌-◌, Bool, true, false, Option, none, some, ◌==◌, ltb, leb, if◌then◌else◌,
  ◌>>=◌,
}
use unagi_os.Common.Int.{ℤ, pos, negsuc}
use unagi_os.Common.Words.{add32, count32}
use unagi_os.Sheet.{
  SheetPtr, ShtCtl, Sheet, Area, null, set_sheet, set_sheets, set_height, update_zmap,
  update_with_screenxy, rows_loop, draw_pixel,
}

-- the loops that move "everything atop DOWN by 1": `n` turns, from the z index `z` up
unfoldable pub shift_down : ℕ → ℕ → ShtCtl → Option ShtCtl
shift_down zero z c = some c
shift_down (suc n) z c =
    let p = c.sheets (z + 1) in
    let rest = shift_down n (z + 1) (set_height p (z + 1) (set_sheets z p c)) in
    if p == null then none else rest

-- the loops that move "everything below UP by 1": `n` turns, to the z index `z` from the one below
unfoldable pub shift_up : ℕ → ℕ → ShtCtl → Option ShtCtl
shift_up zero z c = some c
shift_up (suc n) z c =
    let p = c.sheets (z - 1) in
    let rest = shift_up n (z - 1) (set_height p (z + 1) (set_sheets z p c)) in
    if p == null then none else rest

-- `zNew + 1`, not above `zTop + 2` and not below 0
abbrev pub new_height : ShtCtl → ℤ → ℕ
new_height c (pos z) = if ltb (c.shown + 1) (z + 1) then c.shown + 1 else z + 1
new_height c (negsuc z) = 0

-- the area of a sheet on the screen
abbrev pub area_of : Sheet → Area
area_of s = record {
  x0 = s.x_start;
  y0 = s.y_start;
  x1 = add32 s.x_start s.buf_xsize;
  y1 = add32 s.y_start s.buf_ysize;
}

-- the calls of `sheet_update_zmap` and `sheet_update_with_screenxy` at the end of a branch
unfoldable pub redraw : SheetPtr → ℕ → ℕ → ℕ → ShtCtl → Option ShtCtl
redraw p z_map_start z_start height_end c = do
  c1 ← update_zmap (area_of (c.sheet0 p)) z_map_start c
  update_with_screenxy (area_of (c.sheet0 p)) z_start height_end c1

-- what the branches of `sheet_updown` do with the layers, for the heights before and after
unfoldable pub move_layers : SheetPtr → ℕ → ℕ → ShtCtl → Option ShtCtl
move_layers p old new c =
    let hidden =
      shift_down (c.shown - old) (old - 1) c >>= λ c1. some (record c1 { shown = c1.shown - 1 }) in
    let displayed = shift_up (c.shown - new) (c.shown - 1) c >>= λ c1.
    some (record (set_sheets (new - 1) p c1) { shown = c1.shown + 1 }) in
    let lowered = shift_up (old - new) (old - 1) c >>= λ c1. some (set_sheets (new - 1) p c1) in
    let raised = shift_down (new - old) (old - 1) c >>= λ c1. some (set_sheets (new - 1) p c1) in
    if new == 0
    then hidden
    else if old == 0
    then displayed
    else if ltb new old
    then lowered
    else raised

-- the redrawing of each branch
unfoldable pub redraw_layers : SheetPtr → ℕ → ℕ → ShtCtl → Option ShtCtl
unfolding redraw
redraw_layers p old new c =
    let hidden = redraw p 0 0 (old - 1) c in
    let lowered = redraw p (new - 1) (new - 1) (old - 1) c in
    let shown = redraw p (new - 1) (new - 1) new c in
    if new == 0 then hidden else if old == 0 then shown else if ltb new old then lowered else shown

-- `sheet_updown`
unfoldable pub updown : SheetPtr → ℤ → ShtCtl → Option ShtCtl
unfolding move_layers redraw_layers
updown p z_new c =
    let old = (c.sheet0 p).height in
    let new = new_height c z_new in
    let c1 = set_height p new c in
    let moved = move_layers p old new c1 >>= λ c2. redraw_layers p old new c2 in
    if old == new then some c1 else moved

-- `sheet_slide`
unfoldable pub slide : SheetPtr → ℕ → ℕ → ShtCtl → Option ShtCtl
slide p x y c =
    let before = c.sheet0 p in
    let after = record before { x_start = x; y_start = y } in
    let c1 = set_sheet p after c in
    let z = before.height - 1 in
    let redrawn = (do
      c2 ← update_zmap (area_of before) 0 c1
      c3 ← update_zmap (area_of after) z c2
      c4 ← update_with_screenxy (area_of before) 0 z c3
      update_with_screenxy (area_of after) z before.height c4) in
    if before.height == 0 then some c1 else redrawn

-- `sheet_free`, but for `sheet_textbox_free`
unfoldable pub free : SheetPtr → ShtCtl → Option ShtCtl
unfolding updown
free p c =
    let hidden = if ltb 0 (c.sheet0 p).height then updown p (negsuc 0) c else some c in
    hidden >>= λ c1. some (set_sheet p (record (c1.sheet0 p) { flags = 0 }) c1)

-- `sheet_update_sheet`, with the area in the sheet's buffer
unfoldable pub update_sheet : SheetPtr → Area → ShtCtl → Option ShtCtl
update_sheet p a c =
    let s = c.sheet0 p in
    let on_screen : Area = record {
      x0 = add32 s.x_start a.x0;
      y0 = add32 s.y_start a.y0;
      x1 = add32 s.x_start a.x1;
      y1 = add32 s.y_start a.y1;
    } in
    let drawn = update_with_screenxy on_screen (s.height - 1) s.height c in
    if s.height == 0 then some c else drawn

-- the loop of `sheet_update_all`, with `n` sheets left, at the z index `z`
unfoldable pub all_loop : ℕ → ℕ → ShtCtl → Option ShtCtl
all_loop zero z c = some c
all_loop (suc n) z c =
    let p = c.sheets z in
    let s = c.sheet0 p in
    let drawn = rows_loop (draw_pixel p) (count32 s.buf_ysize) (count32 s.buf_xsize) 0 0 c in
    let rest = all_loop n (z + 1) drawn in if p == null then none else rest

-- `sheet_update_all`
unfoldable pub update_all : ShtCtl → Option ShtCtl
unfolding all_loop
update_all c = all_loop c.shown 0 c

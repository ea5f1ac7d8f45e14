-- ===== src/Sheet/Textbox.antt =====
-- src/drivers/graphic/sheet.c: the text box of a sheet.
use unagi_os.Common.{ℕ, ◌+◌, ◌-◌, ◌^◌, Option, none, some, List, [], ◌∷◌, ◌==◌, ltb, if◌then◌else◌}
use unagi_os.Common.Words.{add32, slt32}
use unagi_os.Sheet.{SheetPtr, ShtCtl, Area, null}
use unagi_os.Sheet.Move.{update_sheet}

-- `COL8_000000`, `COL8_FFFFFF`
abbrev pub black : ℕ
black = 0

abbrev pub white : ℕ
white = 7

-- `TEXTBOX`, but for its `sheet`
pub record Textbox : Type 0 where
  pub buf_xs : ℕ
  pub buf_ys : ℕ
  pub buf_xe : ℕ
  pub buf_ye : ℕ
  pub line_buf : ℕ
  pub box_x : ℕ
  pub box_y : ℕ
  pub line_eol_pos : ℕ
  pub line_char_pos : ℕ
  pub bg_color : ℕ
  pub char_bg_color : ℕ
  pub char_color : ℕ
  pub increment_x : ℕ
  pub increment_y : ℕ

-- a color, or another where it is negative
abbrev pub color_or : ℕ → ℕ → ℕ
color_or color other = if slt32 (2 ^ 32 - 1) color then color else other

-- `sheet_textbox_alloc`, with what the two calls of `kzalloc` give: the text box of the sheet, and what
-- `sheet_textbox_free` gives back
unfoldable pub textbox_alloc : ℕ → ℕ → Area → ℕ → ℕ → ℕ → Option (Option Textbox × List ℕ)
textbox_alloc box line_buf a bg char_bg char_color =
    let t : Textbox = record {
      buf_xs = a.x0;
      buf_ys = a.y0;
      buf_xe = a.x1;
      buf_ye = a.y1;
      line_buf = line_buf;
      box_x = 0;
      box_y = 0;
      line_eol_pos = 0;
      line_char_pos = 0;
      bg_color = color_or bg black;
      char_bg_color = color_or char_bg black;
      char_color = color_or char_color white;
      increment_x = 8;
      increment_y = 28;
    } in
    if box == null
    then none
    else if line_buf == null
    then some (none, line_buf ∷ box ∷ [])
    else some (some t, [])

-- `sheet_textbox_free`, with the address of the text box: the text box, and what it gives back
unfoldable pub textbox_free : SheetPtr → ℕ → Option Textbox → Option Textbox × List ℕ
textbox_free p box none = (none, [])
textbox_free p box (some t) = if p == null then (some t, []) else (none, t.line_buf ∷ box ∷ [])

-- a sum in 64 bits, not above a limit, as an `int32_t`
abbrev pub limited_sum : ℕ → ℕ → ℕ → ℕ
limited_sum a b limit =
    if ltb (add32 limit (2 ^ 31) + 2 ^ 31) (add32 a (2 ^ 31) + add32 b (2 ^ 31))
    then limit
    else add32 a b

-- `v_textbox_update_sheet`
unfoldable pub textbox_update_sheet : SheetPtr → Option Textbox → Area → ShtCtl → Option ShtCtl
textbox_update_sheet p none a c = some c
textbox_update_sheet p (some t) a c =
    let in_buf : Area = record {
      x0 = limited_sum a.x0 t.buf_xs t.buf_xe;
      y0 = limited_sum a.y0 t.buf_ys t.buf_ye;
      x1 = limited_sum a.x1 t.buf_xs t.buf_xe;
      y1 = limited_sum a.y1 t.buf_ys t.buf_ye;
    } in
    let drawn = update_sheet p in_buf c in if p == null then some c else drawn

-- ===== src/Sheet/Tests.antt =====
-- Tests of the model of src/drivers/graphic/sheet.c, and the inputs at which its theorems are applied.
use unagi_os.Common.{
  ℕ, zero, suc, ◌-◌, ◌≤◌, ◌<◌, ◌≡◌, refl, ◌≢◌, ◌⊎◌, inl, false, some, none, [], ◌∷◌, ◌>>=◌, ◌==◌,
  if◌then◌else◌, arith,
}
use unagi_os.Common.Int.{pos}
use unagi_os.Sheet.{
  max_sheets, SheetPtr, ShtCtl, null, alloc, update_zmap, update_with_screenxy, row_loop,
}
use unagi_os.Sheet.Paint.{IsDrawn, IsMarked, update_zmap_lem, update_with_screenxy_lem}
use unagi_os.Sheet.Move.{updown, shift_down, shift_up, redraw}
use unagi_os.Sheet.Move.Shift.{height, flags_of, IsLayer}
use unagi_os.Sheet.Move.Layers.{IsOrdered, IsUsed, IsMoved}
use unagi_os.Sheet.Move.Fresh.{alloc_lem}
use unagi_os.Sheet.Move.Whole.{updown_lem}

-- the sheets 1 and 2, shown in this order, and a hidden sheet 3, on a screen of 4 times 3 pixels
abbrev two_layers : ShtCtl
two_layers = record {
  vram = λ i. 0;
  z_map = λ i. 0;
  xsize = 4;
  ysize = 3;
  shown = 2;
  sheets = λ i. if i == 0 then 1 else if i == 1 then 2 else null;
  sheet0 = λ p. record {
    buf = λ i. p;
    buf_xsize = 2;
    buf_ysize = 2;
    x_start = if p == 2 then 1 else 0;
    y_start = 0;
    color_invisible = 99;
    height = if p == 1 then 1 else if p == 2 then 2 else 0;
    flags = if p == 4 then 0 else 1;
  };
}

two_layers-IsLayer : (i : ℕ) → i < 2 → IsLayer two_layers i
two_layers-IsLayer zero lt = (λ e. omega (arith, e), refl)
two_layers-IsLayer (suc zero) lt = (λ e. omega (arith, e), refl)
two_layers-IsLayer (suc (suc i)) lt = absurd (omega (arith, lt))

two_layers_members : (i : ℕ) → i < 2 → IsUsed two_layers (two_layers.sheets i)
two_layers_members zero lt e = omega (arith, e)
two_layers_members (suc zero) lt e = omega (arith, e)
two_layers_members (suc (suc i)) lt e = absurd (omega (arith, lt))

two_layers_placed :
    (p : SheetPtr)
    → IsUsed two_layers p
    → 0 < height two_layers p
    → (height two_layers p ≤ 2) × (two_layers.sheets (height two_layers p - 1) ≡ p)
two_layers_placed zero n h = absurd (omega (arith, h))
two_layers_placed (suc zero) n h = (omega arith, refl)
two_layers_placed (suc (suc zero)) n h = (omega arith, refl)
two_layers_placed (suc (suc (suc p))) n h =
    let not_1 : (suc (suc (suc p)) == 1) ≡ false = ground arith in
    let not_2 : (suc (suc (suc p)) == 2) ≡ false = ground arith in
    let nil : height two_layers (suc (suc (suc p))) ≡ 0 = rw (not_1, not_2) refl in
    absurd (omega (arith, h, nil))

two_layers-IsOrdered : IsOrdered two_layers
two_layers-IsOrdered = record {
  layers = two_layers-IsLayer;
  members = two_layers_members;
  placed = two_layers_placed;
}

alloc_lem_example :
    ((alloc two_layers ≡ (null, two_layers))
      × ((q : SheetPtr) → 0 < q → q ≤ max_sheets → IsUsed two_layers q))
    ⊎ ((p : SheetPtr) × (c' : ShtCtl) × (alloc two_layers ≡ (p, c'))
        × (p ≢ null)
        × (p ≤ max_sheets)
        × (flags_of two_layers p ≡ 0)
        × ((q : SheetPtr) → 0 < q → q < p → IsUsed two_layers q)
        × IsUsed c' p
        × (height c' p ≡ 0)
        × ((q : SheetPtr) → q ≢ p → c'.sheet0 q ≡ two_layers.sheet0 q)
        × IsOrdered c')
alloc_lem_example = alloc_lem two_layers two_layers-IsOrdered

updown_lem_example :
    (c' : ShtCtl) × (updown 1 (pos 1) two_layers ≡ some c')
    × IsOrdered c'
    × IsMoved 1 1 2 two_layers c'
updown_lem_example =
    updown_lem 1 (pos 1) two_layers two_layers-IsOrdered (λ e. omega (arith, e))
      (λ e. omega (arith, e)) (inl (omega arith, omega arith))

two_layers_real : (i : ℕ) → 0 ≤ i → i < 2 → two_layers.sheets i ≢ null
two_layers_real i le lt = (two_layers-IsLayer i lt).0

update_with_screenxy_lem_example :
    (c' : ShtCtl) × (update_with_screenxy (record { x0 = 0; y0 = 0; x1 = 2; y1 = 2 }) 0 2 two_layers
      ≡ some c')
    × IsDrawn two_layers 0 2 c'
update_with_screenxy_lem_example =
    update_with_screenxy_lem (record { x0 = 0; y0 = 0; x1 = 2; y1 = 2 }) 0 2 two_layers
      two_layers_real

update_zmap_lem_example :
    (c' : ShtCtl) × (update_zmap (record { x0 = 0; y0 = 0; x1 = 2; y1 = 2 }) 0 two_layers ≡ some c')
    × IsMarked two_layers 0 2 c'
update_zmap_lem_example =
    update_zmap_lem (record { x0 = 0; y0 = 0; x1 = 2; y1 = 2 }) 0 two_layers two_layers_real

-- The sheet 2 covers the pixels 1 and 2 of the first row, the sheet 1 the pixel 0.
update_zmap_row :
    update_zmap (record { x0 = 0; y0 = 0; x1 = 2; y1 = 2 }) 0 two_layers
      >>= (λ c. some (c.z_map 0 ∷ c.z_map 1 ∷ c.z_map 2 ∷ c.z_map 3 ∷ []))
    ≡ some (0 ∷ 1 ∷ 1 ∷ 0 ∷ [])
unfolding update_zmap row_loop
update_zmap_row = refl

-- A hidden sheet that is displayed below the others: the topmost is lost, and the layer above is `NULL`.
displayed_below : updown 3 (pos 0) two_layers ≡ none
unfolding updown shift_up redraw update_zmap
displayed_below = refl

-- A shown sheet that is to go above all others, with the z index `zTop + 1`, gets a layer from `NULL`.
raised_above : updown 1 (pos 2) two_layers ≡ none
unfolding updown shift_down
raised_above = refl

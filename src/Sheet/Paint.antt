-- ===== src/Sheet/Paint.antt =====
-- What the loops over pixels in src/drivers/graphic/sheet.c change.
use unagi_os.Common.{
  ℕ, zero, suc, ◌+◌, ◌-◌, ◌%◌, ◌≤◌, ◌<◌, ◌≡◌, refl, ◌≢◌, ◌⊎◌, inl, inr, false, Bool-cases, some,
  ◌==◌, ==→eq, ==_cases, ne→==, if◌then◌else◌, arith, ap, sym, subst, ◌∙◌,
}
use unagi_os.Common.Words.{add32}
use unagi_os.Sheet.{
  ShtCtl, Sheet, Area, null, row_loop, rows_loop, draw_part, mark_pixel, draw_pixel, pixel,
  screen_index, start_in_buf, end_in_buf, turns, zmap_loop, screen_loop, update_zmap,
  update_with_screenxy, widened,
}

-- the layers of two states are the same
pub record IsSame (c c' : ShtCtl) : Type 0 where
  pub sheets : c'.sheets ≡ c.sheets
  pub sheet0 : c'.sheet0 ≡ c.sheet0
  pub shown : c'.shown ≡ c.shown

-- what each pixel keeps, the loops keep
module _ (P : ShtCtl → Type 0) (draw : ℕ → ℕ → ShtCtl → ShtCtl)
    (keeps : (x y : ℕ) (c : ShtCtl) → P c → P (draw x y c)) where
  row_loop_keeps : (n x y : ℕ) (c : ShtCtl) → P c → P (row_loop draw n x y c)
  unfolding row_loop
  row_loop_keeps zero x y c h = h
  row_loop_keeps (suc n) x y c h = row_loop_keeps n (add32 x 1) y (draw x y c) (keeps x y c h)

  pub rows_loop_keeps : (n k x y : ℕ) (c : ShtCtl) → P c → P (rows_loop draw n k x y c)
  unfolding rows_loop
  rows_loop_keeps zero k x y c h = h
  rows_loop_keeps (suc n) k x y c h =
      rows_loop_keeps n k x (add32 y 1) (row_loop draw k x y c) (row_loop_keeps k x y c h)

  pub draw_part_keeps : (s : Sheet) (a : Area) (c : ShtCtl) → P c → P (draw_part draw s a c)
  draw_part_keeps s a c h =
      let x0 = start_in_buf a.x0 s.x_start in
      let y0 = start_in_buf a.y0 s.y_start in
      let x1 = end_in_buf a.x1 s.x_start s.buf_xsize in
      let y1 = end_in_buf a.y1 s.y_start s.buf_ysize in
      rows_loop_keeps (turns y0 y1) (turns x0 x1) x0 y0 c h

-- From `c0` to `c` the screen is the same but where the z map names a sheet from the z index `z` on
-- and below `end`.
pub record IsDrawn (c0 : ShtCtl) (z end : ℕ) (c : ShtCtl) : Type 0 where
  pub same : IsSame c0 c
  pub z_map : c.z_map ≡ c0.z_map
  pub vram :
      (j : ℕ)
      → (c.vram j ≡ c0.vram j) ⊎ ((i : ℕ) × (z ≤ i) × (i < end) × (c0.z_map j ≡ c0.sheets i - 1))

-- From `c0` to `c` the z map is the same but where it names a sheet from the z index `z` on and
-- below `end`.
pub record IsMarked (c0 : ShtCtl) (z end : ℕ) (c : ShtCtl) : Type 0 where
  pub same : IsSame c0 c
  pub vram : c.vram ≡ c0.vram
  pub z_map :
      (j : ℕ)
      → (c.z_map j ≡ c0.z_map j)
        ⊎ ((i : ℕ) × (z ≤ i) × (i < end) × (c.z_map j ≡ (c0.sheets i - 1) % 256))

draw_pixel_keeps :
    (c0 : ShtCtl) (z end i : ℕ)
    → z ≤ i
    → i < end
    → (x y : ℕ) (c : ShtCtl) → IsDrawn c0 z end c
    → IsDrawn c0 z end (draw_pixel (c0.sheets i) x y c)
draw_pixel_keeps c0 z end i le lt x y c d =
    let p = c0.sheets i in
    let k = screen_index c (c.sheet0 p) x y in
    elim (Bool-cases (c.z_map k == p - 1)) [
      | inr h ↦ rw h d
      | inl h ↦ rw h (record {
        same = record { sheets = d.same.sheets; sheet0 = d.same.sheet0; shown = d.same.shown };
        z_map = d.z_map;
        vram = λ j. elim (==_cases j k) [
          | inr n ↦ rw (ne→== j k n) (d.vram j)
          | inl e ↦
              let named : c0.z_map j ≡ p - 1 =
                ap (λ m. m j) (sym d.z_map) ∙ ap c.z_map e ∙ ==→eq (c.z_map k) (p - 1) h in
              inr (i, le, lt, named)
        ];
      })
    ]

mark_pixel_keeps :
    (c0 : ShtCtl) (z end i : ℕ)
    → z ≤ i
    → i < end
    → (x y : ℕ) (c : ShtCtl) → IsMarked c0 z end c
    → IsMarked c0 z end (mark_pixel (c0.sheets i) x y c)
mark_pixel_keeps c0 z end i le lt x y c d =
    let p = c0.sheets i in
    let s = c.sheet0 p in
    let k = screen_index c s x y in
    elim (Bool-cases (pixel s x y == s.color_invisible)) [
      | inl h ↦ rw h d
      | inr h ↦ rw h (record {
        same = record { sheets = d.same.sheets; sheet0 = d.same.sheet0; shown = d.same.shown };
        vram = d.vram;
        z_map = λ j. elim (Bool-cases (j == k)) [
          | inr n ↦ rw n (d.z_map j)
          | inl e ↦ rw e (inr (i, le, lt, refl))
        ];
      })
    ]

module _ (c0 : ShtCtl) (z end : ℕ) (real : (i : ℕ) → z ≤ i → i < end → c0.sheets i ≢ null) where
  screen_loop_lem :
      (a : Area) (n i : ℕ) (c : ShtCtl)
      → z ≤ i
      → n ≡ end - i
      → IsDrawn c0 z end c
      → (c' : ShtCtl) × (screen_loop a n i c ≡ some c') × IsDrawn c0 z end c'
  unfolding screen_loop
  screen_loop_lem a zero i c le e d = (c, refl, d)
  screen_loop_lem a (suc n) i c le e d =
      let p = c.sheets i in
      let lt : i < end = omega (arith, e) in
      let here : p ≡ c0.sheets i = ap (λ m. m i) d.same.sheets in
      let some_sheet : (p == null) ≡ false = ne→== p null (λ k. real i le lt (sym here ∙ k)) in
      let keeps : (x y : ℕ) (c1 : ShtCtl)
          → IsDrawn c0 z end c1
          → IsDrawn c0 z end (draw_pixel p x y c1) =
        subst
          (λ q.
            (x y : ℕ) (c1 : ShtCtl) → IsDrawn c0 z end c1 → IsDrawn c0 z end (draw_pixel q x y c1))
          (sym here) (draw_pixel_keeps c0 z end i le lt) in
      let drawn = draw_part_keeps (IsDrawn c0 z end) (draw_pixel p) keeps (c.sheet0 p) a c d in
      let (c', r, d') =
        screen_loop_lem a n (i + 1) (draw_part (draw_pixel p) (c.sheet0 p) a c) (omega (arith, le))
          (omega (arith, e)) drawn in
      (c', rw (some_sheet, r) refl, d')

  zmap_loop_lem :
      (a : Area) (n i : ℕ) (c : ShtCtl)
      → z ≤ i
      → n ≡ end - i
      → IsMarked c0 z end c
      → (c' : ShtCtl) × (zmap_loop a n i c ≡ some c') × IsMarked c0 z end c'
  unfolding zmap_loop
  zmap_loop_lem a zero i c le e d = (c, refl, d)
  zmap_loop_lem a (suc n) i c le e d =
      let p = c.sheets i in
      let lt : i < end = omega (arith, e) in
      let here : p ≡ c0.sheets i = ap (λ m. m i) d.same.sheets in
      let some_sheet : (p == null) ≡ false = ne→== p null (λ k. real i le lt (sym here ∙ k)) in
      let keeps : (x y : ℕ) (c1 : ShtCtl)
          → IsMarked c0 z end c1
          → IsMarked c0 z end (mark_pixel p x y c1) =
        subst
          (λ q.
            (x y : ℕ) (c1 : ShtCtl)
            → IsMarked c0 z end c1
            → IsMarked c0 z end (mark_pixel q x y c1))
          (sym here) (mark_pixel_keeps c0 z end i le lt) in
      let marked = draw_part_keeps (IsMarked c0 z end) (mark_pixel p) keeps (c.sheet0 p) a c d in
      let (c', r, d') =
        zmap_loop_lem a n (i + 1) (draw_part (mark_pixel p) (c.sheet0 p) a c) (omega (arith, le))
          (omega (arith, e)) marked in
      (c', rw (some_sheet, r) refl, d')

pub IsSame-refl : (c : ShtCtl) → IsSame c c
IsSame-refl c = record { sheets = refl; sheet0 = refl; shown = refl }

-- the end of the z indexes of a call, which is `zTop + 1` for the `zEnd` -1
abbrev pub end_of : ShtCtl → ℕ → ℕ
end_of c height_end = if height_end == 0 then c.shown else height_end

-- Where every layer of a call has a sheet, `sheet_update_with_screenxy` ends, changes the screen at
-- most where the z map names one of the sheets of these layers, and changes neither the z map nor
-- the layers.
pub update_with_screenxy_lem :
    (a : Area) (z height_end : ℕ) (c : ShtCtl)
    → ((i : ℕ) → z ≤ i → i < end_of c height_end → c.sheets i ≢ null)
    → (c' : ShtCtl) × (update_with_screenxy a z height_end c ≡ some c')
      × IsDrawn c z (end_of c height_end) c'
unfolding update_with_screenxy
update_with_screenxy_lem a z height_end c real =
    screen_loop_lem c z (end_of c height_end) real (widened c a) (end_of c height_end - z) z c
      (omega arith) refl (record { same = IsSame-refl c; z_map = refl; vram = λ j. inl refl })

-- Where every layer from the z index `z` on has a sheet, `sheet_update_zmap` ends, changes the z map
-- at most to name one of these sheets, and changes neither the screen nor the layers.
pub update_zmap_lem :
    (a : Area) (z : ℕ) (c : ShtCtl)
    → ((i : ℕ) → z ≤ i → i < c.shown → c.sheets i ≢ null)
    → (c' : ShtCtl) × (update_zmap a z c ≡ some c') × IsMarked c z c.shown c'
unfolding update_zmap
update_zmap_lem a z c real =
    zmap_loop_lem c z c.shown real (widened c a) (c.shown - z) z c (omega arith) refl
      (record { same = IsSame-refl c; vram = refl; z_map = λ j. inl refl })

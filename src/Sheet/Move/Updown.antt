-- ===== src/Sheet/Move/Updown.antt =====
-- `sheet_updown` of src/drivers/graphic/sheet.c: where the sheets are, before they are drawn.
use unagi_os.Common.{
  ℕ, ◌+◌, ◌-◌, ◌≤◌, ◌<◌, ◌≡◌, refl, ◌≢◌, inl, inr, true, false, ◌&&◌, Bool-cases, ==_refl, ne→==,
  ltb, leb, lt_cases, if◌then◌else◌, arith, ap, sym, ◌∙◌,
}
use unagi_os.Sheet.{SheetPtr, ShtCtl, set_height}
use unagi_os.Sheet.Move.Shift.{height, IsLayer, IsDown, IsUp}
use unagi_os.Sheet.Move.Layers.{IsOrdered, IsUsed, shifted}

-- the height after a loop has moved the layers with heights from `a + 1` to `a + n` down by one
abbrev pub down_by : ℕ → ℕ → ℕ → ℕ
down_by a n h = if ltb a h && leb h (a + n) then h - 1 else h

-- the height after a loop has moved the layers with heights from `b + 1` to `b + n` up by one
abbrev pub up_by : ℕ → ℕ → ℕ → ℕ
up_by b n h = if ltb b h && leb h (b + n) then h + 1 else h

module _ (p : SheetPtr) (c : ShtCtl) (w : IsOrdered c) (used : IsUsed c p) (new : ℕ) where
  -- the state when the loops start: the sheet `p` has its new height already
  abbrev pub start : ShtCtl
  start = set_height p new c

  pub start_self : height start p ≡ new
  start_self =
      let v : start.sheet0 p ≡ record (c.sheet0 p) { height = new } = rw (==_refl p) refl in
      ap (λ s. s.height) v

  pub start_other : (q : SheetPtr) → q ≢ p → height start q ≡ height c q
  start_other q n =
      let v : start.sheet0 q ≡ c.sheet0 q = rw (ne→== q p n) refl in ap (λ s. s.height) v

  -- the layers but that of `p`
  pub not_p : (i : ℕ) → i < c.shown → i + 1 ≢ height c p → c.sheets i ≢ p
  not_p i lt n e = n (sym ((w.layers i lt).1) ∙ ap (height c) e)

  pub start-IsLayer : (i : ℕ) → i < c.shown → i + 1 ≢ height c p → IsLayer start i
  start-IsLayer i lt n =
      let (at, known) = w.layers i lt in (at, start_other (c.sheets i) (not_p i lt n) ∙ known)

  module _ (q : SheetPtr) (used_q : IsUsed c q) (other : q ≢ p) where
    place_q : 0 < height c q → c.sheets (height c q - 1) ≡ q
    place_q h = (w.placed q used_q h).1

    height_q : 0 < height c q → height c q ≤ c.shown
    height_q h = (w.placed q used_q h).0

    -- a layer that is not the one of `q` has another sheet
    not_q : (i : ℕ) → i < c.shown → i + 1 ≢ height c q → c.sheets i ≢ q
    not_q i lt n e = n (sym ((w.layers i lt).1) ∙ ap (height c) e)

    pub down_height :
        (n z : ℕ) (c' : ShtCtl)
        → z + n < c.shown
        → IsDown n z start c'
        → height c' q ≡ down_by (z + 1) n (height c q)
    down_height n z c' le d =
        elim (Bool-cases (ltb (z + 1) (height c q) && leb (height c q) (z + 1 + n))) [
          | inl inside ↦
              let h = height c q in
              let above : z + 1 < h = ground (arith, inside) in
              let under : h ≤ z + 1 + n = ground (arith, inside) in
              let here = place_q (omega (arith, above)) in
              rw inside (
                ap (height c') (sym here)
                ∙ d.heights (h - 1) (omega (arith, above)) (omega (arith, above, under)))
          | inr outside ↦ rw outside (
              ap (λ s. s.height)
                (d.kept q (λ i lt ge. not_q i (omega (arith, ge, le)) (λ e.
                  let in1 : ltb (z + 1) (height c q) ≡ true = ground (arith, lt, e) in
                  let in2 : leb (height c q) (z + 1 + n) ≡ true = ground (arith, ge, e) in
                  cc (in1, in2, outside))))
              ∙ start_other q other)
        ]

    pub down_sheets :
        (n z : ℕ) (c' : ShtCtl)
        → z + n < c.shown
        → height c q ≢ z + 1
        → 0 < height c q
        → IsDown n z start c'
        → c'.sheets (down_by (z + 1) n (height c q) - 1) ≡ q
    down_sheets n z c' le ne pos_q d =
        let h = height c q in
        let here = place_q pos_q in
        elim (Bool-cases (ltb (z + 1) h && leb h (z + 1 + n))) [
          | inl inside ↦
              let above : z + 1 < h = ground (arith, inside) in
              let under : h ≤ z + 1 + n = ground (arith, inside) in
              let at : h - 1 - 1 + 1 ≡ h - 1 = omega (arith, above) in
              rw inside (
                d.moved (h - 1 - 1) (omega (arith, above)) (omega (arith, above, under))
                ∙ ap c.sheets at
                ∙ here)
          | inr outside ↦ elim (lt_cases h (z + 1)) [
            | inl low ↦ rw outside (d.below (h - 1) (omega (arith, low, pos_q)) ∙ here)
            | inr high ↦
                let in1 : ltb (z + 1) h ≡ true = ground (arith, high, ne) in
                let in2 : leb h (z + 1 + n) ≡ false = ground (arith, in1, outside) in
                let over : z + 1 + n < h = ground (arith, in2) in
                rw outside (d.above (h - 1) (omega (arith, over)) ∙ here)
          ]
        ]

    pub up_height :
        (n b : ℕ) (c' : ShtCtl)
        → b + n ≤ c.shown
        → IsUp n b start c'
        → height c' q ≡ up_by b n (height c q)
    up_height n b c' le d =
        let h = height c q in
        elim (Bool-cases (ltb b h && leb h (b + n))) [
          | inl inside ↦
              let above : b < h = ground (arith, inside) in
              let under : h ≤ b + n = ground (arith, inside) in
              let here = place_q (omega (arith, above)) in
              let next : h - 1 + 2 ≡ h + 1 = omega (arith, above) in
              rw inside (
                ap (height c') (sym here)
                ∙ d.heights (h - 1) (omega (arith, above)) (omega (arith, above, under))
                ∙ next)
          | inr outside ↦ rw outside (
              ap (λ s. s.height)
                (d.kept q (λ i ge lt. not_q i (omega (arith, lt, le)) (λ e.
                  let in1 : ltb b h ≡ true = ground (arith, ge, e) in
                  let in2 : leb h (b + n) ≡ true = ground (arith, lt, e) in
                  cc (in1, in2, outside))))
              ∙ start_other q other)
        ]

    pub up_sheets :
        (n b : ℕ) (c' : ShtCtl)
        → height c q ≢ b + n + 1
        → 0 < height c q
        → IsUp n b start c'
        → c'.sheets (up_by b n (height c q) - 1) ≡ q
    up_sheets n b c' ne pos_q d =
        let h = height c q in
        let here = place_q pos_q in
        elim (Bool-cases (ltb b h && leb h (b + n))) [
          | inl inside ↦
              let above : b < h = ground (arith, inside) in
              let under : h ≤ b + n = ground (arith, inside) in
              let at : h + 1 - 1 ≡ h - 1 + 1 = omega (arith, above) in
              rw inside (
                ap c'.sheets at
                ∙ d.moved (h - 1) (omega (arith, above)) (omega (arith, above, under))
                ∙ here)
          | inr outside ↦ elim (lt_cases b h) [
            | inl high ↦
                let in1 : ltb b h ≡ true = ground (arith, high) in
                let in2 : leb h (b + n) ≡ false = ground (arith, in1, outside) in
                let over : b + n < h = ground (arith, in2) in
                rw outside (d.above (h - 1) (omega (arith, over, ne)) ∙ here)
            | inr low ↦ rw outside (d.below (h - 1) (omega (arith, low)) ∙ here)
          ]
        ]

    -- a sheet but `p` is not where `p` was
    pub height_ne : (old : ℕ) → height c p ≡ old → 0 < old → height c q ≢ old
    height_ne old at pos_old e =
        let h : 0 < height c q = omega (arith, e, pos_old) in
        let hp : 0 < height c p = omega (arith, at, pos_old) in
        other (sym (place_q h) ∙ ap (λ k. c.sheets (k - 1)) (e ∙ sym at) ∙ (w.placed p used hp).1)

pub down_by-hide :
    (old shown h : ℕ)
    → 0 < old
    → old ≤ shown
    → h ≢ old
    → h ≤ shown
    → down_by old (shown - old) h ≡ shifted old 0 h
down_by-hide old shown h a b n l = ground (arith, a, b, n, l)

pub down_by-raise :
    (old new h : ℕ) → 0 < old → old < new → h ≢ old → down_by old (new - old) h ≡ shifted old new h
down_by-raise old new h a b n = ground (arith, a, b, n)

pub up_by-lower :
    (old new h : ℕ)
    → 0 < new
    → new < old
    → h ≢ old
    → up_by (new - 1) (old - new) h ≡ shifted old new h
up_by-lower old new h a b n = ground (arith, a, b, n)

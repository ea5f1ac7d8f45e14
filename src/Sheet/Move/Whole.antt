-- ===== src/Sheet/Move/Whole.antt =====
-- `sheet_updown` of src/drivers/graphic/sheet.c as a whole.
use unagi_os.Common.{
  ℕ, ◌+◌, ◌-◌, ◌≤◌, ◌<◌, ◌≡◌, refl, ◌≢◌, ◌⊎◌, inl, inr, Bool-cases, some, ◌==◌, ==_cases, ==_refl,
  ne→==, ltb, lt_cases, arith, ap, sym, subst, ◌∙◌,
}
use unagi_os.Common.Int.{ℤ}
use unagi_os.Sheet.{SheetPtr, ShtCtl, null, set_height, update_zmap, update_with_screenxy}
use unagi_os.Sheet.Paint.{IsSame, end_of, update_zmap_lem, update_with_screenxy_lem}
use unagi_os.Sheet.Move.{area_of, redraw, redraw_layers, move_layers, new_height, updown}
use unagi_os.Sheet.Move.Shift.{height, set_height_flags}
use unagi_os.Sheet.Move.Layers.{IsOrdered, IsUsed, IsMoved, shifted, shown_after, moved-IsOrdered}
use unagi_os.Sheet.Move.Updown.{start_self, start_other, height_ne}
use unagi_os.Sheet.Move.Branches.{hide_moves, raise_moves, lower_moves, display_moves, hidden_stays}

redraw_value :
    (p : SheetPtr) (z1 z2 h : ℕ) (c c1 c2 : ShtCtl)
    → update_zmap (area_of (c.sheet0 p)) z1 c ≡ some c1
    → update_with_screenxy (area_of (c.sheet0 p)) z2 h c1 ≡ some c2
    → redraw p z1 z2 h c ≡ some c2
unfolding redraw
redraw_value p z1 z2 h c c1 c2 e r = rw e r

redraw_lem :
    (p : SheetPtr) (z1 z2 h : ℕ) (c : ShtCtl)
    → IsOrdered c
    → h ≤ c.shown
    → (c' : ShtCtl) × (redraw p z1 z2 h c ≡ some c') × IsSame c c'
redraw_lem p z1 z2 h c w le =
    let a = area_of (c.sheet0 p) in
    let (c1, e1, m) = update_zmap_lem a z1 c (λ i _ lt. (w.layers i lt).0) in
    let shown = m.same.shown in
    let below : end_of c1 h ≤ c.shown = elim (Bool-cases (h == 0)) [
      | inl z ↦ rw z (omega (arith, shown))
      | inr n ↦ rw n le
    ] in
    let (c2, e2, d) = update_with_screenxy_lem a z2 h c1 (λ i _ lt.
      subst (λ f. f i ≢ null) (sym m.same.sheets) ((w.layers i (omega (arith, lt, below))).0)) in
    (
      c2,
      redraw_value p z1 z2 h c c1 c2 e1 e2,
      record {
        sheets = d.same.sheets ∙ m.same.sheets;
        sheet0 = d.same.sheet0 ∙ m.same.sheet0;
        shown = d.same.shown ∙ m.same.shown;
      },
    )

redraw_layers_lem :
    (p : SheetPtr) (old new : ℕ) (c : ShtCtl)
    → IsOrdered c
    → new ≤ c.shown
    → old - 1 ≤ c.shown
    → (c' : ShtCtl) × (redraw_layers p old new c ≡ some c') × IsSame c c'
unfolding redraw_layers
redraw_layers_lem p old new c w ln lo = elim (Bool-cases (new == 0)) [
  | inl a ↦ rw a (redraw_lem p 0 0 (old - 1) c w lo)
  | inr a ↦ elim (Bool-cases (old == 0)) [
    | inl b ↦ rw (a, b) (redraw_lem p (new - 1) (new - 1) new c w ln)
    | inr b ↦ elim (Bool-cases (ltb new old)) [
      | inl d ↦ rw (a, b, d) (redraw_lem p (new - 1) (new - 1) (old - 1) c w lo)
      | inr d ↦ rw (a, b, d) (redraw_lem p (new - 1) (new - 1) new c w ln)
    ]
  ]
]

IsMoved-same :
    (p : SheetPtr) (old new : ℕ) (c c1 c2 : ShtCtl)
    → IsMoved p old new c c1
    → IsSame c1 c2
    → IsMoved p old new c c2
IsMoved-same p old new c c1 c2 m s =
    let same_height : (q : SheetPtr) → height c2 q ≡ height c1 q =
      λ q. ap (λ f. (f q).height) s.sheet0 in
    record {
      heights = λ q rq n. same_height q ∙ m.heights q rq n;
      sheets =
          λ q rq n h. ap (λ f. f (shifted old new (height c q) - 1)) s.sheets ∙ m.sheets q rq n h;
      self = same_height p ∙ m.self;
      self_shown = λ h. ap (λ f. f (new - 1)) s.sheets ∙ m.self_shown h;
      shown = s.shown ∙ m.shown;
      flags = λ q. ap (λ f. (f q).flags) s.sheet0 ∙ m.flags q;
    }

updown_value :
    (p : SheetPtr) (z : ℤ) (old new : ℕ) (c c1 c2 : ShtCtl)
    → height c p ≡ old
    → new_height c z ≡ new
    → old ≢ new
    → move_layers p old new (set_height p new c) ≡ some c1
    → redraw_layers p old new c1 ≡ some c2
    → updown p z c ≡ some c2
unfolding updown
updown_value p z old new c c1 c2 e f n m r = rw (e, f, ne→== old new n) (rw m r)

updown_same :
    (p : SheetPtr) (z : ℤ) (c : ShtCtl)
    → height c p ≡ new_height c z
    → updown p z c ≡ some (set_height p (new_height c z) c)
unfolding updown
updown_same p z c e = rw (e, ==_refl (new_height c z)) refl

-- a sheet that stays where it is
shown_stays :
    (p : SheetPtr) (h : ℕ) (c : ShtCtl)
    → IsOrdered c
    → IsUsed c p
    → height c p ≡ h
    → 0 < h
    → IsMoved p h h c (set_height p h c)
shown_stays p h c w used at pos_h =
    let apart : (q : SheetPtr) → IsUsed c q → q ≢ p → height c q ≢ h =
      λ q rq n. height_ne p c w used h q rq n h at pos_h in
    let fits : h ≤ c.shown =
      subst (λ k. k ≤ c.shown) at ((w.placed p used (omega (arith, at, pos_h))).0) in
    let stays : (q : SheetPtr) → IsUsed c q → q ≢ p → shifted h h (height c q) ≡ height c q =
      λ q rq n. let ne = apart q rq n in ground (arith, ne, pos_h) in
    record {
      heights = λ q rq n. start_other p c w used h q n ∙ sym (stays q rq n);
      sheets = λ q rq n k. ap (λ j. c.sheets (j - 1)) (stays q rq n) ∙ (w.placed q rq k).1;
      self = start_self p c w used h;
      self_shown =
          λ k. ap (λ j. c.sheets (j - 1)) (sym at) ∙ (w.placed p used (omega (arith, at, pos_h))).1;
      shown = ground (arith, pos_h, fits);
      flags = λ q. set_height_flags p h c q;
    }

-- the moves and the redrawing, once the layers are moved
updown_redrawn :
    (p : SheetPtr) (z : ℤ) (old new : ℕ) (c c1 : ShtCtl)
    → IsOrdered c
    → p ≢ null
    → IsUsed c p
    → height c p ≡ old
    → new_height c z ≡ new
    → old ≢ new
    → new ≤ shown_after old new c.shown
    → old - 1 ≤ shown_after old new c.shown
    → move_layers p old new (set_height p new c) ≡ some c1
    → IsMoved p old new c c1
    → (c' : ShtCtl) × (updown p z c ≡ some c') × IsOrdered c' × IsMoved p old new c c'
updown_redrawn p z old new c c1 w real used at to ne fits fits_old e m =
    let shown = m.shown in
    let w1 = moved-IsOrdered p old new c c1 w real used at m fits in
    let (c2, r, s) =
      redraw_layers_lem p old new c1 w1 (omega (arith, shown, fits))
        (omega (arith, shown, fits_old)) in
    let m2 = IsMoved-same p old new c c1 c2 m s in
    (
      c2,
      updown_value p z old new c c1 c2 at to ne e r,
      moved-IsOrdered p old new c c2 w real used at m2 fits,
      m2,
    )

updown_branches :
    (p : SheetPtr) (z : ℤ) (old new : ℕ) (c : ShtCtl)
    → IsOrdered c
    → p ≢ null
    → IsUsed c p
    → height c p ≡ old
    → new_height c z ≡ new
    → ((0 < old) × (new ≤ c.shown)) ⊎ ((old ≡ 0) × ((new ≡ 0) ⊎ (new ≡ c.shown + 1)))
    → old ≢ new
    → (c' : ShtCtl) × (updown p z c ≡ some c') × IsOrdered c' × IsMoved p old new c c'
updown_branches p z old new c w real used at to (inl (pos_old, le)) ne =
    let fits : old ≤ c.shown =
      subst (λ k. k ≤ c.shown) at ((w.placed p used (omega (arith, at, pos_old))).0) in
    elim (==_cases new 0) [
      | inl nil ↦
          let (c1, e, m) = hide_moves p c w used old at pos_old in
          subst
            (λ k.
              new_height c z ≡ k
              → (c' : ShtCtl) × (updown p z c ≡ some c') × IsOrdered c' × IsMoved p old k c c')
            (sym nil)
            (λ to0.
              updown_redrawn p z old 0 c c1 w real used at to0 (λ k. omega (arith, k, pos_old))
                (omega arith) (ground (arith, pos_old, fits)) e m)
            to
      | inr some_new ↦ elim (lt_cases new old) [
        | inl down ↦
            let low : 0 < new = omega (arith, some_new) in
            let (c1, e, m) = lower_moves p c w used old at pos_old new low down in
            updown_redrawn p z old new c c1 w real used at to ne
              (ground (arith, pos_old, fits, le, low)) (ground (arith, pos_old, fits, le, low)) e m
        | inr up ↦
            let above : old < new = omega (arith, up, ne) in
            let (c1, e, m) = raise_moves p c w used old at pos_old new above le in
            updown_redrawn p z old new c c1 w real used at to ne
              (ground (arith, pos_old, fits, le, above)) (ground (arith, pos_old, fits, le, above))
              e m
      ]
    ]
updown_branches p z old new c w real used at to (inr (nil, inl none_new)) ne =
    absurd (ne (nil ∙ sym none_new))
updown_branches p z old new c w real used at to (inr (nil, inr top)) ne =
    let hidden : height c p ≡ 0 = at ∙ nil in
    let (c1, e, m) = display_moves p c w used hidden new top in
    subst (λ k. (c' : ShtCtl) × (updown p z c ≡ some c') × IsOrdered c' × IsMoved p k new c c')
      (sym nil)
      (updown_redrawn p z 0 new c c1 w real used hidden to (λ k. omega (arith, k, top))
        (ground (arith, top)) (omega arith) e m)

-- For layers in order, `sheet_updown` ends, with the layers in order again: the sheet is at the new
-- z index, within -1 and `zTop + 1`, and the others keep their order, one place lower or higher
-- where it was taken out below them or comes in below them. This is for a sheet that is shown and
-- does not go above `zTop`, and for a hidden sheet that stays so or comes in above all others.
pub updown_lem :
    (p : SheetPtr) (z : ℤ) (c : ShtCtl)
    → IsOrdered c
    → p ≢ null
    → IsUsed c p
    → ((0 < height c p) × (new_height c z ≤ c.shown))
      ⊎ ((height c p ≡ 0) × ((new_height c z ≡ 0) ⊎ (new_height c z ≡ c.shown + 1)))
    → (c' : ShtCtl) × (updown p z c ≡ some c')
      × IsOrdered c'
      × IsMoved p (height c p) (new_height c z) c c'
updown_lem p z c w real used can = elim (==_cases (height c p) (new_height c z)) [
  | inr n ↦ updown_branches p z (height c p) (new_height c z) c w real used refl refl can n
  | inl e ↦
      let new = new_height c z in
      let m : IsMoved p new new c (set_height p new c) = elim (lt_cases 0 new) [
        | inl some_new ↦ shown_stays p new c w used e some_new
        | inr none_new ↦
            let nil : new ≡ 0 = omega (arith, none_new) in
            subst (λ k. IsMoved p k k c (set_height p k c)) (sym nil)
              (hidden_stays p c w used (e ∙ nil))
      ] in
      let fits : new ≤ shown_after new new c.shown = elim (lt_cases 0 (height c p)) [
        | inl h ↦ let le = (w.placed p used h).0 in ground (arith, e, le)
        | inr h ↦ ground (arith, e, h)
      ] in
      (
        set_height p new c,
        updown_same p z c e,
        moved-IsOrdered p new new c (set_height p new c) w real used e m fits,
        subst (λ k. IsMoved p k new c (set_height p new c)) (sym e) m,
      )
]

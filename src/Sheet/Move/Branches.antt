-- ===== src/Sheet/Move/Branches.antt =====
-- The branches of `sheet_updown` in src/drivers/graphic/sheet.c.
use unagi_os.Common.{
  ℕ, ◌+◌, ◌-◌, ◌≤◌, ◌<◌, ◌≡◌, refl, ◌≢◌, inl, inr, true, false, some, ◌==◌, ==_cases, ==_refl,
  ne→==, ltb, lt_cases, arith, ap, sym, subst, ◌∙◌,
}
use unagi_os.Sheet.{SheetPtr, ShtCtl, set_sheets, set_height}
use unagi_os.Sheet.Move.{shift_down, shift_up, move_layers}
use unagi_os.Sheet.Move.Shift.{height, set_height_flags, shift_down_lem, shift_up_lem}
use unagi_os.Sheet.Move.Layers.{IsOrdered, IsUsed, IsMoved, shifted}
use unagi_os.Sheet.Move.Updown.{
  start_self, not_p, start_other, start-IsLayer, down_by, up_by, down_height, down_sheets,
  up_height, up_sheets, height_ne, down_by-hide, down_by-raise, up_by-lower,
}

move_hide :
    (p : SheetPtr) (old : ℕ) (c c2 : ShtCtl)
    → shift_down (c.shown - old) (old - 1) c ≡ some c2
    → move_layers p old 0 c ≡ some (record c2 { shown = c2.shown - 1 })
unfolding move_layers
move_hide p old c c2 e = rw e refl

move_display :
    (p : SheetPtr) (new : ℕ) (c : ShtCtl)
    → new ≡ c.shown + 1
    → move_layers p 0 new c ≡ some (record (set_sheets (new - 1) p c) { shown = c.shown + 1 })
unfolding move_layers shift_up
move_display p new c e =
    let none_left : c.shown - new ≡ 0 = omega (arith, e) in
    let some_new : (new == 0) ≡ false = ne→== new 0 (λ k. omega (arith, e, k)) in
    rw (some_new, none_left) refl

move_raise :
    (p : SheetPtr) (old new : ℕ) (c c2 : ShtCtl)
    → 0 < old
    → old < new
    → shift_down (new - old) (old - 1) c ≡ some c2
    → move_layers p old new c ≡ some (set_sheets (new - 1) p c2)
unfolding move_layers
move_raise p old new c c2 h k e =
    let n1 : (new == 0) ≡ false = ne→== new 0 (λ z. omega (arith, z, k)) in
    let n2 : (old == 0) ≡ false = ne→== old 0 (λ z. omega (arith, z, h)) in
    let n3 : ltb new old ≡ false = ground (arith, k) in rw (n1, n2, n3, e) refl

move_lower :
    (p : SheetPtr) (old new : ℕ) (c c2 : ShtCtl)
    → 0 < new
    → new < old
    → shift_up (old - new) (old - 1) c ≡ some c2
    → move_layers p old new c ≡ some (set_sheets (new - 1) p c2)
unfolding move_layers
move_lower p old new c c2 h k e =
    let n1 : (new == 0) ≡ false = ne→== new 0 (λ z. omega (arith, z, h)) in
    let n2 : (old == 0) ≡ false = ne→== old 0 (λ z. omega (arith, z, k)) in
    let n3 : ltb new old ≡ true = ground (arith, k) in rw (n1, n2, n3, e) refl

-- a layer but the one that is set
set_sheets_other :
    (z : ℕ) (p : SheetPtr) (c : ShtCtl) (i : ℕ) → i ≢ z → (set_sheets z p c).sheets i ≡ c.sheets i
set_sheets_other z p c i n = rw (ne→== i z n) refl

set_sheets_self : (z : ℕ) (p : SheetPtr) (c : ShtCtl) → (set_sheets z p c).sheets z ≡ p
set_sheets_self z p c = rw (==_refl z) refl

-- another sheet does not come to the height of the one that is moved
shifted_ne : (old new h : ℕ) → 0 < h → h ≢ old → 0 < new → shifted old new h - 1 ≢ new - 1
shifted_ne old new h a b n e = ground (arith, a, b, n, e)

module _ (p : SheetPtr) (c : ShtCtl) (w : IsOrdered c) (used : IsUsed c p) (old : ℕ)
    (at : height c p ≡ old) (shown_sheet : 0 < old) where
  fits : old ≤ c.shown
  fits =
      let (le, _) = w.placed p used (subst (λ h. 0 < h) (sym at) shown_sheet) in
      subst (λ h. h ≤ c.shown) at le

  pub hide_moves :
      (c' : ShtCtl) × (move_layers p old 0 (set_height p 0 c) ≡ some c') × IsMoved p old 0 c c'
  hide_moves =
      let n = c.shown - old in
      let z = old - 1 in
      let top : z + 1 ≡ old = omega (arith, shown_sheet) in
      let range : z + n < c.shown = omega (arith, shown_sheet, fits) in
      let (c2, e, d) = shift_down_lem n z (set_height p 0 c) (λ i lt le.
        start-IsLayer p c w used 0 i (omega (arith, le, range)) (λ k. omega (arith, k, at, lt))) in
      let same : (q : SheetPtr)
          → IsUsed c q
          → q ≢ p
          → down_by (z + 1) n (height c q) ≡ shifted old 0 (height c q) =
        λ q rq nq. elim (lt_cases 0 (height c q)) [
          | inl h ↦ rw top (
              down_by-hide old c.shown (height c q) shown_sheet fits
                (height_ne p c w used 0 q rq nq old at shown_sheet) ((w.placed q rq h).0))
          | inr h ↦ let nil : height c q ≡ 0 = omega (arith, h) in rw nil (ground (arith, top))
        ] in
      let same_shown = d.same_shown in
      (
        record c2 { shown = c2.shown - 1 },
        move_hide p old (set_height p 0 c) c2 e,
        record {
          heights = λ q rq nq. down_height p c w used 0 q rq nq n z c2 range d ∙ same q rq nq;
          sheets = λ q rq nq h.
              ap (λ k. c2.sheets (k - 1)) (sym (same q rq nq))
              ∙ down_sheets p c w used 0 q rq nq n z c2 range
                  (λ k. height_ne p c w used 0 q rq nq old at shown_sheet (k ∙ top)) h d;
          self =
              ap (λ s. s.height)
                (d.kept p (λ i lt le k.
                  not_p p c w used 0 i (omega (arith, le, range)) (λ j. omega (arith, j, at, lt))
                    k))
              ∙ start_self p c w used 0;
          self_shown = λ k. absurd (omega (arith, k));
          shown = ap (λ s. s - 1) same_shown ∙ ground (arith, shown_sheet);
          flags = λ q. d.same_flags q ∙ set_height_flags p 0 c q;
        },
      )

  pub raise_moves :
      (new : ℕ)
      → old < new
      → new ≤ c.shown
      → (c' : ShtCtl) × (move_layers p old new (set_height p new c) ≡ some c')
        × IsMoved p old new c c'
  raise_moves new up le_shown =
      let n = new - old in
      let z = old - 1 in
      let top : z + 1 ≡ old = omega (arith, shown_sheet) in
      let range : z + n < c.shown = omega (arith, shown_sheet, up, le_shown) in
      let (c2, e, d) = shift_down_lem n z (set_height p new c) (λ i lt le.
        start-IsLayer p c w used new i (omega (arith, le, range))
          (λ k. omega (arith, k, at, lt))) in
      let apart : (q : SheetPtr) → IsUsed c q → q ≢ p → height c q ≢ old =
        λ q rq nq. height_ne p c w used new q rq nq old at shown_sheet in
      let same : (q : SheetPtr)
          → IsUsed c q
          → q ≢ p
          → down_by (z + 1) n (height c q) ≡ shifted old new (height c q) =
        λ q rq nq. rw top (down_by-raise old new (height c q) shown_sheet up (apart q rq nq)) in
      (
        set_sheets (new - 1) p c2,
        move_raise p old new (set_height p new c) c2 shown_sheet up e,
        record {
          heights = λ q rq nq. down_height p c w used new q rq nq n z c2 range d ∙ same q rq nq;
          sheets = λ q rq nq h.
              set_sheets_other (new - 1) p c2 (shifted old new (height c q) - 1)
                (shifted_ne old new (height c q) h (apart q rq nq) (omega (arith, up)))
              ∙ ap (λ k. c2.sheets (k - 1)) (sym (same q rq nq))
              ∙ down_sheets p c w used new q rq nq n z c2 range (λ k. apart q rq nq (k ∙ top)) h d;
          self =
              ap (λ s. s.height)
                (d.kept p (λ i lt le k.
                  not_p p c w used new i (omega (arith, le, range)) (λ j. omega (arith, j, at, lt))
                    k))
              ∙ start_self p c w used new;
          self_shown = λ k. set_sheets_self (new - 1) p c2;
          shown = d.same_shown ∙ ground (arith, shown_sheet, up, le_shown);
          flags = λ q. d.same_flags q ∙ set_height_flags p new c q;
        },
      )

  pub lower_moves :
      (new : ℕ)
      → 0 < new
      → new < old
      → (c' : ShtCtl) × (move_layers p old new (set_height p new c) ≡ some c')
        × IsMoved p old new c c'
  lower_moves new low down =
      let n = old - new in
      let b = new - 1 in
      let top : b + n ≡ old - 1 = omega (arith, low, down) in
      let range : b + n < c.shown = omega (arith, low, down, fits) in
      let (c2, e, d) = shift_up_lem n b (set_height p new c) (λ i ge lt.
        start-IsLayer p c w used new i (omega (arith, lt, range))
          (λ k. omega (arith, k, at, lt, top, shown_sheet))) in
      let apart : (q : SheetPtr) → IsUsed c q → q ≢ p → height c q ≢ old =
        λ q rq nq. height_ne p c w used new q rq nq old at shown_sheet in
      let same : (q : SheetPtr)
          → IsUsed c q
          → q ≢ p
          → up_by b n (height c q) ≡ shifted old new (height c q) =
        λ q rq nq. up_by-lower old new (height c q) low down (apart q rq nq) in
      let e' : shift_up n (old - 1) (set_height p new c) ≡ some c2 =
        subst (λ k. shift_up n k (set_height p new c) ≡ some c2) top e in
      (
        set_sheets (new - 1) p c2,
        move_lower p old new (set_height p new c) c2 low down e',
        record {
          heights = λ q rq nq.
              up_height p c w used new q rq nq n b c2 (omega (arith, range)) d ∙ same q rq nq;
          sheets = λ q rq nq h.
              set_sheets_other (new - 1) p c2 (shifted old new (height c q) - 1)
                (shifted_ne old new (height c q) h (apart q rq nq) low)
              ∙ ap (λ k. c2.sheets (k - 1)) (sym (same q rq nq))
              ∙ up_sheets p c w used new q rq nq n b c2
                  (λ k. apart q rq nq (omega (arith, k, top, shown_sheet))) h d;
          self =
              ap (λ s. s.height)
                (d.kept p (λ i ge lt k.
                  not_p p c w used new i (omega (arith, lt, range))
                    (λ j. omega (arith, j, at, lt, top, shown_sheet)) k))
              ∙ start_self p c w used new;
          self_shown = λ k. set_sheets_self (new - 1) p c2;
          shown = d.same_shown ∙ ground (arith, shown_sheet, low, down, fits);
          flags = λ q. d.same_flags q ∙ set_height_flags p new c q;
        },
      )

module _ (p : SheetPtr) (c : ShtCtl) (w : IsOrdered c) (used : IsUsed c p)
    (hidden : height c p ≡ 0) where
  -- a hidden sheet that comes in above all others
  pub display_moves :
      (new : ℕ)
      → new ≡ c.shown + 1
      → (c' : ShtCtl) × (move_layers p 0 new (set_height p new c) ≡ some c') × IsMoved p 0 new c c'
  display_moves new e =
      let c1 = set_height p new c in
      let kept : (q : SheetPtr)
          → IsUsed c q
          → 0 < height c q
          → shifted 0 new (height c q) ≡ height c q =
        λ q rq h. let le = (w.placed q rq h).0 in ground (arith, e, le) in
      let low : 0 < new = omega (arith, e) in
      (
        record (set_sheets (new - 1) p c1) { shown = c1.shown + 1 },
        move_display p new c1 e,
        record {
          heights = λ q rq nq. elim (lt_cases 0 (height c q)) [
            | inl h ↦ start_other p c w used new q nq ∙ sym (kept q rq h)
            | inr h ↦
                let nil : height c q ≡ 0 = omega (arith, h) in
                start_other p c w used new q nq ∙ rw nil refl
          ];
          sheets = λ q rq nq h.
              set_sheets_other (new - 1) p c1 (shifted 0 new (height c q) - 1)
                (shifted_ne 0 new (height c q) h (λ k. omega (arith, k, h)) low)
              ∙ ap (λ k. c.sheets (k - 1)) (kept q rq h)
              ∙ (w.placed q rq h).1;
          self = start_self p c w used new;
          self_shown = λ k. set_sheets_self (new - 1) p c1;
          shown = ground (arith, low);
          flags = λ q. set_height_flags p new c q;
        },
      )

  -- a hidden sheet that stays hidden
  pub hidden_stays : IsMoved p 0 0 c (set_height p 0 c)
  hidden_stays = record {
    heights = λ q rq nq. start_other p c w used 0 q nq ∙ elim (==_cases (height c q) 0) [
      | inl nil ↦ rw nil refl
      | inr n ↦ ground (arith, ne→== (height c q) 0 n)
    ];
    sheets = λ q rq nq h.
        let same : shifted 0 0 (height c q) ≡ height c q = ground (arith, h) in
        ap (λ k. c.sheets (k - 1)) same ∙ (w.placed q rq h).1;
    self = start_self p c w used 0;
    self_shown = λ k. absurd (omega (arith, k));
    shown = ground arith;
    flags = λ q. set_height_flags p 0 c q;
  }

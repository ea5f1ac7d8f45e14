-- ===== src/Sheet/Move/Layers.antt =====
-- The layers of src/drivers/graphic/sheet.c as an order of sheets, and what moves in it.
use unagi_os.Common.{
  ℕ, zero, suc, ◌+◌, ◌-◌, ◌≤◌, ◌<◌, ◌≡◌, ◌≢◌, inl, inr, ◌&&◌, ◌==◌, ==_cases, ltb, leb, lt_cases,
  if◌then◌else◌, arith, ap, sym, subst, ◌∙◌,
}
use unagi_os.Sheet.{SheetPtr, ShtCtl, null}
use unagi_os.Sheet.Move.Shift.{height, flags_of, IsLayer}

-- a sheet that `sheet_alloc` gave
abbrev pub IsUsed : ShtCtl → SheetPtr → Type 0
IsUsed c p = flags_of c p ≢ 0

-- Every layer shows a sheet in use that knows its layer, and every sheet in use that has a layer is
-- shown there.
pub record IsOrdered (c : ShtCtl) : Type 0 where
  pub layers : (i : ℕ) → i < c.shown → IsLayer c i
  pub members : (i : ℕ) → i < c.shown → IsUsed c (c.sheets i)
  pub placed :
      (p : SheetPtr)
      → IsUsed c p
      → 0 < height c p
      → (height c p ≤ c.shown) × (c.sheets (height c p - 1) ≡ p)

-- the height of another sheet, when one is taken out at a height, or comes in, where 0 is hidden
abbrev pub without : ℕ → ℕ → ℕ
without old h = if ltb 0 old && ltb old h then h - 1 else h

abbrev pub within : ℕ → ℕ → ℕ
within new h = if ltb 0 new && leb new h then h + 1 else h

abbrev pub shifted : ℕ → ℕ → ℕ → ℕ
shifted old new h = if h == 0 then 0 else within new (without old h)

abbrev pub shown_after : ℕ → ℕ → ℕ → ℕ
shown_after old new shown =
    let left = if ltb 0 old then shown - 1 else shown in if ltb 0 new then left + 1 else left

-- The sheet `p` is at the height `new`, and the others in the same order as before.
pub record IsMoved (p : SheetPtr) (old new : ℕ) (c c' : ShtCtl) : Type 0 where
  pub heights : (q : SheetPtr) → IsUsed c q → q ≢ p → height c' q ≡ shifted old new (height c q)
  pub sheets :
      (q : SheetPtr)
      → IsUsed c q
      → q ≢ p
      → 0 < height c q
      → c'.sheets (shifted old new (height c q) - 1) ≡ q
  pub self : height c' p ≡ new
  pub self_shown : 0 < new → c'.sheets (new - 1) ≡ p
  pub shown : c'.shown ≡ shown_after old new c.shown
  pub flags : (q : SheetPtr) → flags_of c' q ≡ flags_of c q

-- the height before of the sheet that is now at the height `h`
abbrev back : ℕ → ℕ → ℕ → ℕ
back old new h =
    let h1 = if ltb 0 new && ltb new h then h - 1 else h in
    if ltb 0 old && leb old h1 then h1 + 1 else h1

shifted-back :
    (old new shown h : ℕ)
    → 0 < h
    → h ≢ new
    → h ≤ shown_after old new shown
    → old ≤ shown
    → new ≤ shown_after old new shown
    → (shifted old new (back old new h) ≡ h)
      × (0 < back old new h)
      × (back old new h ≤ shown)
      × (back old new h ≢ old)
shifted-back old new shown h p n le lo ln = (
  ground (arith, p, n, le, lo, ln),
  ground (arith, p, n, le, lo, ln),
  ground (arith, p, n, le, lo, ln),
  λ e. ground (arith, p, n, le, lo, ln, e),
)

shifted_bounds :
    (old new shown h : ℕ)
    → 0 < h
    → h ≤ shown
    → h ≢ old
    → old ≤ shown
    → new ≤ shown_after old new shown
    → (0 < shifted old new h) × (shifted old new h ≤ shown_after old new shown)
shifted_bounds old new shown h p le n lo ln = (ground (arith, p), ground (arith, p, le, n, lo, ln))

shifted_positive : (old new h : ℕ) → 0 < shifted old new h → 0 < h
shifted_positive old new zero k = absurd (omega (arith, k))
shifted_positive old new (suc h) k = omega arith

module _ (p : SheetPtr) (old new : ℕ) (c c' : ShtCtl) (w : IsOrdered c) (real : p ≢ null)
    (used : IsUsed c p) (at : height c p ≡ old) (m : IsMoved p old new c c')
    (fits : new ≤ shown_after old new c.shown) where
  old_fits : old ≤ c.shown
  old_fits = elim (lt_cases 0 old) [
    | inl some_height ↦
        let (le, _) = w.placed p used (subst (λ h. 0 < h) (sym at) some_height) in
        subst (λ h. h ≤ c.shown) at le
    | inr none_height ↦ omega (arith, none_height)
  ]

  -- another sheet is not where `p` was
  other_height : (q : SheetPtr) → IsUsed c q → q ≢ p → 0 < height c q → height c q ≢ old
  other_height q used_q n h e =
      let (_, here) = w.placed q used_q h in
      let (_, there) = w.placed p used (subst (λ k. 0 < k) (e ∙ sym at) h) in
      n (sym here ∙ ap (λ k. c.sheets (k - 1)) (e ∙ sym at) ∙ there)

  moved_layers : (i : ℕ) → i < c'.shown → IsLayer c' i
  moved_layers i lt = elim (==_cases (i + 1) new) [
    | inl e ↦
        let place : new - 1 ≡ i = omega (arith, e) in
        let here : c'.sheets i ≡ p =
          subst (λ k. c'.sheets k ≡ p) place (m.self_shown (omega (arith, e))) in
        (
          subst (λ q. q ≢ null) (sym here) real,
          subst (λ q. height c' q ≡ i + 1) (sym here) (m.self ∙ sym e),
        )
    | inr n ↦
        let shown = m.shown in
        let (there, positive, le, ne) =
          shifted-back old new c.shown (i + 1) (omega arith) n (omega (arith, lt, shown)) old_fits
            fits in
        let h = back old new (i + 1) in
        let q = c.sheets (h - 1) in
        let (real_q, known) = w.layers (h - 1) (omega (arith, positive, le)) in
        let used_q = w.members (h - 1) (omega (arith, positive, le)) in
        let q_height : height c q ≡ h = known ∙ omega (arith, positive) in
        let not_p : q ≢ p = λ e. ne (sym q_height ∙ ap (height c) e ∙ at) in
        let now : height c' q ≡ i + 1 =
          m.heights q used_q not_p ∙ ap (shifted old new) q_height ∙ there in
        let place : shifted old new (height c q) - 1 ≡ i =
          let same = ap (shifted old new) q_height ∙ there in omega (arith, same) in
        let here : c'.sheets i ≡ q =
          subst (λ k. c'.sheets k ≡ q) place
            (m.sheets q used_q not_p (subst (λ k. 0 < k) (sym q_height) positive)) in
        (subst (λ r. r ≢ null) (sym here) real_q, ap (height c') here ∙ now)
  ]

  -- the sheets of the layers are those of before, and `p`
  moved_members : (i : ℕ) → i < c'.shown → IsUsed c' (c'.sheets i)
  moved_members i lt = elim (==_cases (i + 1) new) [
    | inl e ↦
        let place : new - 1 ≡ i = omega (arith, e) in
        let here : c'.sheets i ≡ p =
          subst (λ k. c'.sheets k ≡ p) place (m.self_shown (omega (arith, e))) in
        subst (λ q. IsUsed c' q) (sym here) (λ z. used (sym (m.flags p) ∙ z))
    | inr n ↦
        let shown = m.shown in
        let (there, positive, le, ne) =
          shifted-back old new c.shown (i + 1) (omega arith) n (omega (arith, lt, shown)) old_fits
            fits in
        let h = back old new (i + 1) in
        let q = c.sheets (h - 1) in
        let used_q = w.members (h - 1) (omega (arith, positive, le)) in
        let q_height : height c q ≡ h =
          (w.layers (h - 1) (omega (arith, positive, le))).1 ∙ omega (arith, positive) in
        let not_p : q ≢ p = λ e. ne (sym q_height ∙ ap (height c) e ∙ at) in
        let place : shifted old new (height c q) - 1 ≡ i =
          let same = ap (shifted old new) q_height ∙ there in omega (arith, same) in
        let here : c'.sheets i ≡ q =
          subst (λ k. c'.sheets k ≡ q) place
            (m.sheets q used_q not_p (subst (λ k. 0 < k) (sym q_height) positive)) in
        subst (λ r. IsUsed c' r) (sym here) (λ z. used_q (sym (m.flags q) ∙ z))
  ]

  moved_placed :
      (q : SheetPtr)
      → IsUsed c' q
      → 0 < height c' q
      → (height c' q ≤ c'.shown) × (c'.sheets (height c' q - 1) ≡ q)
  moved_placed q used' h = elim (==_cases q p) [
    | inl e ↦
        let self : height c' q ≡ new = ap (height c') e ∙ m.self in
        let shown = m.shown in
        (
          omega (arith, self, shown, fits),
          ap (λ k. c'.sheets (k - 1)) self ∙ m.self_shown (omega (arith, self, h)) ∙ sym e,
        )
    | inr n ↦
        let used_q : IsUsed c q = λ e. used' (m.flags q ∙ e) in
        let now = m.heights q used_q n in
        let was : 0 < height c q =
          shifted_positive old new (height c q) (subst (λ k. 0 < k) now h) in
        let (le, _) = w.placed q used_q was in
        let (_, bound) =
          shifted_bounds old new c.shown (height c q) was le (other_height q used_q n was) old_fits
            fits in
        let shown = m.shown in
        (
          omega (arith, now, bound, shown),
          ap (λ k. c'.sheets (k - 1)) now ∙ m.sheets q used_q n was,
        )
  ]

  -- the layers are in order again
  pub moved-IsOrdered : IsOrdered c'
  moved-IsOrdered = record { layers = moved_layers; members = moved_members; placed = moved_placed }

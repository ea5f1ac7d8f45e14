-- ===== src/Sheet/Move/Fresh.antt =====
-- `shtctl_init` and `sheet_alloc` of src/drivers/graphic/sheet.c.
use unagi_os.Common.{
  ℕ, zero, suc, ◌+◌, ◌-◌, ◌≤◌, ◌<◌, ◌≡◌, refl, ◌≢◌, ◌⊎◌, inl, inr, Bool-cases, some, [], ◌==◌,
  ==→eq, ==_cases, ==_refl, ne→==, if◌then◌else◌, arith, ap, sym, subst, ◌∙◌,
}
use unagi_os.Sheet.{
  SheetPtr, ShtCtl, Sheet, null, max_sheets, set_sheet, blank_ctl, init, first_free, alloc,
}
use unagi_os.Sheet.Move.Shift.{height, flags_of}
use unagi_os.Sheet.Move.Layers.{IsOrdered, IsUsed}

first_free_lem :
    (sheet0 : SheetPtr → Sheet) (n i : ℕ)
    → first_free sheet0 n i ≢ null
    → (sheet0 (first_free sheet0 n i)).flags ≡ 0
unfolding first_free
first_free_lem sheet0 zero i h = absurd (h refl)
first_free_lem sheet0 (suc n) i h = elim (Bool-cases ((sheet0 (i + 1)).flags == 0)) [
  | inl free ↦ rw free (==→eq (sheet0 (i + 1)).flags 0 free)
  | inr used ↦ rw used (
      first_free_lem sheet0 n (i + 1)
        (subst (λ b. (if b then i + 1 else first_free sheet0 n (i + 1)) ≢ null) used h))
]

-- The sheets that the loop passes are in use: those before the one that it finds, or all.
first_free_passed :
    (sheet0 : SheetPtr → Sheet) (n i q : ℕ)
    → i < q
    → q ≤ i + n
    → (first_free sheet0 n i ≡ null) ⊎ (q < first_free sheet0 n i)
    → (sheet0 q).flags ≢ 0
unfolding first_free
first_free_passed sheet0 zero i q lt le h = absurd (omega (arith, lt, le))
first_free_passed sheet0 (suc n) i q lt le h =
    let rest = first_free sheet0 n (i + 1) in
    elim (Bool-cases ((sheet0 (i + 1)).flags == 0)) [
      | inl free ↦
          let found : first_free sheet0 (suc n) i ≡ i + 1 = rw free refl in
          absurd (elim h [
            | inl e ↦ let z = sym found ∙ e in omega (arith, z)
            | inr b ↦ let z = subst (λ k. q < k) found b in omega (arith, z, lt)
          ])
      | inr used ↦
          let further : first_free sheet0 (suc n) i ≡ rest = rw used refl in
          elim (==_cases q (i + 1)) [
            | inl e ↦ λ f. let g = ap (λ k. (sheet0 k).flags) (sym e) ∙ f in ground (arith, g, used)
            | inr m ↦
                first_free_passed sheet0 n (i + 1) q (omega (arith, lt, m)) (omega (arith, le))
                  (subst (λ k. (k ≡ null) ⊎ (q < k)) further h)
          ]
    ]

-- What it finds is one of the sheets.
first_free_bound :
    (sheet0 : SheetPtr → Sheet) (n i : ℕ)
    → first_free sheet0 n i ≢ null
    → first_free sheet0 n i ≤ i + n
unfolding first_free
first_free_bound sheet0 zero i h = absurd (h refl)
first_free_bound sheet0 (suc n) i h = elim (Bool-cases ((sheet0 (i + 1)).flags == 0)) [
  | inl free ↦ rw free (omega arith)
  | inr used ↦
      let further : first_free sheet0 (suc n) i ≡ first_free sheet0 n (i + 1) = rw used refl in
      let le = first_free_bound sheet0 n (i + 1) (subst (λ k. k ≢ null) further h) in
      subst (λ k. k ≤ i + suc n) (sym further) (omega (arith, le))
]

-- The screen that `shtctl_init` gives has its layers in order.
pub init-IsOrdered :
    (vram : ℕ → ℕ) (xsize ysize ctl z_map : ℕ)
    → ctl ≢ null
    → z_map ≢ null
    → (c : ShtCtl) × (init vram xsize ysize ctl z_map ≡ (some c, [])) × IsOrdered c
unfolding init
init-IsOrdered vram xsize ysize ctl z_map n m = (
  blank_ctl vram xsize ysize,
  rw (ne→== ctl null n, ne→== z_map null m) refl,
  record {
    layers = λ i lt. absurd (omega (arith, lt));
    members = λ i lt. absurd (omega (arith, lt));
    placed = λ p used. absurd (used refl);
  },
)

-- the state in which the sheet `p` is taken
abbrev taken : SheetPtr → ShtCtl → ShtCtl
taken p c = set_sheet p (record (c.sheet0 p) { flags = 1; height = 0 }) c

module _ (p : SheetPtr) (c : ShtCtl) where
  taken_self : (taken p c).sheet0 p ≡ record (c.sheet0 p) { flags = 1; height = 0 }
  taken_self = rw (==_refl p) refl

  taken_other : (q : SheetPtr) → q ≢ p → (taken p c).sheet0 q ≡ c.sheet0 q
  taken_other q n = rw (ne→== q p n) refl

taken-IsOrdered :
    (p : SheetPtr) (c : ShtCtl) → flags_of c p ≡ 0 → IsOrdered c → IsOrdered (taken p c)
taken-IsOrdered p c free w =
    let other : (i : ℕ) → i < c.shown → c.sheets i ≢ p =
      λ i lt e. w.members i lt (ap (flags_of c) e ∙ free) in
    record {
      layers = λ i lt.
          let (at, known) = w.layers i lt in
          (at, ap (λ s. s.height) (taken_other p c (c.sheets i) (other i lt)) ∙ known);
      members = λ i lt e.
          w.members i lt (sym (ap (λ s. s.flags) (taken_other p c (c.sheets i) (other i lt))) ∙ e);
      placed = λ q used h. elim (==_cases q p) [
        | inl e ↦
            let nil : height (taken p c) q ≡ 0 =
              ap (height (taken p c)) e ∙ ap (λ s. s.height) (taken_self p c) in
            absurd (omega (arith, h, nil))
        | inr n ↦
            let same = taken_other p c q n in
            let same_height : height (taken p c) q ≡ height c q = ap (λ s. s.height) same in
            let used_q : IsUsed c q = λ z. used (ap (λ s. s.flags) same ∙ z) in
            let (le, at) = w.placed q used_q (subst (λ k. 0 < k) same_height h) in
            (
              subst (λ k. k ≤ c.shown) (sym same_height) le,
              ap (λ k. c.sheets (k - 1)) same_height ∙ at,
            )
      ];
    }

alloc-null : (c : ShtCtl) → first_free c.sheet0 max_sheets 0 ≡ null → alloc c ≡ (null, c)
unfolding alloc
alloc-null c e = rw e refl

alloc_value :
    (c : ShtCtl)
    → first_free c.sheet0 max_sheets 0 ≢ null
    → alloc c ≡ (first_free c.sheet0 max_sheets 0, taken (first_free c.sheet0 max_sheets 0) c)
unfolding alloc
alloc_value c h = rw (ne→== (first_free c.sheet0 max_sheets 0) null h) refl

-- For layers in order, `sheet_alloc` gives `NULL` and changes nothing exactly where each of the sheets is
-- in use. Otherwise it gives the first sheet that was free: that one is then in use and hidden, no
-- other sheet changes, and the layers are in order.
pub alloc_lem :
    (c : ShtCtl)
    → IsOrdered c
    → ((alloc c ≡ (null, c)) × ((q : SheetPtr) → 0 < q → q ≤ max_sheets → IsUsed c q))
      ⊎ ((p : SheetPtr) × (c' : ShtCtl) × (alloc c ≡ (p, c'))
          × (p ≢ null)
          × (p ≤ max_sheets)
          × (flags_of c p ≡ 0)
          × ((q : SheetPtr) → 0 < q → q < p → IsUsed c q)
          × IsUsed c' p
          × (height c' p ≡ 0)
          × ((q : SheetPtr) → q ≢ p → c'.sheet0 q ≡ c.sheet0 q)
          × IsOrdered c')
alloc_lem c w =
    let p = first_free c.sheet0 max_sheets 0 in
    elim (==_cases p null) [
      | inl none_free ↦ inl (
        alloc-null c none_free,
        λ q lt le. first_free_passed c.sheet0 max_sheets 0 q lt le (inl none_free),
      )
      | inr real ↦
          let free = first_free_lem c.sheet0 max_sheets 0 real in
          let le = first_free_bound c.sheet0 max_sheets 0 real in
          inr (
            p,
            taken p c,
            alloc_value c real,
            real,
            le,
            free,
            λ q lt before.
                first_free_passed c.sheet0 max_sheets 0 q lt (omega (arith, before, le))
                  (inr before),
            λ e. let z = sym (ap (λ s. s.flags) (taken_self p c)) ∙ e in omega (arith, z),
            ap (λ s. s.height) (taken_self p c),
            λ q n. taken_other p c q n,
            taken-IsOrdered p c free w,
          )
    ]

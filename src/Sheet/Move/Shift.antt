-- ===== src/Sheet/Move/Shift.antt =====
-- The loops of `sheet_updown` in src/drivers/graphic/sheet.c that move layers by one.
use unagi_os.Common.{
  ℕ, zero, suc, ◌+◌, ◌-◌, ◌≤◌, ◌<◌, ◌≡◌, refl, ◌≢◌, inl, inr, some, ==_cases, ==_refl, ne→==, arith,
  ap, sym, subst, ◌∙◌,
}
use unagi_os.Sheet.{SheetPtr, ShtCtl, null, set_sheets, set_height}
use unagi_os.Sheet.Move.{shift_down, shift_up}

abbrev pub height : ShtCtl → SheetPtr → ℕ
height c p = (c.sheet0 p).height

abbrev pub flags_of : ShtCtl → SheetPtr → ℕ
flags_of c p = (c.sheet0 p).flags

-- a layer with a sheet that knows it
abbrev pub IsLayer : ShtCtl → ℕ → Type 0
IsLayer c i = (c.sheets i ≢ null) × (height c (c.sheets i) ≡ i + 1)

-- one turn of a loop: the layer `z` gets the sheet `p`
abbrev pub put_layer : ℕ → SheetPtr → ShtCtl → ShtCtl
put_layer z p c = set_height p (z + 1) (set_sheets z p c)

pub put_layer_sheets : (z : ℕ) (p : SheetPtr) (c : ShtCtl) → (put_layer z p c).sheets z ≡ p
put_layer_sheets z p c = rw (==_refl z) refl

pub put_layer_others :
    (z : ℕ) (p : SheetPtr) (c : ShtCtl) (i : ℕ) → i ≢ z → (put_layer z p c).sheets i ≡ c.sheets i
put_layer_others z p c i n = rw (ne→== i z n) refl

pub put_layer_height : (z : ℕ) (p : SheetPtr) (c : ShtCtl) → height (put_layer z p c) p ≡ z + 1
put_layer_height z p c =
    let v : (put_layer z p c).sheet0 p ≡ record (c.sheet0 p) { height = z + 1 } =
      rw (==_refl p) refl in
    ap (λ s. s.height) v

pub put_layer_kept :
    (z : ℕ) (p : SheetPtr) (c : ShtCtl) (q : SheetPtr)
    → q ≢ p
    → (put_layer z p c).sheet0 q ≡ c.sheet0 q
put_layer_kept z p c q n = rw (ne→== q p n) refl

pub set_height_flags :
    (p : SheetPtr) (h : ℕ) (c : ShtCtl) (q : SheetPtr)
    → flags_of (set_height p h c) q ≡ flags_of c q
set_height_flags p h c q = elim (==_cases q p) [
  | inl e ↦
      let v : (set_height p h c).sheet0 p ≡ record (c.sheet0 p) { height = h } =
        rw (==_refl p) refl in
      subst (λ r. flags_of (set_height p h c) r ≡ flags_of c r) (sym e) (ap (λ s. s.flags) v)
  | inr n ↦
      let v : (set_height p h c).sheet0 q ≡ c.sheet0 q = rw (ne→== q p n) refl in
      ap (λ s. s.flags) v
]

-- What the loop that moves `n` layers, from above `z`, down by one leaves.
pub record IsDown (n z : ℕ) (c c' : ShtCtl) : Type 0 where
  pub below : (i : ℕ) → i < z → c'.sheets i ≡ c.sheets i
  pub moved : (i : ℕ) → z ≤ i → i < z + n → c'.sheets i ≡ c.sheets (i + 1)
  pub above : (i : ℕ) → z + n ≤ i → c'.sheets i ≡ c.sheets i
  pub heights : (i : ℕ) → z < i → i ≤ z + n → height c' (c.sheets i) ≡ i
  pub kept :
      (q : SheetPtr) → ((i : ℕ) → z < i → i ≤ z + n → c.sheets i ≢ q) → c'.sheet0 q ≡ c.sheet0 q
  pub same_shown : c'.shown ≡ c.shown
  pub same_flags : (q : SheetPtr) → flags_of c' q ≡ flags_of c q

shift_down_step :
    (n z : ℕ) (c c' : ShtCtl)
    → c.sheets (z + 1) ≢ null
    → shift_down n (z + 1) (put_layer z (c.sheets (z + 1)) c) ≡ some c'
    → shift_down (suc n) z c ≡ some c'
unfolding shift_down
shift_down_step n z c c' h e = rw (ne→== (c.sheets (z + 1)) null h, e) refl

IsDown-next :
    (n z : ℕ) (c c' : ShtCtl)
    → ((i : ℕ) → z < i → i ≤ z + suc n → IsLayer c i)
    → IsDown n (z + 1) (put_layer z (c.sheets (z + 1)) c) c'
    → IsDown (suc n) z c c'
IsDown-next n z c c' layers d =
    let p = c.sheets (z + 1) in
    let c1 = put_layer z p c in
    let p_height : height c p ≡ z + 1 + 1 = (layers (z + 1) (omega arith) (omega arith)).1 in
    let only : (i : ℕ) → z + 1 < i → i ≤ z + 1 + n → c1.sheets i ≢ p = λ i lt le e.
      let same = put_layer_others z p c i (λ k. omega (arith, k, lt)) in
      let known = (layers i (omega (arith, lt)) (omega (arith, le))).1 in
      let both = ap (height c) (sym same ∙ e) in omega (arith, both, known, p_height, lt) in
    record {
      below = λ i lt.
          d.below i (omega (arith, lt)) ∙ put_layer_others z p c i (λ e. omega (arith, e, lt));
      moved = λ i le lt. elim (==_cases i z) [
        | inl e ↦
            subst (λ k. c'.sheets k ≡ c.sheets (k + 1)) (sym e)
              (d.below z (omega arith) ∙ put_layer_sheets z p c)
        | inr ne ↦
            let lt_z : z + 1 ≤ i = omega (arith, le, ne) in
            d.moved i lt_z (omega (arith, lt))
            ∙ put_layer_others z p c (i + 1) (λ e. omega (arith, e, le))
      ];
      above = λ i le.
          d.above i (omega (arith, le)) ∙ put_layer_others z p c i (λ e. omega (arith, e, le));
      heights = λ i lt le. elim (==_cases i (z + 1)) [
        | inl e ↦
            subst (λ k. height c' (c.sheets k) ≡ k) (sym e)
              (ap (λ s. s.height) (d.kept p only) ∙ put_layer_height z p c)
        | inr ne ↦
            let same = put_layer_others z p c i (λ e. omega (arith, e, lt)) in
            subst (λ q. height c' q ≡ i) same
              (d.heights i (omega (arith, lt, ne)) (omega (arith, le)))
      ];
      kept = λ q out.
          let ne : q ≢ p = λ e. out (z + 1) (omega arith) (omega arith) (sym e) in
          d.kept q (λ i lt le e.
            out i (omega (arith, lt)) (omega (arith, le))
              (sym (put_layer_others z p c i (λ k. omega (arith, k, lt))) ∙ e))
          ∙ put_layer_kept z p c q ne;
      same_shown = d.same_shown;
      same_flags = λ q. d.same_flags q ∙ set_height_flags p (z + 1) (set_sheets z p c) q;
    }

pub shift_down_lem :
    (n z : ℕ) (c : ShtCtl)
    → ((i : ℕ) → z < i → i ≤ z + n → IsLayer c i)
    → (c' : ShtCtl) × (shift_down n z c ≡ some c') × IsDown n z c c'
unfolding shift_down
shift_down_lem zero z c layers = (
  c,
  refl,
  record {
    below = λ i lt. refl;
    moved = λ i le lt. absurd (omega (arith, le, lt));
    above = λ i le. refl;
    heights = λ i lt le. absurd (omega (arith, le, lt));
    kept = λ q out. refl;
    same_shown = refl;
    same_flags = λ q. refl;
  },
)
shift_down_lem (suc n) z c layers =
    let p = c.sheets (z + 1) in
    let first = layers (z + 1) (omega arith) (omega arith) in
    let next : (i : ℕ) → z + 1 < i → i ≤ z + 1 + n → IsLayer (put_layer z p c) i = λ i lt le.
      let (at, known) = layers i (omega (arith, lt)) (omega (arith, le)) in
      let same = put_layer_others z p c i (λ e. omega (arith, e, lt)) in
      let ne : c.sheets i ≢ p =
        λ e. let both = ap (height c) e in omega (arith, both, known, first.1, lt) in
      let kept = ap (λ s. s.height) (put_layer_kept z p c (c.sheets i) ne) in
      (
        subst (λ q. q ≢ null) (sym same) at,
        subst (λ q. height (put_layer z p c) q ≡ i + 1) (sym same) (kept ∙ known),
      ) in
    let (c', e, d) = shift_down_lem n (z + 1) (put_layer z p c) next in
    (c', shift_down_step n z c c' first.0 e, IsDown-next n z c c' layers d)

-- What the loop that moves the `n` layers from `b` on up by one leaves.
pub record IsUp (n b : ℕ) (c c' : ShtCtl) : Type 0 where
  pub below : (i : ℕ) → i ≤ b → c'.sheets i ≡ c.sheets i
  pub moved : (i : ℕ) → b ≤ i → i < b + n → c'.sheets (i + 1) ≡ c.sheets i
  pub above : (i : ℕ) → b + n < i → c'.sheets i ≡ c.sheets i
  pub heights : (i : ℕ) → b ≤ i → i < b + n → height c' (c.sheets i) ≡ i + 2
  pub kept :
      (q : SheetPtr) → ((i : ℕ) → b ≤ i → i < b + n → c.sheets i ≢ q) → c'.sheet0 q ≡ c.sheet0 q
  pub same_shown : c'.shown ≡ c.shown
  pub same_flags : (q : SheetPtr) → flags_of c' q ≡ flags_of c q

shift_up_step :
    (n z : ℕ) (c c' : ShtCtl)
    → c.sheets z ≢ null
    → shift_up n z (put_layer (z + 1) (c.sheets z) c) ≡ some c'
    → shift_up (suc n) (z + 1) c ≡ some c'
unfolding shift_up
shift_up_step n z c c' h e =
    let back : z + 1 - 1 ≡ z = omega arith in rw (back, ne→== (c.sheets z) null h, e) refl

IsUp-next :
    (n b : ℕ) (c c' : ShtCtl)
    → ((i : ℕ) → b ≤ i → i < b + suc n → IsLayer c i)
    → IsUp n b (put_layer (b + n + 1) (c.sheets (b + n)) c) c'
    → IsUp (suc n) b c c'
IsUp-next n b c c' layers d =
    let z = b + n + 1 in
    let p = c.sheets (b + n) in
    let c1 = put_layer z p c in
    let p_height : height c p ≡ b + n + 1 = (layers (b + n) (omega arith) (omega arith)).1 in
    let only : (i : ℕ) → b ≤ i → i < b + n → c1.sheets i ≢ p = λ i le lt e.
      let same = put_layer_others z p c i (λ k. omega (arith, k, lt)) in
      let known = (layers i le (omega (arith, lt))).1 in
      let both = ap (height c) (sym same ∙ e) in omega (arith, both, known, p_height, lt) in
    record {
      below = λ i le. d.below i le ∙ put_layer_others z p c i (λ e. omega (arith, e, le));
      moved = λ i le lt. elim (==_cases i (b + n)) [
        | inl e ↦
            subst (λ k. c'.sheets (k + 1) ≡ c.sheets k) (sym e)
              (d.above z (omega arith) ∙ put_layer_sheets z p c)
        | inr ne ↦
            d.moved i le (omega (arith, lt, ne))
            ∙ put_layer_others z p c i (λ e. omega (arith, e, lt))
      ];
      above = λ i lt.
          d.above i (omega (arith, lt)) ∙ put_layer_others z p c i (λ e. omega (arith, e, lt));
      heights = λ i le lt. elim (==_cases i (b + n)) [
        | inl e ↦
            let h = put_layer_height z p c in
            let two : z + 1 ≡ b + n + 2 = omega arith in
            subst (λ k. height c' (c.sheets k) ≡ k + 2) (sym e)
              (ap (λ s. s.height) (d.kept p only) ∙ h ∙ two)
        | inr ne ↦
            let same = put_layer_others z p c i (λ e. omega (arith, e, lt)) in
            subst (λ q. height c' q ≡ i + 2) same (d.heights i le (omega (arith, lt, ne)))
      ];
      kept = λ q out.
          let ne : q ≢ p = λ e. out (b + n) (omega arith) (omega arith) (sym e) in
          d.kept q (λ i le lt e.
            out i le (omega (arith, lt))
              (sym (put_layer_others z p c i (λ k. omega (arith, k, lt))) ∙ e))
          ∙ put_layer_kept z p c q ne;
      same_shown = d.same_shown;
      same_flags = λ q. d.same_flags q ∙ set_height_flags p (z + 1) (set_sheets z p c) q;
    }

pub shift_up_lem :
    (n b : ℕ) (c : ShtCtl)
    → ((i : ℕ) → b ≤ i → i < b + n → IsLayer c i)
    → (c' : ShtCtl) × (shift_up n (b + n) c ≡ some c') × IsUp n b c c'
unfolding shift_up
shift_up_lem zero b c layers = (
  c,
  refl,
  record {
    below = λ i lt. refl;
    moved = λ i le lt. absurd (omega (arith, le, lt));
    above = λ i le. refl;
    heights = λ i le lt. absurd (omega (arith, le, lt));
    kept = λ q out. refl;
    same_shown = refl;
    same_flags = λ q. refl;
  },
)
shift_up_lem (suc n) b c layers =
    let z = b + n + 1 in
    let p = c.sheets (b + n) in
    let last = layers (b + n) (omega arith) (omega arith) in
    let next : (i : ℕ) → b ≤ i → i < b + n → IsLayer (put_layer z p c) i = λ i le lt.
      let (at, known) = layers i le (omega (arith, lt)) in
      let same = put_layer_others z p c i (λ e. omega (arith, e, lt)) in
      let ne : c.sheets i ≢ p =
        λ e. let both = ap (height c) e in omega (arith, both, known, last.1, lt) in
      let kept = ap (λ s. s.height) (put_layer_kept z p c (c.sheets i) ne) in
      (
        subst (λ q. q ≢ null) (sym same) at,
        subst (λ q. height (put_layer z p c) q ≡ i + 1) (sym same) (kept ∙ known),
      ) in
    let (c', e, d) = shift_up_lem n b (put_layer z p c) next in
    let top : b + n + 1 ≡ b + suc n = omega arith in
    (
      c',
      subst (λ k. shift_up (suc n) k c ≡ some c') top (shift_up_step n (b + n) c c' last.0 e),
      IsUp-next n b c c' layers d,
    )

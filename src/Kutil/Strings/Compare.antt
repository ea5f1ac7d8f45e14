-- ===== src/Kutil/Strings/Compare.antt =====
-- Lengths and comparisons of terminated strings, of src/util/kutil.c.
use unagi_os.Common.{
  ℕ, zero, suc, ◌+◌, ◌-◌, ◌≡◌, refl, inl, inr, ◌↔◌, true, false, not, ◌&&◌, ◌==◌, ==_refl, ne→==,
  ==_cases, Bool-cases, ltb, leb, if◌then◌else◌, some, List, [], ◌∷◌, ◌++◌, length, arith, ap, ap₂,
  subst, sym, ◌∙◌,
}
use unagi_os.Common.Int.{pos, negsuc, sub_ℕ, pos_part, neg_part}
use unagi_os.Dlist.Chain.{has}
use unagi_os.Kutil.Strings.{kstrlen, kstrnlen, kstrcmp}

-- `kstrlen` of the characters `s` and a terminator is their number, whatever follows.
pub kstrlen_lem : (s r : List ℕ) → has 0 s ≡ false → kstrlen (s ++ 0 ∷ r) ≡ some (length s)
unfolding kstrlen
kstrlen_lem [] r h = refl
kstrlen_lem (c ∷ s) r h =
    let here : (c == 0) ≡ false = ground (arith, h) in
    let one : length s + 1 ≡ suc (length s) = omega arith in
    rw (here, kstrlen_lem s r (ground (arith, h)), one) refl

-- `kstrnlen` is the smaller of that number and the maximum.
pub kstrnlen_lem :
    (s r : List ℕ) (max : ℕ)
    → has 0 s ≡ false
    → kstrnlen (s ++ 0 ∷ r) max ≡ some (if ltb max (length s) then max else length s)
unfolding kstrnlen
kstrnlen_lem s r zero h = ap some (ground arith)
kstrnlen_lem [] r (suc max) h = ap some (ground arith)
kstrnlen_lem (c ∷ s) r (suc max) h =
    let here : (c == 0) ≡ false = ground (arith, h) in
    let next : (if ltb max (length s) then max else length s) + 1
        ≡ (if ltb (suc max) (suc (length s)) then suc max else suc (length s)) =
      ground arith in
    rw (here, kstrnlen_lem s r max (ground (arith, h)), next) refl

sub_ℕ_zero : (a b : ℕ) → sub_ℕ a b ≡ pos 0 → a ≡ b
sub_ℕ_zero a b e = elim (Bool-cases (leb b a)) [
  | inl t ↦
      let v : sub_ℕ a b ≡ pos (a - b) = rw t refl in
      let zero_difference : a - b ≡ 0 = ap pos_part (sym v ∙ e) in
      ground (arith, t, zero_difference)
  | inr t ↦
      let v : sub_ℕ a b ≡ negsuc (b - a - 1) = rw t refl in
      let one_more : suc (b - a - 1) ≡ 0 = ap neg_part (sym v ∙ e) in
      absurd (omega (arith, one_more))
]

sub_ℕ_self : (a : ℕ) → sub_ℕ a a ≡ pos 0
sub_ℕ_self a =
    let t : leb a a ≡ true = ground arith in let z : a - a ≡ 0 = omega arith in rw (t, z) refl

-- the first difference of two strings decides
cmp_stop :
    (a b : ℕ) (s t : List ℕ)
    → (not (a == 0) && a == b) ≡ false
    → kstrcmp (a ∷ s) (b ∷ t) ≡ some (sub_ℕ a b)
unfolding kstrcmp
cmp_stop a b s t e = rw e refl

cmp_next :
    (a b : ℕ) (s t : List ℕ)
    → (not (a == 0) && a == b) ≡ true
    → kstrcmp (a ∷ s) (b ∷ t) ≡ kstrcmp s t
unfolding kstrcmp
cmp_next a b s t e = rw e refl

-- Terminated strings for which `kstrcmp` gives 0 are the same.
kstrcmp_same :
    (s t r u : List ℕ)
    → has 0 s ≡ false
    → has 0 t ≡ false
    → kstrcmp (s ++ 0 ∷ r) (t ++ 0 ∷ u) ≡ some (pos 0)
    → s ≡ t
kstrcmp_same [] [] r u h k e = refl
kstrcmp_same [] (b ∷ t) r u h k e =
    let q : sub_ℕ 0 b ≡ pos 0 = cc (cmp_stop 0 b r (t ++ 0 ∷ u) refl, e) in
    absurd (ground (arith, sub_ℕ_zero 0 b q, k))
kstrcmp_same (a ∷ s) [] r u h k e =
    let q : sub_ℕ a 0 ≡ pos 0 = cc (cmp_stop a 0 (s ++ 0 ∷ r) u (ground (arith, h)), e) in
    absurd (ground (arith, sub_ℕ_zero a 0 q, h))
kstrcmp_same (a ∷ s) (b ∷ t) r u h k e = elim (==_cases a b) [
  | inl q ↦
      let on : (not (a == 0) && a == b) ≡ true = ground (arith, h, q) in
      let rest : kstrcmp (s ++ 0 ∷ r) (t ++ 0 ∷ u) ≡ some (pos 0) =
        sym (cmp_next a b (s ++ 0 ∷ r) (t ++ 0 ∷ u) on) ∙ e in
      ap₂ ◌∷◌ q (kstrcmp_same s t r u (ground (arith, h)) (ground (arith, k)) rest)
  | inr n ↦
      let q : sub_ℕ a b ≡ pos 0 =
        cc (cmp_stop a b (s ++ 0 ∷ r) (t ++ 0 ∷ u) (ground (arith, ne→== a b n)), e) in
      absurd (n (sub_ℕ_zero a b q))
]

kstrcmp_refl : (s r u : List ℕ) → has 0 s ≡ false → kstrcmp (s ++ 0 ∷ r) (s ++ 0 ∷ u) ≡ some (pos 0)
kstrcmp_refl [] r u h = cmp_stop 0 0 r u refl
kstrcmp_refl (a ∷ s) r u h =
    cmp_next a a (s ++ 0 ∷ r) (s ++ 0 ∷ u) (ground (arith, h, ==_refl a))
    ∙ kstrcmp_refl s r u (ground (arith, h))

-- `kstrcmp` gives 0 for two terminated strings exactly if they are the same, whatever follows them.
pub kstrcmp_zero :
    (s t r u : List ℕ)
    → has 0 s ≡ false
    → has 0 t ≡ false
    → (kstrcmp (s ++ 0 ∷ r) (t ++ 0 ∷ u) ≡ some (pos 0)) ↔ (s ≡ t)
kstrcmp_zero s t r u h k = (
  kstrcmp_same s t r u h k,
  λ e. subst (λ v. kstrcmp (s ++ 0 ∷ r) (v ++ 0 ∷ u) ≡ some (pos 0)) e (kstrcmp_refl s r u h),
)

-- ===== src/Fifo/Inv.antt =====
-- The representation invariant of `FIFO32`, and the numbers that one stands for.
use unagi_os.Common.{
  ℕ, zero, suc, ◌+◌, ◌-◌, ◌≤◌, ◌<◌, ◌≡◌, refl, ap, ap₂, ◌≢◌, Option, none, some, List, [], ◌∷◌,
  ◌++◌, arith, ltb, if◌then◌else◌, length, get_or, set, get_or-set_self, get_or-set_ne,
}
use unagi_os.Common.Int.{ℤ, pos}
use unagi_os.Fifo.{Fifo32, advance}

-- the array behind `fifo->buf`
abbrev pub cells : Option (List ℤ) → List ℤ
cells none = []
cells (some b) = b

-- the index `k` places after `h`, going round at `n`
abbrev pub offset : ℕ → ℕ → ℕ → ℕ
offset n h k = if ltb (h + k) n then h + k else h + k - n

-- the `k` numbers from index `h` on
abbrev pub window : List ℤ → ℕ → ℕ → ℕ → List ℤ
window b n h zero = []
window b n h (suc k) = get_or b h (pos 0) ∷ window b n (advance n h) k

abbrev pub contents : Fifo32 → List ℤ
contents f = window (cells f.buf) f.buflen f.next_r (f.buflen - f.free)

pub record IsValid (f : Fifo32) : Type 0 where
  pub present : f.buf ≡ some (cells f.buf)
  pub storage : f.buflen ≤ length (cells f.buf)
  pub read_in : f.next_r < f.buflen
  pub free_in : f.free ≤ f.buflen
  pub write_at : f.next_w ≡ offset f.buflen f.next_r (f.buflen - f.free)

pub length-window : (b : List ℤ) (n h k : ℕ) → length (window b n h k) ≡ k
length-window b n h zero = refl
length-window b n h (suc k) = ap suc (length-window b n (advance n h) k)

-- `window` matches on `suc`, the code tests for a count of nothing
pub window_of_ne_zero :
    (b : List ℤ) (n h k : ℕ)
    → k ≢ 0
    → window b n h k ≡ get_or b h (pos 0) ∷ window b n (advance n h) (k - 1)
window_of_ne_zero b n h zero p = absurd (p refl)
window_of_ne_zero b n h (suc k) p = ap (λ j. window b n h (suc j)) (omega arith)

-- Writing just past a window extends it by what is written.
pub window-set :
    (b : List ℤ) (n : ℕ) (d : ℤ) (k h i : ℕ)
    → n ≤ length b
    → h < n
    → k < n
    → i ≡ offset n h k
    → window (set b i d) n h (suc k) ≡ window b n h k ++ (d ∷ [])
unfolding advance
window-set b n d zero h i s hh hk e =
    let same : i ≡ h = ground arith in
    ap₂ ◌∷◌ (rw same (get_or-set_self b h d (pos 0) (omega arith))) refl
window-set b n d (suc k) h i s hh hk e =
    ap₂ ◌∷◌ (get_or-set_ne b i h d (pos 0) (ground arith))
      (window-set b n d k (advance n h) i s (ground arith) (omega arith) (ground arith))

-- ===== src/Gdt/Append.antt =====
-- The descriptors and the selectors of src/gdt/gdt.c.
use unagi_os.Common.{
  ℕ, ◌+◌, ◌*◌, ◌/◌, ◌%◌, ◌^◌, ◌≤◌, ◌<◌, ◌≡◌, refl, ◌≢◌, some, List, [], ◌∷◌, ltb, length,
  length-set, set, get_elem?, get_elem?-set_self, get_elem?-set_ne, arith, true, ◌∙◌,
}
use unagi_os.Gdt.{SegmentDescriptor, Gdt, set_segmdesc, append}

abbrev pub base_of : SegmentDescriptor → ℕ
base_of sd = sd.base_low + sd.base_mid * 2 ^ 16 + sd.base_high * 2 ^ 24

abbrev pub limit_of : SegmentDescriptor → ℕ
limit_of sd = sd.limit_low + sd.limit_high * 2 ^ 16

-- A descriptor holds the whole base of 32 bits and the limit of 20 bits that it was set to.
pub set_segmdesc_lem :
    (limit base ar : ℕ)
    → limit < 2 ^ 20
    → base < 2 ^ 32
    → (limit_of (set_segmdesc limit base ar) ≡ limit)
      × (base_of (set_segmdesc limit base ar) ≡ base)
unfolding set_segmdesc
set_segmdesc_lem limit base ar h k = (omega arith, omega arith)

-- The table has `n` descriptors in an array for 8192.
pub record HasCount (g : Gdt) (n : ℕ) : Type 0 where
  pub counted : g.limit + 1 ≡ 8 * n
  pub capacity : length g.gdts ≡ 8192

-- `gdt_append` to a table of `n` descriptors, one at least and fewer than 8192, returns the selector
-- of the new one, which is found at the index `n`; the others stay.
pub append_lem :
    (sd : SegmentDescriptor) (g : Gdt) (n : ℕ)
    → HasCount g n
    → n < 8192
    → (g' : Gdt) × (append sd g ≡ some (8 * n, g'))
      × HasCount g' (n + 1)
      × (get_elem? g'.gdts n ≡ some sd)
      × ((i : ℕ) → i ≢ n → get_elem? g'.gdts i ≡ get_elem? g.gdts i)
unfolding append
append_lem sd g n c h =
    let index : (g.limit + 1) / 8 ≡ n = omega (arith, c.counted) in
    let room : ltb n (length g.gdts) ≡ true = ground (arith, c.capacity) in
    let selector : n * 8 % 2 ^ 16 ≡ 8 * n = omega arith in
    let limit : (g.limit + 8) % 2 ^ 16 ≡ g.limit + 8 = omega (arith, c.counted) in
    (
      record { limit = g.limit + 8; gdts = set g.gdts n sd },
      rw (index, room, selector, limit) refl,
      record { counted = omega (arith, c.counted); capacity = length-set g.gdts n sd ∙ c.capacity },
      get_elem?-set_self g.gdts n sd (omega (arith, c.capacity)),
      λ i other. get_elem?-set_ne g.gdts n i sd (λ e. omega arith),
    )

-- Each pair holds the same selector twice.
abbrev pub Agree : List (ℕ × ℕ) → Type 0
Agree [] = Unit
Agree (p ∷ ps) = (p.0 ≡ p.1) × Agree ps

-- the descriptor of an available task state at `base`, with the limit 108
abbrev pub IsTss : SegmentDescriptor → ℕ → Type 0
IsTss sd base =
    (limit_of sd ≡ 108) × (base_of sd ≡ base) × (sd.access_byte ≡ 0x89) × (sd.flags ≡ 0xc)

-- The table holds the descriptors of `n` tasks from the task `i` on, behind the first three.
abbrev pub HoldsTss : (ℕ → ℕ) → ℕ → ℕ → Gdt → Type 0
HoldsTss tss i n g =
    (j : ℕ)
    → i ≤ j
    → j < i + n
    → (sd : SegmentDescriptor) × (get_elem? g.gdts (3 + j) ≡ some sd) × IsTss sd (tss j)

-- ===== src/Kutil/Align.antt =====
-- src/util/kutil.c: `align_address_to_upper` and `align_address_to_lower` on 32-bit addresses.
use unagi_os.Common.{
  ℕ, ◌+◌, ◌*◌, ◌/◌, ◌%◌, ◌^◌, ◌≤◌, ◌<◌, ◌≡◌, arith, ◌==◌, if◌then◌else◌, inl, inr, ==_cases,
}
use unagi_os.Common.Words.{add32, sub32}
use native.Mathlib.Nat.{mod-lt, div-add-mod', mul-mod_left}

-- `align_address_to_upper`
unfoldable pub align_address_to_upper : ℕ → ℕ → ℕ
align_address_to_upper addr align =
    let residual = addr % align in if residual == 0 then addr else add32 addr (sub32 align residual)

-- `align_address_to_lower`
unfoldable pub align_address_to_lower : ℕ → ℕ → ℕ
align_address_to_lower addr align =
    let residual = addr % align in if residual == 0 then addr else sub32 addr residual

-- `r` is the first multiple of `align` from `addr` on.
pub record IsUpper (addr align r : ℕ) : Type 0 where
  pub multiple : r % align ≡ 0
  pub above : addr ≤ r
  pub near : r < addr + align

-- `r` is the last multiple of `align` up to `addr`.
pub record IsLower (addr align r : ℕ) : Type 0 where
  pub multiple : r % align ≡ 0
  pub below : r ≤ addr
  pub near : addr < r + align

multiple_of_quotient : (q align r : ℕ) → r ≡ q * align → r % align ≡ 0
multiple_of_quotient q align r e = rw e (mul-mod_left q align)

-- An address that leaves room for one more `align` is rounded up to the first multiple of `align`
-- from it on.
pub align_address_to_upper-IsUpper :
    (addr align : ℕ)
    → 0 < align
    → addr + align ≤ 2 ^ 32
    → IsUpper addr align (align_address_to_upper addr align)
unfolding align_address_to_upper
align_address_to_upper-IsUpper addr align h room = elim (==_cases (addr % align) 0) [
  | inl e ↦ record { multiple = ground arith; above = ground arith; near = ground arith }
  | inr ne ↦
      let lt = mod-lt addr h in
      let whole = div-add-mod' addr align in
      let value : align_address_to_upper addr align ≡ addr / align * align + align = ground arith in
      rw value (record {
        multiple = multiple_of_quotient (addr / align + 1) align _ (omega arith);
        above = omega arith;
        near = omega arith;
      })
]

-- An address is rounded down to the last multiple of `align` up to it.
pub align_address_to_lower-IsLower :
    (addr align : ℕ)
    → 0 < align
    → addr < 2 ^ 32
    → IsLower addr align (align_address_to_lower addr align)
unfolding align_address_to_lower
align_address_to_lower-IsLower addr align h room = elim (==_cases (addr % align) 0) [
  | inl e ↦ record { multiple = ground arith; below = ground arith; near = ground arith }
  | inr ne ↦
      let lt = mod-lt addr h in
      let whole = div-add-mod' addr align in
      let value : align_address_to_lower addr align ≡ addr / align * align = ground arith in
      rw value (record {
        multiple = mul-mod_left (addr / align) align;
        below = omega arith;
        near = omega arith;
      })
]

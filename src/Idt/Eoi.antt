-- ===== src/Idt/Eoi.antt =====
-- Which interrupts src/idt/idt.c reports to the PICs.
use unagi_os.Common.{
  ℕ, ◌+◌, ◌-◌, ◌%◌, ◌*◌, ◌^◌, ◌<◌, ◌≡◌, refl, Bool, true, false, ◌&&◌, ◌||◌, not, ◌==◌, ne→==, ltb,
  leb, if◌then◌else◌, List, [], ◌∷◌, arith, ==_cases, Bool-cases, inl, inr,
}
use unagi_os.Idt.{
  GateDescriptor, set_gatedesc, Effect, out8, timer_int_handler, enqueue, print_99, send_eoi, int3h,
  int20h, int2ch, int21h, default_handler,
}

-- the offset that the processor reads from a gate
abbrev pub offset_of : GateDescriptor → ℕ
offset_of g = g.offset_1 + g.offset_2 * 2 ^ 16

-- A gate holds the whole offset of 32 bits, the selector and the type that it was set to.
pub set_gatedesc_lem :
    (offset selector access_right : ℕ)
    → offset < 2 ^ 32
    → (offset_of (set_gatedesc offset selector access_right) ≡ offset)
      × ((set_gatedesc offset selector access_right).selector ≡ selector)
      × ((set_gatedesc offset selector access_right).type_attr ≡ access_right)
unfolding set_gatedesc
set_gatedesc_lem offset selector access_right h = (omega arith, refl, refl)

-- the ports written by a list of effects, with the values
abbrev pub writes : List Effect → List (ℕ × ℕ)
writes [] = []
writes (out8 port v ∷ es) = (port, v) ∷ writes es
writes (timer_int_handler ∷ es) = writes es
writes (enqueue n ∷ es) = writes es
writes (print_99 ∷ es) = writes es

-- The end of interrupt of the line `irq`: to the first PIC, or to the second and on the line 2 of
-- the first.
abbrev pub end_of_interrupt : ℕ → List (ℕ × ℕ)
end_of_interrupt irq =
    if ltb irq 8 then (0x20, 0x60 + irq) ∷ [] else (0xa0, 0x58 + irq) ∷ (0x20, 0x62) ∷ []

-- the interrupts of the PICs' lines, but for the lines 7 and 15, which may be spurious
abbrev pub is_reported : ℕ → Bool
is_reported n = (leb 0x20 n && ltb n 0x30) && not (n == 0x27 || n == 0x2f)

writes_eoi :
    (n : ℕ)
    → is_reported n ≡ true
    → writes (send_eoi (n % 256 - 0x20)) ≡ end_of_interrupt (n - 0x20)
unfolding send_eoi
writes_eoi n h = elim (Bool-cases (ltb (n - 0x20) 8)) [
  | inl low ↦ let line : n % 256 - 0x20 ≡ n - 0x20 = ground (arith, h) in rw (line, low) refl
  | inr high ↦
      let line : n % 256 - 0x20 ≡ n - 0x20 = ground (arith, h) in
      let second : ltb (n - 0x20) 16 ≡ true = ground (arith, h) in
      let number : 0x60 + (n - 0x20 - 8) ≡ 0x58 + (n - 0x20) = ground (arith, h, high) in
      rw (line, high, second, number) refl
]

-- Whatever byte the keyboard controller holds, an interrupt of a line of the PICs writes the end of
-- interrupt of its line, once, and no interrupt writes anything else to a port; the lines 7 and 15
-- are not reported.
pub writes-default_handler :
    (n byte : ℕ)
    → writes (default_handler n byte) ≡ (if is_reported n then end_of_interrupt (n - 0x20) else [])
unfolding default_handler int3h int20h int2ch int21h send_eoi
writes-default_handler n byte = elim (==_cases n 0x3) [
  | inl e ↦ rw e refl
  | inr n0 ↦ elim (==_cases n 0x20) [
    | inl e ↦ rw e refl
    | inr n1 ↦ elim (==_cases n 0x2c) [
      | inl e ↦ rw e refl
      | inr n2 ↦ elim (==_cases n 0x21) [
        | inl e ↦ rw e refl
        | inr n3 ↦ elim (Bool-cases (is_reported n)) [
          | inl t ↦
              let range : (leb 0x20 n && ltb n 0x30) ≡ true = ground (arith, t) in
              let real : (n == 0x20 + 7 || n == 0x28 + 7) ≡ false = ground (arith, t) in
              rw (ne→== n 0x3 n0, ne→== n 0x20 n1, ne→== n 0x2c n2, ne→== n 0x21 n3, range, real)
                (writes_eoi n t)
          | inr t ↦ elim (Bool-cases (leb 0x20 n && ltb n 0x30)) [
            | inl range ↦
                let spurious : (n == 0x20 + 7 || n == 0x28 + 7) ≡ true = ground (arith, t, range) in
                rw
                  (
                    ne→== n 0x3 n0,
                    ne→== n 0x20 n1,
                    ne→== n 0x2c n2,
                    ne→== n 0x21 n3,
                    range,
                    spurious,
                  )
                  refl
            | inr range ↦ elim (Bool-cases (n == 99)) [
              | inl e ↦
                  rw (ne→== n 0x3 n0, ne→== n 0x20 n1, ne→== n 0x2c n2, ne→== n 0x21 n3, range, e)
                    refl
              | inr e ↦
                  rw (ne→== n 0x3 n0, ne→== n 0x20 n1, ne→== n 0x2c n2, ne→== n 0x21 n3, range, e)
                    refl
            ]
          ]
        ]
      ]
    ]
  ]
]

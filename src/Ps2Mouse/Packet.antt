-- ===== src/Ps2Mouse/Packet.antt =====
-- What the decoder of src/drivers/ps2mouse.c reads from whole packets.
use unagi_os.Common.{
  ℕ, ◌%◌, ◌<◌, ◌≡◌, refl, ◌≢◌, Bool, true, false, ◌&&◌, ◌==◌, ne→==, not, if◌then◌else◌, List, [],
  ◌∷◌, arith, ◌∙◌, ap, Bool-cases, inl, inr,
}
use unagi_os.Common.Int.{ℤ, pos, sub_ℕ}
use unagi_os.Ps2Mouse.{
  MouseData, is_first_byte, has_bit, glue_twos_complement_fragment, decode, parse_three_bytes,
}

-- three bytes from the mouse
pub record Packet : Type 0 where
  pub state : ℕ
  pub second : ℕ
  pub third : ℕ

abbrev pub bytes : List Packet → List ℕ
bytes [] = []
bytes (p ∷ ps) = p.state ∷ p.second ∷ p.third ∷ bytes ps

-- A packet without overflow bits, whose other bytes differ from the mouse's answer 0xfa.
pub record IsPlain (p : Packet) : Type 0 where
  pub first : is_first_byte p.state ≡ true
  pub byte : p.state < 256
  pub second_plain : p.second ≢ 0xfa
  pub third_plain : p.third ≢ 0xfa

abbrev pub AllPlain : List Packet → Type 0
AllPlain [] = Unit
AllPlain (p ∷ ps) = IsPlain p × AllPlain ps

-- the movement of a packet along an axis: the byte is -256 too large where the sign is set
abbrev pub movement : Bool → ℕ → ℤ
movement negative tail = if negative then sub_ℕ tail 256 else pos tail

-- the moves and the buttons of a packet
abbrev pub Report : Type 0
Report = ℤ × ℤ × ℤ

abbrev pub report : Packet → Report
report p = (
  movement (has_bit p.state 16) p.second,
  movement (has_bit p.state 32) p.third,
  pos (p.state % 8),
)

abbrev pub report_all : List Packet → List Report
report_all [] = []
report_all (p ∷ ps) = report p ∷ report_all ps

-- The decoder over a stream of bytes: what it holds each time it has taken a third byte.
unfoldable pub reports : List ℕ → MouseData → List Report
reports [] m = []
reports (b ∷ bs) m =
    let m' = decode b m in
    let rest = reports bs m' in
    if m.phase == 3 && not (b == 0xfa) then (m'.x, m'.y, m'.btn) ∷ rest else rest

module _ (m : MouseData) (b : ℕ) where
  decode_first :
      m.phase ≡ 1 → is_first_byte b ≡ true → b < 256 → decode b m ≡ record m { buf0 = b; phase = 2 }
  unfolding decode
  decode_first e f lt = let plain : (b == 0xfa) ≡ false = ground (arith, f) in rw (plain, e, f) refl

  decode_second : m.phase ≡ 2 → b ≢ 0xfa → decode b m ≡ record m { buf1 = b; phase = 3 }
  unfolding decode
  decode_second e n = rw (ne→== b 0xfa n, e) refl

  decode_third :
      m.phase ≡ 3
      → b ≢ 0xfa
      → decode b m ≡ record (parse_three_bytes (record m { buf2 = b })) { phase = 1 }
  unfolding decode
  decode_third e n = rw (ne→== b 0xfa n, e) refl

  reports_early :
      (bs : List ℕ) → (m.phase == 3) ≡ false → reports (b ∷ bs) m ≡ reports bs (decode b m)
  unfolding reports
  reports_early bs e = rw e refl

  reports_third :
      (bs : List ℕ)
      → m.phase ≡ 3
      → b ≢ 0xfa
      → reports (b ∷ bs) m
        ≡ ((decode b m).x, (decode b m).y, (decode b m).btn) ∷ reports bs (decode b m)
  unfolding reports
  reports_third bs e n = rw (e, ne→== b 0xfa n) refl

movement_glue :
    (negative : Bool) (tail : ℕ)
    → glue_twos_complement_fragment negative tail ≡ movement negative tail
movement_glue true tail = refl
movement_glue false tail = refl

-- the state after a packet
abbrev after : Packet → MouseData → MouseData
after p m =
    record (parse_three_bytes (record m { buf0 = p.state; buf1 = p.second; buf2 = p.third })) {
      phase = 1;
    }

report-after :
    (p : Packet) (m : MouseData) → ((after p m).x, (after p m).y, (after p m).btn) ≡ report p
unfolding parse_three_bytes
report-after p m =
    rw (movement_glue (has_bit p.state 16) p.second, movement_glue (has_bit p.state 32) p.third)
      refl

one_packet :
    (p : Packet) (bs : List ℕ) (m : MouseData)
    → IsPlain p
    → m.phase ≡ 1
    → reports (p.state ∷ p.second ∷ p.third ∷ bs) m ≡ report p ∷ reports bs (after p m)
unfolding parse_three_bytes
one_packet p bs m plain e =
    let m1 = record m { buf0 = p.state; phase = 2 } in
    let m2 = record m1 { buf1 = p.second; phase = 3 } in
    let d1 = decode_first m p.state e plain.first plain.byte in
    let d2 = decode_second m1 p.second refl plain.second_plain in
    let d3 = decode_third m2 p.third refl plain.third_plain in
    reports_early m p.state (p.second ∷ p.third ∷ bs) (ground arith)
    ∙ ap (reports (p.second ∷ p.third ∷ bs)) d1
    ∙ reports_early m1 p.second (p.third ∷ bs) refl
    ∙ ap (reports (p.third ∷ bs)) d2
    ∙ reports_third m2 p.third bs refl plain.third_plain
    ∙ ap (λ (s : MouseData). (s.x, s.y, s.btn) ∷ reports bs s) d3
    ∙ ap (λ r. r ∷ reports bs (after p m)) (report-after p m)

packets_lem :
    (ps : List Packet) (m : MouseData)
    → AllPlain ps
    → m.phase ≡ 1
    → reports (bytes ps) m ≡ report_all ps
unfolding reports
packets_lem [] m a e = refl
packets_lem (p ∷ ps) m (a, others) e =
    one_packet p (bytes ps) m a e
    ∙ ap (λ rs. report p ∷ rs) (packets_lem ps (after p m) others refl)

decode_answer : (m : MouseData) → decode 0xfa m ≡ record m { phase = 1 }
unfolding decode
decode_answer m = refl

-- Whatever the decoder holds, after the answer 0xfa it reads from plain packets their movements, as
-- numbers of nine bits with their sign, and their buttons, each packet once and in order.
pub reports_lem :
    (ps : List Packet) (m : MouseData) → AllPlain ps → reports (0xfa ∷ bytes ps) m ≡ report_all ps
unfolding reports
reports_lem ps m a = elim (Bool-cases (m.phase == 3)) [
  | inl e ↦ rw (e, decode_answer m) (packets_lem ps (record m { phase = 1 }) a refl)
  | inr e ↦ rw (e, decode_answer m) (packets_lem ps (record m { phase = 1 }) a refl)
]

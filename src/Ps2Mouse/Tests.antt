-- ===== src/Ps2Mouse/Tests.antt =====
-- Tests of the model of src/drivers/ps2mouse.c, and the inputs at which its theorem is applied.
use unagi_os.Common.{◌≡◌, refl, [], ◌∷◌, arith}
use unagi_os.Common.Int.{pos, negsuc}
use unagi_os.Ps2Mouse.{MouseData, decode}
use unagi_os.Ps2Mouse.Packet.{Packet, bytes, reports, report_all, reports_lem}

abbrev fresh : MouseData
fresh = record { buf0 = 0; buf1 = 0; buf2 = 0; phase = 3; x = pos 0; y = pos 0; btn = pos 0 }

abbrev left : Packet
left = record { state = 0x19; second = 0xfe; third = 7 }

moved_left : report_all (left ∷ []) ≡ (negsuc 1, pos 7, pos 1) ∷ []
moved_left = refl

-- A byte 0xfa within a packet, here a movement by -6, makes the decoder drop the packet.
lost : reports (0xfa ∷ 0x18 ∷ 0xfa ∷ 0 ∷ []) fresh ≡ []
unfolding reports decode
lost = refl

reports_lem_example :
    reports (0xfa ∷ bytes (left ∷ left ∷ [])) fresh ≡ report_all (left ∷ left ∷ [])
reports_lem_example = reports_lem (left ∷ left ∷ []) fresh (
  record {
    first = refl;
    byte = omega arith;
    second_plain = omega arith;
    third_plain = omega arith;
  },
  (
    record {
      first = refl;
      byte = omega arith;
      second_plain = omega arith;
      third_plain = omega arith;
    },
    tt,
  ),
)

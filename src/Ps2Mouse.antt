-- ===== src/Ps2Mouse.antt =====
-- src/drivers/ps2mouse.c and include/uapi/input-mouse-event.h: the decoder of the mouse's packets
-- of three bytes.
pub mod Packet
mod Tests
use unagi_os.Common.{ℕ, ◌/◌, ◌%◌, Bool, true, false, ◌&&◌, ◌==◌, if◌then◌else◌, List, [], ◌∷◌}
use unagi_os.Common.Int.{ℤ, pos, sub_ℕ}

-- `MOUSE_DATA_BUNDLE`
pub record MouseData : Type 0 where
  pub buf0 : ℕ
  pub buf1 : ℕ
  pub buf2 : ℕ
  pub phase : ℕ
  pub x : ℤ
  pub y : ℤ
  pub btn : ℤ

-- `(scancode & 0xc8) == 0x08`: the bits 7 and 6 are clear, and the bit 3 is set
abbrev pub is_first_byte : ℕ → Bool
is_first_byte scancode = scancode / 64 % 4 == 0 && scancode / 8 % 2 == 1

-- `isMaskBitsAllSet(state, 1 << bit)` for the bit of the weight `w`
abbrev pub has_bit : ℕ → ℕ → Bool
has_bit state w = state / w % 2 == 1

-- `glue_twos_compliment_fragment`: with the sign, `0xffffff00 | tail` as an `int32_t`
abbrev pub glue_twos_complement_fragment : Bool → ℕ → ℤ
glue_twos_complement_fragment true tail = sub_ℕ tail 256
glue_twos_complement_fragment false tail = pos tail

-- `ps2mouse_parse_three_bytes`
pub parse_three_bytes : MouseData → MouseData
parse_three_bytes m = record m {
  x = glue_twos_complement_fragment (has_bit m.buf0 16) m.buf1;
  y = glue_twos_complement_fragment (has_bit m.buf0 32) m.buf2;
  btn = pos (m.buf0 % 8);
}

-- `ps2mouse_decode`
pub decode : ℕ → MouseData → MouseData
unfolding parse_three_bytes
decode scancode m0 =
    let m = if scancode == 0xfa then record m0 { phase = 1 } else m0 in
    if m.phase == 0
    then m
    else if m.phase == 1 && is_first_byte scancode
    then record m { buf0 = scancode; phase = 2 }
    else if m.phase == 2
    then record m { buf1 = scancode; phase = 3 }
    else if m.phase == 3
    then record (parse_three_bytes (record m { buf2 = scancode })) { phase = 1 }
    else m

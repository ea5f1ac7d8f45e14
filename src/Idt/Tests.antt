-- ===== src/Idt/Tests.antt =====
-- Tests of the model of src/idt/idt.c, and the inputs at which its theorems are applied.
use unagi_os.Common.{◌≡◌, refl, if◌then◌else◌, [], ◌∷◌, ◌-◌}
use unagi_os.Idt.{out8, enqueue, default_handler, int2ch, send_eoi}
use unagi_os.Idt.Eoi.{writes, is_reported, end_of_interrupt, writes-default_handler}

-- a byte of the mouse: the second PIC is told before the first, and the byte is queued
mouse : default_handler 0x2c 8 ≡ out8 0xa0 0x64 ∷ out8 0x20 0x62 ∷ enqueue 520 ∷ []
unfolding default_handler int2ch send_eoi
mouse = refl

writes-default_handler_example :
    writes (default_handler 0x2c 8)
    ≡ (if is_reported 0x2c then end_of_interrupt (0x2c - 0x20) else [])
writes-default_handler_example = writes-default_handler 0x2c 8

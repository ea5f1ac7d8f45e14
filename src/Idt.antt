-- ===== src/Idt.antt =====
-- src/idt/idt.c, idt.h and src/pic/pic.c: the gates, the dispatcher of interrupts, and the PICs.
--
-- What the handlers do is the list of their effects, in order; the byte that a handler reads from
-- the keyboard controller's port is an argument. The bits of a port's commands that are joined by
-- `|` do not overlap, and are added.
pub mod Eoi
mod Tests
use unagi_os.Common.{
  ℕ, ◌+◌, ◌-◌, ◌/◌, ◌%◌, ◌^◌, Bool, true, false, ◌&&◌, ◌||◌, ◌==◌, ltb, leb, if◌then◌else◌, List,
  [], ◌∷◌, ◌++◌,
}

-- `IDT_GATE_DESCRIPTOR_32`
pub record GateDescriptor : Type 0 where
  pub offset_1 : ℕ
  pub selector : ℕ
  pub zero : ℕ
  pub type_attr : ℕ
  pub offset_2 : ℕ

-- `set_gatedesc`, which sets every field
unfoldable pub set_gatedesc : ℕ → ℕ → ℕ → GateDescriptor
set_gatedesc offset selector access_right = record {
  offset_1 = offset % 2 ^ 16;
  selector = selector;
  zero = 0;
  type_attr = access_right;
  offset_2 = offset / 2 ^ 16 % 2 ^ 16;
}

-- `_io_out8`, the call of `timer_int_handler`, `mpfifo32_enqueue` of `keymousefifo`, and `idt99`
pub data Effect : Type 0 where
  out8 : ℕ → ℕ → Effect
  timer_int_handler : Effect
  enqueue : ℕ → Effect
  print_99 : Effect

-- `PIC0_COMMAND`, `PIC1_COMMAND`, `PIC_SIG_EOI_SP`
abbrev pub pic0_command : ℕ
pic0_command = 0x20

abbrev pub pic1_command : ℕ
pic1_command = 0xa0

abbrev pub sig_eoi_sp : ℕ
sig_eoi_sp = 0x60

-- `PIC_sendEOI`
unfoldable pub send_eoi : ℕ → List Effect
send_eoi irq =
    if ltb irq 8
    then out8 pic0_command (sig_eoi_sp + irq) ∷ []
    else if ltb irq 16
    then out8 pic1_command (sig_eoi_sp + (irq - 8)) ∷ out8 pic0_command (sig_eoi_sp + 2) ∷ []
    else []

-- `PIC_init`, without `DEBUG_NO_TIMER`
unfoldable pub pic_init : ℕ → ℕ → List Effect
pic_init offset0 offset1 =
    out8 0x21 0xff
    ∷ out8 0xa1 0xff
    ∷ out8 pic0_command 0x11
    ∷ out8 0x21 offset0
    ∷ out8 0x21 4
    ∷ out8 0x21 1
    ∷ out8 pic1_command 0x19
    ∷ out8 0xa1 offset1
    ∷ out8 0xa1 2
    ∷ out8 0xa1 1
    ∷ out8 0x21 0xf8
    ∷ out8 0xa1 0xef
    ∷ []

-- `int3h`, `int20h`, `int2ch` and `int21h`
unfoldable pub int3h : List Effect
int3h = []

unfoldable pub int20h : List Effect
int20h = send_eoi 0 ++ timer_int_handler ∷ []

unfoldable pub int2ch : ℕ → List Effect
int2ch byte = send_eoi 12 ++ enqueue (byte + 512) ∷ []

unfoldable pub int21h : ℕ → List Effect
int21h byte = send_eoi 1 ++ enqueue (byte + 256) ∷ []

-- `idt_int_default_handler`
unfoldable pub default_handler : ℕ → ℕ → List Effect
default_handler interrupt_number byte =
    if interrupt_number == 0x3
    then int3h
    else if interrupt_number == 0x20
    then int20h
    else if interrupt_number == 0x2c
    then int2ch byte
    else if interrupt_number == 0x21
    then int21h byte
    else if leb 0x20 interrupt_number && ltb interrupt_number 0x30
    then if interrupt_number == 0x20 + 7 || interrupt_number == 0x28 + 7
      then []
      else send_eoi (interrupt_number % 256 - 0x20)
    else if interrupt_number == 99
    then print_99 ∷ []
    else []

-- ===== src/Common/Words.antt =====
-- 32-bit unsigned arithmetic: `uint32_t`, `size_t` and `uintptr_t` of the i386 target.
use Prim.Native.Nat.{ℕ, ◌+◌, ◌-◌, ◌%◌, ◌^◌}
use mathlib.Core.Bool.{Bool}
use unagi_os.Common.Tests.{ltb, if◌then◌else◌}

abbrev pub add32 : ℕ → ℕ → ℕ
add32 a b = (a + b) % 2 ^ 32

abbrev pub sub32 : ℕ → ℕ → ℕ
sub32 a b = (a + 2 ^ 32 - b) % 2 ^ 32

-- `a < b` of two `int32_t`, each held as its two's complement
abbrev pub slt32 : ℕ → ℕ → Bool
slt32 a b = ltb (add32 a (2 ^ 31)) (add32 b (2 ^ 31))

-- how often a loop from 0 up to the `int32_t` `n` runs
abbrev pub count32 : ℕ → ℕ
count32 n = if ltb n (2 ^ 31) then n else 0

-- ===== src/Prelude/Words.antt =====
-- Machine words as bit patterns: `long` and `LONG` below 2 ^ 32, `LONGLONG` below 2 ^ 64, in two's
-- complement. Memory as lists of bytes.
use Prim.Native.Nat.{ℕ, ◌+◌, ◌-◌, ◌%◌, ◌^◌}
use mathlib.Core.Bool.{Bool, ◌&&◌}
use mathlib.Core.List.{List, ◌++◌}
use virtual_capture_stream.Prelude.Tests.{ltb}
use virtual_capture_stream.Prelude.Lists.{length, drop}

-- `x > 0` on a signed 32-bit word.
abbrev pub is_pos32 : ℕ → Bool
is_pos32 x = ltb 0 x && ltb x 0x80000000

-- `a - b` on 64-bit words.
abbrev pub sub64 : ℕ → ℕ → ℕ
sub64 a b = (a + 2 ^ 64 - b) % 2 ^ 64

-- `memcpy` of the given bytes to the front of a block.
abbrev pub overwrite : List ℕ → List ℕ → List ℕ
overwrite bytes block = bytes ++ drop (length bytes) block

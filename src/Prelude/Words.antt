-- ===== src/Prelude/Words.antt =====
-- Machine integers as bit patterns, and the return codes of system calls.
use Prim.Native.Nat.{ℕ, zero, suc, ◌+◌, ◌-◌, ◌%◌, ◌/◌}
use kernel_modules_playgroun.Prelude.Tests.{ltb, if◌then◌else◌}

-- `unsigned char`, `u32` and `u64` arithmetic wraps.
abbrev pub u8 : ℕ → ℕ
u8 n = n % 256

abbrev pub u32 : ℕ → ℕ
u32 n = n % 4294967296

abbrev pub u64 : ℕ → ℕ
u64 n = n % 18446744073709551616

-- The sign extension of an `int`, given by its pattern, to a 64-bit pattern.
abbrev pub sign_extend : ℕ → ℕ
sign_extend n = if ltb n 2147483648 then n else n + 18446744069414584320

-- A signed value; `negsuc n` is -(n + 1).
pub data ℤ : Type 0 where
  pos : ℕ → ℤ
  negsuc : ℕ → ℤ

-- The integer of which -n is the negation.
abbrev pub negate : ℕ → ℤ
negate zero = pos 0
negate (suc n) = negsuc n

-- The `int` and the `long` of a pattern.
abbrev pub signed32 : ℕ → ℤ
signed32 n = if ltb n 2147483648 then pos n else negate (4294967296 - n)

abbrev pub signed64 : ℕ → ℤ
signed64 n = if ltb n 9223372036854775808 then pos n else negate (18446744073709551616 - n)

-- C division by a positive number rounds towards 0.
abbrev pub div_trunc : ℤ → ℕ → ℤ
div_trunc (pos n) d = pos (n / d)
div_trunc (negsuc n) d = negate (suc n / d)

-- errno.h, negated as the kernel returns it.
abbrev pub enomem : ℤ
enomem = negsuc 11

abbrev pub efault : ℤ
efault = negsuc 13

abbrev pub einval : ℤ
einval = negsuc 21

-- ===== src/Memory/Driver.antt =====
-- `memory_read` and `memory_write` of chardev_fops.c.
use kernel_modules_playgroun.Prelude.{
  ℕ, zero, suc, ◌+◌, ◌-◌, Bool, ◌==◌, if◌then◌else◌, Option, none, some,
}

-- The memory of the process: `none` where a copy faults.
abbrev pub User : Type 0
User = ℕ → Option ℕ

-- `copy_from_user(to, from, 1)`, which stores a 0 for a byte that it cannot read.
abbrev pub copied : Option ℕ → ℕ
copied none = 0
copied (some c) = c

-- What a read answers: its return value, `*f_pos` after it, and the byte that it has sent, unless
-- the copy has failed.
pub record Answer : Type 0 where
  pub retval : ℕ
  pub f_pos : ℕ
  pub sent : Option ℕ

unfoldable pub memory_read : Bool → ℕ → ℕ → Answer
memory_read writable f_pos memory_buffer =
    let sent : Option ℕ = if writable then some memory_buffer else none in
    if f_pos == 0
    then record { retval = 1; f_pos = f_pos + 1; sent = sent }
    else record { retval = 0; f_pos = f_pos; sent = sent }

-- The byte in `memory_buffer` afterwards, and the return value.
unfoldable pub memory_write : User → ℕ → ℕ → ℕ → ℕ × ℕ
memory_write user buf count memory_buffer = let tmp = buf + count - 1 in (copied (user tmp), 1)

-- A process that goes on writing behind the bytes that were taken, until none are left.
unfoldable pub write_all : ℕ → User → ℕ → ℕ → ℕ → Option ℕ
write_all zero user buf count memory_buffer = none
write_all (suc fuel) user buf count memory_buffer =
    let r = memory_write user buf count memory_buffer in
    let rest = write_all fuel user (buf + r.1) (count - r.1) r.0 in
    if count == 0 then some memory_buffer else rest

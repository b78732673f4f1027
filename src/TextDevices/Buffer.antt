-- ===== src/TextDevices/Buffer.antt =====
-- The static buffers of misc_char_dev.c and procfs.c, and the kernel's helpers on them.
use kernel_modules_playgroun.Prelude.{
  ℕ, ◌+◌, ◌-◌, ◌≡◌, ltb, if◌then◌else◌, List, ◌++◌, take, drop, length, ℤ, pos,
}
use kernel_modules_playgroun.Prelude.Bytes.{Text, text}

abbrev pub maxbuff : ℕ
maxbuff = 128

-- `my_eud_id` up to its 0.
abbrev pub my_eud_id : Text
my_eud_id = text "HELLO WORLD"

-- What `simple_write_to_buffer` answers: its result, the buffer and the file position.
pub record Written : Type 0 where
  pub ret : ℤ
  pub buffer : List ℕ
  pub off : ℕ

-- What `simple_read_from_buffer` answers: its result, what it has put into the user's buffer, and
-- the file position.
pub record Fetched : Type 0 where
  pub ret : ℤ
  pub out : List ℕ
  pub off : ℕ

-- The documented behaviour of `simple_write_to_buffer` where no byte faults: it copies as much of
-- `from` as has room behind the position, returns that number and moves the position.
abbrev pub room : (len off : ℕ) → ℕ
room len off = if ltb (maxbuff - off) len then maxbuff - off else len

pub record WriteOk (old from : List ℕ) (off : ℕ) (w : Written) : Type 0 where
  pub ret : w.ret ≡ pos (room (length from) off)
  pub buffer :
      w.buffer
      ≡ take off old
        ++ (take (room (length from) off) from ++ drop (off + room (length from) off) old)
  pub moved : w.off ≡ off + room (length from) off

-- The documented behaviour of `simple_read_from_buffer` where no byte faults: from the position on
-- it copies as much of what is available as the user asks for, returns that number and moves the
-- position.
abbrev pub left : (len rest : ℕ) → ℕ
left len rest = if ltb rest len then rest else len

pub record ReadOk (available : Text) (len off : ℕ) (f : Fetched) : Type 0 where
  pub ret : f.ret ≡ pos (left len (length available - off))
  pub out : f.out ≡ take (left len (length available - off)) (drop off available)
  pub moved : f.off ≡ off + left len (length available - off)

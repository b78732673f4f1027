-- ===== src/Vram/Driver.antt =====
-- `my_read` and `my_write` of hardware_map.c.
use kernel_modules_playgroun.Prelude.{
  ℕ, zero, suc, ◌+◌, ◌-◌, Bool, true, false, ◌&&◌, ◌==◌, leb, ltb, if◌then◌else◌, List, [], ◌∷◌, ℤ,
  pos, efault, u64, signed64,
}

abbrev pub vram_size : ℕ
vram_size = 0x00020000

-- The mapped memory, by the distance from `vram` as a 64-bit pattern. Only distances below
-- `vram_size` are mapped.
abbrev pub Io : Type 0
Io = ℕ → ℕ

-- `*off >= VRAM_SIZE`: a signed comparison.
abbrev pub at_end : ℕ → Bool
at_end off = ltb off 9223372036854775808 && leb vram_size off

-- `if (*off + len > VRAM_SIZE) len = VRAM_SIZE - *off;`: an unsigned comparison.
abbrev pub clip : (len off : ℕ) → ℕ
clip len off =
    if ltb vram_size (u64 (off + len)) then u64 (vram_size + 18446744073709551616 - off) else len

-- The loop of `my_read` with `n` rounds to go; `ok` says for which bytes of the user's buffer
-- `copy_to_user` succeeds. The result is what has been copied, and whether all was.
unfoldable pub read_loop : (ℕ → Bool) → Io → (off i n : ℕ) → List ℕ × Bool
read_loop ok io off i zero = ([], true)
read_loop ok io off i (suc n) =
    let byte = io (u64 (off + i)) in
    let (more, all) = read_loop ok io off (i + 1) n in
    if ok i then (byte ∷ more, all) else ([], false)

-- The user's buffer, the return value and the file position after a read.
pub record ReadResult : Type 0 where
  pub buf : List ℕ
  pub ret : ℤ
  pub off : ℕ

unfoldable pub my_read : (ℕ → Bool) → Io → (len off : ℕ) → ReadResult
my_read ok io len off =
    if at_end off
    then record { buf = []; ret = pos 0; off = off }
    else let n = clip len off in
      let (copied, all) = read_loop ok io off 0 n in
      if all
      then record { buf = copied; ret = signed64 n; off = u64 (off + n) }
      else record { buf = copied; ret = efault; off = off }

abbrev pub iowrite8 : Io → ℕ → ℕ → Io
iowrite8 io a v b = if b == a then v else io b

-- The loop of `my_write`; `buf` is what the user's buffer holds, by index.
unfoldable pub write_loop : (ℕ → Bool) → (ℕ → ℕ) → (off i n : ℕ) → Io → Io × Bool
write_loop ok buf off i zero io = (io, true)
write_loop ok buf off i (suc n) io =
    let more = write_loop ok buf off (i + 1) n (iowrite8 io (u64 (off + i)) (buf i)) in
    if ok i then more else (io, false)

pub record WriteResult : Type 0 where
  pub io : Io
  pub ret : ℤ
  pub off : ℕ

unfoldable pub my_write : (ℕ → Bool) → (ℕ → ℕ) → (len off : ℕ) → Io → WriteResult
my_write ok buf len off io =
    if at_end off
    then record { io = io; ret = pos 0; off = off }
    else let n = clip len off in
      let (io', all) = write_loop ok buf off 0 n io in
      if all
      then record { io = io'; ret = signed64 n; off = u64 (off + n) }
      else record { io = io'; ret = efault; off = off }

-- ===== src/Vram/Files.antt =====
-- `vram_fops` of hardware_map.c, and processes that use /dev/vram through it, with no fault in their
-- own memory.
use kernel_modules_playgroun.Prelude.{
  ℕ, zero, suc, Bool, true, false, ◌==◌, if◌then◌else◌, Option, none, some, List, [], ◌∷◌, ◌++◌,
  length, get_or, ℤ, pos, negsuc,
}
use kernel_modules_playgroun.Vram.Driver.{Io, ReadResult, my_read, WriteResult, my_write}

unfoldable pub my_open : ℤ
my_open = pos 0

unfoldable pub my_close : ℤ
my_close = pos 0

-- `struct file_operations` with the functions that the driver fills.
pub record FileOperations : Type 0 where
  pub on_open : ℤ
  pub on_release : ℤ
  pub read : (ℕ → Bool) → Io → (len off : ℕ) → ReadResult
  pub write : (ℕ → Bool) → (ℕ → ℕ) → (len off : ℕ) → Io → WriteResult

abbrev pub vram_fops : FileOperations
vram_fops = record { on_open = my_open; on_release = my_close; read = my_read; write = my_write }

abbrev pub is_zero : ℤ → Bool
is_zero (pos n) = n == 0
is_zero (negsuc n) = false

abbrev pub prepend : List ℕ → Option (List ℕ) → Option (List ℕ)
prepend bytes none = none
prepend bytes (some rest) = some (bytes ++ rest)

-- The position of the file and the memory after the pieces have been written one after the other.
unfoldable pub write_pieces : FileOperations → List (List ℕ) → ℕ → Io → ℕ × Io
write_pieces fops [] off io = (off, io)
write_pieces fops (p ∷ ps) off io =
    let w = fops.write (λ i. true) (λ i. get_or p i 0) (length p) off io in
    write_pieces fops ps w.off w.io

-- What is read in requests of `n` bytes until one returns 0; `none` if the fuel runs out before.
unfoldable pub read_to_end : FileOperations → ℕ → ℕ → ℕ → Io → Option (List ℕ)
read_to_end fops zero n off io = none
read_to_end fops (suc fuel) n off io =
    let r = fops.read (λ i. true) io n off in
    let rest = read_to_end fops fuel n r.off io in
    if is_zero r.ret then some [] else prepend r.buf rest

-- A process that opens the file and writes, and one that opens it and reads; a file has the position
-- 0 when it is opened, if that succeeds.
unfoldable pub store : FileOperations → List (List ℕ) → Io → Io
store fops ps io = if is_zero fops.on_open then (write_pieces fops ps 0 io).1 else io

unfoldable pub cat : FileOperations → ℕ → ℕ → Io → Option (List ℕ)
cat fops fuel n io = if is_zero fops.on_open then read_to_end fops fuel n 0 io else none

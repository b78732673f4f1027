-- ===== src/TextDevices/Files.antt =====
-- `misc_fops` and `misc_dev` of misc_char_dev.c and `fops` of procfs.c, and processes that use the
-- files through these tables, one call after the other.
use kernel_modules_playgroun.Prelude.{
  ℕ, ◌==◌, if◌then◌else◌, Option, none, some, List, [], ◌∷◌, ℤ, pos, negsuc,
}
use kernel_modules_playgroun.Prelude.Bytes.{Text, text}
use kernel_modules_playgroun.TextDevices.Buffer.{Written, Fetched}
use kernel_modules_playgroun.TextDevices.Device.{Device}
use kernel_modules_playgroun.TextDevices.Procfs
use kernel_modules_playgroun.TextDevices.MiscCharDev

-- `struct file_operations` with the functions that both modules fill; `none` is a wait for the lock.
pub record FileOperations : Type 0 where
  pub read : (Text → ℕ → Fetched) → Device → Option (Device × Fetched)
  pub write : Written → Device → Option (Device × ℤ)

abbrev pub misc_fops : FileOperations
misc_fops = record { read = MiscCharDev.my_read; write = MiscCharDev.my_write }

abbrev pub fops : FileOperations
fops = record {
  read = λ simple_read_from_buffer d. some (d, Procfs.my_read simple_read_from_buffer);
  write = λ w d. some (Procfs.my_write w d);
}

-- `struct miscdevice`, less the minor number, which the kernel chooses.
pub record MiscDevice : Type 0 where
  pub name : Text
  pub operations : FileOperations

abbrev pub misc_dev : MiscDevice
misc_dev = record { name = text "ritsz"; operations = misc_fops }

-- The kernel's two helpers, with the user's length and position, or with what the buffer holds and
-- what the user writes at a position.
pub record Helpers : Type 0 where
  pub simple_read_from_buffer : (len off : ℕ) → Text → ℕ → Fetched
  pub simple_write_to_buffer : (old from : List ℕ) → ℕ → Written

-- The module's variables, and the position of each open file.
pub record Node : Type 0 where
  pub device : Device
  pub f_pos : ℕ → Option ℕ

pub data Call : Type 0 where
  opens : (fd : ℕ) → Call
  reads : (fd len : ℕ) → Call
  writes : (fd : ℕ) (bytes : List ℕ) → Call
  closes : (fd : ℕ) → Call

-- What a call returns, and what it has put into the user's buffer.
pub record Reply : Type 0 where
  pub ret : ℤ
  pub out : List ℕ

abbrev pub returned : ℤ → Reply
returned ret = record { ret = ret; out = [] }

abbrev pub ebadf : ℤ
ebadf = negsuc 8

abbrev pub put : (ℕ → Option ℕ) → ℕ → Option ℕ → ℕ → Option ℕ
put f_pos fd p g = if g == fd then p else f_pos g

abbrev pub has_read : ℕ → Option (Device × Fetched) → Node → Option (Node × Reply)
has_read fd none node = none
has_read fd (some (d, f)) node = some (
  record { device = d; f_pos = put node.f_pos fd (some f.off) },
  record { ret = f.ret; out = f.out },
)

abbrev pub has_written : ℕ → ℕ → Option (Device × ℤ) → Node → Option (Node × Reply)
has_written fd off none node = none
has_written fd off (some (d, ret)) node =
    some (record { device = d; f_pos = put node.f_pos fd (some off) }, returned ret)

abbrev pub close_at : ℕ → Option ℕ → Node → Node × Reply
close_at fd none node = (node, returned ebadf)
close_at fd (some off) node = (record node { f_pos = put node.f_pos fd none }, returned (pos 0))

infixl 5 ◌>>=◌
abbrev pub ◌>>=◌ : {A B : Type 0} → Option A → (A → Option B) → Option B
none >>= k = none
some a >>= k = k a

module _ (ops : FileOperations) (h : Helpers) where
  abbrev pub read_at : ℕ → ℕ → Option ℕ → Node → Option (Node × Reply)
  read_at fd len none node = some (node, returned ebadf)
  read_at fd len (some off) node =
      has_read fd (ops.read (h.simple_read_from_buffer len off) node.device) node

  abbrev pub write_at : ℕ → List ℕ → Option ℕ → Node → Option (Node × Reply)
  write_at fd bytes none node = some (node, returned ebadf)
  write_at fd bytes (some off) node =
      let w = h.simple_write_to_buffer node.device.kern_buff bytes off in
      has_written fd w.off (ops.write w node.device) node

  -- Neither table has an open or a release: the kernel opens and closes by itself.
  unfoldable pub handle : Call → Node → Option (Node × Reply)
  handle (opens fd) node =
      some (record node { f_pos = put node.f_pos fd (some 0) }, returned (pos 0))
  handle (reads fd len) node = read_at fd len (node.f_pos fd) node
  handle (writes fd bytes) node = write_at fd bytes (node.f_pos fd) node
  handle (closes fd) node = some (close_at fd (node.f_pos fd) node)

  -- The replies to a sequence of calls, and the state behind them.
  unfoldable pub run : List Call → Node → Option (Node × List Reply)
  run [] node = some (node, [])
  run (c ∷ cs) node = do
    first ← handle c node
    rest ← run cs first.0
    some (rest.0, first.1 ∷ rest.1)

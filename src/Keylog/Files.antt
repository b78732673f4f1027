-- ===== src/Keylog/Files.antt =====
-- `keylog_fops` and `keylog_dev` of keyboard_interrupt_misc_device.c.
use kernel_modules_playgroun.Prelude.{ℕ, Bool, ◌++◌, ℤ}
use kernel_modules_playgroun.Prelude.Bytes.{Text, text}
use kernel_modules_playgroun.Keylog.Driver.{
  Keylog, keylog_open, keylog_close, read_start, Reply, read_finish,
}

-- `struct file_operations` with the functions that the driver fills; `keylog_read` is in two parts,
-- before its wait and behind it.
pub record FileOperations : Type 0 where
  pub on_open : Bool → Keylog → Keylog × ℤ
  pub on_release : Keylog → Keylog × ℤ
  pub read_start : (block len : ℕ) → Keylog → Keylog
  pub read_finish : (ret : ℤ) (uncopied len off : ℕ) → Keylog → Keylog × Reply

abbrev pub keylog_fops : FileOperations
keylog_fops = record {
  on_open = keylog_open;
  on_release = keylog_close;
  read_start = read_start;
  read_finish = read_finish;
}

-- `struct miscdevice`, less the minor number, which the kernel chooses.
pub record MiscDevice : Type 0 where
  pub name : Text
  pub operations : FileOperations

abbrev pub keylog_dev : MiscDevice
keylog_dev = record { name = text "keylog"; operations = keylog_fops }

-- The path at which the kernel shows a device of this kind.
abbrev pub path_of : MiscDevice → Text
path_of dev = text "/dev/" ++ dev.name

-- ===== src/TextDevices/Device.antt =====
-- What the file operations of misc_char_dev.c and of procfs.c have in common.
use kernel_modules_playgroun.Prelude.{
  ℕ, ltb, if◌then◌else◌, set_at, List, ◌∷◌, ℤ, pos, negsuc, einval,
}
use kernel_modules_playgroun.Prelude.Bytes.{text, same_text, c_string}
use kernel_modules_playgroun.RwLock.{RwLock}
use kernel_modules_playgroun.TextDevices.Buffer.{maxbuff}

-- `kern_buff`, the indices outside of it that have been written, and the lock. The byte behind the
-- buffer is 0, from the start or by a stray write, so that a C string ends there.
pub record Device : Type 0 where
  pub kern_buff : List ℕ
  pub strays : List ℤ
  pub lock : RwLock

-- `kern_buff[ret] = '\0'`
unfoldable pub terminate : ℤ → Device → Device
terminate (pos n) d =
    if ltb n maxbuff
    then record d { kern_buff = set_at d.kern_buff n 0 }
    else record d { strays = pos n ∷ d.strays }
terminate (negsuc n) d = record d { strays = negsuc n ∷ d.strays }

-- `if (strcmp(kern_buff, "linux") != 0) return -EINVAL; else return ret;`
unfoldable pub verdict : ℤ → Device → ℤ
verdict ret d = if same_text (c_string d.kern_buff) (text "linux") then ret else einval

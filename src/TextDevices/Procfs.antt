-- ===== src/TextDevices/Procfs.antt =====
-- The file operations of procfs.c.
use kernel_modules_playgroun.Prelude.{ℕ, length, ℤ}
use kernel_modules_playgroun.Prelude.Bytes.{Text}
use kernel_modules_playgroun.TextDevices.Buffer.{my_eud_id, Written, Fetched}
use kernel_modules_playgroun.TextDevices.Device.{Device, terminate, verdict}

unfoldable pub my_read : (Text → ℕ → Fetched) → Fetched
my_read simple_read_from_buffer = simple_read_from_buffer my_eud_id (length my_eud_id)

unfoldable pub my_write : Written → Device → Device × ℤ
my_write w d = let e = terminate w.ret (record d { kern_buff = w.buffer }) in (e, verdict w.ret e)

-- ===== src/TextDevices/MiscCharDev.antt =====
-- The file operations of misc_char_dev.c.
use kernel_modules_playgroun.Prelude.{ℕ, length, ℤ, Option, none, some}
use kernel_modules_playgroun.Prelude.Bytes.{Text}
use kernel_modules_playgroun.TextDevices.Buffer.{my_eud_id, Written, Fetched}
use kernel_modules_playgroun.RwLock.{write_lock, write_unlock, read_lock, read_unlock}
use kernel_modules_playgroun.TextDevices.Device.{Device, terminate, verdict}

-- What `my_write` does under the lock.
unfoldable pub store_locked : Written → Device → Option Device
store_locked w d = elim (write_lock d.lock) [
  | none ↦ none
  | some l ↦
      let e = terminate w.ret (record d { kern_buff = w.buffer; lock = l }) in
      some (record e { lock = write_unlock e.lock })
]

-- The comparison stands behind the unlock.
unfoldable pub my_write : Written → Device → Option (Device × ℤ)
my_write w d = elim (store_locked w d) [ none ↦ none | some e ↦ some (e, verdict w.ret e) ]

unfoldable pub my_read : (Text → ℕ → Fetched) → Device → Option (Device × Fetched)
my_read simple_read_from_buffer d = elim (read_lock d.lock) [
  | none ↦ none
  | some l ↦
      let ret = simple_read_from_buffer my_eud_id (length my_eud_id) in
      some (record d { lock = read_unlock l }, ret)
]

-- ===== src/RwLock.antt =====
-- A reader-writer spinlock of the kernel, as `my_rwlock` of misc_char_dev.c and sysfs_example.c.
use kernel_modules_playgroun.Prelude.{ℕ, suc, Option, none, some}

pub data RwLock : Type 0 where
  free writing : RwLock
  reading : ℕ → RwLock

-- The lock operations; `none` means that the caller waits for another holder.
unfoldable pub write_lock : RwLock → Option RwLock
write_lock free = some writing
write_lock _ = none

unfoldable pub write_unlock : RwLock → RwLock
write_unlock l = free

unfoldable pub read_lock : RwLock → Option RwLock
read_lock free = some (reading 1)
read_lock (reading n) = some (reading (suc n))
read_lock writing = none

unfoldable pub read_unlock : RwLock → RwLock
read_unlock (reading (suc (suc n))) = reading (suc n)
read_unlock _ = free

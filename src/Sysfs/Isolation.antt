-- ===== src/Sysfs/Isolation.antt =====
-- What a write to one file of /sys/kernel/my_sysfs leaves as it is.
use kernel_modules_playgroun.Prelude.{
  ℕ, ◌<◌, ◌≤◌, ◌≡◌, ◌&&◌, ◌||◌, if◌then◌else◌, some, List, length,
}
use kernel_modules_playgroun.Prelude.Bytes.{Text, text, same_text, c_string}
use kernel_modules_playgroun.Prelude.Scanf.{scan_word}
use kernel_modules_playgroun.RwLock.{free}
use kernel_modules_playgroun.SysfsCore.{Access}
use kernel_modules_playgroun.Sysfs.Driver.{page_size, Sysfs, Call, returns, overruns, waits}
use kernel_modules_playgroun.Sysfs.Files.{Kernel, read_file}

-- Between the calls the lock is free, the buffer is a page, and the word in `kern_buff` has room for
-- its 0.
pub record IsValid (s : Sysfs) : Type 0 where
  pub unlocked : s.lock ≡ free
  pub page : length s.my_page_buffer ≡ page_size
  pub word : length s.kern_buff < 128

-- The state behind a write to `name` in which no file but id, and foo after a write to foo, shows
-- anything else than before. Of id nothing is said: it shows what stands in memory behind
-- `my_eud_id`, which may be anything.
abbrev pub Stands : Text → Sysfs → Sysfs → Type 0
Stands name s s' =
    IsValid s'
    × ((reader : Access) (k : Kernel) (other : Text)
        → (read_file reader other k s').1 ≡ (
            if same_text other (text "id")
              || (same_text name (text "foo") && same_text other (text "foo"))
            then (read_file reader other k s').1
            else (read_file reader other k s).1))

-- The state after a write to `name`, or the word that was written behind `kern_buff`.
abbrev pub Kept : Text → List ℕ → Sysfs → Call → Type 0
Kept name bytes s (returns s' r) = Stands name s s'
Kept name bytes s overruns =
    (name ≡ text "id") × ((w : Text) × (scan_word (c_string bytes) ≡ some w) × (128 ≤ length w))
Kept name bytes s waits = ⊥

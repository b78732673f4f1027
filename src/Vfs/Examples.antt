-- ===== src/Vfs/Examples.antt =====
-- A file that can be opened under the kernel's limit only.
use kernel_modules_playgroun.Prelude.Bytes.{Text}
use kernel_modules_playgroun.Lifecycle.Resources.{Pointer, valid}
use kernel_modules_playgroun.Vfs.Reader.{init_module, init_module-reads}
use kernel_modules_playgroun.Prelude.{
  ℕ, zero, suc, true, some, arith, refl, ◌≡◌, ℤ, pos, negsuc, none, [], ◌∷◌,
}
use kernel_modules_playgroun.Vfs.Driver.{
  file_write, file_sync, Segment, kernel_ds, user_ds, Vfs, Opened, file_at, error, file_init,
  file_exit,
}
use kernel_modules_playgroun.Vfs.Limits.{Exits, file_exit-file_init}

abbrev filp_open : Segment → Opened
filp_open kernel_ds = file_at 64
filp_open user_ds = error 13

abbrev vfs_read : Segment → ℤ
vfs_read kernel_ds = pos 256
vfs_read user_ds = negsuc 13

abbrev unloaded : Vfs
unloaded = record { limit = user_ds; open_file = none; held = 32 ∷ [] }

file_exit-file_init_example :
    let (t, ret) = file_init filp_open vfs_read unloaded in
    (ret ≡ pos 0) × (t.limit ≡ user_ds) × Exits (file_at 64) unloaded (file_exit t)
file_exit-file_init_example = file_exit-file_init filp_open vfs_read unloaded

-- A write under the limit of the kernel, and a flush whose failure is not seen.
file_write_test : file_write vfs_read (file_sync (negsuc 4) unloaded).0 ≡ (unloaded, pos 256)
unfolding file_write file_sync
file_write_test = refl

-- A process that may open the file, and a file that fills the buffer to the last byte but one.
abbrev opened_for : Segment → Pointer
opened_for _ = valid

abbrev ones : ℕ → Text
ones zero = []
ones (suc n) = 49 ∷ ones n

init_module-reads_example :
    init_module opened_for 64 (λ _. ones 255) unloaded
    ≡ some (record { vfs = unloaded; shown = ones 255; ended = true; ret = pos 0 })
init_module-reads_example =
    init_module-reads opened_for 64 (λ _. ones 255) unloaded refl (omega arith)

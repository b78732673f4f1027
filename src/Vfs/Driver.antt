-- ===== src/Vfs/Driver.antt =====
-- The functions of vfs_basic.c. The calls of the virtual file system are parameters, which answer by
-- the address limit that is in force.
use kernel_modules_playgroun.Prelude.{
  ℕ, ◌==◌, if◌then◌else◌, Option, none, some, List, [], ◌∷◌, ℤ, pos,
}

-- `mm_segment_t`: `get_ds()`, or the limit of a process.
pub data Segment : Type 0 where
  kernel_ds user_ds : Segment

-- The address limit, `open_file`, and the `struct file` objects that are open.
pub record Vfs : Type 0 where
  pub limit : Segment
  pub open_file : Option ℕ
  pub held : List ℕ

-- What `filp_open` answers.
pub data Opened : Type 0 where
  file_at error : ℕ → Opened

unfoldable pub file_open : (Segment → Opened) → Vfs → Vfs × Option ℕ
file_open filp_open s =
    let t = record s { limit = kernel_ds } in
    elim (filp_open t.limit) [
      | file_at f ↦ (record t { limit = s.limit; held = f ∷ t.held }, some f)
      | error err ↦ (record t { limit = s.limit }, none)
    ]

abbrev pub without : ℕ → List ℕ → List ℕ
without f [] = []
without f (x ∷ xs) = if f == x then xs else x ∷ without f xs

-- `file_close`; `filp_close` on NULL is a crash.
unfoldable pub file_close : Option ℕ → Vfs → Option Vfs
file_close none s = none
file_close (some f) s = some (record s { held = without f s.held })

unfoldable pub file_read : (Segment → ℤ) → Vfs → Vfs × ℤ
file_read vfs_read s =
    let t = record s { limit = kernel_ds } in
    let ret = vfs_read t.limit in (record t { limit = s.limit }, ret)

unfoldable pub file_write : (Segment → ℤ) → Vfs → Vfs × ℤ
file_write vfs_write s =
    let t = record s { limit = kernel_ds } in
    let ret = vfs_write t.limit in (record t { limit = s.limit }, ret)

-- `file_sync`; the result of `vfs_fsync` is not looked at.
unfoldable pub file_sync : ℤ → Vfs → Vfs × ℤ
file_sync ret s = (s, pos 0)

unfoldable pub file_init : (Segment → Opened) → (Segment → ℤ) → Vfs → Vfs × ℤ
file_init filp_open vfs_read s =
    let (t, f) = file_open filp_open s in
    let u = record t { open_file = f } in
    elim f [ none ↦ (u, pos 0) | some g ↦ ((file_read vfs_read u).0, pos 0) ]

unfoldable pub file_exit : Vfs → Option Vfs
file_exit s = file_close s.open_file s

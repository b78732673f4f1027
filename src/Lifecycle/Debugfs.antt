-- ===== src/Lifecycle/Debugfs.antt =====
-- The init and exit functions of debugfs_basic.c and debugfs_jiffies.c.
use kernel_modules_playgroun.Prelude.{false, ◌≡◌, ◌≢◌, refl, if◌then◌else◌, [], ◌∷◌, ℤ, pos, negsuc}
use kernel_modules_playgroun.Lifecycle.Resources.{
  debug_dir, debug_file, debug_number, holds, without_absent, Held, Load, pure, ◌>>=◌, Pointer,
  valid, null, error_pointer, is_null, acquire_pointer, debugfs_create, debugfs_remove_recursive,
  Balanced,
}

unfoldable pub my_debugfs_init : Pointer → Pointer → Pointer → Load ℤ
my_debugfs_init dir_answer add_answer sum_answer = do
  dir ← acquire_pointer debug_dir dir_answer
  if is_null dir then pure (negsuc 0) else do
    holder ← debugfs_create debug_file dir add_answer
    if is_null holder then pure (negsuc 0) else do
      holder ← debugfs_create debug_number dir sum_answer
      if is_null holder then pure (negsuc 0) else pure (pos 0)

-- `dir` is what `debugfs_create_dir` answered.
unfoldable pub module_cleanup : Pointer → Load (Unit {0})
module_cleanup dir = debugfs_remove_recursive dir

unfoldable pub jiffies_init : Pointer → Pointer → Load ℤ
jiffies_init dir_answer time_answer = do
  dir ← acquire_pointer debug_dir dir_answer
  if is_null dir then pure (negsuc 18) else do
    time ← debugfs_create debug_number dir time_answer
    if is_null time then pure (negsuc 0) else pure (pos 0)

unfoldable pub jiffies_exit : Pointer → Load (Unit {0})
jiffies_exit dir = debugfs_remove_recursive dir

-- What a failed init leaves behind: the directory, and the first of two files.
abbrev pub directory : Pointer → Held
directory valid = debug_dir ∷ []
directory _ = []

abbrev pub first_file : Pointer → Pointer → Held
first_file valid valid = debug_file ∷ debug_dir ∷ []
first_file dir _ = directory dir

-- Once it is loaded debugfs_basic.c gives back all it took; where it refuses to load, it leaves
-- behind the directory and the file that it has made. For the directory the kernel may answer an
-- error pointer, too, for a file it answers a valid pointer or NULL.
pub my_debugfs_init-Balanced :
    (dir_answer add_answer sum_answer : Pointer) (held : Held)
    → add_answer ≢ error_pointer
    → sum_answer ≢ error_pointer
    → Balanced
        (first_file dir_answer add_answer)
        (module_cleanup dir_answer)
        held
        (my_debugfs_init dir_answer add_answer sum_answer held)
unfolding my_debugfs_init module_cleanup
my_debugfs_init-Balanced null a s held p q = refl
my_debugfs_init-Balanced error_pointer a s held p q = refl
my_debugfs_init-Balanced valid error_pointer s held p q = absurd (p refl)
my_debugfs_init-Balanced valid a error_pointer held p q = absurd (q refl)
my_debugfs_init-Balanced valid null null held p q = refl
my_debugfs_init-Balanced valid null valid held p q = refl
my_debugfs_init-Balanced valid valid null held p q = refl
my_debugfs_init-Balanced valid valid valid held p q = refl

-- Once it is loaded debugfs_jiffies.c gives back all it took; where it refuses to load, it leaves
-- behind the directory.
pub jiffies_init-Balanced :
    (dir_answer time_answer : Pointer) (held : Held)
    → time_answer ≢ error_pointer
    → holds debug_file held ≡ false
    → Balanced
        (directory dir_answer)
        (jiffies_exit dir_answer)
        held
        (jiffies_init dir_answer time_answer held)
unfolding jiffies_init jiffies_exit
jiffies_init-Balanced null t held p q = refl
jiffies_init-Balanced error_pointer t held p q = refl
jiffies_init-Balanced valid error_pointer held p q = absurd (p refl)
jiffies_init-Balanced valid null held p q = refl
jiffies_init-Balanced valid valid held p q = simp (without_absent debug_file held q)

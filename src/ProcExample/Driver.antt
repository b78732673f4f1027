-- ===== src/ProcExample/Driver.antt =====
-- The init and exit functions of procfs.c and of seq_file_procfs.c, which have the same names.
use kernel_modules_playgroun.Prelude.{Bool, if◌then◌else◌, ℤ, pos, enomem}
use kernel_modules_playgroun.Prelude.Bytes.{Text, text}
use kernel_modules_playgroun.ProcExample.ProcFs.{at_root, under, ProcFs}

-- The two modules.
pub data Example : Type 0 where
  procfs seq_file_procfs : Example

abbrev pub first_file : Example → Text
first_file procfs = text "first"
first_file seq_file_procfs = text "seq_proc"

module _ (fs : ProcFs) where
  open fs use {State, proc_mkdir, proc_create_data, remove_proc_entry}

  unfoldable pub make_file : Text → State × Bool → State × ℤ
  make_file name (s, made) =
      let (s', created) = proc_create_data s (text "example") name in
      if made
      then (if created
          then (s', pos 0)
          else (remove_proc_entry s' (at_root (text "example")), enomem))
      else (s, enomem)

  unfoldable pub procexample_module_init : Example → State → State × ℤ
  procexample_module_init m s = make_file (first_file m) (proc_mkdir s (text "example"))

  unfoldable pub procexample_module_exit : Example → State → State
  procexample_module_exit m s =
      remove_proc_entry (remove_proc_entry s (under (text "example") (first_file m)))
        (at_root (text "example"))

-- ===== src/ProcExample/ProcFs.antt =====
-- The kernel's /proc tree as the modules use it: its calls over an unknown state, and what they are
-- documented to do.
use kernel_modules_playgroun.Prelude.{◌≡◌, Bool, true, false, ◌&&◌, ◌||◌, if◌then◌else◌}
use kernel_modules_playgroun.Prelude.Bytes.{Text, same_text}

-- An entry of the root, or of a directory there.
pub data ProcPath : Type 0 where
  at_root : Text → ProcPath
  under : Text → Text → ProcPath

abbrev pub same_path : ProcPath → ProcPath → Bool
same_path (at_root p) (at_root q) = same_text p q
same_path (under d p) (under e q) = same_text d e && same_text p q
same_path _ _ = false

-- `proc_mkdir` makes a directory at the root; it and `proc_create_data` answer whether they have
-- made the entry.
pub record ProcFs : Type 1 where
  pub State : Type 0
  pub exists : State → ProcPath → Bool
  pub proc_mkdir : State → Text → State × Bool
  pub proc_create_data : State → Text → Text → State × Bool
  pub remove_proc_entry : State → ProcPath → State

-- A name that is taken is refused. A call that makes an entry makes no other, and one that does not
-- makes none; the memory for it may be lacking. A file can be removed, and so can a directory with
-- nothing in it, and no other entry goes with it.
pub record IsProcFs (fs : ProcFs) : Type 0 where
  pub taken :
      (s : fs.State) (d : Text) → fs.exists s (at_root d) ≡ true → fs.proc_mkdir s d ≡ (s, false)
  pub mkdir :
      (s : fs.State) (d : Text) (q : ProcPath)
      → fs.exists (fs.proc_mkdir s d).0 q ≡ (
          if (fs.proc_mkdir s d).1 then same_path q (at_root d) || fs.exists s q else fs.exists s q)
  pub create :
      (s : fs.State) (d name : Text) (q : ProcPath)
      → fs.exists s (at_root d) ≡ true
      → fs.exists (fs.proc_create_data s d name).0 q ≡ (
          if (fs.proc_create_data s d name).1
          then same_path q (under d name) || fs.exists s q
          else fs.exists s q)
  pub beneath :
      (s : fs.State) (d name : Text)
      → fs.exists s (at_root d) ≡ false
      → fs.exists s (under d name) ≡ false
  pub removed_file :
      (s : fs.State) (d name : Text) (q : ProcPath)
      → fs.exists (fs.remove_proc_entry s (under d name)) q
        ≡ (if same_path q (under d name) then false else fs.exists s q)
  pub removed_dir :
      (s : fs.State) (d : Text) (q : ProcPath)
      → ((name : Text) → fs.exists s (under d name) ≡ false)
      → fs.exists (fs.remove_proc_entry s (at_root d)) q
        ≡ (if same_path q (at_root d) then false else fs.exists s q)

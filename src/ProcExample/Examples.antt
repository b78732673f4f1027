-- ===== src/ProcExample/Examples.antt =====
-- A /proc tree in which memory never lacks, and the two modules on it.
use kernel_modules_playgroun.Prelude.{
  ◌≡◌, refl, Bool, true, false, ◌&&◌, ◌||◌, if◌then◌else◌, Bool-cases, inl, inr, arith, negsuc,
}
use kernel_modules_playgroun.Prelude.Bytes.{Text, same_text, same_text_iff}
use kernel_modules_playgroun.ProcExample.ProcFs.{
  ProcPath, at_root, under, same_path, ProcFs, IsProcFs,
}
use kernel_modules_playgroun.ProcExample.Driver.{
  procfs, seq_file_procfs, make_file, procexample_module_init,
}
use kernel_modules_playgroun.ProcExample.Exclusion.{Contract, procexample_module_init-Contract}

record Tree : Type 0 where
  dirs : Text → Bool
  files : Text → Text → Bool

abbrev exists : Tree → ProcPath → Bool
exists t (at_root d) = t.dirs d
exists t (under d n) = t.dirs d && t.files d n

abbrev mkdir : Tree → Text → Tree × Bool
mkdir t d = if t.dirs d then (t, false) else (
  record {
    dirs = λ e. if same_text e d then true else t.dirs e;
    files = λ e n. if same_text e d then false else t.files e n;
  },
  true,
)

abbrev create : Tree → Text → Text → Tree × Bool
create t d n =
    (record t { files = λ e m. if same_text e d && same_text m n then true else t.files e m }, true)

abbrev remove : Tree → ProcPath → Tree
remove t (at_root d) = record t { dirs = λ e. if same_text e d then false else t.dirs e }
remove t (under d n) = record t {
  files = λ e m. if same_text e d && same_text m n then false else t.files e m;
}

abbrev tree : ProcFs
tree = record {
  State = Tree;
  exists = exists;
  proc_mkdir = mkdir;
  proc_create_data = create;
  remove_proc_entry = remove;
}

exists-mkdir :
    (t : Tree) (d : Text) (q : ProcPath)
    → exists (mkdir t d).0 q
      ≡ (if (mkdir t d).1 then same_path q (at_root d) || exists t q else exists t q)
exists-mkdir t d (at_root e) = ground arith
exists-mkdir t d (under e n) = elim (Bool-cases (same_text e d)) [
  | inl same ↦ let dir = (same_text_iff e d).0 same in ground (arith, same, dir)
  | inr other ↦ ground (arith, other)
]

exists-create :
    (t : Tree) (d n : Text) (q : ProcPath)
    → exists t (at_root d) ≡ true
    → exists (create t d n).0 q ≡ same_path q (under d n) || exists t q
exists-create t d n (at_root e) there = refl
exists-create t d n (under e m) there = elim (Bool-cases (same_text e d)) [
  | inl same ↦ let dir = (same_text_iff e d).0 same in ground (arith, same, dir, there)
  | inr other ↦ ground (arith, other)
]

exists-remove_file :
    (t : Tree) (d n : Text) (q : ProcPath)
    → exists (remove t (under d n)) q ≡ (if same_path q (under d n) then false else exists t q)
exists-remove_file t d n (at_root e) = refl
exists-remove_file t d n (under e m) = ground arith

exists-remove_dir :
    (t : Tree) (d : Text) (q : ProcPath)
    → ((n : Text) → exists t (under d n) ≡ false)
    → exists (remove t (at_root d)) q ≡ (if same_path q (at_root d) then false else exists t q)
exists-remove_dir t d (at_root e) empty = refl
exists-remove_dir t d (under e m) empty = elim (Bool-cases (same_text e d)) [
  | inl same ↦
      let dir = (same_text_iff e d).0 same in
      let none_there = empty m in ground (arith, same, dir, none_there)
  | inr other ↦ ground (arith, other)
]

tree-IsProcFs : IsProcFs tree
tree-IsProcFs = record {
  taken = λ t d there. rw there refl;
  mkdir = exists-mkdir;
  create = exists-create;
  beneath = λ t d n absent. rw absent refl;
  removed_file = exists-remove_file;
  removed_dir = exists-remove_dir;
}

abbrev bare : Tree
bare = record { dirs = λ d. false; files = λ d n. false }

procexample_module_init-Contract_example :
    Contract tree procfs seq_file_procfs bare (procexample_module_init tree procfs bare)
procexample_module_init-Contract_example =
    procexample_module_init-Contract tree tree-IsProcFs procfs seq_file_procfs bare refl

-- The second of the two is refused.
refused_test :
    (procexample_module_init tree seq_file_procfs (procexample_module_init tree procfs bare).0).1
    ≡ negsuc 11
unfolding procexample_module_init make_file same_text
refused_test = refl

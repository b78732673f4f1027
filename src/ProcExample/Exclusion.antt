-- ===== src/ProcExample/Exclusion.antt =====
-- procfs.c and seq_file_procfs.c cannot be loaded at once, and each leaves /proc as it was.
use kernel_modules_playgroun.Prelude.{
  ◌≡◌, refl, sym, ap, ◌∙◌, Bool, true, false, ◌||◌, and-true, if◌then◌else◌, Bool-cases, inl, inr,
  arith, ℤ, pos, negsuc, enomem,
}
use kernel_modules_playgroun.Prelude.Bytes.{Text, text, same_text, same_text_iff}
use kernel_modules_playgroun.ProcExample.ProcFs.{
  ProcPath, at_root, under, same_path, ProcFs, IsProcFs,
}
use kernel_modules_playgroun.ProcExample.Driver.{
  Example, first_file, make_file, procexample_module_init, procexample_module_exit,
}

abbrev example : Text
example = text "example"

restored : (b x : Bool) → (b ≡ true → x ≡ false) → (if b then false else (b || x)) ≡ x
restored true x absent = sym (absent refl)
restored false x absent = refl

module _ (fs : ProcFs) where
  open fs use {State, exists}

  -- What is to hold of the state and the return value of an init function.
  abbrev pub Contract : Example → Example → State → State × ℤ → Type 0
  Contract m other s (s', pos n) =
      (procexample_module_init fs other s' ≡ (s', enomem))
      × ((q : ProcPath) → exists (procexample_module_exit fs m s') q ≡ exists s q)
  Contract m other s (s', negsuc n) = (q : ProcPath) → exists s' q ≡ exists s q

module _ (fs : ProcFs) (lawful : IsProcFs fs) where
  open fs use {State, exists, proc_mkdir, proc_create_data, remove_proc_entry}

  -- With the directory there already, a module does not load, and changes nothing.
  init-taken :
      (m : Example) (s : State)
      → exists s (at_root example) ≡ true
      → procexample_module_init fs m s ≡ (s, enomem)
  unfolding procexample_module_init make_file
  init-taken m s there = rw (lawful.taken s example there) refl

  -- What was not there before the two calls that make an entry and take it away is not there after.
  absent_dir :
      (s : State) (q : ProcPath)
      → exists s (at_root example) ≡ false
      → same_path q (at_root example) ≡ true
      → exists s q ≡ false
  absent_dir s (at_root d) free same = rw ((same_text_iff d example).0 same) free
  absent_dir s (under d n) free same = absurd (ground arith)

  absent_file :
      (s : State) (name : Text) (q : ProcPath)
      → exists s (at_root example) ≡ false
      → same_path q (under example name) ≡ true
      → exists s q ≡ false
  absent_file s name (at_root d) free same = absurd (ground arith)
  absent_file s name (under d n) free same =
      let dir = (same_text_iff d example).0 (and-true _ _ same).0 in
      rw dir (lawful.beneath s example n free)

  module _ (s : State) (free : exists s (at_root example) ≡ false)
      (made : (proc_mkdir s example).1 ≡ true) where
    abbrev with_dir : State
    with_dir = (proc_mkdir s example).0

    there : (q : ProcPath) → exists with_dir q ≡ same_path q (at_root example) || exists s q
    there q = lawful.mkdir s example q ∙ rw made refl

    empty : (n : Text) → exists with_dir (under example n) ≡ false
    empty n = there (under example n) ∙ lawful.beneath s example n free

    present : exists with_dir (at_root example) ≡ true
    unfolding same_text
    present = there (at_root example)

    -- Taking the directory away from a state with the same entries.
    dir_removed :
        (t : State)
        → ((q : ProcPath) → exists t q ≡ exists with_dir q)
        → (q : ProcPath) → exists (remove_proc_entry t (at_root example)) q ≡ exists s q
    dir_removed t same q =
        lawful.removed_dir t example q (λ n. same (under example n) ∙ empty n)
        ∙ ap (λ x. if same_path q (at_root example) then false else x) (same q ∙ there q)
        ∙ restored (same_path q (at_root example)) (exists s q) (absent_dir s q free)

    module _ (name : Text) (created : (proc_create_data with_dir example name).1 ≡ true) where
      abbrev with_file : State
      with_file = (proc_create_data with_dir example name).0

      file_there :
          (q : ProcPath)
          → exists with_file q ≡ same_path q (under example name) || exists with_dir q
      file_there q = lawful.create with_dir example name q present ∙ rw created refl

      still_present : exists with_file (at_root example) ≡ true
      still_present = file_there (at_root example) ∙ present

      file_removed :
          (q : ProcPath)
          → exists (remove_proc_entry with_file (under example name)) q ≡ exists with_dir q
      file_removed q =
          lawful.removed_file with_file example name q
          ∙ ap (λ x. if same_path q (under example name) then false else x) (file_there q)
          ∙ restored (same_path q (under example name)) (exists with_dir q) (absent_in_dir q)
        where
          absent_in_dir :
              (q : ProcPath) → same_path q (under example name) ≡ true → exists with_dir q ≡ false
          absent_in_dir (at_root d) same = absurd (ground arith)
          absent_in_dir (under d n) same =
              there (under d n) ∙ absent_file s name (under d n) free same

  module _ (m other : Example) (s : State) (free : exists s (at_root example) ≡ false) where
    unmade-Contract :
        (proc_mkdir s example).1 ≡ false → Contract fs m other s (procexample_module_init fs m s)
    unfolding procexample_module_init make_file
    unmade-Contract not = rw not (λ q. lawful.mkdir s example q ∙ rw not refl)

    init-created :
        (made : (proc_mkdir s example).1 ≡ true)
        (created : (proc_create_data (with_dir s free made) example (first_file m)).1 ≡ true)
        → procexample_module_init fs m s ≡ (with_file s free made (first_file m) created, pos 0)
    unfolding procexample_module_init make_file
    init-created made created = rw (made, created) refl

    created-Contract :
        (made : (proc_mkdir s example).1 ≡ true)
        → (proc_create_data (with_dir s free made) example (first_file m)).1 ≡ true
        → Contract fs m other s (procexample_module_init fs m s)
    unfolding procexample_module_exit
    created-Contract made created =
        let file = first_file m in
        rw (init-created made created) (
          init-taken other (with_file s free made file created)
              (still_present s free made file created),
          dir_removed s free made
              (remove_proc_entry (with_file s free made file created) (under example file))
              (file_removed s free made file created),
        )

    uncreated-Contract :
        (made : (proc_mkdir s example).1 ≡ true)
        → (proc_create_data (with_dir s free made) example (first_file m)).1 ≡ false
        → Contract fs m other s (procexample_module_init fs m s)
    unfolding procexample_module_init make_file
    uncreated-Contract made not =
        rw (made, not)
          (dir_removed s free made
            (proc_create_data (with_dir s free made) example (first_file m)).0
            (λ q.
              lawful.create (with_dir s free made) example (first_file m) q (present s free made)
              ∙ rw not refl))

    -- In a /proc tree as it is documented, where /proc/example is not there yet: a module that
    -- loads keeps each module from loading, and its exit leaves just the entries of /proc that were
    -- there before; a module that does not load leaves them too.
    pub procexample_module_init-Contract : Contract fs m other s (procexample_module_init fs m s)
    procexample_module_init-Contract = elim (Bool-cases (proc_mkdir s example).1) [
      | inr not ↦ unmade-Contract not
      | inl made ↦
          elim (Bool-cases (proc_create_data (with_dir s free made) example (first_file m)).1) [
            | inr not ↦ uncreated-Contract made not
            | inl created ↦ created-Contract made created
          ]
    ]

-- ===== src/Sysfs/Directory.antt =====
-- What processes read from and write to the files of /sys/kernel/my_sysfs.
use kernel_modules_playgroun.Prelude.{
  ℕ, ◌+◌, ◌≤◌, leb, ◌≡◌, ◌≢◌, ◌⊎◌, inl, inr, refl, true, false, ◌||◌, if◌then◌else◌, Bool-cases,
  none, some, List, [], ◌∷◌, ◌++◌, length, drop, pos,
}
use kernel_modules_playgroun.Prelude.Bytes.{Text, text, same_text, same_text_iff, c_string}
use kernel_modules_playgroun.RwLock.{free}
use kernel_modules_playgroun.SysfsCore.{enoent, eacces, mode, find_attribute, Access, IsAccess}
use kernel_modules_playgroun.Sysfs.Driver.{page_size, Sysfs, returns, print_line}
use kernel_modules_playgroun.Sysfs.Attributes.{NoZero, foo_show-foo_store}
use kernel_modules_playgroun.Sysfs.Files.{
  Kernel, id_attribute, jiffies_attribute, foo_attribute, attrs, contents, overrun, shown,
  read_file, write_file,
}

-- A name is one of the three of the directory, or there is no file of this name.
pub data Finds (name : Text) : Type 0 where
  id : name ≡ text "id" → find_attribute name attrs ≡ some id_attribute → Finds name
  jiffies :
      same_text name (text "jiffies") ≡ true
      → find_attribute name attrs ≡ some jiffies_attribute
      → Finds name
  foo : name ≡ text "foo" → find_attribute name attrs ≡ some foo_attribute → Finds name
  missing :
      same_text name (text "jiffies") ≡ false
      → same_text name (text "foo") ≡ false
      → find_attribute name attrs ≡ none
      → Finds name

pub find_attribute-Finds : (name : Text) → Finds name
unfolding find_attribute
find_attribute-Finds name = elim (Bool-cases (same_text name (text "id"))) [
  | inl i ↦ id ((same_text_iff _ _).0 i) (simp i)
  | inr i ↦ elim (Bool-cases (same_text name (text "jiffies"))) [
    | inl j ↦ jiffies j (simp (i, j))
    | inr j ↦ elim (Bool-cases (same_text name (text "foo"))) [
      | inl f ↦ foo ((same_text_iff _ _).0 f) (simp (i, j, f))
      | inr f ↦ missing j f (simp (i, j, f))
    ]
  ]
]

module _ (access : Access) (name : Text) (bytes : List ℕ) (s : Sysfs)
    (lawful : IsAccess access) where
  Finds-refused :
      Finds name
      → name ≢ text "id"
      → (name ≢ text "foo") ⊎ (access.writable (mode 6 4 4) ≡ false)
      → write_file access name bytes s
        ≡ returns s (
            if same_text name (text "jiffies") || same_text name (text "foo")
            then eacces
            else enoent)
  unfolding write_file same_text
  Finds-refused (id n e) ne d = absurd (ne n)
  Finds-refused (jiffies n e) ne d = rw (e, n, lawful.write_none 4 4 4 refl) refl
  Finds-refused (foo n e) ne (inl other) = absurd (other n)
  Finds-refused (foo n e) ne (inr not) = rw (e, not, n) refl
  Finds-refused (missing j f e) ne d = rw (e, j, f) refl

  -- A write to a name other than id, by a process that may not write foo or to a name other than
  -- foo, changes nothing: it fails with -EACCES at jiffies and foo, and with -ENOENT at any other.
  pub write_file-refused :
      name ≢ text "id"
      → (name ≢ text "foo") ⊎ (access.writable (mode 6 4 4) ≡ false)
      → write_file access name bytes s
        ≡ returns s (
            if same_text name (text "jiffies") || same_text name (text "foo")
            then eacces
            else enoent)
  write_file-refused = Finds-refused (find_attribute-Finds name)

shown_line :
    (s : Sysfs) (t : Text)
    → shown (print_line s t) s
      ≡ (s, if leb (length t + 2) page_size then contents (t ++ 10 ∷ []) else overrun)
shown_line s t = elim (Bool-cases (leb (length t + 2) page_size)) [
  | inl fits ↦ rw fits refl
  | inr over ↦ rw over refl
]

-- A process that may write foo writes a text of at most a page, with no 0 in it, while the lock is
-- free and the buffer is a page: all of it is taken and the lock is given back. What is shown then
-- is the text, and behind it, up to its 0, what the page held there before, since no 0 is stored.
-- Any process to which the kernel grants access as documented reads this, and the line's end, if
-- both and a 0 fit into a page; otherwise, as for a page that has no 0 left, the show function runs
-- over the page of the reader.
pub read_file-foo_store :
    (access reader : Access) (k : Kernel) (buf : Text) (s : Sysfs)
    → IsAccess reader
    → access.writable (mode 6 4 4) ≡ true
    → s.lock ≡ free
    → length s.my_page_buffer ≡ page_size
    → NoZero buf
    → length buf ≤ page_size
    → (s' : Sysfs) × (write_file access (text "foo") buf s ≡ returns s' (pos (length buf)))
      × (s'.lock ≡ free)
      × (read_file reader (text "foo") k s' ≡ (
          let t = buf ++ c_string (drop (length buf) s.my_page_buffer) in
          (s', if leb (length t + 2) page_size then contents (t ++ 10 ∷ []) else overrun)))
unfolding write_file read_file find_attribute same_text
read_file-foo_store access reader k buf s lawful may unlocked size nz fits =
    let (s', stored, lock, prints) = foo_show-foo_store buf s unlocked size nz fits in
    (s', rw may stored, lock, rw (lawful.read_all 6 4 4 refl, prints) (shown_line s' _))

-- ===== src/SysfsCore.antt =====
-- The attributes of a kobject as files: `struct kobj_attribute` and `struct attribute_group`, which
-- kobjects.c and sysfs_example.c fill, and what the kernel's sysfs asks of a process.
use kernel_modules_playgroun.Prelude.{
  ℕ, ◌/◌, ◌%◌, ◌≡◌, Bool, true, false, ◌==◌, ◌&&◌, ◌||◌, if◌then◌else◌, and-true, or-false, Option,
  none, some, List, [], ◌∷◌, ℤ, negsuc,
}
use kernel_modules_playgroun.Prelude.Bytes.{Text, same_text}

abbrev pub enoent : ℤ
enoent = negsuc 1

abbrev pub eio : ℤ
eio = negsuc 4

abbrev pub eacces : ℤ
eacces = negsuc 12

-- A mode by its octal digits.
pub record Mode : Type 0 where
  pub owner : ℕ
  pub group : ℕ
  pub others : ℕ

abbrev pub mode : ℕ → ℕ → ℕ → Mode
mode owner group others = record { owner = owner; group = group; others = others }

-- `__ATTR(name, mode, show, store)`; `none` is NULL.
pub record KobjAttribute (Show Store : Type 0) : Type 0 where
  pub name : Text
  pub mode : Mode
  pub show : Option Show
  pub store : Option Store

-- The file of a name in a directory.
unfoldable pub find_attribute :
    {Show Store : Type 0}
    → Text
    → List (KobjAttribute Show Store)
    → Option (KobjAttribute Show Store)
find_attribute name [] = none
find_attribute name (a ∷ attrs) =
    if same_text name a.name then some a else find_attribute name attrs

-- What the kernel lets a process do with a file, by the file's mode.
pub record Access : Type 0 where
  pub readable : Mode → Bool
  pub writable : Mode → Bool

abbrev pub read_bit : ℕ → Bool
read_bit digit = digit / 4 % 2 == 1

abbrev pub write_bit : ℕ → Bool
write_bit digit = digit / 2 % 2 == 1

-- Whoever the process is, it can read and write what all can, and write nothing that none can.
pub record IsAccess (a : Access) : Type 0 where
  pub read_all :
      (u g o : ℕ) → read_bit u && (read_bit g && read_bit o) ≡ true → a.readable (mode u g o) ≡ true
  pub write_all :
      (u g o : ℕ)
      → write_bit u && (write_bit g && write_bit o) ≡ true
      → a.writable (mode u g o) ≡ true
  pub write_none :
      (u g o : ℕ)
      → write_bit u || (write_bit g || write_bit o) ≡ false
      → a.writable (mode u g o) ≡ false

-- The owner of the files, and a process that is neither their owner nor in their group.
abbrev pub owner : Access
owner = record { readable = λ m. read_bit m.owner; writable = λ m. write_bit m.owner }

abbrev pub stranger : Access
stranger = record { readable = λ m. read_bit m.others; writable = λ m. write_bit m.others }

pub owner-IsAccess : IsAccess owner
owner-IsAccess = record {
  read_all = λ u g o e. (and-true (read_bit u) _ e).0;
  write_all = λ u g o e. (and-true (write_bit u) _ e).0;
  write_none = λ u g o e. (or-false (write_bit u) _ e).0;
}

pub stranger-IsAccess : IsAccess stranger
stranger-IsAccess = record {
  read_all = λ u g o e. (and-true (read_bit g) _ (and-true (read_bit u) _ e).1).1;
  write_all = λ u g o e. (and-true (write_bit g) _ (and-true (write_bit u) _ e).1).1;
  write_none = λ u g o e. (or-false (write_bit g) _ (or-false (write_bit u) _ e).1).1;
}

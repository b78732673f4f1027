-- ===== src/Lifecycle/Resources.antt =====
-- The kernel's objects that the modules register or allocate, and the kernel's calls on them as
-- far as the init and exit functions rely on them.
use kernel_modules_playgroun.Prelude.{
  or-false, ℕ, Bool, true, false, ◌==◌, ◌||◌, if◌then◌else◌, Option, none, some, List, [], ◌∷◌,
  ◌++◌, ℤ, pos, negsuc, ◌≡◌, refl,
}

pub data Resource : Type 0 where
  io_mapping chrdev_region device_class device_node char_device : Resource
  proc_dir proc_file kobject page_buffer char_major byte_buffer socket misc_device : Resource
  debug_dir debug_file debug_number message page page_mapping : Resource
  irq_line usb_driver : Resource

abbrev pub number : Resource → ℕ
number io_mapping = 0
number chrdev_region = 1
number device_class = 2
number device_node = 3
number char_device = 4
number proc_dir = 5
number proc_file = 6
number kobject = 7
number page_buffer = 8
number char_major = 9
number byte_buffer = 10
number socket = 11
number misc_device = 12
number debug_dir = 13
number debug_file = 14
number debug_number = 15
number message = 16
number page = 17
number page_mapping = 18
number irq_line = 19
number usb_driver = 20

-- The resources that are held, the latest first.
abbrev pub Held : Type 0
Held = List Resource

-- `none` is a crash in the kernel.
abbrev pub Load : Type 0 → Type 0
Load A = Held → Option (A × Held)

abbrev pub pure : {A : Type 0} → A → Load A
pure a h = some (a, h)

module _ {A B : Type 0} where
  abbrev pub and_then : Option (A × Held) → (A → Load B) → Option (B × Held)
  and_then none k = none
  and_then (some r) k = k r.0 r.1

  infixl 5 ◌>>=◌ ◌>>◌
  abbrev pub ◌>>=◌ : Load A → (A → Load B) → Load B
  m >>= k = λ h. and_then (m h) k

  abbrev pub ◌>>◌ : Load A → Load B → Load B
  m >> n = m >>= λ _. n

abbrev pub holds : Resource → Held → Bool
holds r [] = false
holds r (x ∷ h) = (number r == number x) || holds r h

abbrev pub without : Resource → Held → Held
without r [] = []
without r (x ∷ h) = if number r == number x then h else x ∷ without r h

pub without_absent : (r : Resource) (h : Held) → holds r h ≡ false → without r h ≡ h
without_absent r [] e = refl
without_absent r (x ∷ h) e =
    let both = or-false (number r == number x) (holds r h) e in
    simp (both.0, without_absent r h both.1)

-- The answers of the kernel: 0 or a negative error number, and a pointer that may be NULL or, where
-- the call answers so, an error pointer.
pub data Code : Type 0 where
  ok : Code
  errno : ℕ → Code

abbrev pub return_code : Code → ℤ
return_code ok = pos 0
return_code (errno n) = negsuc n

pub data Pointer : Type 0 where
  valid null error_pointer : Pointer

abbrev pub is_null : Pointer → Bool
is_null null = true
is_null _ = false

-- A call that registers or allocates `r` if it succeeds.
abbrev pub acquire : Resource → Code → Load Code
acquire r ok h = some (ok, r ∷ h)
acquire r (errno n) h = some (errno n, h)

abbrev pub acquire_pointer : Resource → Pointer → Load Pointer
acquire_pointer r valid h = some (valid, r ∷ h)
acquire_pointer r p h = some (p, h)

-- A call that crashes unless `r` is held, as `iounmap`, `kfree` and `kobject_put`.
abbrev pub release : Resource → Load (Unit {0})
release r h = if holds r h then some (tt, without r h) else none

-- A call that does nothing if `r` is not held, as `class_destroy` and `cdev_del`.
abbrev pub release_if : Resource → Load (Unit {0})
release_if r h = some (tt, without r h)

-- `device_create` answers an error pointer, and `device_destroy` crashes, if the class is an error
-- pointer.
abbrev pub device_create : Pointer → Pointer → Load Pointer
device_create valid answer = acquire_pointer device_node answer
device_create _ answer = pure error_pointer

abbrev pub device_destroy : Pointer → Load (Unit {0})
device_destroy valid = release_if device_node
device_destroy _ = λ h. none

-- `debugfs_create_file` and its like answer an error pointer under an error pointer, and
-- `debugfs_remove_recursive` does nothing on one.
abbrev pub debugfs_create : Resource → Pointer → Pointer → Load Pointer
debugfs_create r valid answer = acquire_pointer r answer
debugfs_create r _ answer = pure error_pointer

abbrev pub debugfs_remove_recursive : Pointer → Load (Unit {0})
debugfs_remove_recursive valid = do
  release_if debug_number
  release_if debug_file
  release debug_dir
debugfs_remove_recursive _ = pure tt

-- The contract of a module over what is held before: once it is loaded, its exit gives back just
-- what it took; if it refuses to load, `leaked` is what it leaves behind. It does not crash.
abbrev pub Balanced : Held → Load (Unit {0}) → Held → Option (ℤ × Held) → Type 0
Balanced leaked exit held none = ⊥
Balanced leaked exit held (some (pos n, h)) = exit h ≡ some (tt, held)
Balanced leaked exit held (some (negsuc n, h)) = h ≡ leaked ++ held

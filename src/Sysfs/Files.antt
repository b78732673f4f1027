-- ===== src/Sysfs/Files.antt =====
-- The directory /sys/kernel/my_sysfs of sysfs_example.c: its files with their modes and callbacks.
use kernel_modules_playgroun.Prelude.{
  ℕ, if◌then◌else◌, Option, none, some, List, [], ◌∷◌, length, ℤ,
}
use kernel_modules_playgroun.Prelude.Bytes.{Text, text, c_string}
use kernel_modules_playgroun.SysfsCore.{
  enoent, eio, eacces, mode, KobjAttribute, find_attribute, Access,
}
use kernel_modules_playgroun.Sysfs.Driver.{
  Sysfs, Call, returns, Show, shows, show_overruns, show_waits, id_show, id_store, jiffies_show,
  foo_show, foo_store,
}

-- What the show functions read beside the module's variables: the memory behind `my_eud_id` up to
-- the next 0, and `jiffies`.
pub record Kernel : Type 0 where
  pub behind : Text
  pub jiffies : ℕ

abbrev pub ShowFile : Type 0
ShowFile = Kernel → Sysfs → Show

-- A store function gets what is written, which the kernel ends by a 0, and its length.
abbrev pub Store : Type 0
Store = List ℕ → ℕ → Sysfs → Call

abbrev pub id_attribute : KobjAttribute ShowFile Store
id_attribute = record {
  name = text "id";
  mode = mode 6 6 6;
  show = some (λ k. id_show k.behind);
  store = some (λ buf count. id_store (c_string buf) count);
}

abbrev pub jiffies_attribute : KobjAttribute ShowFile Store
jiffies_attribute = record {
  name = text "jiffies";
  mode = mode 4 4 4;
  show = some (λ k s. shows s (jiffies_show k.jiffies));
  store = none;
}

abbrev pub foo_attribute : KobjAttribute ShowFile Store
foo_attribute = record {
  name = text "foo";
  mode = mode 6 4 4;
  show = some (λ k. foo_show);
  store = some foo_store;
}

abbrev pub attrs : List (KobjAttribute ShowFile Store)
attrs = id_attribute ∷ jiffies_attribute ∷ foo_attribute ∷ []

-- What a process that opens a file and reads it to the end gets; `blocked` is a wait for the lock,
-- and `overrun` a text that has run over the page.
pub data Contents : Type 0 where
  contents : Text → Contents
  refused : ℤ → Contents
  blocked overrun : Contents

abbrev pub shown : Show → Sysfs → Sysfs × Contents
shown (shows s t) before = (s, contents t)
shown show_overruns before = (before, overrun)
shown show_waits before = (before, blocked)

abbrev pub call_show : Option ShowFile → Kernel → Sysfs → Sysfs × Contents
call_show none k s = (s, refused eio)
call_show (some show) k s = shown (show k s) s

abbrev pub call_store : Option Store → List ℕ → Sysfs → Call
call_store none bytes s = returns s eio
call_store (some store) bytes s = store bytes (length bytes) s

abbrev pub read_attribute :
    Access → Option (KobjAttribute ShowFile Store) → Kernel → Sysfs → Sysfs × Contents
read_attribute access none k s = (s, refused enoent)
read_attribute access (some a) k s =
    if access.readable a.mode then call_show a.show k s else (s, refused eacces)

abbrev pub write_attribute : Access → Option (KobjAttribute ShowFile Store) → List ℕ → Sysfs → Call
write_attribute access none bytes s = returns s enoent
write_attribute access (some a) bytes s =
    if access.writable a.mode then call_store a.store bytes s else returns s eacces

-- Reading and writing the file `name` of the directory; a write is of one piece.
unfoldable pub read_file : Access → Text → Kernel → Sysfs → Sysfs × Contents
unfolding find_attribute
read_file access name k s = read_attribute access (find_attribute name attrs) k s

unfoldable pub write_file : Access → Text → List ℕ → Sysfs → Call
unfolding find_attribute
write_file access name bytes s = write_attribute access (find_attribute name attrs) bytes s

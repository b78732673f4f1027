-- ===== src/Kobjects/Files.antt =====
-- The directory /sys/kernel/kobject_example of kobjects.c: its files with their modes and callbacks.
use kernel_modules_playgroun.Prelude.{
  ℕ, if◌then◌else◌, Option, none, some, List, [], ◌∷◌, length, ℤ,
}
use kernel_modules_playgroun.Prelude.Bytes.{Text, text, c_string}
use kernel_modules_playgroun.SysfsCore.{
  enoent, eio, eacces, mode, KobjAttribute, find_attribute, Access,
}
use kernel_modules_playgroun.Kobjects.Driver.{Kobjects, foo_show, foo_store, b_show, b_store}

-- The callbacks are called with the attribute, of which they use the name. The last number of
-- `Store` is what `var` of `b_store` holds when it is declared.
abbrev pub Show : Type 0
Show = Text → Kobjects → Text

abbrev pub Store : Type 0
Store = Text → Text → ℕ → ℕ → Kobjects → Option (Kobjects × ℤ)

abbrev pub foo_attribute : KobjAttribute Show Store
foo_attribute = record {
  name = text "foo";
  mode = mode 6 6 6;
  show = some (λ attr. foo_show);
  store = some (λ attr buf count uninitialised. foo_store buf count);
}

abbrev pub baz_attribute : KobjAttribute Show Store
baz_attribute = record {
  name = text "baz";
  mode = mode 6 6 4;
  show = some b_show;
  store = some (λ attr buf count uninitialised s. some (b_store attr buf count uninitialised s));
}

abbrev pub bar_attribute : KobjAttribute Show Store
bar_attribute = record {
  name = text "bar";
  mode = mode 6 6 4;
  show = some b_show;
  store = some (λ attr buf count uninitialised s. some (b_store attr buf count uninitialised s));
}

abbrev pub attrs : List (KobjAttribute Show Store)
attrs = foo_attribute ∷ baz_attribute ∷ bar_attribute ∷ []

-- What a process that opens a file and reads it to the end gets: the text, or an error.
pub data Contents : Type 0 where
  contents : Text → Contents
  refused : ℤ → Contents

abbrev pub call_show : Option Show → Text → Kobjects → Contents
call_show none name s = refused eio
call_show (some show) name s = contents (show name s)

abbrev pub call_store : Option Store → Text → List ℕ → ℕ → Kobjects → Option (Kobjects × ℤ)
call_store none name bytes uninitialised s = some (s, eio)
call_store (some store) name bytes uninitialised s =
    store name (c_string bytes) (length bytes) uninitialised s

abbrev pub read_attribute : Access → Option (KobjAttribute Show Store) → Kobjects → Contents
read_attribute access none s = refused enoent
read_attribute access (some a) s =
    if access.readable a.mode then call_show a.show a.name s else refused eacces

abbrev pub write_attribute :
    Access → Option (KobjAttribute Show Store) → List ℕ → ℕ → Kobjects → Option (Kobjects × ℤ)
write_attribute access none bytes uninitialised s = some (s, enoent)
write_attribute access (some a) bytes uninitialised s =
    if access.writable a.mode
    then call_store a.store a.name bytes uninitialised s
    else some (s, eacces)

-- Reading and writing the file `name` of the directory; a write is of one piece.
unfoldable pub read_file : Access → Text → Kobjects → Contents
unfolding find_attribute
read_file access name s = read_attribute access (find_attribute name attrs) s

unfoldable pub write_file : Access → Text → List ℕ → ℕ → Kobjects → Option (Kobjects × ℤ)
unfolding find_attribute
write_file access name bytes uninitialised s =
    write_attribute access (find_attribute name attrs) bytes uninitialised s

-- ===== src/Kobjects/Directory.antt =====
-- What processes read from and write to the files of /sys/kernel/kobject_example.
use kernel_modules_playgroun.Prelude.{
  ℕ, suc, ◌<◌, ◌≡◌, ◌≢◌, ◌⊎◌, inl, inr, refl, ap, true, false, if◌then◌else◌, eq-if, Bool-cases,
  none, some, [], ◌∷◌, ◌++◌, length, arith, ℤ, pos, negsuc, signed32,
}
use kernel_modules_playgroun.Prelude.Bytes.{Text, text, same_text, same_text_iff, c_string}
use kernel_modules_playgroun.Simacc.Driver.{decimal}
use kernel_modules_playgroun.Simacc.Decimal.{Digits, decimal-Digits}
use kernel_modules_playgroun.SysfsCore.{find_attribute, Access, IsAccess, mode}
use kernel_modules_playgroun.Kobjects.Driver.{Kobjects, print_int, foo_show, b_show, b_store}
use kernel_modules_playgroun.Kobjects.Scanning.{scan_int-print_int}
use kernel_modules_playgroun.Kobjects.Files.{
  foo_attribute, baz_attribute, bar_attribute, attrs, contents, read_file, write_file,
}

c_string-Digits : (ds : Text) → Digits ds → c_string (ds ++ 10 ∷ []) ≡ ds ++ 10 ∷ []
c_string-Digits [] d = refl
c_string-Digits (c ∷ ds) d = ground (arith, d.0, c_string-Digits ds d.2)

c_string-print_int : (z : ℤ) → c_string (print_int z ++ 10 ∷ []) ≡ print_int z ++ 10 ∷ []
c_string-print_int (pos n) = c_string-Digits (decimal n) (decimal-Digits n)
c_string-print_int (negsuc n) =
    ap (λ ds. 45 ∷ ds) (c_string-Digits (decimal (suc n)) (decimal-Digits (suc n)))

-- A name is one of the three of the directory, or there is no file of this name.
pub data Finds (name : Text) : Type 0 where
  foo : name ≡ text "foo" → find_attribute name attrs ≡ some foo_attribute → Finds name
  baz : name ≡ text "baz" → find_attribute name attrs ≡ some baz_attribute → Finds name
  bar : name ≡ text "bar" → find_attribute name attrs ≡ some bar_attribute → Finds name
  missing : find_attribute name attrs ≡ none → Finds name

pub find_attribute-Finds : (name : Text) → Finds name
unfolding find_attribute
find_attribute-Finds name = elim (Bool-cases (same_text name (text "foo"))) [
  | inl f ↦ foo ((same_text_iff _ _).0 f) (simp f)
  | inr f ↦ elim (Bool-cases (same_text name (text "baz"))) [
    | inl z ↦ baz ((same_text_iff _ _).0 z) (simp (f, z))
    | inr z ↦ elim (Bool-cases (same_text name (text "bar"))) [
      | inl r ↦ bar ((same_text_iff _ _).0 r) (simp (f, z, r))
      | inr r ↦ missing (simp (f, z, r))
    ]
  ]
]

module _ (access : Access) (name : Text) (s t : Kobjects) where
  same_but-baz :
      Finds name
      → name ≢ text "baz"
      → s.foo ≡ t.foo
      → s.bar ≡ t.bar
      → read_file access name s ≡ read_file access name t
  unfolding read_file foo_show b_show same_text
  same_but-baz (foo _ e) ne f b = rw (e, f) refl
  same_but-baz (baz n e) ne f b = absurd (ne n)
  same_but-baz (bar _ e) ne f b = rw (e, b) refl
  same_but-baz (missing e) ne f b = rw e refl

  same_but-bar :
      Finds name
      → name ≢ text "bar"
      → s.foo ≡ t.foo
      → s.baz ≡ t.baz
      → read_file access name s ≡ read_file access name t
  unfolding read_file foo_show b_show same_text
  same_but-bar (foo _ e) ne f b = rw (e, f) refl
  same_but-bar (baz _ e) ne f b = rw (e, b) refl
  same_but-bar (bar n e) ne f b = absurd (ne n)
  same_but-bar (missing e) ne f b = rw e refl

different : (name other : Text) → same_text other name ≡ false → other ≢ name
different name other h = λ e. cc (h, (same_text_iff other name).1 e)

-- Where the kernel grants access to files as documented, a process that may write baz and bar
-- writes a 32-bit integer to one of them as `%d` prints it, with the line's end: all of it is
-- taken, any process then reads the same text from the file, and from any other name what it read
-- there before.
pub read_file-write_file :
    (access reader : Access) (name : Text) (n uninitialised : ℕ) (s : Kobjects)
    → IsAccess reader
    → access.writable (mode 6 6 4) ≡ true
    → (name ≡ text "baz") ⊎ (name ≡ text "bar")
    → n < 4294967296
    → let line : Text = print_int (signed32 n) ++ 10 ∷ [] in
      (s' : Kobjects) × (write_file access name line uninitialised s ≡ some (s', pos (length line)))
      × ((other : Text)
          → read_file reader other s'
            ≡ (if same_text other name then contents line else read_file reader other s))
unfolding write_file read_file b_store b_show same_text find_attribute
read_file-write_file access reader name n uninitialised s lawful may (inl e) small = (
  record s { baz = n },
  rw (e, may, c_string-print_int (signed32 n), scan_int-print_int n small) refl,
  λ other. rw e (
      eq-if (same_text other (text "baz"))
        (λ same. rw ((same_text_iff other (text "baz")).0 same, lawful.read_all 6 6 4 refl) refl)
        (λ ne.
          same_but-baz reader other (record s { baz = n }) s (find_attribute-Finds other)
            (different _ other ne) refl refl)),
)
read_file-write_file access reader name n uninitialised s lawful may (inr e) small = (
  record s { bar = n },
  rw (e, may, c_string-print_int (signed32 n), scan_int-print_int n small) refl,
  λ other. rw e (
      eq-if (same_text other (text "bar"))
        (λ same. rw ((same_text_iff other (text "bar")).0 same, lawful.read_all 6 6 4 refl) refl)
        (λ ne.
          same_but-bar reader other (record s { bar = n }) s (find_attribute-Finds other)
            (different _ other ne) refl refl)),
)
